-- ===== src/Pmm/Boot.antt =====
-- `pmm_init` of kernel/src/core/pmm.c, which reads the memory map that the loader leaves.
pub mod Tags
pub mod Layout
pub mod Freed
pub mod Init
