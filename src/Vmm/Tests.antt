-- ===== src/Vmm/Tests.antt =====
-- The first call of `vmm_init` of kernel/src/core/vmm.c.
use walu_os.Vmm.Defs.{flag_writable, map_2m}
use walu_os.Vmm.Map.{Maps, map_2m-Maps}
use walu_os.Vmm.BootTables.{pml4_table, booted, booted-Tables}

map_2m-Maps_example :
    Maps pml4_table booted 0x40000000 0x40000000 flag_writable
      (map_2m pml4_table booted 0x40000000 0x40000000 flag_writable)
map_2m-Maps_example = map_2m-Maps booted-Tables 0x40000000 0x40000000 flag_writable
