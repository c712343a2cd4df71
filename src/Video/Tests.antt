-- ===== src/Video/Tests.antt =====
-- A framebuffer tag, and the framebuffer mapped with the page tables of kernel/src/arch/x86_64/boot.S.
use walu_os.Prelude.{ℕ, ◌+◌, ◌*◌, ◌^◌, ◌<◌, ◌≡◌, true, ◌==◌, if◌then◌else◌, some, arith}
use walu_os.Pmm.Boot.Tags.{Memory, read32, tag_size}
use walu_os.Vmm.BootTables.{pml4_table, booted, booted-Tables}
use walu_os.Video.Defs.{Framebuffer, blank, probe_multiboot, map_framebuffer}
use walu_os.Video.Identity.{Framed, map_framebuffer-Framed}
use walu_os.Video.Probe.{Probed, probe_multiboot-Ends}

-- A block of 48 bytes at 256: a tag of 32 bytes for a text screen of 16 by 8, at 1 GiB.
abbrev memory : Memory
memory a =
    if a == 256
    then 48
    else if a == 264
    then 8
    else if a == 268
    then 32
    else if a == 275
    then 64
    else if a == 280
    then 64
    else if a == 284
    then 16
    else if a == 288
    then 8
    else if a == 292
    then 32
    else if a == 293
    then 2
    else 0

small_bytes : (a : ℕ) → memory a < 128
small_bytes a = ground arith

small_sizes :
    (k : ℕ) → 8 + 8 * k < read32 memory 256 → tag_size memory (256 + 8 + 8 * k) + 7 < 2 ^ 32
unfolding read32
small_sizes k lt =
    let a = 256 + 8 + 8 * k + 4 in
    omega (arith, small_bytes a, small_bytes (a + 1), small_bytes (a + 2), small_bytes (a + 3))

fits : read32 memory 256 < 8 * 7
unfolding read32
fits = omega arith

probe_multiboot-Ends_example :
    (g : Framebuffer) × (probe_multiboot 7 memory 256 ≡ some g) × Probed g
probe_multiboot-Ends_example = probe_multiboot-Ends memory 7 256 small_sizes fits

-- 3 MiB of lines at 1 GiB and 1 MiB
abbrev screen : Framebuffer
screen = record blank {
  present = true;
  phys_addr = 0x40100000;
  size_bytes = 0x300000;
  pitch = 0x1000;
  width = 0x400;
  height = 0x300;
  bpp = 32;
  fb_type = 1;
}

map_framebuffer-Framed_example :
    Framed pml4_table booted screen (map_framebuffer pml4_table booted screen)
map_framebuffer-Framed_example = map_framebuffer-Framed booted-Tables screen (omega arith)
