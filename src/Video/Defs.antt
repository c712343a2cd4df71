-- ===== src/Video/Defs.antt =====
-- The state and the functions of kernel/src/core/video.c, over the bytes of the loader's information block.
use walu_os.Prelude.{
  ℕ, zero, suc, ◌+◌, ◌-◌, ◌*◌, ◌/◌, Bool, true, false, not, ◌&&◌, ◌||◌, ◌==◌, if◌then◌else◌, ltb,
  leb, Option, none, some, u64,
}
use walu_os.Pmm.Boot.Tags.{Memory, read32, read64, tag_type, tag_size, next_tag}
use walu_os.Vmm.{Vmm, flag_writable, map_2m}

abbrev pub huge_page_size : ℕ
huge_page_size = 2097152

abbrev pub map_max_bytes : ℕ
map_max_bytes = 268435456

-- `video_framebuffer_info_t`
pub record Framebuffer : Type 0 where
  pub present : Bool
  pub mapped : Bool
  pub phys_addr : ℕ
  pub size_bytes : ℕ
  pub width : ℕ
  pub height : ℕ
  pub pitch : ℕ
  pub bpp : ℕ
  pub fb_type : ℕ
  pub red_pos : ℕ
  pub red_size : ℕ
  pub green_pos : ℕ
  pub green_size : ℕ
  pub blue_pos : ℕ
  pub blue_size : ℕ

-- `memset` of the state
abbrev pub blank : Framebuffer
blank = record {
  present = false;
  mapped = false;
  phys_addr = 0;
  size_bytes = 0;
  width = 0;
  height = 0;
  pitch = 0;
  bpp = 0;
  fb_type = 0;
  red_pos = 0;
  red_size = 0;
  green_pos = 0;
  green_size = 0;
  blue_pos = 0;
  blue_size = 0;
}

-- `value & ~(HUGE_PAGE_SIZE - 1)`, and the same of the value rounded up
abbrev pub align_down_2m : ℕ → ℕ
align_down_2m value = value / huge_page_size * huge_page_size

abbrev pub align_up_2m : ℕ → ℕ
align_up_2m value = align_down_2m (u64 (value + huge_page_size - 1))

-- What every framebuffer tag has.
abbrev pub read_common : Memory → ℕ → Framebuffer → Framebuffer
read_common mem tag g = record g {
  present = true;
  mapped = false;
  phys_addr = read64 mem (tag + 8);
  pitch = read32 mem (tag + 16);
  width = read32 mem (tag + 20);
  height = read32 mem (tag + 24);
  bpp = mem (tag + 28);
  fb_type = mem (tag + 29);
  size_bytes = u64 (read32 mem (tag + 16) * read32 mem (tag + 24));
}

-- The positions and sizes of the colours.
abbrev pub read_colours : Memory → ℕ → Framebuffer → Framebuffer
read_colours mem tag g = record g {
  red_pos = mem (tag + 32);
  red_size = mem (tag + 33);
  green_pos = mem (tag + 34);
  green_size = mem (tag + 35);
  blue_pos = mem (tag + 36);
  blue_size = mem (tag + 37);
}

unfoldable pub read_tag : Memory → ℕ → Framebuffer → Framebuffer
read_tag mem tag g =
    let common = read_common mem tag g in
    if mem (tag + 29) == 1 && leb 38 (tag_size mem tag) then read_colours mem tag common else common

-- The loop over the tags; the number bounds its rounds, and `none` says that it was too small.
unfoldable pub probe_from : ℕ → Memory → ℕ → ℕ → Framebuffer → Option Framebuffer
probe_from zero mem tag limit g = none
probe_from (suc n) mem tag limit g =
    let past = probe_from n mem (next_tag mem tag) limit g in
    let past_read = probe_from n mem (next_tag mem tag) limit (read_tag mem tag g) in
    if not (ltb tag limit && not (tag_type mem tag == 0))
    then some g
    else if ltb (tag_size mem tag) 8
    then some g
    else if not (tag_type mem tag == 8)
    then past
    else if ltb (tag_size mem tag) 32
    then some g
    else past_read

unfoldable pub probe_multiboot : ℕ → Memory → ℕ → Option Framebuffer
probe_multiboot rounds mem mb =
    if mb == 0
    then some blank
    else if ltb (read32 mem mb) 16
    then some blank
    else probe_from rounds mem (mb + 8) (mb + read32 mem mb) blank

-- The flag that the last lines of `video_map_framebuffer` set, and the result.
abbrev pub finish : Framebuffer → Vmm × Bool → Vmm × Framebuffer × Bool
finish g (s, done) = (s, record g { mapped = done }, done)

-- `pml4_table` is the address of the linker's symbol.
module _ (pml4_table : ℕ) where
  -- The loop of `video_map_framebuffer` at `addr`, with the number of pages left first.
  unfoldable pub map_pages : ℕ → ℕ → Vmm → Vmm × Bool
  map_pages zero addr s = (s, true)
  map_pages (suc n) addr s =
      let (s', done) = map_2m pml4_table s addr addr flag_writable in
      let rest = map_pages n (u64 (addr + huge_page_size)) s' in if done then rest else (s', false)

  unfoldable pub map_framebuffer : Vmm → Framebuffer → Vmm × Framebuffer × Bool
  map_framebuffer s g =
      let map_start = align_down_2m g.phys_addr in
      let map_end = align_up_2m (u64 (g.phys_addr + g.size_bytes)) in
      if not g.present || g.size_bytes == 0
      then (s, g, false)
      else if ltb map_max_bytes g.size_bytes
      then (s, g, false)
      else if leb map_end map_start
      then (s, g, false)
      else finish g (map_pages ((map_end - map_start) / huge_page_size) map_start s)
