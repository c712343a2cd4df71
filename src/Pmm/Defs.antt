-- ===== src/Pmm/Defs.antt =====
-- The state and the functions of kernel/src/core/pmm.c.
use walu_os.Prelude.{
  ℕ, zero, suc, ◌+◌, ◌-◌, ◌*◌, ◌/◌, ◌%◌, ◌^◌, Bool, true, not, ◌||◌, ◌==◌, if◌then◌else◌, ltb, leb,
  set, u8, u64, inc64, bit_and, bit_or,
}

abbrev pub frame_size : ℕ
frame_size = 4096

-- `PMM_MAX_MEMORY` and `PMM_MAX_FRAMES`
abbrev pub max_memory : ℕ
max_memory = 1073741824

abbrev pub max_frames : ℕ
max_frames = 262144

pub record Pmm : Type 0 where
  pub frame_bitmap : ℕ → ℕ
  pub total_frames : ℕ  -- uint64_t, as the one below
  pub used_frames : ℕ

abbrev pub mask : ℕ → ℕ
mask frame = 2 ^ (frame % 8)

abbrev pub cell : Pmm → ℕ → ℕ
cell p frame = p.frame_bitmap (frame / 8)

unfoldable pub bitmap_set : Pmm → ℕ → Pmm
bitmap_set p frame =
    if leb p.total_frames frame
    then p
    else (if bit_and (cell p frame) (mask frame) == 0
        then (record p {
          frame_bitmap = set p.frame_bitmap (frame / 8) (u8 (bit_or (cell p frame) (mask frame)));
          used_frames = inc64 p.used_frames;
        })
        else p)

-- `~mask` of a byte is `255 - mask`.
unfoldable pub bitmap_clear : Pmm → ℕ → Pmm
bitmap_clear p frame =
    if leb p.total_frames frame
    then p
    else (if not (bit_and (cell p frame) (mask frame) == 0)
        then (record p {
          frame_bitmap = set p.frame_bitmap (frame / 8) (bit_and (cell p frame) (255 - mask frame));
          used_frames = if ltb 0 p.used_frames then p.used_frames - 1 else p.used_frames;
        })
        else p)

unfoldable pub bitmap_test : Pmm → ℕ → Bool
bitmap_test p frame =
    if leb p.total_frames frame then true else not (bit_and (cell p frame) (mask frame) == 0)

-- The loop of `mark_region` at frame `f`, with the number of rounds left first.
unfoldable pub mark_from : ℕ → ℕ → Pmm → Bool → Pmm
mark_from zero f p available = p
mark_from (suc n) f p available =
    mark_from n (f + 1) (if available then bitmap_clear p f else bitmap_set p f) available

-- The end of the region, cut at the end of the memory that the bitmap covers.
abbrev pub region_end : ℕ → ℕ → ℕ
region_end addr len = if ltb max_memory (u64 (addr + len)) then max_memory else u64 (addr + len)

abbrev pub first_frame : ℕ → ℕ
first_frame addr = addr / frame_size

abbrev pub last_frame : ℕ → ℕ → ℕ
last_frame addr len = (region_end addr len + frame_size - 1) / frame_size

unfoldable pub mark_region : Pmm → ℕ → ℕ → Bool → Pmm
mark_region p addr len available =
    if len == 0 || leb max_memory addr
    then p
    else mark_from (last_frame addr len - first_frame addr) (first_frame addr) p available

-- The loops of the two allocators at `frame`, with the number of rounds left first.
unfoldable pub alloc_from : ℕ → ℕ → Pmm → Pmm × ℕ
alloc_from zero frame p = (p, 0)
alloc_from (suc n) frame p =
    let rest = alloc_from n (frame + 1) p in
    if not (bitmap_test p frame) then (bitmap_set p frame, u64 (frame * frame_size)) else rest

unfoldable pub alloc_frame : Pmm → Pmm × ℕ
alloc_frame p = alloc_from p.total_frames 0 p

unfoldable pub alloc_frame_low : Pmm → ℕ → Pmm × ℕ
alloc_frame_low p max_phys_addr =
    let max_frame = max_phys_addr / frame_size in
    alloc_from (if ltb p.total_frames max_frame then p.total_frames else max_frame) 0 p

unfoldable pub free_frame : Pmm → ℕ → Pmm
free_frame p phys_addr = bitmap_clear p (phys_addr / frame_size)

unfoldable pub total_kib : Pmm → ℕ
total_kib p = u64 (p.total_frames * frame_size) / 1024

unfoldable pub used_kib : Pmm → ℕ
used_kib p = u64 (p.used_frames * frame_size) / 1024

unfoldable pub free_kib : Pmm → ℕ
free_kib p =
    if ltb p.total_frames p.used_frames
    then 0
    else u64 ((p.total_frames - p.used_frames) * frame_size) / 1024
