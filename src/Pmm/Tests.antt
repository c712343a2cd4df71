-- ===== src/Pmm/Tests.antt =====
-- Runs of kernel/src/core/pmm.c on small inputs, and its theorems at them.
use walu_os.Prelude.{
  ℕ, zero, suc, ◌+◌, ◌*◌, ◌/◌, ◌%◌, ◌≡◌, ◌<◌, ◌≤◌, ◌⊎◌, refl, true, false, none, some, List, [],
  ◌∷◌, ◌++◌, min, arith,
}
use walu_os.Pmm.Defs.{Pmm, frame_size, mark_region, alloc_frame, alloc_frame_low, free_frame}
use walu_os.Pmm.Bitmap.{used, Inv}
use walu_os.Pmm.Frames.{Search, alloc_frame-Search, free_frame-alloc_frame}
use walu_os.Pmm.Region.{mark_region-touched}
use walu_os.Pmm.Boot.Tags.{Memory, read32, read64, tags, highest, all_used, init}
use walu_os.Pmm.Boot.Layout.{Tag, memory_map, regions, TagsAt, tags_stuck}
use walu_os.Pmm.Boot.Freed.{mark_region-Remarks}
use walu_os.Pmm.Boot.Init.{all_used-Inv, Booted, init-Booted}

-- 16 MiB, all in use but the frame at 1 MiB and a part of the next.
abbrev start_pmm : Pmm
start_pmm = all_used 4096

start-Inv : Inv start_pmm
start-Inv = all_used-Inv 4096 (omega arith)

abbrev small_pmm : Pmm
small_pmm = mark_region start_pmm 1048576 5000 true

mark_region-touched_example :
    Inv small_pmm
    × ((g : ℕ)
        → g < start_pmm.total_frames
        → (1048576 < (g + 1) * frame_size) × (g * frame_size < 1048576 + 5000)
        → used small_pmm g ≡ false)
    × ((g : ℕ)
        → ((g + 1) * frame_size ≤ 1048576) ⊎ (1048576 + 5000 ≤ g * frame_size)
        → used small_pmm g ≡ used start_pmm g)
mark_region-touched_example =
    mark_region-touched 1048576 5000 true start-Inv (λ e. absurd (omega arith)) (omega arith)
      (omega arith)

free_at_one : used small_pmm 256 ≡ false
free_at_one = mark_region-touched_example.1 256 (omega arith) (omega arith, omega arith)

total_small : small_pmm.total_frames ≡ 4096
total_small = (mark_region-Remarks 1048576 5000 true start-Inv).total

alloc_frame-Search_example :
    Search small_pmm.total_frames small_pmm (alloc_frame small_pmm)
    × Search
        (min small_pmm.total_frames (2097152 / frame_size))
        small_pmm
        (alloc_frame_low small_pmm 2097152)
alloc_frame-Search_example = alloc_frame-Search 2097152 mark_region-touched_example.0

free_frame-alloc_frame_example :
    let (q, address) = alloc_frame small_pmm in
    let out = free_frame q address in
    ((g : ℕ) → used out g ≡ used small_pmm g)
    × (out.used_frames ≡ small_pmm.used_frames)
    × (out.total_frames ≡ small_pmm.total_frames)
    × Inv out
free_frame-alloc_frame_example =
    free_frame-alloc_frame 256 mark_region-touched_example.0 (omega (arith, total_small))
      free_at_one

-- An information block at address 0: 56 bytes with one memory map of one available region, and an end.
abbrev le32 : ℕ → List ℕ
le32 n = n % 256 ∷ n / 256 % 256 ∷ n / 65536 % 256 ∷ n / 16777216 % 256 ∷ []

abbrev at : List ℕ → ℕ → ℕ
at [] i = 0
at (b ∷ bs) zero = b
at (b ∷ bs) (suc i) = at bs i

abbrev block : Memory
block = at (
    le32 56
    ++ le32 0
    ++ le32 6
    ++ le32 40
    ++ le32 24
    ++ le32 0
    ++ le32 1048576
    ++ le32 0
    ++ le32 133169152
    ++ le32 0
    ++ le32 1
    ++ le32 0
    ++ le32 0
    ++ le32 8)

abbrev one_map : List Tag
one_map = memory_map 24 (record { addr = 1048576; len = 133169152; kind = 1 } ∷ []) ∷ []

block_layout : TagsAt block 4 8 (0 + read32 block 0) one_map
unfolding read32 read64
block_layout = (refl, (refl, refl, omega arith, (omega arith, refl, refl, refl, omega arith)), refl)

init-Booted_example :
    (p : Pmm) × (init 4 block 0 1048576 1200000 ≡ some p)
    × Booted 1048576 1200000 (regions one_map) p
init-Booted_example =
    init-Booted block 0 4 one_map block_layout (omega arith) (omega arith) (omega arith)
      (omega arith)

-- A block whose first tag has type 5 and size 0.
abbrev bad_block : Memory
bad_block = at (le32 56 ++ le32 0 ++ le32 5 ++ le32 0)

bad_tag : (read32 bad_block 8 ≡ 5) × (read32 bad_block 12 ≡ 0)
unfolding read32
bad_tag = (refl, refl)

tags_stuck_example : tags bad_block highest 4 100 8 56 16777216 ≡ none
tags_stuck_example =
    tags_stuck bad_block highest 4 100 8 56 16777216 (rw bad_tag.0) (rw bad_tag.0) bad_tag.1
