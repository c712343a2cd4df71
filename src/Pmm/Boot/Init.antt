-- ===== src/Pmm/Boot/Init.antt =====
-- What `pmm_init` of kernel/src/core/pmm.c leaves: which frames are free, and which are not.
use walu_os.Prelude.{
  ℕ, zero, suc, ◌+◌, ◌-◌, ◌*◌, ◌/◌, ◌%◌, ◌^◌, ◌≡◌, ◌<◌, ◌≤◌, refl, sym, inl, inr, Bool, true, false,
  ◌==◌, ltb, some, List, [], ◌∷◌, length, u64, arith, Bool-cases,
}
use walu_os.Pmm.Defs.{Pmm, frame_size, max_memory, max_frames, mark_region}
use walu_os.Pmm.Cells.{full-bit}
use walu_os.Pmm.Bitmap.{used, count, Inv}
use walu_os.Pmm.Region.{mark_region-touched}
use walu_os.Pmm.Boot.Tags.{Memory, read32, highest, total_of, all_used, release, reserve, init}
use walu_os.Pmm.Boot.Layout.{Region, Tag, TagsAt, regions, fold, tags-fold}
use walu_os.Pmm.Boot.Freed.{
  TouchedBy, mark_region-Remarks, keeps_used, still_free, Released, fold-Released,
}

fold-highest : (rs : List Region) (h : ℕ) → h ≤ fold highest h rs
fold-highest [] h = omega arith
fold-highest (r ∷ rs) h =
    let step : h ≤ highest h r.addr r.len = ground arith in
    omega (arith, fold-highest rs (highest h r.addr r.len))

total_of-in : (h : ℕ) → 16777216 ≤ h → (4096 ≤ total_of h) × (total_of h ≤ max_frames)
total_of-in h le = elim (Bool-cases (ltb max_memory h)) [
  | inl cut ↦ rw cut (omega arith, omega arith)
  | inr whole ↦
      let some_frames : (h / frame_size == 0) ≡ false = ground arith in
      rw (whole, some_frames) (omega arith, ground arith)
]

count_all : (n : ℕ) (u : ℕ → Bool) → ((g : ℕ) → u g ≡ true) → count n u ≡ n
count_all zero u h = refl
count_all (suc n) u h = rw (h n) (omega (arith, count_all n u h))

pub all_used-Inv : (total : ℕ) → total ≤ max_frames → Inv (all_used total)
all_used-Inv total h = record {
  cells_in = λ i. omega arith;
  total_in = h;
  counted = sym (count_all total (used (all_used total)) (λ g. full-bit (g % 8) (omega arith)));
}

-- What holds of the frames once the kernel runs.
pub record Booted (kstart kend : ℕ) (rs : List Region) (p : Pmm) : Type 0 where
  pub inv : Inv p
  pub some_frames : 4096 ≤ p.total_frames
  pub low_used : (g : ℕ) → g < 256 → used p g ≡ true
  pub kernel_used :
      (g : ℕ)
      → g < p.total_frames
      → kstart < (g + 1) * frame_size
      → g * frame_size < kend
      → used p g ≡ true
  pub free_usable : (g : ℕ) → g < p.total_frames → used p g ≡ false → TouchedBy g rs

reserve-Booted :
    {kstart kend total : ℕ} {rs : List Region} {p : Pmm}
    → kstart < kend
    → kstart < max_memory
    → kend < 2 ^ 64
    → (4096 ≤ total) × (total ≤ max_frames)
    → Released (all_used total) rs p
    → Booted kstart kend rs (reserve kstart kend p)
unfolding reserve
reserve-Booted {kstart} {kend} {total} {rs} {p} ordered low fits (large, small) r =
    let size : u64 (kend + 2 ^ 64 - kstart) ≡ kend - kstart = omega arith in
    let first = mark_region p 0 1048576 false in
    let m = mark_region-Remarks 0 1048576 false r.inv in
    let t =
      mark_region-touched 0 1048576 false r.inv (λ e. absurd (omega arith)) (omega arith)
        (omega arith) in
    let k = mark_region-Remarks kstart (kend - kstart) false m.inv in
    let kt =
      mark_region-touched kstart (kend - kstart) false m.inv (λ e. absurd (omega arith)) low
        (omega arith) in
    rw size (record {
      inv = k.inv;
      some_frames = omega (arith, k.total, m.total, r.total);
      low_used = λ g h.
          keeps_used kstart (kend - kstart) g m.inv (omega (arith, m.total, r.total))
            (t.1 g (omega (arith, r.total)) (omega arith, omega arith));
      kernel_used = λ g lt a b. kt.1 g (omega (arith, k.total)) (a, omega arith);
      free_usable = λ g lt free.
          let below : g < total = omega (arith, k.total, m.total, r.total) in
          let before : used first g ≡ false =
            still_free kstart (kend - kstart) g m.inv (omega (arith, m.total, r.total)) free in
          let released : used p g ≡ false =
            still_free 0 1048576 g r.inv (omega (arith, r.total)) before in
          elim (r.free g below released) [
            | inl never ↦ absurd (ground (arith, never, full-bit (g % 8) (omega arith)))
            | inr touched ↦ touched
          ];
    })

-- On an information block that describes a list of tags, `pmm_init` ends, and then: the bitmap and its count
-- agree; at least 4096 frames are covered; the frames of the first mebibyte and every frame that the
-- kernel's image touches are in use; and each free frame is touched by a region that the loader called
-- available. The image is not empty, starts below 1 GiB and does not wrap.
pub init-Booted :
    (mem : Memory) (mb : ℕ) {kstart kend : ℕ} (rounds : ℕ) (ts : List Tag)
    → TagsAt mem rounds (mb + 8) (mb + read32 mem mb) ts
    → length ts < rounds
    → kstart < kend
    → kstart < max_memory
    → kend < 2 ^ 64
    → (p : Pmm) × (init rounds mem mb kstart kend ≡ some p) × Booted kstart kend (regions ts) p
unfolding init
init-Booted mem mb {kstart} {kend} rounds ts at enough ordered low fits =
    let h = fold highest 16777216 (regions ts) in
    let range = total_of-in h (fold-highest (regions ts) 16777216) in
    let p = fold release (all_used (total_of h)) (regions ts) in
    (
      reserve kstart kend p,
      rw (
        tags-fold mem highest rounds rounds (mb + 8) (mb + read32 mem mb) ts 16777216 enough at,
        tags-fold mem release rounds rounds (mb + 8) (mb + read32 mem mb) ts (all_used (total_of h))
            enough at,
        init,
      ),
      reserve-Booted ordered low fits range
          (fold-Released (regions ts) (all_used-Inv (total_of h) range.1)),
    )
