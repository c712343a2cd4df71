-- ===== src/Pmm/Frames.antt =====
-- Allocating and freeing frames in kernel/src/core/pmm.c.
use walu_os.Prelude.{
  ℕ, zero, suc, ◌+◌, ◌*◌, ◌/◌, ◌≡◌, ◌≢◌, ◌<◌, ◌≤◌, ◌⊎◌, refl, ap, sym, ◌∙◌, inl, inr, Bool, true,
  false, ◌==◌, ==_iff, ltb, leb, min, arith, Bool-cases,
}
use walu_os.Pmm.Defs.{
  Pmm, bitmap_test, frame_size, alloc_from, alloc_frame, alloc_frame_low, free_frame, total_kib,
  used_kib, free_kib,
}
use walu_os.Pmm.Bitmap.{
  used, count, count-le, count_gain, Inv, Marks, bitmap_set-Marks, bitmap_clear-Marks,
}

pub gained :
    {p out : Pmm} {f : ℕ}
    → Inv p
    → f < p.total_frames
    → used p f ≡ false
    → Marks p f true out
    → out.used_frames ≡ p.used_frames + 1
gained {p} {out} {f} v lt free m =
    let n = count_gain p.total_frames f (used p) (used out) lt free m.marked m.others in
    omega (arith, v.counted, m.inv.counted, ap (λ (k : ℕ). count k (used out)) m.total, n)

pub lost :
    {p out : Pmm} {f : ℕ}
    → Inv p
    → f < p.total_frames
    → used p f ≡ true
    → Marks p f false out
    → p.used_frames ≡ out.used_frames + 1
lost {p} {out} {f} v lt taken m =
    let n =
      count_gain p.total_frames f (used out) (used p) lt m.marked taken
        (λ g ne. sym (m.others g ne)) in
    omega (arith, v.counted, m.inv.counted, ap (λ (k : ℕ). count k (used out)) m.total, n)

-- The frame `f` is the lowest free one; it is in use after, nothing else changed, and its address is the
-- result.
pub record Takes (f : ℕ) (p : Pmm) (q : Pmm × ℕ) : Type 0 where
  pub free : used p f ≡ false
  pub lowest : (g : ℕ) → g < f → used p g ≡ true
  pub marks : Marks p f true q.0
  pub counted : q.0.used_frames ≡ p.used_frames + 1
  pub address : q.1 ≡ f * frame_size

-- The search below frame `n`.
abbrev pub Search : ℕ → Pmm → Pmm × ℕ → Type 0
Search n p q =
    ((f : ℕ) × (f < n) × Takes f p q) ⊎ (((g : ℕ) → g < n → used p g ≡ true) × (q ≡ (p, 0)))

bitmap_test-used : (p : Pmm) (f : ℕ) → f < p.total_frames → bitmap_test p f ≡ used p f
unfolding bitmap_test
bitmap_test-used p f lt = let inside : leb p.total_frames f ≡ false = ground arith in rw inside

extend :
    {u : ℕ → Bool} (n : ℕ)
    → ((g : ℕ) → g < n → u g ≡ true)
    → u n ≡ true
    → (g : ℕ) → g < n + 1
    → u g ≡ true
extend n h e g lt = elim (Bool-cases (g == n)) [
  | inl same ↦ rw ((==_iff g n).0 same) e
  | inr other ↦ h g (ground (arith, ==_iff g n))
]

alloc_from-Search :
    (n frame end : ℕ) {p : Pmm}
    → Inv p
    → frame + n ≡ end
    → end ≤ p.total_frames
    → ((g : ℕ) → g < frame → used p g ≡ true)
    → Search end p (alloc_from n frame p)
unfolding alloc_from
alloc_from-Search zero frame end v e h below = inr (λ g lt. below g (omega arith), refl)
alloc_from-Search (suc n) frame end {p} v e h below =
    let lt : frame < p.total_frames = omega arith in
    let rest : used p frame ≡ true → Search end p (alloc_from n (frame + 1) p) =
      λ taken. alloc_from-Search n (frame + 1) end v (omega arith) h (extend frame below taken) in
    elim (Bool-cases (used p frame)) [
      | inl taken ↦ rw (bitmap_test-used p frame lt, taken) (rest taken)
      | inr free ↦
          let m = bitmap_set-Marks v frame lt in
          rw (bitmap_test-used p frame lt, free)
            (inl (
              frame,
              omega arith,
              record {
                free = free;
                lowest = below;
                marks = m;
                counted = gained v lt free m;
                address = omega (arith, v.total_in);
              },
            ))
    ]

-- `pmm_alloc_frame` takes the lowest free frame below the total, marks it and nothing else as used,
-- counts it and returns its address; or, exactly when every frame is in use, it returns 0 and changes
-- nothing. `pmm_alloc_frame_low` does so with the frames below the address that it is given, if that is
-- less.
pub alloc_frame-Search :
    {p : Pmm} (max_phys_addr : ℕ)
    → Inv p
    → Search p.total_frames p (alloc_frame p)
      × Search (min p.total_frames (max_phys_addr / frame_size)) p (alloc_frame_low p max_phys_addr)
unfolding alloc_frame alloc_frame_low
alloc_frame-Search {p} max_phys_addr v = (
  alloc_from-Search p.total_frames 0 p.total_frames v (omega arith) (omega arith)
      (λ g lt. absurd (omega arith)),
  elim (Bool-cases (ltb p.total_frames (max_phys_addr / frame_size))) [
    | inl cut ↦
        let e : min p.total_frames (max_phys_addr / frame_size) ≡ p.total_frames = ground arith in
        rw (cut, e)
          (alloc_from-Search p.total_frames 0 p.total_frames v (omega arith) (omega arith)
            (λ g lt. absurd (omega arith)))
    | inr whole ↦
        let e : min p.total_frames (max_phys_addr / frame_size) ≡ max_phys_addr / frame_size =
          ground arith in
        rw (whole, e)
          (alloc_from-Search (max_phys_addr / frame_size) 0 (max_phys_addr / frame_size) v
            (omega arith) (ground arith) (λ g lt. absurd (omega arith)))
  ],
)

-- Freeing the address of a frame in use marks it as free and nothing else, and counts one frame less.
pub free_frame-Marks :
    {p : Pmm} (f offset : ℕ)
    → Inv p
    → f < p.total_frames
    → offset < frame_size
    → used p f ≡ true
    → let out = free_frame p (f * frame_size + offset) in
      Marks p f false out × (p.used_frames ≡ out.used_frames + 1)
unfolding free_frame
free_frame-Marks {p} f offset v lt inside taken =
    let same : (f * frame_size + offset) / frame_size ≡ f = omega arith in
    let m = bitmap_clear-Marks v f lt in rw same (m, lost v lt taken m)

-- Where some frame is free, allocating a frame and freeing the address returned restores the set of
-- frames in use, their count and the invariant.
pub free_frame-alloc_frame :
    {p : Pmm} (f : ℕ)
    → Inv p
    → f < p.total_frames
    → used p f ≡ false
    → let (q, address) = alloc_frame p in
      let out = free_frame q address in
      ((g : ℕ) → used out g ≡ used p g)
      × (out.used_frames ≡ p.used_frames)
      × (out.total_frames ≡ p.total_frames)
      × Inv out
free_frame-alloc_frame {p} f v lt free = elim ((alloc_frame-Search 0 v).0) [
  | inr (all_used, e) ↦ absurd (ground (arith, all_used f lt, free))
  | inl (k, below, t) ↦
      let k_in : k < (alloc_frame p).0.total_frames = omega (arith, t.marks.total, below) in
      let back = free_frame-Marks k 0 t.marks.inv k_in (omega arith) t.marks.marked in
      let e : (alloc_frame p).1 ≡ k * frame_size + 0 = omega (arith, t.address) in
      rw e (
        λ g. elim (Bool-cases (g == k)) [
          | inl same ↦ rw ((==_iff g k).0 same) (back.0.marked ∙ sym t.free)
          | inr other ↦
              let ne : g ≢ k = λ h. absurd (ground (arith, (==_iff g k).1 h)) in
              back.0.others g ne ∙ t.marks.others g ne
        ],
        omega (arith, back.1, t.counted),
        back.0.total ∙ t.marks.total,
        back.0.inv,
      )
]

-- The three figures for the user agree: used and free together are the total, four KiB for each frame.
pub kib_agree :
    (p : Pmm)
    → Inv p
    → (total_kib p ≡ 4 * p.total_frames)
      × (used_kib p ≡ 4 * p.used_frames)
      × (used_kib p + free_kib p ≡ total_kib p)
unfolding total_kib used_kib free_kib
kib_agree p v =
    let le : p.used_frames ≤ p.total_frames =
      omega (arith, v.counted, count-le p.total_frames (used p)) in
    let fits : ltb p.total_frames p.used_frames ≡ false = ground arith in
    rw fits (omega (arith, v.total_in), omega (arith, v.total_in), omega (arith, v.total_in))
