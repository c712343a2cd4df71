-- ===== src/Pmm/Bitmap.antt =====
-- The bitmap of kernel/src/core/pmm.c as a set of frames, and its count of the frames in use.
use walu_os.Prelude.{
  ℕ, zero, suc, ◌+◌, ◌-◌, ◌/◌, ◌%◌, ◌≡◌, ◌≢◌, ◌<◌, ◌≤◌, refl, ap, sym, ◌∙◌, inl, inr, Bool, true,
  false, not, ◌&&◌, ◌||◌, ◌==◌, ==_iff, ==_ne, ==_refl, if◌then◌else◌, ltb, lt→ltb, leb, set,
  set_all, u8, bit_and, bit_or, arith, Bool-cases,
}
use walu_os.Pmm.Defs.{Pmm, bitmap_set, bitmap_clear, mask, cell, max_frames}
use walu_os.Pmm.Cells.{bit, bit-or, bit-and_not, and_not-lt}

-- Whether the bit of a frame is set.
abbrev pub used : Pmm → ℕ → Bool
used p frame = bit (cell p frame) (frame % 8)

-- How many of the first `n` frames are in a set.
abbrev pub count : ℕ → (ℕ → Bool) → ℕ
count zero u = 0
count (suc n) u = count n u + (if u n then 1 else 0)

pub record Inv (p : Pmm) : Type 0 where
  pub cells_in : (i : ℕ) → p.frame_bitmap i < 256
  pub total_in : p.total_frames ≤ max_frames
  pub counted : p.used_frames ≡ count p.total_frames (used p)

pub count-le : (n : ℕ) (u : ℕ → Bool) → count n u ≤ n
count-le zero u = omega arith
count-le (suc n) u = elim (Bool-cases (u n)) [
  | inl e ↦ rw e (omega (arith, count-le n u))
  | inr e ↦ rw e (omega (arith, count-le n u))
]

count_same : (n : ℕ) (u w : ℕ → Bool) → ((g : ℕ) → g < n → u g ≡ w g) → count n u ≡ count n w
count_same zero u w h = refl
count_same (suc n) u w h = rw (h n (omega arith), count_same n u w (λ g lt. h g (omega arith)))

-- A set that gains one of the first `n` frames counts one more.
pub count_gain :
    (n f : ℕ) (u w : ℕ → Bool)
    → f < n
    → u f ≡ false
    → w f ≡ true
    → ((g : ℕ) → g ≢ f → w g ≡ u g)
    → count n w ≡ count n u + 1
count_gain zero f u w lt out in' others = absurd (omega arith)
count_gain (suc n) f u w lt out in' others = elim (Bool-cases (n == f)) [
  | inl e ↦
      let same : n ≡ f = (==_iff n f).0 e in
      rw (same, out, in')
        (omega (arith, count_same f w u (λ g lt'. others g (λ e'. absurd (omega arith)))))
  | inr ne ↦
      let other : n ≢ f = λ e. absurd (ground (arith, (==_iff n f).1 e)) in
      rw (others n other) (omega (arith, count_gain n f u w (ground arith) out in' others))
]

-- The bit of a frame after a store to the cell of another.
used_store :
    (p : Pmm) (f v g : ℕ)
    → bit (set p.frame_bitmap (f / 8) v (g / 8)) (g % 8)
      ≡ (if g / 8 == f / 8 then bit v (g % 8) else used p g)
used_store p f v g = elim (Bool-cases (g / 8 == f / 8)) [ inl e ↦ rw e | inr ne ↦ rw ne ]

-- The set of frames gained (or lost) the frame `f`, and the total stayed.
pub record Marks (p : Pmm) (f : ℕ) (value : Bool) (out : Pmm) : Type 0 where
  pub inv : Inv out
  pub total : out.total_frames ≡ p.total_frames
  pub marked : used out f ≡ value
  pub others : (g : ℕ) → g ≢ f → used out g ≡ used p g

module _ {p : Pmm} (v : Inv p) (f : ℕ) where
  same_frame : (g : ℕ) → (g / 8 == f / 8) ≡ true → (g % 8 == f % 8) ≡ (g == f)
  same_frame g h = ground (arith, ==_iff (g / 8) (f / 8))

  apart : (g : ℕ) → (g / 8 == f / 8) ≡ false → (g == f) ≡ false
  apart g h = ground (arith, ==_iff (g / 8) (f / 8), ==_iff g f)

  -- The set after `|= mask` of the frame's cell, and after `&= ~mask`.
  or_used :
      (g : ℕ)
      → bit (set p.frame_bitmap (f / 8) (u8 (bit_or (cell p f) (mask f))) (g / 8)) (g % 8)
        ≡ (g == f) || used p g
  or_used g =
      let byte =
        bit-or (cell p f) (f % 8) (g % 8) (v.cells_in (f / 8)) (omega arith) (omega arith) in
      elim (Bool-cases (g / 8 == f / 8)) [
        | inr far ↦ rw (used_store p f (u8 (bit_or (cell p f) (mask f))) g, far, apart g far)
        | inl close ↦
            rw (used_store p f (u8 (bit_or (cell p f) (mask f))) g, close, byte, same_frame g close)
              (ap (λ (k : ℕ). (g == f) || bit (p.frame_bitmap k) (g % 8))
                (sym ((==_iff _ _).0 close)))
      ]

  and_used :
      (g : ℕ)
      → bit (set p.frame_bitmap (f / 8) (bit_and (cell p f) (255 - mask f)) (g / 8)) (g % 8)
        ≡ not (g == f) && used p g
  and_used g =
      let byte =
        bit-and_not (cell p f) (f % 8) (g % 8) (v.cells_in (f / 8)) (omega arith) (omega arith) in
      elim (Bool-cases (g / 8 == f / 8)) [
        | inr far ↦ rw (used_store p f (bit_and (cell p f) (255 - mask f)) g, far, apart g far)
        | inl close ↦
            rw
              (
                used_store p f (bit_and (cell p f) (255 - mask f)) g,
                close,
                byte,
                same_frame g close,
              )
              (ap (λ (k : ℕ). not (g == f) && bit (p.frame_bitmap k) (g % 8))
                (sym ((==_iff _ _).0 close)))
      ]

  pub bitmap_set-Marks : f < p.total_frames → Marks p f true (bitmap_set p f)
  unfolding bitmap_set
  bitmap_set-Marks lt =
      let inside : leb p.total_frames f ≡ false = ground arith in
      elim (Bool-cases (bit_and (cell p f) (mask f) == 0)) [
        | inr set_already ↦
            rw (inside, set_already)
              (record { inv = v; total = refl; marked = ground arith; others = λ g ne. refl })
        | inl clear ↦
            let w : ℕ → Bool = λ g.
              bit (set p.frame_bitmap (f / 8) (u8 (bit_or (cell p f) (mask f))) (g / 8)) (g % 8) in
            let here : w f ≡ true = or_used f ∙ rw (==_refl f) in
            let there : (g : ℕ) → g ≢ f → w g ≡ used p g = λ g ne. or_used g ∙ rw (==_ne g f ne) in
            let n : count p.total_frames w ≡ count p.total_frames (used p) + 1 =
              count_gain p.total_frames f (used p) w lt (ground arith) here there in
            rw (inside, clear)
              (record {
                inv = record {
                  cells_in =
                      set_all (λ (c : ℕ). c < 256) p.frame_bitmap (f / 8) _ v.cells_in
                        (omega arith);
                  total_in = v.total_in;
                  counted =
                      omega (arith, n, v.counted, v.total_in, count-le p.total_frames (used p));
                };
                total = refl;
                marked = here;
                others = there;
              })
      ]

  pub bitmap_clear-Marks : f < p.total_frames → Marks p f false (bitmap_clear p f)
  unfolding bitmap_clear
  bitmap_clear-Marks lt =
      let inside : leb p.total_frames f ≡ false = ground arith in
      elim (Bool-cases (bit_and (cell p f) (mask f) == 0)) [
        | inl clear_already ↦
            rw (inside, clear_already)
              (record { inv = v; total = refl; marked = ground arith; others = λ g ne. refl })
        | inr taken ↦
            let w : ℕ → Bool = λ g.
              bit (set p.frame_bitmap (f / 8) (bit_and (cell p f) (255 - mask f)) (g / 8))
                (g % 8) in
            let here : w f ≡ false = and_used f ∙ rw (==_refl f) in
            let there : (g : ℕ) → g ≢ f → w g ≡ used p g = λ g ne. and_used g ∙ rw (==_ne g f ne) in
            let n : count p.total_frames (used p) ≡ count p.total_frames w + 1 =
              count_gain p.total_frames f w (used p) lt here (ground arith)
                (λ g ne. sym (there g ne)) in
            let some_used : ltb 0 p.used_frames ≡ true = lt→ltb _ _ (omega (arith, n, v.counted)) in
            rw (inside, taken, some_used)
              (record {
                inv = record {
                  cells_in =
                      set_all (λ (c : ℕ). c < 256) p.frame_bitmap (f / 8) _ v.cells_in
                        (and_not-lt (cell p f) (f % 8) (v.cells_in (f / 8)) (omega arith));
                  total_in = v.total_in;
                  counted = omega (arith, n, v.counted);
                };
                total = refl;
                marked = here;
                others = there;
              })
      ]
