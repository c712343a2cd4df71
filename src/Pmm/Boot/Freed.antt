-- ===== src/Pmm/Boot/Freed.antt =====
-- What the second walk of `pmm_init` in kernel/src/core/pmm.c frees, over any regions.
use walu_os.Prelude.{
  ℕ, ◌+◌, ◌-◌, ◌≡◌, ◌<◌, ◌≤◌, ◌⊎◌, refl, sym, ◌∙◌, inl, inr, Bool, true, false, not, ◌||◌, ◌==◌,
  ltb, leb, List, [], ◌∷◌, arith, Bool-cases,
}
use walu_os.Pmm.Defs.{Pmm, max_memory, mark_region, first_frame, last_frame}
use walu_os.Pmm.Bitmap.{used, Inv}
use walu_os.Pmm.Region.{mark_from-Marked}
use walu_os.Pmm.Boot.Tags.{release}
use walu_os.Pmm.Boot.Layout.{Region, fold}

-- Frame `g` lies between the first frame of a region and its last one.
abbrev pub Touches : ℕ → ℕ → ℕ → Type 0
Touches g addr len = (first_frame addr ≤ g) × (g < last_frame addr len)

abbrev pub TouchedBy : ℕ → List Region → Type 0
TouchedBy g [] = ⊥
TouchedBy g (r ∷ rs) = Touches g r.addr r.len ⊎ TouchedBy g rs

-- Any region, whatever its address and length.
pub record Remarks (p : Pmm) (addr len : ℕ) (available : Bool) (out : Pmm) : Type 0 where
  pub inv : Inv out
  pub total : out.total_frames ≡ p.total_frames
  pub others :
      (g : ℕ)
      → g < p.total_frames
      → (used out g ≡ used p g) ⊎ (Touches g addr len × (used out g ≡ not available))

pub mark_region-Remarks :
    {p : Pmm} (addr len : ℕ) (available : Bool)
    → Inv p
    → Remarks p addr len available (mark_region p addr len available)
unfolding mark_region
mark_region-Remarks {p} addr len available v = elim (Bool-cases (len == 0 || leb max_memory addr)) [
  | inl skip ↦ rw skip (record { inv = v; total = refl; others = λ g lt. inl refl })
  | inr go ↦
      let first = first_frame addr in
      let last = last_frame addr len in
      let m = mark_from-Marked (last - first) first available v in
      rw go (record {
        inv = m.inv;
        total = m.total;
        others = λ g lt. elim (Bool-cases (leb first g)) [
          | inr before ↦ inl (m.outside g (inl (ground arith)))
          | inl from ↦ elim (Bool-cases (ltb g (first + (last - first)))) [
            | inr after ↦ inl (m.outside g (inr (ground arith)))
            | inl within ↦
                inr ((ground arith, ground arith), m.inside g (ground arith) (ground arith) lt)
          ]
        ];
      })
]

-- Marking a region as in use frees nothing.
pub keeps_used :
    {p : Pmm} (addr len g : ℕ)
    → Inv p
    → g < p.total_frames
    → used p g ≡ true
    → used (mark_region p addr len false) g ≡ true
keeps_used addr len g v lt taken = elim ((mark_region-Remarks addr len false v).others g lt) [
  | inl same ↦ same ∙ taken
  | inr (touched, marked) ↦ marked
]

pub still_free :
    {p : Pmm} (addr len g : ℕ)
    → Inv p
    → g < p.total_frames
    → used (mark_region p addr len false) g ≡ false
    → used p g ≡ false
still_free {p} addr len g v lt free = elim (Bool-cases (used p g)) [
  | inr e ↦ e
  | inl taken ↦ absurd (ground (arith, keeps_used addr len g v lt taken, free))
]

pub record Released (p : Pmm) (rs : List Region) (out : Pmm) : Type 0 where
  pub inv : Inv out
  pub total : out.total_frames ≡ p.total_frames
  pub free : (g : ℕ) → g < p.total_frames → used out g ≡ false → (used p g ≡ false) ⊎ TouchedBy g rs

pub fold-Released : (rs : List Region) {p : Pmm} → Inv p → Released p rs (fold release p rs)
fold-Released [] v = record { inv = v; total = refl; free = λ g lt h. inl h }
fold-Released (r ∷ rs) {p} v =
    let m = mark_region-Remarks r.addr r.len true v in
    let f = fold-Released rs m.inv in
    record {
      inv = f.inv;
      total = f.total ∙ m.total;
      free = λ g lt h. elim (f.free g (omega (arith, m.total)) h) [
        | inr later ↦ inr (inr later)
        | inl free_now ↦ elim (m.others g lt) [
          | inl same ↦ inl (sym same ∙ free_now)
          | inr (touched, marked) ↦ inr (inl touched)
        ]
      ];
    }
