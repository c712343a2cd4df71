-- ===== src/Pmm/Region.antt =====
-- Marking a region of addresses in kernel/src/core/pmm.c.
use walu_os.Prelude.{
  ℕ, zero, suc, ◌+◌, ◌-◌, ◌*◌, ◌^◌, ◌≡◌, ◌≢◌, ◌<◌, ◌≤◌, ◌⊎◌, refl, sym, subst, ◌∙◌, inl, inr, Bool,
  false, not, ◌||◌, ◌==◌, ==_iff, if◌then◌else◌, leb, min, u64, arith, Bool-cases,
}
use walu_os.Pmm.Defs.{
  Pmm, bitmap_set, bitmap_clear, frame_size, max_memory, mark_from, mark_region, region_end,
  first_frame, last_frame,
}
use walu_os.Pmm.Bitmap.{used, Inv, Marks, bitmap_set-Marks, bitmap_clear-Marks}

-- The frames from `first` up to `last`, those at or past the total apart, are free if the region is
-- available and else in use, and no other frame changed.
pub record Marked (p : Pmm) (first last : ℕ) (available : Bool) (out : Pmm) : Type 0 where
  pub inv : Inv out
  pub total : out.total_frames ≡ p.total_frames
  pub inside : (g : ℕ) → first ≤ g → g < last → g < p.total_frames → used out g ≡ not available
  pub outside : (g : ℕ) → (g < first) ⊎ (last ≤ g) → used out g ≡ used p g

-- One round: a frame past the total is left alone.
record Round (p : Pmm) (f : ℕ) (available : Bool) (out : Pmm) : Type 0 where
  inv : Inv out
  total : out.total_frames ≡ p.total_frames
  marked : f < p.total_frames → used out f ≡ not available
  others : (g : ℕ) → g ≢ f → used out g ≡ used p g

of_Marks :
    {p out : Pmm} {f : ℕ} {available : Bool}
    → Marks p f (not available) out
    → Round p f available out
of_Marks m = record { inv = m.inv; total = m.total; marked = λ lt. m.marked; others = m.others }

round :
    {p : Pmm} (f : ℕ) (available : Bool)
    → Inv p
    → Round p f available (if available then bitmap_clear p f else bitmap_set p f)
unfolding bitmap_clear bitmap_set
round {p} f available v = elim (Bool-cases (leb p.total_frames f)) [
  | inl past ↦
      let kept : (if available then bitmap_clear p f else bitmap_set p f) ≡ p =
        elim (Bool-cases available) [ inl e ↦ rw (e, past) | inr e ↦ rw (e, past) ] in
      subst (Round p f available) (sym kept) (record {
        inv = v;
        total = refl;
        marked = λ lt. absurd (ground arith);
        others = λ g ne. refl;
      })
  | inr below ↦ elim (Bool-cases available) [
    | inl e ↦ rw e (of_Marks (bitmap_clear-Marks v f (ground arith)))
    | inr e ↦ rw e (of_Marks (bitmap_set-Marks v f (ground arith)))
  ]
]

pub mark_from-Marked :
    (n f : ℕ) {p : Pmm} (available : Bool)
    → Inv p
    → Marked p f (f + n) available (mark_from n f p available)
unfolding mark_from
mark_from-Marked zero f available v = record {
  inv = v;
  total = refl;
  inside = λ g a b c. absurd (omega arith);
  outside = λ g h. refl;
}
mark_from-Marked (suc n) f {p} available v =
    let r = round f available v in
    let m = mark_from-Marked n (f + 1) available r.inv in
    record {
      inv = m.inv;
      total = m.total ∙ r.total;
      inside = λ g a b c. elim (Bool-cases (g == f)) [
        | inl same ↦
            let e : g ≡ f = (==_iff g f).0 same in
            m.outside g (inl (omega arith)) ∙ rw e (r.marked (omega arith))
        | inr other ↦ m.inside g (ground (arith, ==_iff g f)) (omega arith) (omega (arith, r.total))
      ];
      outside = λ g h. m.outside g (ground arith) ∙ r.others g (λ e. absurd (ground arith));
    }

region_end-min :
    (addr len : ℕ) → addr + len < 2 ^ 64 → region_end addr len ≡ min max_memory (addr + len)
region_end-min addr len no_wrap =
    let same : u64 (addr + len) ≡ addr + len = omega (arith, no_wrap) in rw same (ground arith)

-- `mark_region` on a region that is not empty, starts below 1 GiB and does not wrap around the address
-- space: each frame that the region touches, up to 1 GiB and below the total, is free after if the region is
-- available and in use if it is not; no other frame changes and the invariant holds.
pub mark_region-touched :
    {p : Pmm} (addr len : ℕ) (available : Bool)
    → Inv p
    → len ≢ 0
    → addr < max_memory
    → addr + len < 2 ^ 64
    → let out = mark_region p addr len available in
      Inv out
      × ((g : ℕ)
          → g < p.total_frames
          → (addr < (g + 1) * frame_size) × (g * frame_size < addr + len)
          → used out g ≡ not available)
      × ((g : ℕ)
          → ((g + 1) * frame_size ≤ addr) ⊎ (addr + len ≤ g * frame_size)
          → used out g ≡ used p g)
unfolding mark_region
mark_region-touched {p} addr len available v some low no_wrap =
    let go : (len == 0 || leb max_memory addr) ≡ false = ground (arith, ==_iff len 0) in
    let m =
      mark_from-Marked (last_frame addr len - first_frame addr) (first_frame addr) available v in
    let end = region_end-min addr len no_wrap in
    rw go (
      m.inv,
      λ g below touched.
          m.inside g (omega (arith, touched.0)) (omega (arith, end, v.total_in, touched.1)) below,
      λ g apart.
          m.outside g
            (elim apart [ inl before ↦ inl (omega arith) | inr after ↦ inr (omega (arith, end)) ]),
    )
