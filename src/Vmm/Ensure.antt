-- ===== src/Vmm/Ensure.antt =====
-- `ensure_table` of kernel/src/core/vmm.c: the table behind an entry, new where there was none.
use walu_os.Prelude.{
  ℕ, ◌+◌, ◌*◌, ◌/◌, ◌<◌, ◌≡◌, ◌≢◌, ◌⊎◌, refl, ap, ◌∙◌, inl, inr, true, false, ◌==◌, ==_iff, ==_ne,
  ==_refl, Option, none, some, min, arith, Bool-cases,
}
use walu_os.Pmm.{Pmm, alloc_frame_low, frame_size}
use walu_os.Pmm.Bitmap.{used, Marks}
use walu_os.Pmm.Frames.{alloc_frame-Search, Takes}
use walu_os.Vmm.Defs.{Vmm, slot, child_of, is_present, link, ensure_table, identity_window_limit}
use walu_os.Vmm.Walk.{walk, Points}
use walu_os.Vmm.Tables.{Tables}
use walu_os.Vmm.Link.{
  new_entry, old_words, linked, linked-Points, old_is, new_level, new_origin, new_child, walks,
}

-- What `ensure_table` may do: `q` is the state after it, `c` the table.
pub record Ensured {root : ℕ} {s : Vmm} (v : Tables root s) (p i : ℕ) (q : Vmm) (c : ℕ)
    : Type 0 where
  pub tables : Tables root q
  pub points : Points (q.words (slot p i)) c
  pub child_level : tables.level c + 1 ≡ v.level p
  pub child_origin : tables.origin c ≡ slot p i
  pub keeps : (t : ℕ) → 0 < v.level t → tables.level t ≡ v.level t
  pub keeps_origin : (t : ℕ) → 0 < v.level t → tables.origin t ≡ v.origin t
  pub keeps_words :
      (t j : ℕ)
      → 0 < v.level t
      → j < 512
      → slot t j ≢ slot p i
      → q.words (slot t j) ≡ s.words (slot t j)
  pub walks : (k t a : ℕ) → v.level t ≡ k + 2 → walk q k t a ≡ walk s k t a

still_used :
    {p out : Pmm} {f : ℕ} (g : ℕ) → Marks p f true out → used p g ≡ true → used out g ≡ true
still_used {f = f} g m h = elim (Bool-cases (g == f)) [
  | inl same ↦ rw ((==_iff g f).0 same) m.marked
  | inr other ↦ m.others g (λ e. absurd (ground (arith, (==_iff g f).1 e))) ∙ h
]

-- No frame below 1 GiB is free.
abbrev pub Exhausted : Vmm → Type 0
Exhausted s =
    (g : ℕ) → g < min s.pmm.total_frames (identity_window_limit / frame_size) → used s.pmm g ≡ true

module _ {root : ℕ} {s : Vmm} (v : Tables root s) (p i : ℕ) (hp : 2 < v.level p)
    (hi : i < 512) where
  abbrev pub Outcome : Vmm × Option ℕ → Type 0
  Outcome r = ((r ≡ (s, none)) × Exhausted s) ⊎ ((c : ℕ) × (r.1 ≡ some c) × Ensured v p i r.0 c)

  present-Ensured :
      is_present (s.words (slot p i)) ≡ true → Ensured v p i s (child_of (s.words (slot p i)))
  present-Ensured there =
      let c = v.child p i hp hi there in
      record {
        tables = v;
        points = record { present = there; is_table = c.is_table; to_child = refl };
        child_level = c.below;
        child_origin = c.from_here;
        keeps = λ t ht. refl;
        keeps_origin = λ t ht. refl;
        keeps_words = λ t j ht hj ne. refl;
        walks = λ k t a h. refl;
      }

  linked-Ensured :
      is_present (s.words (slot p i)) ≡ false
      → (f : ℕ) → f < 262144
      → (r : Pmm × ℕ) → Takes f s.pmm r
      → Ensured v p i (linked v p i f r.0) (f * 4096)
  linked-Ensured missing f low r t =
      let at_f : (f * 4096 == f * 4096) ≡ true = ==_refl (f * 4096) in
      let old = old_is v p i f r.0 hp hi missing t.free low in
      record {
        tables = record {
          level = new_level v p i f r.0 hp hi missing t.free low;
          origin = new_origin v p i f r.0 hp hi missing t.free low;
          root_level = rw (old root (omega (arith, v.root_level))) v.root_level;
          aligned = λ u hu. elim (Bool-cases (u == f * 4096)) [
            | inl new ↦ omega (arith, (==_iff u (f * 4096)).0 new)
            | inr other ↦ v.aligned u (ground arith)
          ];
          in_use = λ u hu. elim (Bool-cases (u == f * 4096)) [
            | inl new ↦
                let same : u / frame_size ≡ f = omega (arith, (==_iff u (f * 4096)).0 new) in
                rw same t.marks.marked
            | inr other ↦ still_used (u / frame_size) t.marks (v.in_use u (ground arith))
          ];
          zero_used = still_used 0 t.marks v.zero_used;
          pmm_inv = t.marks.inv;
          child = new_child v p i f r.0 hp hi missing t.free low;
        };
        points = linked-Points v p i f r.0 hp hi missing t.free low;
        child_level = rw at_f (omega arith);
        child_origin = rw at_f refl;
        keeps = λ u hu. rw (old u hu) refl;
        keeps_origin = λ u hu. rw (old u hu) refl;
        keeps_words = old_words v p i f r.0 hp hi missing t.free low;
        walks = walks v p i f r.0 hp hi missing t.free low;
      }

  link-linked :
      (f : ℕ)
      → f < 262144
      → (r : Pmm × ℕ) → Takes f s.pmm r
      → link s p i r ≡ (linked v p i f r.0, some (f * 4096))
  link-linked f low r t =
      let some_frame : (f * 4096 == 0) ≡ false = ==_ne (f * 4096) 0 (λ e.
        let zero_f : f ≡ 0 = omega arith in
        absurd (ground (arith, ap (used s.pmm) zero_f, v.zero_used, t.free))) in
      let child_is : child_of (f * 4096 + 3) ≡ f * 4096 = omega arith in
      rw (t.address, some_frame, new_entry f, child_is) refl

  link-Outcome :
      is_present (s.words (slot p i)) ≡ false
      → Outcome (link s p i (alloc_frame_low s.pmm identity_window_limit))
  link-Outcome missing = elim ((alloc_frame-Search identity_window_limit v.pmm_inv).1) [
    | inl (f, low, t) ↦
        let r = alloc_frame_low s.pmm identity_window_limit in
        let below : f < 262144 = omega arith in
        rw (link-linked f below r t) (inr (f * 4096, refl, linked-Ensured missing f below r t))
    | inr (all_used, e) ↦ rw e (inl (refl, all_used))
  ]

  pub ensure_table-Outcome : Outcome (ensure_table s p i)
  unfolding ensure_table
  ensure_table-Outcome = elim (Bool-cases (is_present (s.words (slot p i)))) [
    | inl there ↦ rw there (inr (child_of (s.words (slot p i)), refl, present-Ensured there))
    | inr missing ↦ rw missing (link-Outcome missing)
  ]
