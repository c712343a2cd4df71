-- ===== src/Vmm/Link.antt =====
-- The new table that `ensure_table` of kernel/src/core/vmm.c links into the page tables.
use walu_os.Prelude.{
  ℕ, zero, suc, ◌+◌, ◌-◌, ◌*◌, ◌/◌, ◌^◌, ◌<◌, ◌≡◌, ◌≢◌, sym, ap, subst, ◌∙◌, inl, inr, true, false,
  ◌&&◌, ◌==◌, ==_iff, ==_ne, ==_refl, if◌then◌else◌, ltb, leb, none, set, set_self, set_other,
  bit_and, bit_and_1, bit_or, bit_or-low, arith, Bool-cases,
}
use walu_os.Pmm.{Pmm, frame_size}
use walu_os.Pmm.Bitmap.{used}
use walu_os.Vmm.Defs.{Vmm, slot, child_of, is_present, clear_page}
use walu_os.Vmm.Walk.{
  index, index-lt, walk, leaf, leaf-absent, follow, follow-absent, follow-agree, Points,
  follow-Points,
}
use walu_os.Vmm.Tables.{Child, Tables, same_slot}

-- The entry that `ensure_table` stores.
pub new_entry : (f : ℕ) → bit_or (bit_or (f * 4096) 1) 2 ≡ f * 4096 + 3
new_entry f =
    let whole : f * 4096 ≡ f * 2 ^ 12 + 0 = omega arith in
    ap (λ (e : ℕ). bit_or (bit_or e 1) 2) whole
    ∙ ap (λ (e : ℕ). bit_or e 2) (bit_or-low 12 f 0 1 (omega arith) (omega arith) (omega arith))
    ∙ bit_or-low 12 f 1 2 (omega arith) (omega arith) (omega arith)

-- A new table, in the frame `f`, for an entry that is not present.
module _ {root : ℕ} {s : Vmm} (v : Tables root s) (p i f : ℕ) (pmm : Pmm) where
  abbrev pub linked : Vmm
  linked = record {
    words = set (clear_page s.words (f * 4096)) (slot p i) (f * 4096 + 3);
    pmm = pmm;
  }

  module _ (hp : 2 < v.level p) (hi : i < 512) (missing : is_present (s.words (slot p i)) ≡ false)
      (free : used s.pmm f ≡ false) (low : f < 262144) where
    no_level : v.level (f * 4096) ≡ 0
    no_level = elim (Bool-cases (v.level (f * 4096) == 0)) [
      | inl e ↦ (==_iff _ 0).0 e
      | inr e ↦
          let taken = v.in_use (f * 4096) (ground (arith, ==_iff (v.level (f * 4096)) 0)) in
          let same : f * 4096 / frame_size ≡ f = omega arith in
          absurd (ground (arith, ap (used s.pmm) same, taken, free))
    ]

    other_page : (t : ℕ) → 0 < v.level t → t / 4096 ≢ f
    other_page t ht e =
        let a = v.aligned t ht in
        let same : t ≡ f * 4096 = omega arith in absurd (omega (arith, ap v.level same, no_level))

    pub old_words :
        (t j : ℕ)
        → 0 < v.level t
        → j < 512
        → slot t j ≢ slot p i
        → linked.words (slot t j) ≡ s.words (slot t j)
    old_words t j ht hj ne =
        let a = v.aligned t ht in
        let far = other_page t ht in
        let outside : (leb (f * 4096) (slot t j) && ltb (slot t j) (f * 4096 + 4096)) ≡ false =
          ground (arith, far) in
        set_other (clear_page s.words (f * 4096)) (slot p i) (slot t j) (f * 4096 + 3) ne
        ∙ rw outside

    new_words : (j : ℕ) → j < 512 → linked.words (slot (f * 4096) j) ≡ 0
    new_words j hj =
        let a = v.aligned p (omega arith) in
        let far = other_page p (omega arith) in
        let inside : (leb (f * 4096) (slot (f * 4096) j)
              && ltb (slot (f * 4096) j) (f * 4096 + 4096))
            ≡ true =
          ground arith in
        let ne : slot (f * 4096) j ≢ slot p i = λ e. far (omega arith) in
        set_other (clear_page s.words (f * 4096)) (slot p i) (slot (f * 4096) j) (f * 4096 + 3) ne
        ∙ rw inside

    here_word : linked.words (slot p i) ≡ f * 4096 + 3
    here_word = set_self (clear_page s.words (f * 4096)) (slot p i) (f * 4096 + 3)

    pub linked-Points : Points (linked.words (slot p i)) (f * 4096)
    linked-Points =
        let odd : bit_and (f * 4096 + 3) 1 ≡ 1 = omega (arith, bit_and_1 (f * 4096 + 3)) in
        record {
          present = rw (here_word, odd);
          is_table = rw here_word (ground arith);
          to_child = rw here_word (omega arith);
        }

    abbrev pub new_level : ℕ → ℕ
    new_level t = if t == f * 4096 then v.level p - 1 else v.level t

    abbrev pub new_origin : ℕ → ℕ
    new_origin t = if t == f * 4096 then slot p i else v.origin t

    pub old_is : (t : ℕ) → 0 < v.level t → (t == f * 4096) ≡ false
    old_is t ht = ==_ne t (f * 4096) (λ e. absurd (omega (arith, ap v.level e, no_level)))

    abbrev ChildIn : ℕ → ℕ → ℕ → Type 0
    ChildIn t j e = is_present e ≡ true → Child new_level new_origin (new_level t) (slot t j) e

    pub new_child : (t j : ℕ) → 2 < new_level t → j < 512 → ChildIn t j (linked.words (slot t j))
    new_child t j ht hj = elim (Bool-cases (t == f * 4096)) [
      | inl new ↦
          let e = (==_iff t (f * 4096)).0 new in
          let word : linked.words (slot t j) ≡ 0 =
            ap (λ (u : ℕ). linked.words (slot u j)) e ∙ new_words j hj in
          subst (ChildIn t j) (sym word) (λ never. absurd (ground (arith, bit_and_1 0)))
      | inr old ↦ elim (Bool-cases (slot t j == slot p i)) [
        | inl here ↦
            let e = (==_iff (slot t j) (slot p i)).0 here in
            let same = same_slot v (ground arith) (omega arith) hj hi e in
            let word : linked.words (slot t j) ≡ f * 4096 + 3 = ap linked.words e ∙ here_word in
            let child_is : child_of (f * 4096 + 3) ≡ f * 4096 = omega arith in
            subst (ChildIn t j) (sym word) (λ present. record {
              is_table = ground arith;
              below = rw (child_is, ==_refl (f * 4096), old) (omega (arith, ap v.level same.0));
              from_here = rw (child_is, ==_refl (f * 4096)) (sym e);
            })
        | inr there ↦
            let ht' : 2 < v.level t = ground arith in
            let ne : slot t j ≢ slot p i =
              λ e. absurd (ground (arith, (==_iff (slot t j) (slot p i)).1 e)) in
            subst (ChildIn t j) (sym (old_words t j (omega arith) hj ne)) (λ present.
              let c = v.child t j ht' hj present in
              let known = old_is (child_of (s.words (slot t j))) (omega (arith, c.below)) in
              record {
                is_table = c.is_table;
                below = ground (arith, c.below);
                from_here = rw known c.from_here;
              })
      ]
    ]

    empty : (k a : ℕ) → walk linked k (f * 4096) a ≡ none
    empty zero a = leaf-absent _ (ground (arith, new_words (index 0 a) (index-lt 0 a), bit_and_1 0))
    empty (suc k) a =
        follow-absent _ _
          (ground (arith, new_words (index (suc k) a) (index-lt (suc k) a), bit_and_1 0))

    pub walks : (k t a : ℕ) → v.level t ≡ k + 2 → walk linked k t a ≡ walk s k t a
    walks zero t a h =
        let ne : slot t (index 0 a) ≢ slot p i = λ e.
          let same = same_slot v (omega arith) (omega arith) (index-lt 0 a) hi e in
          absurd (omega (arith, ap v.level same.0)) in
        ap leaf (old_words t (index 0 a) (omega arith) (index-lt 0 a) ne)
    walks (suc k) t a h = elim (Bool-cases (slot t (index (suc k) a) == slot p i)) [
      | inl here ↦
          let e = (==_iff (slot t (index (suc k) a)) (slot p i)).0 here in
          follow-Points _
            (subst (λ (b : ℕ). Points (linked.words b) (f * 4096)) (sym e) linked-Points)
          ∙ empty k a
          ∙ sym (follow-absent _ _ (rw e missing))
      | inr there ↦
          let ne : slot t (index (suc k) a) ≢ slot p i =
            λ e. absurd (ground (arith, (==_iff (slot t (index (suc k) a)) (slot p i)).1 e)) in
          ap (follow (λ child. walk linked k child a))
            (old_words t (index (suc k) a) (omega arith) (index-lt (suc k) a) ne)
          ∙ follow-agree _ _ _ (λ present.
            let c = v.child t (index (suc k) a) (omega arith) (index-lt (suc k) a) present in
            walks k (child_of (s.words (slot t (index (suc k) a)))) a (omega (arith, c.below)))
    ]
