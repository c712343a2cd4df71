-- ===== src/Vmm/Store.antt =====
-- The store of an entry into a page directory, as the processor's walk sees it.
use walu_os.Prelude.{
  ℕ, suc, ◌+◌, ◌<◌, ◌≡◌, refl, sym, ap, subst, ◌∙◌, inl, inr, Bool, true, false, ◌&&◌, ◌==◌, ==_iff,
  ==_ne, ==_refl, if◌then◌else◌, set, set_other, arith, Bool-cases,
}
use walu_os.Vmm.Defs.{Vmm, slot, child_of, is_present}
use walu_os.Vmm.Walk.{index, index-lt, walk, leaf, follow, follow-agree, Points, follow-Points}
use walu_os.Vmm.Tables.{Child, Tables, same_slot}

module _ {root : ℕ} {s : Vmm} (v : Tables root s) (pd j e : ℕ) (hpd : v.level pd ≡ 2)
    (hj : j < 512) where
  abbrev pub stored : Vmm
  stored = record s { words = set s.words (slot pd j) e }

  same_words : (t i : ℕ) → 2 < v.level t → i < 512 → stored.words (slot t i) ≡ s.words (slot t i)
  same_words t i ht hi = set_other s.words (slot pd j) (slot t i) e (λ same.
      let u = same_slot v (omega arith) (omega arith) hi hj same in
      absurd (omega (arith, ap v.level u.0)))

  pub stored-Tables : Tables root stored
  stored-Tables = record {
    level = v.level;
    origin = v.origin;
    root_level = v.root_level;
    aligned = v.aligned;
    in_use = v.in_use;
    zero_used = v.zero_used;
    pmm_inv = v.pmm_inv;
    child = λ t i ht hi.
        subst (λ (w : ℕ). is_present w ≡ true → Child v.level v.origin (v.level t) (slot t i) w)
          (sym (same_words t i ht hi)) (v.child t i ht hi);
  }

  -- Every walk of `k` levels over the tables, where only those through `p` with `cond` see the new page.
  abbrev pub Sees : ℕ → ℕ → (ℕ → Bool) → Type 0
  Sees k p cond =
      (t a : ℕ)
      → v.level t ≡ k + 2
      → walk stored k t a ≡ (if t == p && cond a then leaf e else walk s k t a)

  pub stored-Sees : Sees 0 pd (λ a. index 0 a == j)
  stored-Sees t a ht = elim (Bool-cases (slot t (index 0 a) == slot pd j)) [
    | inl here ↦
        let same =
          same_slot v (omega arith) (omega arith) (index-lt 0 a) hj
            ((==_iff (slot t (index 0 a)) (slot pd j)).0 here) in
        let cond : (t == pd && index 0 a == j) ≡ true =
          ground (arith, (==_iff t pd).1 same.0, (==_iff (index 0 a) j).1 same.1) in
        rw (here, cond) refl
    | inr there ↦
        let cond : (t == pd && index 0 a == j) ≡ false =
          ground
            (arith, ==_iff (slot t (index 0 a)) (slot pd j), ==_iff t pd, ==_iff (index 0 a) j) in
        rw (there, cond) refl
  ]

  -- One level up, through the entry `i` of the table `q`.
  pub climb :
      (k p : ℕ) (cond : ℕ → Bool)
      → Sees k p cond
      → (q i : ℕ) → v.level q ≡ suc k + 2
      → i < 512
      → Points (s.words (slot q i)) p
      → v.origin p ≡ slot q i
      → Sees (suc k) q (λ a. index (suc k) a == i && cond a)
  climb k p cond sees q i hq hi points from t a ht =
      let w = s.words (slot t (index (suc k) a)) in
      let word : stored.words (slot t (index (suc k) a)) ≡ w =
        same_words t (index (suc k) a) (omega arith) (index-lt (suc k) a) in
      ap (follow (λ c. walk stored k c a)) word
      ∙ elim (Bool-cases (t == q && index (suc k) a == i)) [
        | inl on ↦
            let on_q : (t == q) ≡ true = ground arith in
            let on_i : (index (suc k) a == i) ≡ true = ground arith in
            let same : slot q i ≡ slot t (index (suc k) a) =
              omega (arith, (==_iff t q).0 on_q, (==_iff (index (suc k) a) i).0 on_i) in
            let here : Points w p = subst (λ (b : ℕ). Points (s.words b) p) same points in
            let c = v.child q i (omega arith) hi points.present in
            let level : v.level p ≡ k + 2 = omega (arith, c.below, ap v.level points.to_child) in
            let page : walk stored k p a ≡ (if cond a then leaf e else walk s k p a) =
              sees p a level ∙ rw (==_refl p) in
            rw (on_q, on_i, follow-Points (λ c. walk s k c a) here)
              (follow-Points (λ c. walk stored k c a) here ∙ page)
        | inr off ↦
            let out : (t == q && (index (suc k) a == i && cond a)) ≡ false = ground arith in
            rw out (
              follow-agree (λ c. walk stored k c a) (λ c. walk s k c a) w
                (λ present.
                  let c = v.child t (index (suc k) a) (omega arith) (index-lt (suc k) a) present in
                  let other : (child_of w == p) ≡ false = ==_ne (child_of w) p (λ e.
                    let u =
                      same_slot v (omega arith) (omega arith) (index-lt (suc k) a) hi
                        (sym c.from_here ∙ ap v.origin e ∙ from) in
                    absurd (
                      ground
                        (arith, off, (==_iff t q).1 u.0, (==_iff (index (suc k) a) i).1 u.1))) in
                  sees (child_of w) a (omega (arith, c.below)) ∙ rw other))
      ]
