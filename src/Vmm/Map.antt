-- ===== src/Vmm/Map.antt =====
-- `vmm_map_2m` of kernel/src/core/vmm.c and the mappings of all virtual addresses.
use walu_os.Prelude.{
  ℕ, ◌/◌, ◌%◌, ◌^◌, ◌≡◌, ◌≢◌, ◌⊎◌, refl, sym, ap, ap₂, subst, ◌∙◌, inl, inr, Bool, true, false, not,
  ◌&&◌, ◌||◌, ◌==◌, ==_iff, ==_refl, if◌then◌else◌, Option, some, arith, Bool-cases,
}
use walu_os.Vmm.Defs.{
  Vmm, slot, ensure_table, pml4_index, pdpt_index, pd_index, huge_entry, map_page, map_in, map_2m,
}
use walu_os.Vmm.Walk.{Page, index, walk, leaf, Points, lookup}
use walu_os.Vmm.Tables.{Tables, same_slot}
use walu_os.Vmm.Ensure.{Ensured, Exhausted, ensure_table-Outcome}
use walu_os.Vmm.Entry.{wanted, leaf-huge_entry}
use walu_os.Vmm.Store.{stored-Tables, stored-Sees, climb}

-- Two addresses lie in one page of 2 MiB; the 16 digits above are not looked at.
abbrev pub same_page : ℕ → ℕ → Bool
same_page a b = a / 2 ^ 21 % 2 ^ 27 == b / 2 ^ 21 % 2 ^ 27

same_indices :
    (a b : ℕ)
    → (index 2 a == pml4_index b && (index 1 a == pdpt_index b && index 0 a == pd_index b))
      ≡ same_page a b
same_indices a b =
    let all = index 2 a == pml4_index b && (index 1 a == pdpt_index b && index 0 a == pd_index b) in
    let split : all ≡ true
        → (index 2 a ≡ pml4_index b) × (index 1 a ≡ pdpt_index b) × (index 0 a ≡ pd_index b) =
      λ h. (
        (==_iff (index 2 a) (pml4_index b)).0 (ground arith),
        (==_iff (index 1 a) (pdpt_index b)).0 (ground arith),
        (==_iff (index 0 a) (pd_index b)).0 (ground arith),
      ) in
    elim (Bool-cases all) [
      | inl h ↦
          let (i2, i1, i0) = split h in
          let e : a / 2 ^ 21 % 2 ^ 27 ≡ b / 2 ^ 21 % 2 ^ 27 = omega (arith, i2, i1, i0) in
          h ∙ sym ((==_iff (a / 2 ^ 21 % 2 ^ 27) (b / 2 ^ 21 % 2 ^ 27)).1 e)
      | inr h ↦ elim (Bool-cases (same_page a b)) [
        | inl same ↦
            let e = (==_iff (a / 2 ^ 21 % 2 ^ 27) (b / 2 ^ 21 % 2 ^ 27)).0 same in
            let i2 = (==_iff (index 2 a) (pml4_index b)).1 (omega (arith, e)) in
            let i1 = (==_iff (index 1 a) (pdpt_index b)).1 (omega (arith, e)) in
            let i0 = (==_iff (index 0 a) (pd_index b)).1 (omega (arith, e)) in
            absurd (ground (arith, h, i2, i1, i0))
        | inr other ↦ h ∙ sym other
      ]
    ]

abbrev is_aligned : ℕ → Bool
is_aligned a = a % 2 ^ 21 == 0

-- What `vmm_map_2m` may do to the tables `s`: `r` is the state after it and what it returns.
pub record Maps (root : ℕ) (s : Vmm) (virt_addr phys_addr flags : ℕ) (r : Vmm × Bool) : Type 0 where
  pub tables : Tables root r.0
  pub success :
      r.1 ≡ true
      → (a : ℕ)
      → lookup root r.0 a
        ≡ (if same_page a virt_addr then some (wanted phys_addr flags) else lookup root s a)
  pub only_aligned : r.1 ≡ true → is_aligned virt_addr && is_aligned phys_addr ≡ true
  pub failure : r.1 ≡ false → (a : ℕ) → lookup root r.0 a ≡ lookup root s a
  pub reason : r.1 ≡ false → (is_aligned virt_addr && is_aligned phys_addr ≡ false) ⊎ Exhausted r.0

refused :
    {root : ℕ} {s q : Vmm} (virt_addr phys_addr flags : ℕ)
    → Tables root q
    → ((a : ℕ) → lookup root q a ≡ lookup root s a)
    → (is_aligned virt_addr && is_aligned phys_addr ≡ false) ⊎ Exhausted q
    → Maps root s virt_addr phys_addr flags (q, false)
refused virt_addr phys_addr flags v h why = record {
  tables = v;
  success = λ e. absurd cc;
  only_aligned = λ e. absurd cc;
  failure = λ e. h;
  reason = λ e. why;
}

module _ {root : ℕ} {s : Vmm} (v : Tables root s) (virt_addr phys_addr flags : ℕ)
    (aligned : is_aligned virt_addr && is_aligned phys_addr ≡ true) where
  -- Once both tables are there.
  mapped :
      {s1 s2 : Vmm} {pdpt pd : ℕ} (e1 : Ensured v root (pml4_index virt_addr) s1 pdpt)
      → Ensured e1.tables pdpt (pdpt_index virt_addr) s2 pd
      → Maps root s virt_addr phys_addr flags (map_page virt_addr phys_addr flags (s2, some pd))
  mapped {s1} {s2} {pdpt} {pd} e1 e2 =
      let entry = huge_entry phys_addr flags in
      let w = e2.tables in
      let phys : phys_addr % 2 ^ 21 ≡ 0 = (==_iff (phys_addr % 2 ^ 21) 0).0 (ground arith) in
      let pdpt_level : e1.tables.level pdpt ≡ 3 = omega (arith, e1.child_level, v.root_level) in
      let root_level : e1.tables.level root ≡ 4 =
        omega (arith, e1.keeps root (omega (arith, v.root_level)), v.root_level) in
      let pd_level : w.level pd ≡ 2 = omega (arith, e2.child_level, pdpt_level) in
      let pdpt_level' : w.level pdpt ≡ 3 =
        omega (arith, e2.keeps pdpt (omega (arith, pdpt_level)), pdpt_level) in
      let apart : slot root (pml4_index virt_addr) ≢ slot pdpt (pdpt_index virt_addr) = λ e.
        let u =
          same_slot e1.tables (omega (arith, root_level)) (omega (arith, pdpt_level)) (omega arith)
            (omega arith) e in
        absurd (omega (arith, ap e1.tables.level u.0, root_level, pdpt_level)) in
      let word : s2.words (slot root (pml4_index virt_addr))
          ≡ s1.words (slot root (pml4_index virt_addr)) =
        e2.keeps_words root (pml4_index virt_addr) (omega (arith, root_level)) (omega arith)
          apart in
      let points : Points (s2.words (slot root (pml4_index virt_addr))) pdpt =
        subst (λ (x : ℕ). Points x pdpt) (sym word) e1.points in
      let origin : w.origin pdpt ≡ slot root (pml4_index virt_addr) =
        e2.keeps_origin pdpt (omega (arith, pdpt_level)) ∙ e1.child_origin in
      let sees0 = stored-Sees w pd (pd_index virt_addr) entry pd_level (omega arith) in
      let sees1 =
        climb w pd (pd_index virt_addr) entry pd_level (omega arith) 0 pd
          (λ a. index 0 a == pd_index virt_addr) sees0 pdpt (pdpt_index virt_addr) pdpt_level'
          (omega arith) e2.points e2.child_origin in
      let sees2 =
        climb w pd (pd_index virt_addr) entry pd_level (omega arith) 1 pdpt
          (λ a. index 1 a == pdpt_index virt_addr && index 0 a == pd_index virt_addr) sees1 root
          (pml4_index virt_addr) w.root_level (omega arith) points origin in
      record {
        tables = stored-Tables w pd (pd_index virt_addr) entry pd_level (omega arith);
        success = λ e a.
            sees2 root a w.root_level
            ∙ ap (λ (c : Bool). if c then leaf entry else walk s2 2 root a)
                (rw (==_refl root) (same_indices a virt_addr))
            ∙ ap₂ (λ (x y : Option Page). if same_page a virt_addr then x else y)
                (leaf-huge_entry phys_addr flags phys)
                (e2.walks 2 root a root_level ∙ e1.walks 2 root a v.root_level);
        only_aligned = λ e. aligned;
        failure = λ e. absurd cc;
        reason = λ e. absurd cc;
      }

  aligned-Maps :
      Maps root s virt_addr phys_addr flags
        (map_in virt_addr phys_addr flags (ensure_table s root (pml4_index virt_addr)))
  aligned-Maps =
      let i4 = pml4_index virt_addr in
      let i3 = pdpt_index virt_addr in
      elim (ensure_table-Outcome v root i4 (omega (arith, v.root_level)) (omega arith)) [
        | inl (e, none_free) ↦
            rw e (refused virt_addr phys_addr flags v (λ a. refl) (inr none_free))
        | inr (pdpt, some_pdpt, e1) ↦
            let s1 = (ensure_table s root i4).0 in
            let level : e1.tables.level pdpt ≡ 3 = omega (arith, e1.child_level, v.root_level) in
            rw some_pdpt
              (elim (ensure_table-Outcome e1.tables pdpt i3 (omega (arith, level)) (omega arith)) [
                | inl (e, none_free) ↦ rw e (
                    refused virt_addr phys_addr flags e1.tables
                      (λ a. e1.walks 2 root a v.root_level) (inr none_free))
                | inr (pd, some_pd, e2) ↦ rw some_pd (mapped e1 e2)
              ])
      ]

-- On page tables that form a tree whose frames are in use, `vmm_map_2m` keeps them so. If it succeeds,
-- the addresses in the page of `virt_addr` have the physical page and the permissions asked for, and
-- all others the mapping they had; both addresses are multiples of 2 MiB then. If it fails, every address has the mapping it had, and one of the
-- addresses is not a multiple of 2 MiB or no frame below 1 GiB is free.
pub map_2m-Maps :
    {root : ℕ} {s : Vmm}
    → Tables root s
    → (virt_addr phys_addr flags : ℕ)
    → Maps root s virt_addr phys_addr flags (map_2m root s virt_addr phys_addr flags)
unfolding map_2m
map_2m-Maps {root} {s} v virt_addr phys_addr flags =
    elim (Bool-cases (is_aligned virt_addr && is_aligned phys_addr)) [
      | inl both ↦
          let virt : (virt_addr % 2 ^ 21 == 0) ≡ true = ground arith in
          let phys : (phys_addr % 2 ^ 21 == 0) ≡ true = ground arith in
          rw (virt, phys) (aligned-Maps v virt_addr phys_addr flags both)
      | inr off ↦
          let misaligned : (not (virt_addr % 2 ^ 21 == 0) || not (phys_addr % 2 ^ 21 == 0)) ≡ true =
            ground arith in
          rw misaligned (refused virt_addr phys_addr flags v (λ a. refl) (inl off))
    ]
