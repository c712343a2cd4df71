-- ===== src/Vmm/Entry.antt =====
-- The entry that `vmm_map_2m` of kernel/src/core/vmm.c stores for a page of 2 MiB.
use walu_os.Prelude.{
  ℕ, ◌+◌, ◌*◌, ◌/◌, ◌%◌, ◌^◌, ◌<◌, ◌≤◌, ◌≡◌, refl, sym, ap, ap₂, ◌∙◌, Bool, true, false, not, ◌==◌,
  if◌then◌else◌, some, bit_and, bit_and_1, bit_or, bit_or-split, bit_or-zero, zero-bit_or, arith,
}
use walu_os.Vmm.Defs.{
  page_huge, page_present, page_writable, page_user, page_nx, entry_flags, huge_entry,
  flag_writable, flag_user, flag_nx,
}
use walu_os.Vmm.Walk.{Page, leaf}

abbrev pub has : ℕ → ℕ → Bool
has flags flag = not (bit_and flags flag == 0)

-- What is asked for: the physical address, cut to 52 bits, and the three permissions.
abbrev pub wanted : ℕ → ℕ → Page
wanted phys_addr flags = record {
  base = phys_addr % 2 ^ 52;
  writable = has flags flag_writable;
  user = has flags flag_user;
  no_execute = has flags flag_nx;
}

entry_or :
    (q n c : ℕ)
    → q < 2 ^ 31
    → c < 2 ^ 21
    → bit_or (q * 2 ^ 21) (n * 2 ^ 63 + c) ≡ n * 2 ^ 63 + q * 2 ^ 21 + c
entry_or q n c hq hc =
    let left : q * 2 ^ 21 ≡ q * 2 ^ 21 + 0 = omega arith in
    let right : n * 2 ^ 63 + c ≡ n * 2 ^ 42 * 2 ^ 21 + c = omega arith in
    let low_q : q ≡ 0 * 2 ^ 42 + q = omega arith in
    let low_n : n * 2 ^ 42 ≡ n * 2 ^ 42 + 0 = omega arith in
    let none_below : bit_or 0 c ≡ c = zero-bit_or c in
    let high : bit_or q (n * 2 ^ 42) ≡ n * 2 ^ 42 + q =
      ap₂ bit_or low_q low_n
      ∙ bit_or-split 42 0 q n 0 (omega arith) (omega arith) (omega (arith, bit_or-zero q))
      ∙ omega (arith, bit_or-zero q, zero-bit_or n) in
    rw (left, right)
      (bit_or-split 21 q 0 (n * 2 ^ 42) c (omega arith) hc (omega (arith, none_below))
        ∙ omega (arith, high, none_below))

abbrev digit : Bool → ℕ
digit b = if b then 1 else 0

abbrev with_bit : Bool → ℕ → ℕ → ℕ
with_bit b bit entry_flags = if b then bit_or entry_flags bit else entry_flags

flags_sum :
    (n u w : Bool)
    → with_bit n page_nx
        (with_bit u page_user (with_bit w page_writable (bit_or page_present page_huge)))
      ≡ digit n * 2 ^ 63 + (129 + 2 * digit w + 4 * digit u)
flags_sum true true true = refl
flags_sum true true false = refl
flags_sum true false true = refl
flags_sum true false false = refl
flags_sum false true true = refl
flags_sum false true false = refl
flags_sum false false true = refl
flags_sum false false false = refl

entry_flags-is :
    (flags : ℕ)
    → entry_flags flags
      ≡ digit (has flags flag_nx) * 2 ^ 63
        + (129 + 2 * digit (has flags flag_writable) + 4 * digit (has flags flag_user))
unfolding entry_flags
entry_flags-is flags = flags_sum (has flags flag_nx) (has flags flag_user) (has flags flag_writable)

digit-le : (b : Bool) → digit b ≤ 1
digit-le true = omega arith
digit-le false = omega arith

is_one : (b : Bool) (x : ℕ) → x ≡ digit b → (x == 1) ≡ b
is_one true x e = rw e
is_one false x e = rw e

leaf-digits :
    (q : ℕ) (n w u : Bool)
    → q < 2 ^ 31
    → leaf (digit n * 2 ^ 63 + q * 2 ^ 21 + (129 + 2 * digit w + 4 * digit u))
      ≡ some (record { base = q * 2 ^ 21; writable = w; user = u; no_execute = n })
unfolding leaf
leaf-digits q n w u hq =
    let hn = digit-le n in
    let hw = digit-le w in
    let hu = digit-le u in
    let e = digit n * 2 ^ 63 + q * 2 ^ 21 + (129 + 2 * digit w + 4 * digit u) in
    let present : bit_and e 1 ≡ 1 = omega (arith, bit_and_1 e) in
    let huge : e / 128 % 2 ≡ 1 = omega arith in
    let base : e / 2 ^ 21 % 2 ^ 31 ≡ q = omega arith in
    let writable : (e / 2 % 2 == 1) ≡ w = is_one w (e / 2 % 2) (omega arith) in
    let user : (e / 4 % 2 == 1) ≡ u = is_one u (e / 4 % 2) (omega arith) in
    let no_execute : (e / 2 ^ 63 % 2 == 1) ≡ n = is_one n (e / 2 ^ 63 % 2) (omega arith) in
    rw (present, huge, base, writable, user, no_execute) refl

pub leaf-huge_entry :
    (phys_addr flags : ℕ)
    → phys_addr % 2 ^ 21 ≡ 0
    → leaf (huge_entry phys_addr flags) ≡ some (wanted phys_addr flags)
unfolding huge_entry
leaf-huge_entry phys_addr flags h =
    let n = has flags flag_nx in
    let w = has flags flag_writable in
    let u = has flags flag_user in
    let q = phys_addr / 2 ^ 21 % 2 ^ 31 in
    let hw = digit-le w in
    let hu = digit-le u in
    let base : phys_addr % 2 ^ 52 ≡ q * 2 ^ 21 = omega arith in
    let entry : bit_or (q * 2 ^ 21) (entry_flags flags)
        ≡ digit n * 2 ^ 63 + q * 2 ^ 21 + (129 + 2 * digit w + 4 * digit u) =
      ap (bit_or (q * 2 ^ 21)) (entry_flags-is flags)
      ∙ entry_or q (digit n) (129 + 2 * digit w + 4 * digit u) (omega arith) (omega arith) in
    ap leaf entry
    ∙ leaf-digits q n w u (omega arith)
    ∙ ap (λ (b : ℕ). some (record { base = b; writable = w; user = u; no_execute = n })) (sym base)
