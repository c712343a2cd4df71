-- ===== src/Pmm/Cells.antt =====
-- One bit of a byte of the bitmap of kernel/src/core/pmm.c.
use walu_os.Prelude.{
  ℕ, ◌-◌, ◌^◌, ◌≡◌, ◌<◌, refl, Bool, true, false, not, ◌&&◌, ◌||◌, ◌==◌, ltb, ltb→lt, u8, bit_and,
  bit_or, arith, all_below, all_below-holds,
}

abbrev pub bit : ℕ → ℕ → Bool
bit c i = not (bit_and c (2 ^ i) == 0)

abbrev same : Bool → Bool → Bool
same true b = b
same false b = not b

same→≡ : (a b : Bool) → same a b ≡ true → a ≡ b
same→≡ true true h = refl
same→≡ true false h = cc
same→≡ false true h = cc
same→≡ false false h = refl

module _ (p : ℕ → ℕ → ℕ → Bool)
    (table : all_below 256 (λ c. all_below 8 (λ i. all_below 8 (λ j. p c i j))) ≡ true) where
  every_bit : (c i j : ℕ) → c < 256 → i < 8 → j < 8 → p c i j ≡ true
  every_bit c i j hc hi hj =
      all_below-holds (λ j. p c i j) 8
        (all_below-holds (λ i. all_below 8 (λ j. p c i j)) 8
          (all_below-holds (λ c. all_below 8 (λ i. all_below 8 (λ j. p c i j))) 256 table c hc) i
          hi)
        j hj

pub bit-or :
    (c i j : ℕ) → c < 256 → i < 8 → j < 8 → bit (u8 (bit_or c (2 ^ i))) j ≡ (j == i) || bit c j
bit-or c i j hc hi hj = same→≡ _ _ (
    every_bit (λ c i j. same (bit (u8 (bit_or c (2 ^ i))) j) (j == i || bit c j)) refl c i j hc hi
      hj)

pub bit-and_not :
    (c i j : ℕ)
    → c < 256
    → i < 8
    → j < 8
    → bit (bit_and c (255 - 2 ^ i)) j ≡ not (j == i) && bit c j
bit-and_not c i j hc hi hj = same→≡ _ _ (
    every_bit (λ c i j. same (bit (bit_and c (255 - 2 ^ i)) j) (not (j == i) && bit c j)) refl c i j
      hc hi hj)

pub and_not-lt : (c i : ℕ) → c < 256 → i < 8 → bit_and c (255 - 2 ^ i) < 256
and_not-lt c i hc hi =
    ltb→lt _ _
      (every_bit (λ c i j. ltb (bit_and c (255 - 2 ^ i)) 256) refl c i 0 hc hi (omega arith))

pub full-bit : (j : ℕ) → j < 8 → bit 255 j ≡ true
full-bit j hj = all_below-holds (bit 255) 8 refl j hj
