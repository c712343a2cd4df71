-- ===== src/Prelude/Lists.antt =====
-- Lists measured by native numbers, and C arrays as functions of the index.
use Prim.Native.Nat.{ℕ, zero, suc, ◌+◌, ◌-◌, ◌≤◌, min}
use mathlib.Core.Path.{◌≡◌, refl, ap, fun_ext}
use mathlib.Core.Logic.{◌≢◌, inl, inr}
use mathlib.Core.List.{List, [], ◌∷◌, ◌++◌}
use native.Mathlib.Omega.{arith}
use walu_os.Prelude.Tests.{◌==◌, if◌then◌else◌, ==_refl, ==_ne, Bool-cases}

module _ {ℓ} {A : Type ℓ} where
  abbrev pub length : List A → ℕ
  length [] = 0
  length (x ∷ xs) = suc (length xs)

  abbrev pub take : ℕ → List A → List A
  take zero xs = []
  take (suc n) [] = []
  take (suc n) (x ∷ xs) = x ∷ take n xs

  abbrev pub drop : ℕ → List A → List A
  drop zero xs = xs
  drop (suc n) [] = []
  drop (suc n) (x ∷ xs) = drop n xs

  abbrev pub replicate : ℕ → A → List A
  replicate zero a = []
  replicate (suc n) a = a ∷ replicate n a

  -- An array is read by application; a store changes one cell.
  abbrev pub set : (ℕ → A) → ℕ → A → ℕ → A
  set a i v j = if j == i then v else a j

  pub set_self : (a : ℕ → A) (i : ℕ) (v : A) → set a i v i ≡ v
  set_self a i v = rw (==_refl i)

  pub set_other : (a : ℕ → A) (i j : ℕ) (v : A) → j ≢ i → set a i v j ≡ a j
  set_other a i j v ne = rw (==_ne j i ne)

  -- A property of every cell survives a store of a value that has it.
  pub set_all {κ} :
      (P : A → Type κ) (a : ℕ → A) (k : ℕ) (v : A)
      → ((i : ℕ) → P (a i))
      → P v
      → (i : ℕ) → P (set a k v i)
  set_all P a k v h hv i = elim (Bool-cases (i == k)) [ inl e ↦ rw e hv | inr e ↦ rw e (h i) ]

  pub length-append : (xs ys : List A) → length (xs ++ ys) ≡ length xs + length ys
  length-append [] ys = omega arith
  length-append (x ∷ xs) ys = omega (arith, length-append xs ys)

  pub length-take : (n : ℕ) (xs : List A) → length (take n xs) ≡ min n (length xs)
  length-take zero xs = omega arith
  length-take (suc n) [] = omega arith
  length-take (suc n) (x ∷ xs) = omega (arith, length-take n xs)

  pub length-drop : (n : ℕ) (xs : List A) → length (drop n xs) ≡ length xs - n
  length-drop zero xs = omega arith
  length-drop (suc n) [] = omega arith
  length-drop (suc n) (x ∷ xs) = omega (arith, length-drop n xs)

  pub length-replicate : (n : ℕ) (a : A) → length (replicate n a) ≡ n
  length-replicate zero a = refl
  length-replicate (suc n) a = ap suc (length-replicate n a)

  pub take_all : (n : ℕ) (xs : List A) → length xs ≤ n → take n xs ≡ xs
  take_all zero [] h = refl
  take_all zero (x ∷ xs) h = absurd (omega arith)
  take_all (suc n) [] h = refl
  take_all (suc n) (x ∷ xs) h = ap (◌∷◌ x) (take_all n xs (omega arith))

  pub drop_all : (n : ℕ) (xs : List A) → length xs ≤ n → drop n xs ≡ []
  drop_all zero [] h = refl
  drop_all zero (x ∷ xs) h = absurd (omega arith)
  drop_all (suc n) [] h = refl
  drop_all (suc n) (x ∷ xs) h = drop_all n xs (omega arith)

  pub take-append_length : (xs ys : List A) → take (length xs) (xs ++ ys) ≡ xs
  take-append_length [] ys = refl
  take-append_length (x ∷ xs) ys = ap (◌∷◌ x) (take-append_length xs ys)

  pub drop-append_length : (xs ys : List A) → drop (length xs) (xs ++ ys) ≡ ys
  drop-append_length [] ys = refl
  drop-append_length (x ∷ xs) ys = drop-append_length xs ys

  -- `take` matches on `suc`, the code counts down by `- 1`.
  pub take_of_ne_zero :
      (n : ℕ) (x : A) (xs : List A) → n ≢ 0 → take n (x ∷ xs) ≡ x ∷ take (n - 1) xs
  take_of_ne_zero zero x xs h = absurd (h refl)
  take_of_ne_zero (suc n) x xs h = ap (λ k. x ∷ take k xs) (omega arith)

module _ {ℓ κ} {A : Type ℓ} {B : Type κ} where
  -- A view of the cells commutes with a store.
  pub map-set :
      (f : A → B) (a : ℕ → A) (k : ℕ) (v : A) → (λ i. f (set a k v i)) ≡ set (λ i. f (a i)) k (f v)
  map-set f a k v = fun_ext λ i. elim (Bool-cases (i == k)) [ inl e ↦ rw e | inr e ↦ rw e ]

pub take-nil {ℓ} : (A : Type ℓ) (n : ℕ) → take {A = A} n [] ≡ []
take-nil A zero = refl
take-nil A (suc n) = refl

abbrev pub All {ℓ κ} : {A : Type ℓ} → (A → Type κ) → List A → Type κ
All P [] = Unit
All P (x ∷ xs) = P x × All P xs
