-- ===== src/Ring/Offer.antt =====
-- The queues of kernel/src/core/keyboard.c, which drop what they have no cell for.
use walu_os.Prelude.{
  ℕ, zero, suc, ◌-◌, ◌≡◌, ◌<◌, refl, ap, sym, true, false, List, [], ◌∷◌, ◌++◌, length,
  length-append, take, take_all, take-append_length, arith,
}
use walu_os.Ring.{Ring, InBounds, is_full, put, contents}
use walu_os.Ring.Fifo.{length-contents, count-lt, is_full_iff, contents-put}

pub take-take-append {ℓ} :
    {A : Type ℓ} (n : ℕ) (xs ys : List A) → take n (take n xs ++ ys) ≡ take n (xs ++ ys)
take-take-append zero xs ys = refl
take-take-append (suc n) [] ys = refl
take-take-append (suc n) (x ∷ xs) ys = ap (◌∷◌ x) (take-take-append n xs ys)

module _ {ℓ} {A : Type ℓ} (size : ℕ) (r : Ring A) (b : InBounds size r) where
  pub is_full-length : is_full size r ≡ true → length (contents size r) ≡ size - 1
  is_full-length full = omega (arith, length-contents size r b, (is_full_iff size r b).0 full)

  pub not_full_length : is_full size r ≡ false → length (contents size r) < size - 1
  not_full_length more =
      ground (arith, length-contents size r b, count-lt size r b, is_full_iff size r b)

  -- What is put into a queue is cut at `size - 1` elements, whether it had room or not.
  pub contents_of_full :
      (x : A)
      → is_full size r ≡ true
      → contents size r ≡ take (size - 1) (contents size r ++ (x ∷ []))
  contents_of_full x full =
      let e : size - 1 ≡ length (contents size r) = sym (is_full-length full) in
      rw e (sym (take-append_length (contents size r) (x ∷ [])))

  pub contents-put_room :
      (x : A)
      → is_full size r ≡ false
      → contents size (put size r x) ≡ take (size - 1) (contents size r ++ (x ∷ []))
  contents-put_room x more =
      let n = length-contents size r b in
      let room = not_full_length more in
      rw (contents-put size r b x (omega (arith, n))) (
        sym (
          take_all (size - 1) (contents size r ++ (x ∷ []))
            (omega (arith, length-append (contents size r) (x ∷ [])))))
