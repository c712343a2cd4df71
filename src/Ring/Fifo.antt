-- ===== src/Ring/Fifo.antt =====
-- The ring as a first-in first-out queue of at most `size - 1` elements.
use walu_os.Prelude.{
  ℕ, zero, suc, ◌+◌, ◌-◌, ◌%◌, ◌≤◌, ◌<◌, ◌≡◌, ◌≢◌, ◌⊎◌, ◌↔◌, refl, ap, ap₂, sym, ◌∙◌, true, ==_iff,
  ==_ne, [], ◌∷◌, ◌++◌, set, length, length-append, arith,
}
use walu_os.Ring.{Ring, InBounds, is_full, is_empty, put, drop_front, front, count, cells, contents}
use native.Mathlib.Numerals.{add-one}
use walu_os.Ring.Wrap.{wrap_cases, wrap-lt, wrap_ne, wrap_suc}

module _ {ℓ} {A : Type ℓ} (size : ℕ) where
  -- A store at or past the end of a window leaves it alone.
  cells-set :
      (queue : ℕ → A) (start k i head : ℕ) (x : A)
      → start < size
      → k ≤ i
      → i < size
      → head ≡ (start + i) % size
      → cells size (set queue head x) start k ≡ cells size queue start k
  cells-set queue start zero i head x hs hk hi e = refl
  cells-set queue start (suc k) i head x hs hk hi e =
      ap₂ (λ l v. l ++ (v ∷ [])) (cells-set queue start k i head x hs (omega arith) hi e)
        (rw (==_ne ((start + k) % size) head (λ p. wrap_ne start k i hs hk hi (p ∙ e))))

  -- A store just past a window extends it.
  cells-set_end :
      (queue : ℕ → A) (start k head : ℕ) (x : A)
      → start < size
      → k < size
      → head ≡ (start + k) % size
      → cells size (set queue head x) start (suc k) ≡ cells size queue start k ++ (x ∷ [])
  cells-set_end queue start k head x hs hk e =
      ap₂ (λ l v. l ++ (v ∷ [])) (cells-set queue start k k head x hs (omega arith) hk e)
        (rw ((==_iff ((start + k) % size) head).1 (sym e)))

  -- The oldest cell comes first.
  cells-suc :
      (queue : ℕ → A) (start k : ℕ)
      → start < size
      → k < size
      → cells size queue start (suc k) ≡ queue start ∷ cells size queue ((start + 1) % size) k
  cells-suc queue start zero hs hk =
      ap (λ i. queue i ∷ []) (omega (arith, wrap_cases {size = size} (start + 0) (omega arith)))
  cells-suc queue start (suc k) hs hk = rw (cells-suc queue start k hs (omega arith)) (
      ap (λ i. queue start ∷ (cells size queue ((start + 1) % size) k ++ (queue i ∷ [])))
        (ap (λ i. (start + i) % size) (omega arith) ∙ sym (wrap_suc start k hs (omega arith))))

  length-cells : (queue : ℕ → A) (start k : ℕ) → length (cells size queue start k) ≡ k
  length-cells queue start zero = refl
  length-cells queue start (suc k) = omega (
    arith,
    length-append (cells size queue start k) (queue ((start + k) % size) ∷ []),
    length-cells queue start k,
  )

  module _ (r : Ring A) (b : InBounds size r) where
    count_cases :
        ((r.tail ≤ r.head) × (count size r ≡ r.head - r.tail))
        ⊎ ((r.head < r.tail) × (count size r ≡ r.head + size - r.tail))
    unfolding count
    count_cases =
        omega (arith, b, wrap_cases {size = size} (r.head + size - r.tail) (omega (arith, b)))

    pub count-lt : count size r < size
    count-lt = omega (arith, b, count_cases)

    -- The head is the cell just past the contents.
    head-count : r.head ≡ (r.tail + count size r) % size
    head-count = omega (
      arith,
      b,
      count_cases,
      wrap_cases {size = size} (r.tail + count size r) (omega (arith, b, count-lt)),
    )

    pub length-contents : length (contents size r) ≡ count size r
    unfolding contents
    length-contents = length-cells r.queue r.tail (count size r)

    pub is_full_iff : (is_full size r ≡ true) ↔ (count size r + 1 ≡ size)
    unfolding is_full
    is_full_iff = (
      λ h. omega (
        arith,
        b,
        count_cases,
        (==_iff _ _).0 h,
        wrap_cases {size = size} (r.head + 1) (omega (arith, b)),
      ),
      λ h.
          (==_iff _ _).1 (
            omega
              (arith, b, count_cases, wrap_cases {size = size} (r.head + 1) (omega (arith, b)))),
    )

    pub is_empty_iff : (is_empty r ≡ true) ↔ (count size r ≡ 0)
    unfolding is_empty
    is_empty_iff = (
      λ h. omega (arith, b, count_cases, (==_iff _ _).0 h),
      λ h. (==_iff _ _).1 (omega (arith, b, count_cases)),
    )

    pub contents_of_empty : is_empty r ≡ true → contents size r ≡ []
    unfolding contents
    contents_of_empty h = rw (is_empty_iff.0 h)

    pub put-InBounds : (x : A) → InBounds size (put size r x)
    unfolding put
    put-InBounds x = record {
      head_in = wrap-lt (r.head + 1) (omega (arith, b));
      tail_in = b.tail_in;
    }

    pub drop_front-InBounds : InBounds size (drop_front size r)
    unfolding drop_front
    drop_front-InBounds = record {
      head_in = b.head_in;
      tail_in = wrap-lt (r.tail + 1) (omega (arith, b));
    }

  module _ (r : Ring A) (b : InBounds size r) where
    pub count-put : (x : A) → count size r + 1 < size → count size (put size r x) ≡ count size r + 1
    unfolding put
    count-put x h = omega (
      arith,
      b,
      count_cases r b,
      count_cases (put size r x) (put-InBounds r b x),
      wrap_cases {size = size} (r.head + 1) (omega (arith, b)),
    )

    pub count-drop_front : count size r ≢ 0 → count size r ≡ suc (count size (drop_front size r))
    unfolding drop_front
    count-drop_front h = omega (
      arith,
      b,
      count_cases r b,
      count_cases (drop_front size r) (drop_front-InBounds r b),
      wrap_cases {size = size} (r.tail + 1) (omega (arith, b)),
    )

    -- A stored element goes to the end.
    pub contents-put :
        (x : A)
        → count size r + 1 < size
        → contents size (put size r x) ≡ contents size r ++ (x ∷ [])
    unfolding contents put
    contents-put x h =
        rw (count-put x h, add-one)
          (cells-set_end r.queue r.tail (count size r) r.head x b.tail_in (omega arith)
            (head-count r b))

    -- The front is the first of the contents, and dropping it leaves the others.
    pub contents-drop_front :
        count size r ≢ 0 → contents size r ≡ front r ∷ contents size (drop_front size r)
    unfolding contents front drop_front
    contents-drop_front h = rw (count-drop_front h) (
        cells-suc r.queue r.tail (count size (drop_front size r)) b.tail_in
          (omega (arith, b, count-lt r b, count-drop_front h)))
