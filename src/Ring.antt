-- ===== src/Ring.antt =====
-- The circular queue that kernel/src/core/keyboard.c, tty.c and pty.c each write out: an array with
-- a head (where the next element is stored) and a tail (where the oldest one lies). It is full when
-- one more step of the head would reach the tail, so one cell always stays empty.
pub mod Wrap
pub mod Fifo
pub mod Offer
use walu_os.Prelude.{ℕ, zero, suc, ◌+◌, ◌-◌, ◌%◌, ◌<◌, Bool, ◌==◌, List, [], ◌∷◌, ◌++◌, set}

pub record Ring {ℓ} (A : Type ℓ) : Type ℓ where
  pub queue : ℕ → A
  pub head : ℕ
  pub tail : ℕ

abbrev pub advance : ℕ → ℕ → ℕ
advance size i = (i + 1) % size

module _ {ℓ} {A : Type ℓ} (size : ℕ) where
  unfoldable pub is_full : Ring A → Bool
  is_full r = advance size r.head == r.tail

  unfoldable pub put : Ring A → A → Ring A
  put r x = record r { queue = set r.queue r.head x; head = advance size r.head }

  unfoldable pub drop_front : Ring A → Ring A
  drop_front r = record r { tail = advance size r.tail }

  -- The elements held, the oldest first.
  unfoldable pub count : Ring A → ℕ
  count r = (r.head + size - r.tail) % size

  abbrev pub cells : (ℕ → A) → ℕ → ℕ → List A
  cells queue start zero = []
  cells queue start (suc k) = cells queue start k ++ (queue ((start + k) % size) ∷ [])

  unfoldable pub contents : Ring A → List A
  unfolding count
  contents r = cells r.queue r.tail (count r)

module _ {ℓ} {A : Type ℓ} where
  unfoldable pub is_empty : Ring A → Bool
  is_empty r = r.tail == r.head

  unfoldable pub front : Ring A → A
  front r = r.queue r.tail

-- Both indices lie inside the array.
pub record InBounds {ℓ} {A : Type ℓ} (size : ℕ) (r : Ring A) : Type 0 where
  pub head_in : r.head < size
  pub tail_in : r.tail < size
