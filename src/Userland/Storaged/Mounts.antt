-- ===== src/Userland/Storaged/Mounts.antt =====
-- `is_device_mounted` of userland/storaged/storaged.c, with the conversions of `fscanf` it uses.
use walu_os.Prelude.{
  ℕ, zero, suc, ◌+◌, Bool, true, false, not, ◌&&◌, ◌||◌, if◌then◌else◌, ◌==◌, leb, Option, none,
  some, [], ◌∷◌, Bytes, same, take_while, drop_while, take, drop, length,
}

abbrev pub is_space : ℕ → Bool
is_space c = c == b' ' || (leb 9 c && leb c 13)

abbrev is_digit : ℕ → Bool
is_digit c = leb b'0' c && leb c b'9'

-- `%<n>s` where the next byte is no space.
abbrev pub word_at : ℕ → Bytes → Option (Bytes × Bytes)
word_at n [] = none
word_at n (c ∷ s) =
    let w = take n (take_while (λ x. not (is_space x)) (c ∷ s)) in some (w, drop (length w) (c ∷ s))

-- `%<n>s`: the word and what is left of the file; `none` at its end.
unfoldable pub word : ℕ → Bytes → Option (Bytes × Bytes)
word n s = word_at n (drop_while is_space s)

abbrev unsigned : Bytes → Bytes
unsigned [] = []
unsigned (c ∷ s) = if c == b'-' || c == b'+' then s else c ∷ s

-- The digits of `%*d`, and whether there is any.
abbrev digits : Bytes → Bool × Bytes
digits [] = (false, [])
digits (c ∷ s) = if is_digit c then (true, drop_while is_digit s) else (false, c ∷ s)

-- `%*d`
abbrev skip_int : Bytes → Bool × Bytes
skip_int s = digits (unsigned (drop_while is_space s))

-- `%*d %*d`: the second is tried only if the first has matched.
unfoldable pub skip_ints : Bytes → Bytes
skip_ints s = let (matched, rest) = skip_int s in if matched then (skip_int rest).1 else rest

infixl 5 ◌>>=◌
abbrev ◌>>=◌ {ℓ κ} : {A : Type ℓ} {B : Type κ} → Option A → (A → Option B) → Option B
none >>= f = none
some a >>= f = f a

-- One call of `fscanf`: the device of the entry and the rest of the file, if all four words are there.
unfoldable pub scan_entry : Bytes → Option (Bytes × Bytes)
scan_entry s = do
  (dev, s1) ← word 255 s
  (mountpt, s2) ← word 255 s1
  (fstype, s3) ← word 63 s2
  (opts, s4) ← word 255 s3
  some (dev, skip_ints s4)

-- The loop, with the number of rounds left first.
unfoldable pub mounted_from : ℕ → Bytes → Bytes → Bool
mounted_from zero s device = false
mounted_from (suc n) s device = elim (scan_entry s) [
  | none ↦ false
  | some (dev, rest) ↦ if same dev device then true else mounted_from n rest device
]

-- The argument is the text of `/proc/self/mounts`, or `none` where it cannot be opened. Every entry
-- takes at least one byte, and one more round sees the end.
unfoldable pub is_device_mounted : Option Bytes → Bytes → Bool
is_device_mounted none device = false
is_device_mounted (some s) device = mounted_from (length s + 1) s device
