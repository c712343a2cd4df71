-- ===== src/Userland/Storaged/Table.antt =====
-- The mount table that the kernel writes, read by `is_device_mounted`.
use walu_os.Prelude.{
  ℕ, zero, suc, ◌+◌, ◌≤◌, ◌<◌, ◌≡◌, ◌≢◌, ◌↔◌, ◌⊎◌, refl, ap, ◌∙◌, true, false, not, if◌then◌else◌,
  some, List, [], ◌∷◌, ◌++◌, Bytes, same, same_iff, All, NoneOf, AllOf, length, take, drop,
  take_while, drop_while, take_while-append, take_all, drop-append_length, length-append, arith,
}
use walu_os.Userland.Storaged.Mounts.{
  is_space, word, word_at, scan_entry, skip_ints, mounted_from, is_device_mounted,
}

-- What `%<n>s` reads whole.
pub record IsWord (n : ℕ) (w : Bytes) : Type 0 where
  pub more : w ≢ []
  pub plain : NoneOf is_space w
  pub fits : length w ≤ n

pub record Row : Type 0 where
  pub dev : Bytes
  pub dir : Bytes
  pub fstype : Bytes
  pub opts : Bytes

pub record IsRow (r : Row) : Type 0 where
  pub dev_word : IsWord 255 r.dev
  pub dir_word : IsWord 255 r.dir
  pub fstype_word : IsWord 63 r.fstype
  pub opts_word : IsWord 255 r.opts

-- One line, with something behind it.
abbrev line : Row → Bytes → Bytes
line r rest =
    r.dev
    ++ b' '
      ∷ (r.dir ++ b' ' ∷ (r.fstype ++ b' ' ∷ (r.opts ++ b' ' ∷ b'0' ∷ b' ' ∷ b'0' ∷ b'\n' ∷ rest)))

abbrev pub table : List Row → Bytes
table [] = []
table (r ∷ rs) = line r (table rs)

abbrev pub Lists : Bytes → List Row → Type 0
Lists device [] = ⊥
Lists device (r ∷ rs) = (r.dev ≡ device) ⊎ Lists device rs

NoneOf-not : (w : Bytes) → NoneOf is_space w → AllOf (λ c. not (is_space c)) w
NoneOf-not [] h = tt
NoneOf-not (c ∷ w) (hc, h) = (rw hc refl, NoneOf-not w h)

word-append : (n : ℕ) (w r : Bytes) → IsWord n w → word n (w ++ b' ' ∷ r) ≡ some (w, b' ' ∷ r)
unfolding word
word-append n [] r h = absurd (h.more refl)
word-append n (c ∷ w) r h =
    let s = c ∷ w ++ b' ' ∷ r in
    let read : take n (take_while (λ x. not (is_space x)) s) ≡ c ∷ w =
      ap (take n)
        (take_while-append (λ x. not (is_space x)) (c ∷ w) b' ' r (NoneOf-not (c ∷ w) h.plain) refl)
      ∙ take_all n (c ∷ w) h.fits in
    let start : drop_while is_space s ≡ s = rw (h.plain.0) refl in
    ap (word_at n) start
    ∙ ap (λ v. some (v, drop (length v) s)) read
    ∙ ap (λ rest. some (c ∷ w, rest)) (drop-append_length (c ∷ w) (b' ' ∷ r))

word_behind :
    (n : ℕ) (w r : Bytes) → IsWord n w → word n (b' ' ∷ (w ++ b' ' ∷ r)) ≡ some (w, b' ' ∷ r)
unfolding word
word_behind n w r h = word-append n w r h

-- The two numbers at the end of a line.
skip_ints_zeros :
    (rest : Bytes) → skip_ints (b' ' ∷ b'0' ∷ b' ' ∷ b'0' ∷ b'\n' ∷ rest) ≡ b'\n' ∷ rest
unfolding skip_ints
skip_ints_zeros rest = refl

scan_entry-line :
    (r : Row) (rest : Bytes) → IsRow r → scan_entry (line r rest) ≡ some (r.dev, b'\n' ∷ rest)
unfolding scan_entry
scan_entry-line r rest h =
    rw
      (
        word-append 255 r.dev _ h.dev_word,
        word_behind 255 r.dir _ h.dir_word,
        word_behind 63 r.fstype _ h.fstype_word,
        word_behind 255 r.opts _ h.opts_word,
        skip_ints_zeros rest,
      )
      refl

mounted_newline :
    (n : ℕ) (s device : Bytes) → mounted_from n (b'\n' ∷ s) device ≡ mounted_from n s device
unfolding mounted_from scan_entry word
mounted_newline zero s device = refl
mounted_newline (suc n) s device = refl

mounted_from_nil : (n : ℕ) (device : Bytes) → mounted_from (suc n) [] device ≡ false
unfolding mounted_from scan_entry word
mounted_from_nil n device = refl

mounted_from-line :
    (n : ℕ) (r : Row) (rest device : Bytes)
    → IsRow r
    → mounted_from (suc n) (line r rest) device
      ≡ (if same r.dev device then true else mounted_from n rest device)
unfolding mounted_from
mounted_from-line n r rest device h =
    rw (scan_entry-line r rest h, mounted_from) (rw (mounted_newline n rest device))

mounted_from-table :
    (n : ℕ) (rs : List Row) (device : Bytes)
    → All IsRow rs
    → length rs < n
    → (mounted_from n (table rs) device ≡ true) ↔ Lists device rs
mounted_from-table zero rs device h lt = absurd (omega arith)
mounted_from-table (suc n) [] device h lt = ground (arith, mounted_from_nil n device)
mounted_from-table (suc n) (r ∷ rs) device (hr, h) lt =
    let rest = mounted_from-table n rs device h (omega (arith, lt)) in
    ground (arith, mounted_from-line n r (table rs) device hr, rest, same_iff r.dev device)

length-line : (r : Row) (rest : Bytes) → length rest < length (line r rest)
length-line r rest =
    let zeros = b' ' ∷ b'0' ∷ b' ' ∷ b'0' ∷ b'\n' ∷ rest in
    let opts = b' ' ∷ (r.opts ++ zeros) in
    let fstype = b' ' ∷ (r.fstype ++ opts) in
    let dir = b' ' ∷ (r.dir ++ fstype) in
    omega (
      arith,
      length-append r.opts zeros,
      length-append r.fstype opts,
      length-append r.dir fstype,
      length-append r.dev dir,
    )

length-table : (rs : List Row) → length rs ≤ length (table rs)
length-table [] = omega arith
length-table (r ∷ rs) = omega (arith, length-table rs, length-line r (table rs))

-- Of a mount table whose fields are words that fit the buffers, `is_device_mounted` says exactly
-- whether some entry names the device.
pub is_device_mounted-table :
    (rs : List Row) (device : Bytes)
    → All IsRow rs
    → (is_device_mounted (some (table rs)) device ≡ true) ↔ Lists device rs
unfolding is_device_mounted
is_device_mounted-table rs device h =
    mounted_from-table (length (table rs) + 1) rs device h (omega (arith, length-table rs))
