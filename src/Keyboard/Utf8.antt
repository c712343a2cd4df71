-- ===== src/Keyboard/Utf8.antt =====
-- The encoder of kernel/src/core/keyboard.c against UTF-8 written with quotients and remainders.
use walu_os.Prelude.{
  ℕ, ◌+◌, ◌/◌, ◌%◌, ◌≡◌, ◌<◌, refl, ap, inl, inr, ◌&&◌, ◌==◌, ==_iff, leb, if◌then◌else◌, List, [],
  ◌∷◌, u8, bit_and, bit_or, arith, Bool-cases, all_below-holds, bit_and_63,
}
use walu_os.Keyboard.Defs.{Keyboard, push_byte, emit_sequence, emit_utf8}

-- The six bits of a continuation byte.
abbrev pub tail_byte : ℕ → ℕ
tail_byte n = 0x80 + n % 64

-- RFC 3629: nothing for a surrogate or beyond U+10FFFF.
unfoldable pub encode : ℕ → List ℕ
encode cp =
    if leb cp 0x7f
    then cp ∷ []
    else (if leb cp 0x7ff
        then (0xc0 + cp / 64) ∷ tail_byte cp ∷ []
        else (if leb cp 0xffff
            then (if leb 0xd800 cp && leb cp 0xdfff
                then []
                else (0xe0 + cp / 4096) ∷ tail_byte (cp / 64) ∷ tail_byte cp ∷ [])
            else (if leb cp 0x10ffff
                then (0xf0 + cp / 262144)
                  ∷ tail_byte (cp / 4096)
                  ∷ tail_byte (cp / 64)
                  ∷ tail_byte cp
                  ∷ []
                else [])))

-- A byte whose low bits are clear takes a small number by `|` as by a sum.
or_tail : (n : ℕ) → u8 (bit_or 0x80 (bit_and n 0x3f)) ≡ tail_byte n
or_tail n = rw (bit_and_63 n) (
    (==_iff (u8 (bit_or 0x80 (n % 64))) (0x80 + n % 64)).0
      (all_below-holds (λ k. u8 (bit_or 0x80 k) == (0x80 + k)) 64 refl (n % 64) (omega arith)))

or_lead2 : (n : ℕ) → n < 32 → u8 (bit_or 0xc0 n) ≡ 0xc0 + n
or_lead2 n h =
    (==_iff (u8 (bit_or 0xc0 n)) (0xc0 + n)).0
      (all_below-holds (λ k. u8 (bit_or 0xc0 k) == (0xc0 + k)) 32 refl n h)

or_lead3 : (n : ℕ) → n < 16 → u8 (bit_or 0xe0 n) ≡ 0xe0 + n
or_lead3 n h =
    (==_iff (u8 (bit_or 0xe0 n)) (0xe0 + n)).0
      (all_below-holds (λ k. u8 (bit_or 0xe0 k) == (0xe0 + k)) 16 refl n h)

or_lead4 : (n : ℕ) → n < 8 → u8 (bit_or 0xf0 n) ≡ 0xf0 + n
or_lead4 n h =
    (==_iff (u8 (bit_or 0xf0 n)) (0xf0 + n)).0
      (all_below-holds (λ k. u8 (bit_or 0xf0 k) == (0xf0 + k)) 8 refl n h)

-- For every code point, the encoder puts the bytes of its UTF-8 encoding into the queue, one after the
-- other, and nothing for a surrogate or a number beyond U+10FFFF.
pub emit_utf8-encode : (k : Keyboard) (cp : ℕ) → emit_utf8 k cp ≡ emit_sequence k (encode cp)
unfolding emit_utf8 emit_sequence encode
emit_utf8-encode k cp = elim (Bool-cases (leb cp 0x7f)) [
  | inl one ↦ rw one (ap (push_byte k) (ground arith))
  | inr more1 ↦ elim (Bool-cases (leb cp 0x7ff)) [
    | inl two ↦ rw (more1, two, or_tail cp, or_lead2 (cp / 64) (ground arith))
    | inr more2 ↦ elim (Bool-cases (leb cp 0xffff)) [
      | inl three ↦ elim (Bool-cases (leb 0xd800 cp && leb cp 0xdfff)) [
        | inl surrogate ↦ rw (more1, more2, three, surrogate)
        | inr valid ↦ rw (
          more1,
          more2,
          three,
          valid,
          or_tail cp,
          or_tail (cp / 64),
          or_lead3 (cp / 4096) (ground arith),
        )
      ]
      | inr more3 ↦ elim (Bool-cases (leb cp 0x10ffff)) [
        | inl four ↦ rw (
          more1,
          more2,
          more3,
          four,
          or_tail cp,
          or_tail (cp / 64),
          or_tail (cp / 4096),
          or_lead4 (cp / 262144) (ground arith),
        )
        | inr beyond ↦ rw (more1, more2, more3, beyond)
      ]
    ]
  ]
]
