-- ===== src/Keyboard/Modifiers.antt =====
-- What the modifier and lock keys of kernel/src/core/keyboard.c do to letters and to the flags.
use walu_os.Prelude.{
  ℕ, ◌+◌, ◌-◌, ◌≡◌, ◌<◌, refl, ap, ◌∙◌, inl, inr, Bool, true, false, not, ◌==◌, ==_iff,
  if◌then◌else◌, bit_and, bit_or, bit_xor, arith, Bool-cases, all_below, all_below-holds,
}
use mathlib.Core.Bool.{xor}
use walu_os.Keyboard.Keycode.{
  Key, key_leftshift, key_rightshift, key_capslock, key_numlock, key_scrolllock,
}
use walu_os.Keyboard.Keymap.{
  Flags, update_state, apply_alpha, shift_on, ctrl_on, has_bit, lock_caps, set_modifier_bit,
}

not-inj : {b : Bool} → not b ≡ true → b ≡ false
not-inj {b} h = ground arith

and_31 : (n : ℕ) → n < 26 → (bit_and (n + 65) 0x1f ≡ n + 1) × (bit_and (n + 97) 0x1f ≡ n + 1)
and_31 n h = (
  (==_iff _ _).0 (all_below-holds (λ k. bit_and (k + 65) 0x1f == (k + 1)) 26 refl n h),
  (==_iff _ _).0 (all_below-holds (λ k. bit_and (k + 97) 0x1f == (k + 1)) 26 refl n h),
)

-- With Ctrl a letter key gives the letter's place in the alphabet, whatever Shift and Caps Lock are; without
-- it, the capital letter if just one of Shift and Caps Lock is on, and else the small one.
pub apply_alpha-letter :
    (n modifiers locks : ℕ)
    → n < 26
    → apply_alpha (b'a' + n) modifiers locks ≡ (
        if ctrl_on modifiers
        then n + 1
        else (if xor (shift_on modifiers) (has_bit locks lock_caps) then b'A' + n else b'a' + n))
unfolding apply_alpha
apply_alpha-letter n modifiers locks h =
    let lower : bit_and (97 + n) 0x1f ≡ n + 1 =
      ap (λ (k : ℕ). bit_and k 0x1f) (omega arith) ∙ (and_31 n h).1 in
    let upper : bit_and (97 + n - 32) 0x1f ≡ n + 1 =
      ap (λ (k : ℕ). bit_and k 0x1f) (omega arith) ∙ (and_31 n h).0 in
    elim (Bool-cases (ctrl_on modifiers)) [
      | inl ctrl ↦ elim (Bool-cases (xor (shift_on modifiers) (has_bit locks lock_caps))) [
        | inl capital ↦ rw (ctrl, capital) upper
        | inr small ↦ rw (ctrl, small) lower
      ]
      | inr plain ↦ elim (Bool-cases (xor (shift_on modifiers) (has_bit locks lock_caps))) [
        | inl capital ↦ rw (plain, capital) (omega arith)
        | inr small ↦ rw (plain, small)
      ]
    ]

lock_twice : (n : ℕ) → n < 8 → (bit : ℕ) → bit < 8 → bit_xor (bit_xor n bit) bit ≡ n
lock_twice n h bit hb = (==_iff _ _).0 (
    all_below-holds (λ b. bit_xor (bit_xor n b) b == n) 8
      (all_below-holds (λ m. all_below 8 (λ b. bit_xor (bit_xor m b) b == m)) 8 refl n h) bit hb)

abbrev pub press_release : Key → Flags → Flags
press_release key f = update_state key false (update_state key true f)

-- Caps Lock, Num Lock and Scroll Lock change on a press and not on a release, and two presses with their
-- releases restore the flags.
pub lock_keys-press_release :
    (f : Flags)
    → f.locks < 8
    → (press_release key_capslock f ≡ record f { locks = bit_xor f.locks lock_caps })
      × (press_release key_capslock (press_release key_capslock f) ≡ f)
      × (press_release key_numlock (press_release key_numlock f) ≡ f)
      × (press_release key_scrolllock (press_release key_scrolllock f) ≡ f)
unfolding update_state
lock_keys-press_release f h = (
  refl,
  ap (λ (l : ℕ). record f { locks = l }) (lock_twice f.locks h 1 (omega arith)),
  ap (λ (l : ℕ). record f { locks = l }) (lock_twice f.locks h 2 (omega arith)),
  ap (λ (l : ℕ). record f { locks = l }) (lock_twice f.locks h 4 (omega arith)),
)

shift_cleared : (m : ℕ) → m < 32 → shift_on (bit_and (bit_or (bit_or m 1) 1) 254) ≡ false
unfolding shift_on
shift_cleared m h =
    not-inj
      (all_below-holds (λ k. not (shift_on (bit_and (bit_or (bit_or k 1) 1) 254))) 32 refl m h)

-- With both Shift keys held, the release of one of them clears the Shift flag, although the other is
-- still down.
pub release_one_shift :
    (f : Flags)
    → f.modifiers < 32
    → shift_on
        (update_state key_leftshift false
          (update_state key_rightshift true (update_state key_leftshift true f))).modifiers
      ≡ false
unfolding update_state set_modifier_bit
release_one_shift f h = shift_cleared f.modifiers h
