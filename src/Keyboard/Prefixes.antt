-- ===== src/Keyboard/Prefixes.antt =====
-- What kernel/src/core/keyboard.c makes of particular sequences of scancodes.
use walu_os.Prelude.{
  ℕ, ◌≡◌, ◌≢◌, ◌<◌, refl, ap, ap₂, sym, ◌∙◌, Bool, true, false, ==_ne, List, [], ◌∷◌, ◌++◌,
  append-nil, take_all,
}
use walu_os.Keyboard.Keycode.{number, scancode_to_key, key_rightshift}
use walu_os.Keyboard.Keymap.{shift_on}
use walu_os.Keyboard.Defs.{Keyboard, KeyEvent, on_irqs}
use walu_os.Keyboard.Queue.{pending, byte_capacity, length-pending}
use walu_os.Keyboard.Event.{
  pending_events, event_capacity, Inv, Decoder, decoder_of, read_code, decode_all,
}
use walu_os.Keyboard.Notes.{length-pending_events}
use walu_os.Keyboard.Refine.{on_irqs-Handles}
use walu_os.Keyboard.Modifiers.{release_one_shift}

-- No prefix is pending.
pub record AtRest (k : Keyboard) : Type 0 where
  pub inv : Inv k
  pub no_e0 : k.extended ≡ false
  pub no_skip : k.e1_skip ≡ 0

abbrev at_rest : Decoder → Decoder
at_rest d = record d { extended = false; e1_skip = 0 }

decoder_at_rest : {k : Keyboard} → AtRest k → decoder_of k ≡ at_rest (decoder_of k)
decoder_at_rest {k} r =
    ap₂ {A = Bool} {B = ℕ} {C = Decoder}
      (λ e n. record (decoder_of k) { extended = e; e1_skip = n }) r.no_e0 r.no_skip

-- The scancodes of the Pause key, sent when it is pressed; it sends none when released.
abbrev pub pause : List ℕ
pause = 0xe1 ∷ 0x1d ∷ 0x45 ∷ 0xe1 ∷ 0x9d ∷ 0xc5 ∷ []

-- Five scancodes are skipped, and the second E1 of the sequence sets the count to five again.
pause_skips :
    (d : Decoder) (a b c : ℕ)
    → (a ≢ 0xe0) × (a ≢ 0xe1) × (b ≢ 0xe0) × (b ≢ 0xe1) × (c ≢ 0xe0) × (c ≢ 0xe1)
    → decode_all (at_rest d) (pause ++ (a ∷ b ∷ c ∷ [])) ≡ (at_rest d, [])
unfolding decode_all read_code
pause_skips d a b c (a0, a1, b0, b1, c0, c1) = rw (
  ==_ne a 0xe0 a0,
  ==_ne a 0xe1 a1,
  ==_ne b 0xe0 b0,
  ==_ne b 0xe1 b1,
  ==_ne c 0xe0 c0,
  ==_ne c 0xe1 c1,
)

-- The Pause key leaves the handler waiting to skip three more scancodes: of the keys typed next, the
-- first three scancodes are lost whatever they are (a prefix apart), without an event, a byte or a
-- change of a flag.
pub pause_swallows :
    {k : Keyboard} (a b c : ℕ)
    → AtRest k
    → (a ≢ 0xe0) × (a ≢ 0xe1) × (b ≢ 0xe0) × (b ≢ 0xe1) × (c ≢ 0xe0) × (c ≢ 0xe1)
    → let out = on_irqs k (pause ++ (a ∷ b ∷ c ∷ [])) in
      (pending_events out ≡ pending_events k)
      × (pending out ≡ pending k)
      × (decoder_of out ≡ decoder_of k)
pause_swallows {k} a b c r (a0, a1, b0, b1, c0, c1) =
    let codes = pause ++ (a ∷ b ∷ c ∷ []) in
    let h = on_irqs-Handles codes r.inv in
    let same : decode_all (decoder_of k) codes ≡ (decoder_of k, []) =
      ap (λ (d : Decoder). decode_all d codes) (decoder_at_rest r)
      ∙ pause_skips (decoder_of k) a b c (a0, a1, b0, b1, c0, c1)
      ∙ ap (λ (d : Decoder). (d, [])) (sym (decoder_at_rest r)) in
    (
      h.events
          ∙ rw (ap (λ (x : Decoder × List KeyEvent). x.1) same, append-nil)
              (take_all event_capacity (pending_events k) (length-pending_events r.inv)),
      h.bytes
          ∙ rw (ap (λ (x : Decoder × List KeyEvent). x.1) same, append-nil)
              (take_all byte_capacity (pending k) (length-pending r.inv.bytes_ok)),
      h.decoder ∙ ap (λ (x : Decoder × List KeyEvent). x.0) same,
    )

shifts_released :
    (d : Decoder)
    → d.flags.modifiers < 32
    → let out = (decode_all (at_rest d) (0x2a ∷ 0x36 ∷ 0xaa ∷ [])).0 in
      (out.key_down (number key_rightshift) ≡ true) × (shift_on out.flags.modifiers ≡ false)
unfolding decode_all read_code scancode_to_key
shifts_released d h = (refl, release_one_shift d.flags h)

-- With both Shift keys pressed and the left one released, the Shift flag is clear while the right Shift key
-- is still marked as held.
pub release_one_shift-on_irqs :
    {k : Keyboard}
    → AtRest k
    → let out = on_irqs k (0x2a ∷ 0x36 ∷ 0xaa ∷ []) in
      (out.key_down (number key_rightshift) ≡ true) × (shift_on out.flags.modifiers ≡ false)
release_one_shift-on_irqs {k} r =
    let h = on_irqs-Handles (0x2a ∷ 0x36 ∷ 0xaa ∷ []) r.inv in
    let e : decoder_of (on_irqs k (0x2a ∷ 0x36 ∷ 0xaa ∷ []))
        ≡ (decode_all (at_rest (decoder_of k)) (0x2a ∷ 0x36 ∷ 0xaa ∷ [])).0 =
      h.decoder
      ∙ ap (λ (d : Decoder). (decode_all d (0x2a ∷ 0x36 ∷ 0xaa ∷ [])).0) (decoder_at_rest r) in
    let s = shifts_released (decoder_of k) r.inv.modifiers_in in
    (
      ap (λ (d : Decoder). d.key_down (number key_rightshift)) e ∙ s.0,
      ap (λ (d : Decoder). shift_on d.flags.modifiers) e ∙ s.1,
    )
