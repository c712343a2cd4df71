-- ===== src/Keyboard/Irq.antt =====
-- What one interrupt of kernel/src/core/keyboard.c does to the two queues and to the flags.
use walu_os.Prelude.{
  ℕ, ◌+◌, ◌-◌, ◌%◌, ◌≡◌, ◌<◌, ◌≤◌, refl, ap, sym, subst, ◌∙◌, inl, inr, Bool, true, false, ◌==◌,
  leb, ltb, List, [], ◌∷◌, ◌++◌, append-nil, length, take, take_all, u64, inc64, bit_and, arith,
  Bool-cases, bit_and_127,
}
use walu_os.Ring.{InBounds}
use walu_os.Keyboard.Keycode.{number, key_max}
use walu_os.Keyboard.Keymap.{Flags}
use walu_os.Keyboard.Defs.{
  Keyboard, KeyEvent, event_queue_size, byte_queue_size, push_event, emit_sequence,
  emit_input_bytes, on_key, decode, on_irq,
}
use walu_os.Keyboard.Queue.{
  pending, byte_capacity, length-pending, ByteQueueOk, emit_sequence-Emits,
}
use walu_os.Keyboard.Event.{
  pending_events, event_capacity, Inv, event_bytes, emit_input_bytes-event_bytes, event_of,
  bytes_of, Decoder, decoder_of, read_code, next,
}
use walu_os.Keyboard.Ranges.{FlagsOk, update_state-FlagsOk, decode-lt}
use walu_os.Keyboard.Notes.{length-pending_events, push_event-Notes}

-- Interrupts add to both queues what their events give, as far as there is room, count what there is no
-- room for, and leave the decoder in the given state.
pub record Handles (k : Keyboard) (d : Decoder) (es : List KeyEvent) (count : ℕ) (out : Keyboard)
    : Type 0 where
  pub inv : Inv out
  pub decoder : decoder_of out ≡ d
  pub events : pending_events out ≡ take event_capacity (pending_events k ++ es)
  pub bytes : pending out ≡ take byte_capacity (pending k ++ bytes_of es)
  pub event_drops :
      out.drop_event_count
      ≡ u64 (k.drop_event_count + (length (pending_events k) + length es - event_capacity))
  pub byte_drops :
      out.drop_byte_count
      ≡ u64 (k.drop_byte_count + (length (pending k) + length (bytes_of es) - byte_capacity))
  pub counted : out.rx_scancode_count ≡ u64 (k.rx_scancode_count + count)

le→leb_false : {a b : ℕ} → a < b → leb b a ≡ false
le→leb_false {a} {b} h = ground arith

module _ {k : Keyboard} (v : Inv k) where
  -- A scancode that gives no event.
  ignored :
      (extended : Bool) (skip : ℕ)
      → skip ≤ 5
      → Handles k
          (record (decoder_of k) { extended = extended; e1_skip = skip })
          []
          1
          (record k {
            rx_scancode_count = inc64 k.rx_scancode_count;
            extended = extended;
            e1_skip = skip;
          })
  ignored extended skip h = record {
    inv = record {
      bytes_ok = record { bytes_in = v.bytes_ok.bytes_in; drops_fit = v.bytes_ok.drops_fit };
      events_in = v.events_in;
      event_drops_fit = v.event_drops_fit;
      skip_in = h;
      modifiers_in = v.modifiers_in;
      locks_in = v.locks_in;
      rx_fits = omega arith;
    };
    decoder = refl;
    events =
        rw append-nil (sym (take_all event_capacity (pending_events k) (length-pending_events v)));
    bytes = rw append-nil (sym (take_all byte_capacity (pending k) (length-pending v.bytes_ok)));
    event_drops = omega (arith, v.event_drops_fit, length-pending_events v);
    byte_drops = omega (arith, v.bytes_ok.drops_fit, length-pending v.bytes_ok);
    counted = refl;
  }

  -- The keyboard once the key is known, before the two queues change.
  abbrev noted : (ℕ → Bool) → Flags → Keyboard
  noted down flags = record k {
    rx_scancode_count = inc64 k.rx_scancode_count;
    extended = false;
    key_down = down;
    flags = flags;
  }

  on_event :
      (e : KeyEvent) (down : ℕ → Bool) (flags : Flags)
      → FlagsOk flags
      → Handles k
          (record (decoder_of k) { extended = false; flags = flags; key_down = down })
          (e ∷ [])
          1
          (emit_input_bytes (push_event (noted down flags) e) e)
  on_event e down flags f =
      let v' : Inv (noted down flags) = record {
        bytes_ok = record { bytes_in = v.bytes_ok.bytes_in; drops_fit = v.bytes_ok.drops_fit };
        events_in = v.events_in;
        event_drops_fit = v.event_drops_fit;
        skip_in = v.skip_in;
        modifiers_in = f.modifiers_in;
        locks_in = f.locks_in;
        rx_fits = omega arith;
      } in
      let n = push_event-Notes e v' in
      let pushed = push_event (noted down flags) e in
      let ok : ByteQueueOk pushed = record {
        bytes_in =
            subst (λ (q : Keyboard). InBounds byte_queue_size q.bytes) (sym n.rest)
              v.bytes_ok.bytes_in;
        drops_fit =
            omega (arith, ap (λ (q : Keyboard). q.drop_byte_count) n.rest, v.bytes_ok.drops_fit);
      } in
      let s = emit_sequence-Emits (event_bytes e) ok in
      let out = emit_sequence pushed (event_bytes e) in
      let same : pending pushed ≡ pending k = ap pending n.rest in
      subst (Handles k _ (e ∷ []) 1) (sym (emit_input_bytes-event_bytes pushed e)) (record {
        inv = record {
          bytes_ok = s.ok;
          events_in =
              subst (λ (q : Keyboard). InBounds event_queue_size q.events) (sym s.rest) n.inside;
          event_drops_fit = omega (arith, ap (λ (q : Keyboard). q.drop_event_count) s.rest, n.fits);
          skip_in = omega (
            arith,
            ap (λ (q : Keyboard). q.e1_skip) s.rest,
            ap (λ (q : Keyboard). q.e1_skip) n.rest,
            v.skip_in,
          );
          modifiers_in = omega (
            arith,
            ap (λ (q : Keyboard). q.flags.modifiers) s.rest,
            ap (λ (q : Keyboard). q.flags.modifiers) n.rest,
            f.modifiers_in,
          );
          locks_in = omega (
            arith,
            ap (λ (q : Keyboard). q.flags.locks) s.rest,
            ap (λ (q : Keyboard). q.flags.locks) n.rest,
            f.locks_in,
          );
          rx_fits = omega (
            arith,
            ap (λ (q : Keyboard). q.rx_scancode_count) s.rest,
            ap (λ (q : Keyboard). q.rx_scancode_count) n.rest,
          );
        };
        decoder = ap decoder_of s.rest ∙ ap decoder_of n.rest;
        events = ap (λ (q : Keyboard). pending_events q) s.rest ∙ n.events;
        bytes = s.reads ∙ rw (same, append-nil);
        event_drops = ap (λ (q : Keyboard). q.drop_event_count) s.rest ∙ n.drops;
        byte_drops = omega (
          arith,
          s.drops,
          ap length same,
          ap length (append-nil (event_bytes e)),
          ap (λ (q : Keyboard). q.drop_byte_count) n.rest,
        );
        counted =
            ap (λ (q : Keyboard). q.rx_scancode_count) s.rest
            ∙ ap (λ (q : Keyboard). q.rx_scancode_count) n.rest;
      })

  pub on_irq-Handles :
      (scancode : ℕ)
      → let code = read_code (decoder_of k) scancode in
        Handles k (next (decoder_of k) code) (event_of (decoder_of k) code) 1 (on_irq k scancode)
  unfolding on_irq on_key read_code
  on_irq-Handles scancode =
      let low = bit_and_127 scancode in
      let known : leb key_max (number (decode k (scancode % 128))) ≡ false =
        le→leb_false (decode-lt k (scancode % 128) (omega arith)) in
      let flags_ok : FlagsOk k.flags = record {
        modifiers_in = v.modifiers_in;
        locks_in = v.locks_in;
      } in
      elim (Bool-cases (scancode == 0xe0)) [
        | inl e0 ↦ rw e0 (ignored true k.e1_skip v.skip_in)
        | inr not_e0 ↦ elim (Bool-cases (scancode == 0xe1)) [
          | inl e1 ↦ rw (not_e0, e1) (ignored k.extended 5 (omega arith))
          | inr not_e1 ↦ elim (Bool-cases (ltb 0 k.e1_skip)) [
            | inl skip ↦
                rw (not_e0, not_e1, skip)
                  (ignored k.extended (k.e1_skip - 1) (omega (arith, v.skip_in)))
            | inr live ↦ elim (Bool-cases (number (decode k (scancode % 128)) == 0)) [
              | inl no_key ↦
                  rw (low, not_e0, not_e1, live, no_key) (ignored false k.e1_skip v.skip_in)
              | inr keyed ↦
                  let key = decode k (scancode % 128) in
                  elim (Bool-cases (bit_and scancode 0x80 == 0)) [
                    | inl pressed ↦
                        rw (low, not_e0, not_e1, live, keyed, known, pressed)
                          (on_event _ _ _ (update_state-FlagsOk key true k.flags flags_ok))
                    | inr released ↦
                        rw (low, not_e0, not_e1, live, keyed, known, released)
                          (on_event _ _ _ (update_state-FlagsOk key false k.flags flags_ok))
                  ]
            ]
          ]
        ]
      ]
