-- ===== src/Keyboard/Refine.antt =====
-- The interrupt handler of kernel/src/core/keyboard.c over any sequence of scancodes.
use walu_os.Prelude.{
  ℕ, ◌+◌, ◌≡◌, refl, ap, sym, subst, ◌∙◌, List, [], ◌∷◌, ◌++◌, append-nil, append_assoc, length,
  length-append, length-take, take, take_all, arith,
}
use walu_os.Keyboard.Defs.{Keyboard, KeyEvent, on_irq, on_irqs}
use walu_os.Keyboard.Queue.{pending, byte_capacity, length-pending}
use walu_os.Ring.Offer.{take-take-append}
use walu_os.Keyboard.Event.{
  pending_events, event_capacity, Inv, bytes_of, event_bytes, Decoder, decoder_of, decode_all,
}
use walu_os.Keyboard.Irq.{Handles, on_irq-Handles}
use walu_os.Keyboard.Notes.{length-pending_events}

bytes_of-append : (es fs : List KeyEvent) → bytes_of (es ++ fs) ≡ bytes_of es ++ bytes_of fs
bytes_of-append [] fs = refl
bytes_of-append (e ∷ es) fs =
    rw (bytes_of-append es fs) (sym (append_assoc (event_bytes e) (bytes_of es) (bytes_of fs)))

Handles-append :
    {k mid out : Keyboard} {d d' : Decoder} {es fs : List KeyEvent} {m n t : ℕ}
    → Inv k
    → Handles k d es m mid
    → Handles mid d' fs n out
    → t ≡ m + n
    → Handles k d' (es ++ fs) t out
Handles-append {k} {mid} {out} {d} {d'} {es} {fs} {m} {n} {t} v h r sum = record {
  inv = r.inv;
  decoder = r.decoder;
  events =
      r.events
      ∙ rw h.events (
          take-take-append event_capacity (pending_events k ++ es) fs
          ∙ ap (take event_capacity) (append_assoc (pending_events k) es fs));
  bytes =
      r.bytes
      ∙ rw (h.bytes, bytes_of-append es fs)
          (take-take-append byte_capacity (pending k ++ bytes_of es) (bytes_of fs)
            ∙ ap (take byte_capacity) (append_assoc (pending k) (bytes_of es) (bytes_of fs)));
  event_drops = omega (
    arith,
    r.event_drops,
    h.event_drops,
    ap length h.events,
    length-take event_capacity (pending_events k ++ es),
    length-append (pending_events k) es,
    length-append es fs,
    length-pending_events v,
  );
  byte_drops = omega (
    arith,
    r.byte_drops,
    h.byte_drops,
    ap length h.bytes,
    length-take byte_capacity (pending k ++ bytes_of es),
    length-append (pending k) (bytes_of es),
    length-append (bytes_of es) (bytes_of fs),
    ap length (bytes_of-append es fs),
    length-pending v.bytes_ok,
  );
  counted = omega (arith, r.counted, h.counted, sum);
}

Handles-nil : {k : Keyboard} → Inv k → Handles k (decoder_of k) [] 0 k
Handles-nil {k} v = record {
  inv = v;
  decoder = refl;
  events =
      rw append-nil (sym (take_all event_capacity (pending_events k) (length-pending_events v)));
  bytes = rw append-nil (sym (take_all byte_capacity (pending k) (length-pending v.bytes_ok)));
  event_drops = omega (arith, v.event_drops_fit, length-pending_events v);
  byte_drops = omega (arith, v.bytes_ok.drops_fit, length-pending v.bytes_ok);
  counted = omega (arith, v.rx_fits);
}

-- Interrupts with any bytes from the port keep the driver's invariant and do what the decoder does: the
-- prefixes, flags and held keys are the decoder's, its events go to the queue of events and the bytes of
-- those events to the queue of bytes, each queue cut at its capacity (255 and 1023), and every event
-- and byte that there was no room for, and every scancode, is counted (modulo 2 ^ 64).
pub on_irqs-Handles :
    (scancodes : List ℕ) {k : Keyboard}
    → Inv k
    → let (d, es) = decode_all (decoder_of k) scancodes in
      Handles k d es (length scancodes) (on_irqs k scancodes)
unfolding on_irqs decode_all
on_irqs-Handles [] v = Handles-nil v
on_irqs-Handles (s ∷ ss) {k} v =
    let h = on_irq-Handles v s in
    let r = on_irqs-Handles ss h.inv in
    Handles-append v h
      (subst
        (λ d.
          Handles (on_irq k s) (decode_all d ss).0 (decode_all d ss).1 (length ss)
            (on_irqs (on_irq k s) ss))
        h.decoder r)
      (omega arith)
