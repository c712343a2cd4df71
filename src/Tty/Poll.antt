-- ===== src/Tty/Poll.antt =====
-- `tty_poll_input` of kernel/src/core/tty.c: the loop that empties the keyboard's queue of bytes.
use walu_os.Prelude.{
  ℕ, zero, suc, ◌≡◌, ◌≢◌, ◌<◌, refl, ap, sym, subst, ◌∙◌, inl, inr, true, false, none, some, [],
  ◌∷◌, length, arith, Bool-cases,
}
use walu_os.Ring.{is_empty, contents, count, front, drop_front}
use walu_os.Ring.Fifo.{is_empty_iff, contents_of_empty, contents-drop_front, drop_front-InBounds}
use walu_os.Keyboard.{Keyboard, byte_queue_size}
use walu_os.Keyboard
use walu_os.Keyboard.Queue.{pending, ByteQueueOk, length-pending}
use walu_os.Tty.Defs.{Io, receive, inject_bytes}

-- The loop, with the number of rounds left first; no interrupt comes between its rounds.
unfoldable pub poll_from : ℕ → Io → Keyboard → Io × Keyboard
poll_from zero io k = (io, k)
poll_from (suc n) io k =
    let (k', c) = Keyboard.pop_char k in
    elim c [ none ↦ (io, k') | some byte ↦ poll_from n (receive io byte) k' ]

-- A full queue takes 1023 rounds, and one more to see that it is empty.
unfoldable pub poll_input : Io → Keyboard → Io × Keyboard
poll_input io k = poll_from byte_queue_size io k

record Polled (io : Io) (k : Keyboard) (out : Io × Keyboard) : Type 0 where
  received : out.0 ≡ inject_bytes io (pending k)
  emptied : pending out.1 ≡ []
  ok : ByteQueueOk out.1
  rest : out.1 ≡ record k { bytes = out.1.bytes }

pop_char_empty : (k : Keyboard) → is_empty k.bytes ≡ true → Keyboard.pop_char k ≡ (k, none)
unfolding Keyboard.pop_char
pop_char_empty k h = rw h

pop_char_more :
    (k : Keyboard)
    → is_empty k.bytes ≡ false
    → Keyboard.pop_char k
      ≡ (record k { bytes = drop_front byte_queue_size k.bytes }, some (front k.bytes))
unfolding Keyboard.pop_char
pop_char_more k h = rw h

poll_from_empty :
    (n : ℕ) (io : Io) (k : Keyboard) → is_empty k.bytes ≡ true → poll_from (suc n) io k ≡ (io, k)
unfolding poll_from
poll_from_empty n io k h = rw (pop_char_empty k h, poll_from) (rw (pop_char_empty k h))

poll_from_more :
    (n : ℕ) (io : Io) (k : Keyboard)
    → is_empty k.bytes ≡ false
    → poll_from (suc n) io k
      ≡ poll_from n
          (receive io (front k.bytes))
          (record k { bytes = drop_front byte_queue_size k.bytes })
unfolding poll_from
poll_from_more n io k h = rw (pop_char_more k h, poll_from) (rw (pop_char_more k h))

poll_from-Polled :
    (n : ℕ) {io : Io} {k : Keyboard}
    → ByteQueueOk k
    → length (pending k) < n
    → Polled io k (poll_from n io k)
unfolding inject_bytes
poll_from-Polled zero v h = absurd (omega arith)
poll_from-Polled (suc n) {io} {k} v h =
    let full_iff = is_empty_iff byte_queue_size k.bytes v.bytes_in in
    elim (Bool-cases (is_empty k.bytes)) [
      | inl empty ↦
          let none_left : pending k ≡ [] =
            contents_of_empty byte_queue_size k.bytes v.bytes_in empty in
          subst (Polled io k) (sym (poll_from_empty n io k empty))
            (record { received = rw none_left; emptied = none_left; ok = v; rest = refl })
      | inr more ↦
          let some_left : count byte_queue_size k.bytes ≢ 0 =
            λ z. absurd (ground (arith, full_iff.1 z, more)) in
          let e : pending k
              ≡ front k.bytes ∷ contents byte_queue_size (drop_front byte_queue_size k.bytes) =
            contents-drop_front byte_queue_size k.bytes v.bytes_in some_left in
          let next = record k { bytes = drop_front byte_queue_size k.bytes } in
          let v' : ByteQueueOk next = record {
            bytes_in = drop_front-InBounds byte_queue_size k.bytes v.bytes_in;
            drops_fit = v.drops_fit;
          } in
          let r =
            poll_from-Polled n {io = receive io (front k.bytes)} {k = next} v'
              (omega (arith, ap length e)) in
          subst (Polled io k) (sym (poll_from_more n io k more)) (record {
            received = r.received ∙ sym (ap (inject_bytes io) e);
            emptied = r.emptied;
            ok = r.ok;
            rest = r.rest;
          })
    ]

-- Polling gives every byte that waits in the keyboard's queue to the line discipline, in order, and
-- stops with that queue empty and nothing else of the keyboard changed; 1024 rounds of the loop are
-- always enough.
pub poll_input-inject_bytes :
    (io : Io) (k : Keyboard)
    → ByteQueueOk k
    → let out = poll_input io k in
      (out.0 ≡ inject_bytes io (pending k))
      × (pending out.1 ≡ [])
      × ByteQueueOk out.1
      × (out.1 ≡ record k { bytes = out.1.bytes })
unfolding poll_input
poll_input-inject_bytes io k v =
    let r =
      poll_from-Polled byte_queue_size {io = io} {k = k} v (omega (arith, length-pending v)) in
    (r.received, r.emptied, r.ok, r.rest)
