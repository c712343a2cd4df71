-- ===== src/Keyboard/Queue.antt =====
-- What kernel/src/core/keyboard.c puts into its queue of bytes.
use walu_os.Prelude.{
  ℕ, ◌+◌, ◌-◌, ◌^◌, ◌≡◌, ◌<◌, ◌≤◌, refl, ap, sym, ◌∙◌, inl, inr, List, [], ◌∷◌, ◌++◌, append-nil,
  append_assoc, length, length-append, length-take, take, take_all, u64, arith, Bool-cases,
}
use walu_os.Ring.{InBounds, is_full, contents}
use walu_os.Ring.Fifo.{length-contents, count-lt, put-InBounds}
use walu_os.Ring.Offer.{
  contents_of_full, contents-put_room, take-take-append, is_full-length, not_full_length,
}
use walu_os.Keyboard.Defs.{Keyboard, push_byte, emit_sequence, byte_queue_size}

-- The bytes that wait for `keyboard_pop_char`.
abbrev pub pending : Keyboard → List ℕ
pending k = contents byte_queue_size k.bytes

-- A queue of 1024 cells holds 1023 bytes.
abbrev pub byte_capacity : ℕ
byte_capacity = 1023

pub record ByteQueueOk (k : Keyboard) : Type 0 where
  pub bytes_in : InBounds byte_queue_size k.bytes
  pub drops_fit : k.drop_byte_count < 2 ^ 64

-- `bs` went to the queue of bytes as far as they fit, each byte that did not was counted, and nothing else
-- changed.
pub record Emits (k : Keyboard) (bs : List ℕ) (out : Keyboard) : Type 0 where
  pub ok : ByteQueueOk out
  pub reads : pending out ≡ take byte_capacity (pending k ++ bs)
  pub drops :
      out.drop_byte_count
      ≡ u64 (k.drop_byte_count + (length (pending k) + length bs - byte_capacity))
  pub rest : out ≡ record k { bytes = out.bytes; drop_byte_count = out.drop_byte_count }

pub length-pending : {k : Keyboard} → ByteQueueOk k → length (pending k) ≤ byte_capacity
length-pending {k} v = omega (
  arith,
  length-contents byte_queue_size k.bytes v.bytes_in,
  count-lt byte_queue_size k.bytes v.bytes_in,
)

pub push_byte-Emits : {k : Keyboard} (b : ℕ) → ByteQueueOk k → Emits k (b ∷ []) (push_byte k b)
unfolding push_byte
push_byte-Emits {k} b v = elim (Bool-cases (is_full byte_queue_size k.bytes)) [
  | inl full ↦
      let n = is_full-length byte_queue_size k.bytes v.bytes_in full in
      rw full (record {
        ok = record { bytes_in = v.bytes_in; drops_fit = omega arith };
        reads = contents_of_full byte_queue_size k.bytes v.bytes_in b full;
        drops = ap (λ (j : ℕ). u64 (k.drop_byte_count + j)) (omega (arith, n));
        rest = refl;
      })
  | inr more ↦
      let n = not_full_length byte_queue_size k.bytes v.bytes_in more in
      rw more (record {
        ok = record {
          bytes_in = put-InBounds byte_queue_size k.bytes v.bytes_in b;
          drops_fit = v.drops_fit;
        };
        reads = contents-put_room byte_queue_size k.bytes v.bytes_in b more;
        drops = omega (arith, n, v.drops_fit);
        rest = refl;
      })
]

pub Emits-nil : {k : Keyboard} → ByteQueueOk k → Emits k [] k
Emits-nil {k} v = record {
  ok = v;
  reads = rw append-nil (sym (take_all byte_capacity (pending k) (length-pending v)));
  drops = omega (arith, v.drops_fit, length-pending v);
  rest = refl;
}

pub Emits-append :
    {k mid out : Keyboard} {bs cs : List ℕ}
    → ByteQueueOk k
    → Emits k bs mid
    → Emits mid cs out
    → Emits k (bs ++ cs) out
Emits-append {k} {mid} {out} {bs} {cs} v d e = record {
  ok = e.ok;
  reads =
      e.reads
      ∙ rw d.reads (
          take-take-append byte_capacity (pending k ++ bs) cs
          ∙ ap (take byte_capacity) (append_assoc (pending k) bs cs));
  drops = omega (
    arith,
    e.drops,
    d.drops,
    ap length d.reads,
    length-take byte_capacity (pending k ++ bs),
    length-append (pending k) bs,
    length-append bs cs,
    length-pending v,
  );
  rest =
      e.rest
      ∙ ap {A = Keyboard} {B = Keyboard}
          (λ t. record t { bytes = out.bytes; drop_byte_count = out.drop_byte_count }) d.rest;
}

pub emit_sequence-Emits :
    (bs : List ℕ) {k : Keyboard} → ByteQueueOk k → Emits k bs (emit_sequence k bs)
unfolding emit_sequence
emit_sequence-Emits [] v = Emits-nil v
emit_sequence-Emits (b ∷ bs) {k} v =
    let d = push_byte-Emits b v in Emits-append v d (emit_sequence-Emits bs d.ok)
