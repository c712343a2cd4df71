-- ===== src/Pty/Channel.antt =====
-- The two loops of kernel/src/core/pty.c over one queue.
use walu_os.Prelude.{
  ℕ, zero, suc, ◌+◌, ◌-◌, ◌≡◌, ◌≢◌, ◌^◌, ◌<◌, refl, ap, sym, ◌∙◌, inl, inr, List, [], ◌∷◌, ◌++◌,
  length, take, drop, take-nil, take_all, append-nil, append_assoc, min, u64, arith, Bool-cases,
}
use native.Mathlib.Decide.{dec_le}
use walu_os.Ring.{Ring, InBounds, is_full, is_empty, put, drop_front, front, count, contents}
use walu_os.Ring.Fifo.{
  contents_of_empty, count-lt, is_full_iff, is_empty_iff, put-InBounds, drop_front-InBounds,
  count-put, contents-put, contents-drop_front,
}
use walu_os.Pty.Defs.{queue_size, queue_write, queue_read, Write, Read}

-- How many bytes still fit.
abbrev pub room : Ring ℕ → ℕ
room r = queue_size - 1 - count queue_size r

-- What the write loop has done when it stops.
pub record Wrote (r : Ring ℕ) (buf : List ℕ) (written dropped : ℕ) (w : Write) : Type 0 where
  pub inside : InBounds queue_size w.ring
  pub accepted : w.written ≡ written + min (length buf) (room r)
  pub bytes : contents queue_size w.ring ≡ contents queue_size r ++ take (room r) buf
  pub lost : w.dropped ≡ u64 (dropped + (length buf - room r))

-- The write loop appends the bytes that fit, in order, and counts those that do not.
pub queue_write-Wrote :
    (r : Ring ℕ) (buf : List ℕ) (written dropped : ℕ)
    → InBounds queue_size r
    → dropped < 2 ^ 64
    → Wrote r buf written dropped (queue_write r buf written dropped)
unfolding queue_write
queue_write-Wrote r [] written dropped b h = record {
  inside = b;
  accepted = omega arith;
  bytes = rw (take-nil, append-nil);
  lost = omega arith;
}
queue_write-Wrote r (x ∷ xs) written dropped b h = elim (Bool-cases (is_full queue_size r)) [
  | inl full ↦
      let full' = (is_full_iff queue_size r b).0 full in
      let none_left : room r ≡ 0 = omega arith in
      rw full (record {
        inside = b;
        accepted = omega arith;
        bytes = rw (none_left, append-nil);
        lost = ap (λ (k : ℕ). u64 (dropped + k)) (omega arith);
      })
  | inr more ↦
      let more' = is_full_iff queue_size r b in
      let has_room : count queue_size r + 1 < queue_size =
        ground (arith, count-lt queue_size r b) in
      let c = count-put queue_size r b x has_room in
      let fits : room r ≡ suc (room (put queue_size r x)) =
        omega (arith, count-lt queue_size r b) in
      let rest =
        queue_write-Wrote (put queue_size r x) xs (written + 1) dropped
          (put-InBounds queue_size r b x) h in
      rw more (record {
        inside = rest.inside;
        accepted = omega arith;
        bytes =
            rest.bytes
            ∙ rw (contents-put queue_size r b x has_room, append_assoc)
                (ap (λ k. contents queue_size r ++ take k (x ∷ xs)) (sym fits));
        lost = rest.lost ∙ ap (λ (k : ℕ). u64 (dropped + k)) (omega arith);
      })
]

-- The write as its caller sees it: `n` bytes of `buf` went in, and the rest was lost.
pub record Sent (before after : Ring ℕ) (buf : List ℕ) (dropped dropped' n : ℕ) : Type 0 where
  pub sent : n ≡ min (length buf) (room before)
  pub bytes : contents queue_size after ≡ contents queue_size before ++ take n buf
  pub lost : dropped' ≡ u64 (dropped + (length buf - n))
  pub inside : InBounds queue_size after

take-min : (n : ℕ) (xs : List ℕ) → take n xs ≡ take (min (length xs) n) xs
take-min n xs = elim (dec_le (length xs) n) [
  | yes h ↦
      let e : min (length xs) n ≡ length xs = omega arith in
      take_all n xs h ∙ rw e (sym (take_all (length xs) xs (omega arith)))
  | no h ↦ let e : min (length xs) n ≡ n = omega arith in rw e
]

pub queue_write-Sent :
    (r : Ring ℕ) (buf : List ℕ) (dropped : ℕ)
    → InBounds queue_size r
    → dropped < 2 ^ 64
    → let w = queue_write r buf 0 dropped in Sent r w.ring buf dropped w.dropped w.written
queue_write-Sent r buf dropped b h =
    let w = queue_write-Wrote r buf 0 dropped b h in
    let n : (queue_write r buf 0 dropped).written ≡ min (length buf) (room r) =
      omega (arith, w.accepted) in
    record {
      sent = n;
      bytes = w.bytes ∙ rw n (ap (◌++◌ (contents queue_size r)) (take-min (room r) buf));
      lost = w.lost ∙ ap (λ (k : ℕ). u64 (dropped + k)) (omega arith);
      inside = w.inside;
    }

-- The read loop takes the oldest bytes, as many as are asked for or there are.
pub record TookFront (r : Ring ℕ) (n : ℕ) (t : Read) : Type 0 where
  pub inside : InBounds queue_size t.ring
  pub bytes : t.bytes ≡ take n (contents queue_size r)
  pub left : contents queue_size t.ring ≡ drop n (contents queue_size r)

pub queue_read-TookFront :
    (r : Ring ℕ) (n : ℕ) → InBounds queue_size r → TookFront r n (queue_read r n)
unfolding queue_read
queue_read-TookFront r zero b = record { inside = b; bytes = refl; left = refl }
queue_read-TookFront r (suc n) b = elim (Bool-cases (is_empty r)) [
  | inl done ↦
      let nothing : contents queue_size r ≡ [] = contents_of_empty queue_size r b done in
      rw done (record { inside = b; bytes = rw nothing; left = rw nothing })
  | inr more ↦
      let some_left : count queue_size r ≢ 0 = ground (arith, is_empty_iff queue_size r b) in
      let front_of = contents-drop_front queue_size r b some_left in
      let rest =
        queue_read-TookFront (drop_front queue_size r) n (drop_front-InBounds queue_size r b) in
      rw more (record {
        inside = rest.inside;
        bytes = rw front_of (ap (◌∷◌ (front r)) rest.bytes);
        left = rw front_of rest.left;
      })
]
