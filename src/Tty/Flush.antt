-- ===== src/Tty/Flush.antt =====
-- Several bytes delivered by kernel/src/core/tty.c, one after the other.
use walu_os.Prelude.{
  ℕ, zero, suc, ◌+◌, refl, ap, sym, ◌∙◌, List, [], ◌∷◌, ◌++◌, append-nil, append_assoc, length,
  length-append, take, take_all, length-take, subst, arith,
}
use walu_os.Tty.Defs.{Io, Tty, enqueue_read, flush_from}
use walu_os.Tty.Sink.{waiting, capacity, Inv, Delivers, length-waiting, enqueue_read-Delivers}
use walu_os.Ring.Offer.{take-take-append}

pub Delivers-nil : {io : Io} → Inv io → Delivers io [] io
Delivers-nil {io} v = record {
  inv = v;
  reads = rw append-nil (sym (take_all capacity (waiting io) (length-waiting v)));
  drops = omega (arith, v.drop_fits, length-waiting v);
  rest = refl;
  same_target = refl;
  silent = refl;
}

-- Deliveries one after the other are a delivery of all.
pub Delivers-append :
    {io mid out : Io} {bs cs : List ℕ}
    → Inv io
    → Delivers io bs mid
    → Delivers mid cs out
    → Delivers io (bs ++ cs) out
Delivers-append {io} {mid} {out} {bs} {cs} v d e = record {
  inv = e.inv;
  reads =
      e.reads
      ∙ rw d.reads (
          take-take-append capacity (waiting io ++ bs) cs
          ∙ ap (take capacity) (append_assoc (waiting io) bs cs));
  drops = omega (
    arith,
    e.drops,
    d.drops,
    ap length d.reads,
    length-take capacity (waiting io ++ bs),
    length-append (waiting io) bs,
    length-append bs cs,
    length-waiting v,
  );
  rest =
      e.rest
      ∙ ap {A = Tty} {B = Tty}
          (λ t. record t { read = out.tty.read; drop_count = out.tty.drop_count }) d.rest;
  same_target = e.same_target ∙ d.same_target;
  silent = e.silent ∙ d.silent;
}

-- The bytes of an array from index `i` on.
abbrev pub slice : (ℕ → ℕ) → ℕ → ℕ → List ℕ
slice a i zero = []
slice a i (suc n) = a i ∷ slice a (i + 1) n

pub flush_from-Delivers :
    (n i : ℕ) {io : Io} → Inv io → Delivers io (slice io.tty.line i n) (flush_from n i io)
unfolding flush_from
flush_from-Delivers zero i v = Delivers-nil v
flush_from-Delivers (suc n) i {io} v =
    let d = enqueue_read-Delivers (io.tty.line i) v in
    let next = (enqueue_read io (io.tty.line i)).0 in
    let e = flush_from-Delivers n (i + 1) d.inv in
    Delivers-append v d (
      subst (λ (t : Tty). Delivers next (slice t.line (i + 1) n) (flush_from n (i + 1) next)) d.rest
        e)
