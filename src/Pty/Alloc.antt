-- ===== src/Pty/Alloc.antt =====
-- `pty_alloc` of kernel/src/core/pty.c.
use walu_os.Prelude.{
  ℕ, zero, suc, ◌+◌, ◌≡◌, ◌≢◌, ◌<◌, ◌≤◌, refl, inl, inr, ◌⊎◌, true, false, set_all, set_other,
  ==_refl, [], ℤ, pos, minus_one, arith, Bool-cases,
}
use native.Mathlib.Decide.{ℕ_discrete}
use walu_os.Ring.{count, contents}
use walu_os.Pty.Defs.{Ptys, Slot, pty_max, queue_size, opened, alloc_from, alloc, init}
use walu_os.Pty.Transfer.{Inv, SlotInBounds}

pub opened-SlotInBounds : (s : Slot) → SlotInBounds (opened s)
opened-SlotInBounds s = omega arith

pub contents-opened :
    (q : ℕ → ℕ) → contents queue_size (record { queue = q; head = 0; tail = 0 }) ≡ []
unfolding contents count
contents-opened q = refl

alloc_from-Inv : (n i : ℕ) {p : Ptys} → Inv p → Inv (alloc_from n i p).0
unfolding alloc_from
alloc_from-Inv zero i v = v
alloc_from-Inv (suc n) i {p} v = elim (Bool-cases (p.slots i).allocated) [
  | inl old ↦ rw old (alloc_from-Inv n (i + 1) v)
  | inr new ↦ rw new (record {
    slots_in =
        set_all SlotInBounds p.slots i (opened (p.slots i)) v.slots_in
          (opened-SlotInBounds (p.slots i));
    dropped_fits = v.dropped_fits;
  })
]

pub alloc-Inv : {p : Ptys} → Inv p → Inv (alloc p).0
unfolding alloc
alloc-Inv v = alloc_from-Inv pty_max 0 v

-- `pty_init` leaves a state in which the invariant holds.
pub init-Inv : Inv init
unfolding init
init-Inv = record { slots_in = λ i. omega arith; dropped_fits = omega arith }

-- Slot `k`, from `i` on the first that was free, has been opened, with both queues empty, and no other
-- has changed.
pub record Opens (i k : ℕ) (p q : Ptys) : Type 0 where
  pub was_free : (p.slots k).allocated ≡ false
  pub lower_taken : (j : ℕ) → i ≤ j → j < k → (p.slots j).allocated ≡ true
  pub taken : (q.slots k).allocated ≡ true
  pub no_input : contents queue_size (q.slots k).m2s ≡ []
  pub no_output : contents queue_size (q.slots k).s2m ≡ []
  pub others : (j : ℕ) → j ≢ k → q.slots j ≡ p.slots j
  pub counters : (q.dropped_bytes ≡ p.dropped_bytes) × (q.invalid_ops ≡ p.invalid_ops)

-- What a search of the slots from `i` up to `stop` comes to.
abbrev pub Search : ℕ → ℕ → Ptys → Ptys × ℤ → Type 0
Search i stop p out =
    ((k : ℕ) × (i ≤ k) × (k < stop) × (out.1 ≡ pos k) × Opens i k p out.0)
    ⊎ (((j : ℕ) → i ≤ j → j < stop → (p.slots j).allocated ≡ true) × (out ≡ (p, minus_one)))

lower : {i k : ℕ} {p q : Ptys} → (p.slots i).allocated ≡ true → Opens (i + 1) k p q → Opens i k p q
lower {i} {k} {p} old o = record {
  was_free = o.was_free;
  lower_taken = λ j a b. elim (ℕ_discrete j i) [
    | yes same ↦ rw same old
    | no other ↦ o.lower_taken j (omega arith) b
  ];
  taken = o.taken;
  no_input = o.no_input;
  no_output = o.no_output;
  others = o.others;
  counters = o.counters;
}

Search-lower :
    {i stop : ℕ} {p : Ptys} {out : Ptys × ℤ}
    → (p.slots i).allocated ≡ true
    → Search (i + 1) stop p out
    → Search i stop p out
Search-lower old (inl (k, a, b, e, o)) = inl (k, omega arith, b, e, lower old o)
Search-lower {i} old (inr (all, e)) = inr (
  λ j a b. elim (ℕ_discrete j i) [ yes same ↦ rw same old | no other ↦ all j (omega arith) b ],
  e,
)

alloc_from-Search : (n i stop : ℕ) (p : Ptys) → i + n ≡ stop → Search i stop p (alloc_from n i p)
unfolding alloc_from
alloc_from-Search zero i stop p end = inr (λ j a b. absurd (omega arith), refl)
alloc_from-Search (suc n) i stop p end = elim (Bool-cases (p.slots i).allocated) [
  | inl old ↦ rw old (Search-lower old (alloc_from-Search n (i + 1) stop p (omega arith)))
  | inr new ↦ rw new (
      inl (
        i,
        omega arith,
        omega arith,
        refl,
        record {
          was_free = new;
          lower_taken = λ j a b. absurd (omega arith);
          taken = rw (==_refl i);
          no_input = rw (==_refl i) (contents-opened (p.slots i).m2s.queue);
          no_output = rw (==_refl i) (contents-opened (p.slots i).s2m.queue);
          others = λ j ne. set_other p.slots i j _ ne;
          counters = (refl, refl);
        },
      ))
]

-- `pty_alloc` opens the lowest free of the eight slots, with empty queues, returns its number and
-- changes no other slot and no counter; or, exactly when all eight are taken, returns -1 and changes
-- nothing.
pub alloc-Search : (p : Ptys) → Search 0 pty_max p (alloc p)
unfolding alloc
alloc-Search p = alloc_from-Search pty_max 0 pty_max p refl
