-- ===== src/Keyboard/Notes.antt =====
-- What kernel/src/core/keyboard.c puts into its queue of events.
use walu_os.Prelude.{
  ℕ, ◌+◌, ◌-◌, ◌^◌, ◌≡◌, ◌<◌, ◌≤◌, refl, ap, inl, inr, [], ◌∷◌, ◌++◌, length, take, u64, arith,
  Bool-cases,
}
use walu_os.Ring.{InBounds, is_full}
use walu_os.Ring.Fifo.{length-contents, count-lt, put-InBounds}
use walu_os.Ring.Offer.{contents_of_full, contents-put_room, is_full-length, not_full_length}
use walu_os.Keyboard.Defs.{Keyboard, KeyEvent, event_queue_size, push_event}
use walu_os.Keyboard.Event.{pending_events, event_capacity, Inv}

pub length-pending_events : {k : Keyboard} → Inv k → length (pending_events k) ≤ event_capacity
length-pending_events {k} v = omega (
  arith,
  length-contents event_queue_size k.events v.events_in,
  count-lt event_queue_size k.events v.events_in,
)

-- `push_event` on its own.
pub record Notes (k : Keyboard) (e : KeyEvent) (out : Keyboard) : Type 0 where
  pub inside : InBounds event_queue_size out.events
  pub events : pending_events out ≡ take event_capacity (pending_events k ++ (e ∷ []))
  pub fits : out.drop_event_count < 2 ^ 64
  pub drops :
      out.drop_event_count
      ≡ u64 (k.drop_event_count + (length (pending_events k) + 1 - event_capacity))
  pub rest : out ≡ record k { events = out.events; drop_event_count = out.drop_event_count }

pub push_event-Notes : {k : Keyboard} (e : KeyEvent) → Inv k → Notes k e (push_event k e)
unfolding push_event
push_event-Notes {k} e v = elim (Bool-cases (is_full event_queue_size k.events)) [
  | inl full ↦
      let n = is_full-length event_queue_size k.events v.events_in full in
      rw full (record {
        inside = v.events_in;
        events = contents_of_full event_queue_size k.events v.events_in e full;
        fits = omega arith;
        drops = ap (λ (j : ℕ). u64 (k.drop_event_count + j)) (omega (arith, n));
        rest = refl;
      })
  | inr more ↦
      let n = not_full_length event_queue_size k.events v.events_in more in
      rw more (record {
        inside = put-InBounds event_queue_size k.events v.events_in e;
        events = contents-put_room event_queue_size k.events v.events_in e more;
        fits = v.event_drops_fit;
        drops = omega (arith, n, v.event_drops_fit);
        rest = refl;
      })
]
