-- ===== src/Shell/History.antt =====
-- The history of commands of rust/src/lib.rs.
use walu_os.Prelude.{ℕ, ◌+◌, ◌-◌, ◌%◌, ltb, if◌then◌else◌, List, [], ◌∷◌, take, set, inc64}

abbrev pub history_slots : ℕ
history_slots = 16

abbrev pub slot_len : ℕ
slot_len = 64

-- `HISTORY` and `HISTORY_COUNT`. An entry is the bytes kept of a line; behind them the slot is zero.
pub record History : Type 0 where
  pub entries : ℕ → List ℕ
  pub head : ℕ
  pub count : ℕ
  pub pushed : ℕ

-- `History::push`
unfoldable pub push : History → List ℕ → History
push h src = record h {
  entries = set h.entries h.head (take (slot_len - 1) src);
  head = (h.head + 1) % history_slots;
  count = if ltb h.count history_slots then h.count + 1 else h.count;
}

-- `rust_history_push`
unfoldable pub history_push : History → List ℕ → History
unfolding push
history_push h [] = h
history_push h (c ∷ line) = let h' = push h (c ∷ line) in record h' { pushed = inc64 h'.pushed }
