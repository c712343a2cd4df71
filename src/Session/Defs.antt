-- ===== src/Session/Defs.antt =====
-- The state and the functions of kernel/src/core/session.c. A function that changes the globals
-- returns them beside its result.
use walu_os.Prelude.{
  ℕ, zero, suc, ◌+◌, Bool, true, false, ◌&&◌, ◌==◌, if◌then◌else◌, Option, none, some, set, ℤ, pos,
  negsuc, minus_one, inc64,
}
use walu_os.Pty.{Ptys, is_valid}

abbrev pub session_max : ℕ
session_max = 16

pub record Entry : Type 0 where
  pub in_use : Bool
  pub id : ℤ
  pub leader_pid : ℕ  -- uint32_t
  pub controlling_pty : ℤ

pub record Sessions : Type 0 where
  pub entries : ℕ → Entry
  pub active : ℤ
  pub invalid_ops : ℕ  -- uint64_t

-- `==` on `int`
abbrev pub eq_int : ℤ → ℤ → Bool
eq_int (pos a) (pos b) = a == b
eq_int (pos a) (negsuc b) = false
eq_int (negsuc a) (pos b) = false
eq_int (negsuc a) (negsuc b) = a == b

-- The loop of `session_find` at index `i`, with the number of rounds left first. It gives the index
-- of the entry that the C function points to, and `none` for its null.
unfoldable pub find_from : ℕ → ℕ → Sessions → ℤ → Option ℕ
find_from zero i s id = none
find_from (suc n) i s id =
    let rest = find_from n (i + 1) s id in
    if (s.entries i).in_use && eq_int (s.entries i).id id then some i else rest

unfoldable pub find : Sessions → ℤ → Option ℕ
find s id = find_from session_max 0 s id

-- `memset` to zero
unfoldable pub init : Sessions
init = record {
  entries = λ i. record { in_use = false; id = pos 0; leader_pid = 0; controlling_pty = pos 0 };
  active = minus_one;
  invalid_ops = 0;
}

abbrev pub fault : Sessions → Sessions
fault s = record s { invalid_ops = inc64 s.invalid_ops }

-- The loop of `session_create`.
unfoldable pub create_from : ℕ → ℕ → Sessions → ℕ → Sessions × ℤ
create_from zero i s leader = (fault s, minus_one)
create_from (suc n) i s leader =
    let rest = create_from n (i + 1) s leader in
    if (s.entries i).in_use then rest else (
      record s {
        entries = set s.entries i (record {
          in_use = true;
          id = pos (i + 1);
          leader_pid = leader;
          controlling_pty = minus_one;
        });
      },
      pos (i + 1),
    )

unfoldable pub create : Sessions → ℕ → Sessions × ℤ
create s leader = create_from session_max 0 s leader

abbrev pub controlled_by : Sessions → ℕ → ℤ → Sessions
controlled_by s i pty = record s {
  entries = set s.entries i (record (s.entries i) { controlling_pty = pty });
}

unfoldable pub set_controlling_pty : Sessions → Ptys → ℤ → ℤ → Sessions × Bool
set_controlling_pty s p id pty = elim (find s id) [
  | none ↦ (fault s, false)
  | some i ↦ if is_valid p pty then (controlled_by s i pty, true) else (fault s, false)
]

unfoldable pub set_active : Sessions → ℤ → Sessions × Bool
set_active s id = elim (find s id) [
  | none ↦ (fault s, false)
  | some i ↦ (record s { active = id }, true)
]

unfoldable pub active_pty : Sessions → ℤ
active_pty s = elim (find s s.active) [ none ↦ minus_one | some i ↦ (s.entries i).controlling_pty ]
