-- ===== src/Pty/Spec.antt =====
-- What kernel/include/kernel/pty.h promises a client: each open terminal is a pair of bounded
-- first-in first-out queues, and what does not fit or names no open terminal is refused.
use walu_os.Prelude.{
  ℕ, zero, suc, ◌+◌, ◌-◌, Bool, true, false, if◌then◌else◌, ltb, Option, none, some, List, [], ◌∷◌,
  ◌++◌, set, length, take, drop, min, ℤ, pos, negsuc, minus_one,
}
use walu_os.Pty.Defs.{pty_max, queue_size, index}

pub record Pipe : Type 0 where
  pub to_slave : List ℕ
  pub to_master : List ℕ

abbrev pub Pipes : Type 0
Pipes = ℕ → Option Pipe

pub data Op : Type 0 where
  open_pty : Op
  send_to_slave send_to_master : ℤ → Option (List ℕ) → Op
  read_as_slave read_as_master : ℤ → Bool → ℕ → Op

pub data Reply : Type 0 where
  opened : ℤ → Reply
  accepted : ℕ → Reply
  bytes : List ℕ → Reply

-- The open terminal that an identifier names.
abbrev pub pipe_at : Pipes → ℤ → Option Pipe
pipe_at a (pos i) = if ltb i pty_max then a i else none
pipe_at a (negsuc i) = none

-- How many bytes of `buf` a queue takes.
abbrev pub fits : List ℕ → List ℕ → ℕ
fits q buf = min (length buf) (queue_size - 1 - length q)

unfoldable pub open_from : ℕ → ℕ → Pipes → Pipes × Reply
open_from zero i a = (a, opened minus_one)
open_from (suc n) i a =
    let rest = open_from n (i + 1) a in
    elim (a i) [
      | none ↦ (set a i (some (record { to_slave = []; to_master = [] })), opened (pos i))
      | some _ ↦ rest
    ]

abbrev pub send_slave : Pipes → ℤ → List ℕ → Option Pipe → Pipes × Reply
send_slave a id buf none = (a, accepted 0)
send_slave a id buf (some s) =
    let n = fits s.to_slave buf in
    (set a (index id) (some (record s { to_slave = s.to_slave ++ take n buf })), accepted n)

abbrev pub send_master : Pipes → ℤ → List ℕ → Option Pipe → Pipes × Reply
send_master a id buf none = (a, accepted 0)
send_master a id buf (some s) =
    let n = fits s.to_master buf in
    (set a (index id) (some (record s { to_master = s.to_master ++ take n buf })), accepted n)

abbrev pub take_slave : Pipes → ℤ → ℕ → Option Pipe → Pipes × Reply
take_slave a id n none = (a, bytes [])
take_slave a id n (some s) =
    (set a (index id) (some (record s { to_slave = drop n s.to_slave })), bytes (take n s.to_slave))

abbrev pub take_master : Pipes → ℤ → ℕ → Option Pipe → Pipes × Reply
take_master a id n none = (a, bytes [])
take_master a id n (some s) = (
  set a (index id) (some (record s { to_master = drop n s.to_master })),
  bytes (take n s.to_master),
)

unfoldable pub step : Pipes → Op → Pipes × Reply
unfolding open_from
step a open_pty = open_from pty_max 0 a
step a (send_to_slave id none) = (a, accepted 0)
step a (send_to_slave id (some buf)) = send_slave a id buf (pipe_at a id)
step a (send_to_master id none) = (a, accepted 0)
step a (send_to_master id (some buf)) = send_master a id buf (pipe_at a id)
step a (read_as_slave id false n) = (a, bytes [])
step a (read_as_slave id true n) = take_slave a id n (pipe_at a id)
step a (read_as_master id false n) = (a, bytes [])
step a (read_as_master id true n) = take_master a id n (pipe_at a id)

unfoldable pub run : Pipes → List Op → List Reply
run a [] = []
run a (op ∷ ops) = let (a', r) = step a op in r ∷ run a' ops
