-- ===== src/Session/Tests.antt =====
-- Runs of kernel/src/core/session.c on small inputs, and its theorems at them.
use walu_os.Prelude.{◌≡◌, ◌≢◌, ◌⊎◌, refl, true, false, ℕ, pos, minus_one, arith}
use walu_os.Pty.{Ptys, is_valid}
use walu_os.Pty
use walu_os.Session.Defs.{
  Sessions, find_from, find, init, create_from, create, set_controlling_pty, set_active, active_pty,
}
use walu_os.Session.Laws.{Inv, init-Inv, create-Inv, calls-Inv}
use walu_os.Session.Create.{CreateSearch, create-CreateSearch}
use walu_os.Session.Active.{active_pty-set_active}

-- Session 1 is in the table and terminal 0 is open.
abbrev one_session : Sessions
one_session = (create init 1).0

abbrev one_pty : Ptys
one_pty = (Pty.alloc Pty.init).0

one_session-Inv : Inv one_pty one_session
one_session-Inv = create-Inv (init-Inv one_pty) 1

unknown_session : (set_active one_session (pos 5)).1 ≡ false
unfolding set_active find find_from create create_from init
unknown_session = refl

calls-Inv_example :
    Inv one_pty (create one_session 7).0
    × Inv one_pty (set_controlling_pty one_session one_pty (pos 1) (pos 0)).0
    × Inv one_pty (set_active one_session (pos 1)).0
    × ((active_pty one_session ≡ minus_one) ⊎ (is_valid one_pty (active_pty one_session) ≡ true))
calls-Inv_example = calls-Inv 7 (pos 1) (pos 0) one_session-Inv

create-CreateSearch_example : CreateSearch 0 9 one_session (create one_session 9)
create-CreateSearch_example = create-CreateSearch one_session 9

first_in_use : (one_session.entries 0).in_use ≡ true
unfolding create create_from init
first_in_use = refl

first_open : is_valid one_pty (pos 0) ≡ true
unfolding is_valid Pty.alloc Pty.alloc_from Pty.init
first_open = refl

active_pty-set_active_example :
    let (s', set) = set_controlling_pty one_session one_pty (pos 1) (pos 0) in
    let (t, activated) = set_active s' (pos 1) in
    (set ≡ true)
    × (activated ≡ true)
    × (t.active ≡ pos 1)
    × (active_pty t ≡ pos 0)
    × ((j : ℕ) → j ≢ 0 → t.entries j ≡ one_session.entries j)
    × (t.invalid_ops ≡ one_session.invalid_ops)
active_pty-set_active_example =
    active_pty-set_active 0 (pos 0) one_session-Inv (omega arith) first_in_use first_open
