-- ===== src/Session/Active.antt =====
-- The controlling terminal and the active session of kernel/src/core/session.c.
use walu_os.Prelude.{
  ℕ, ◌+◌, ◌≡◌, ◌≢◌, ◌<◌, inr, refl, ◌∙◌, true, ==_refl, set, set_other, some, ℤ, pos,
}
use walu_os.Session.Defs.{
  Sessions, session_max, find, controlled_by, set_controlling_pty, set_active, active_pty,
}
use walu_os.Pty.{Ptys, is_valid}
use walu_os.Session.Laws.{Inv, find-pos, store-Inv}

set_controlling_pty_found :
    (s : Sessions) (p : Ptys) (id pty : ℤ) {k : ℕ}
    → find s id ≡ some k
    → is_valid p pty ≡ true
    → set_controlling_pty s p id pty ≡ (controlled_by s k pty, true)
unfolding set_controlling_pty
set_controlling_pty_found s p id pty found ok = rw (found, set_controlling_pty, ok)

set_active_found :
    (s : Sessions) (id : ℤ) {k : ℕ}
    → find s id ≡ some k
    → set_active s id ≡ (record s { active = id }, true)
unfolding set_active
set_active_found s id found = rw (found, set_active)

active_pty_found :
    (s : Sessions) {k : ℕ} → find s s.active ≡ some k → active_pty s ≡ (s.entries k).controlling_pty
unfolding active_pty
active_pty_found s found = rw (found, active_pty)

-- Where a session is in the table and a terminal is open, giving the session that terminal and making
-- it the active one both succeed, and then it is the active session with that terminal; no other
-- entry changes and no invalid operation is counted.
pub active_pty-set_active :
    {p : Ptys} {s : Sessions} (k : ℕ) (pty : ℤ)
    → Inv p s
    → k < session_max
    → (s.entries k).in_use ≡ true
    → is_valid p pty ≡ true
    → let (s', set) = set_controlling_pty s p (pos (k + 1)) pty in
      let (t, activated) = set_active s' (pos (k + 1)) in
      (set ≡ true)
      × (activated ≡ true)
      × (t.active ≡ pos (k + 1))
      × (active_pty t ≡ pty)
      × ((j : ℕ) → j ≢ k → t.entries j ≡ s.entries j)
      × (t.invalid_ops ≡ s.invalid_ops)
active_pty-set_active {p} {s} k pty v h used ok =
    let s' = controlled_by s k pty in
    let v' =
      store-Inv k (record (s.entries k) { controlling_pty = pty }) v
        (record { named = (v.entries_ok k).named; controlled = λ _. inr ok }) used in
    let used' : (s'.entries k).in_use ≡ true = rw (==_refl k) used in
    let first =
      set_controlling_pty_found s p (pos (k + 1)) pty (find-pos p s v.entries_ok k h used) ok in
    let second = set_active_found s' (pos (k + 1)) (find-pos p s' v'.entries_ok k h used') in
    rw (first, second)
      (
        refl,
        refl,
        refl,
        active_pty_found (record s' { active = pos (k + 1) })
              (find-pos p (record s' { active = pos (k + 1) }) v'.entries_ok k h used')
            ∙ rw (==_refl k),
        λ j ne. set_other s.entries k j _ ne,
        refl,
      )
