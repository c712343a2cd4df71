-- ===== src/Session/Laws.antt =====
-- The invariant of the session table of kernel/src/core/session.c, and what each call does.
use walu_os.Prelude.{
  ℕ, zero, suc, ◌+◌, ◌≡◌, ◌<◌, ◌≤◌, ◌⊎◌, inl, inr, refl, ap, sym, subst, ◌∙◌, true, ==_refl, ==_iff,
  ==_ne, set, Option, none, some, ℤ, pos, negsuc, minus_one, arith, Bool-cases, Option-cases,
}
use walu_os.Pty.{Ptys, is_valid}
use native.Mathlib.Decide.{ℕ_discrete}
use walu_os.Session.Defs.{
  Entry, Sessions, session_max, eq_int, find_from, find, init, fault, create_from, create,
  set_controlling_pty, set_active, active_pty,
}

-- An entry in use names itself by its place, and its terminal, if it has one, is open.
pub record EntryOk (p : Ptys) (i : ℕ) (e : Entry) : Type 0 where
  pub named : e.in_use ≡ true → e.id ≡ pos (i + 1)
  pub controlled :
      e.in_use ≡ true → (e.controlling_pty ≡ minus_one) ⊎ (is_valid p e.controlling_pty ≡ true)

-- What holds between two calls: entries are as above, and the active session, if there is one, is
-- in the table.
pub record Inv (p : Ptys) (s : Sessions) : Type 0 where
  pub entries_ok : (i : ℕ) → EntryOk p i (s.entries i)
  pub active_ok :
      (s.active ≡ minus_one)
      ⊎ ((k : ℕ) × (k < session_max) × (s.active ≡ pos (k + 1)) × ((s.entries k).in_use ≡ true))

eq_int_refl : (a : ℤ) → eq_int a a ≡ true
eq_int_refl (pos n) = ==_refl n
eq_int_refl (negsuc n) = ==_refl n

eq_int→eq : (a b : ℤ) → eq_int a b ≡ true → a ≡ b
eq_int→eq (pos a) (pos b) h = ap pos ((==_iff a b).0 h)
eq_int→eq (pos a) (negsuc b) h = cc
eq_int→eq (negsuc a) (pos b) h = cc
eq_int→eq (negsuc a) (negsuc b) h = ap negsuc ((==_iff a b).0 h)

-- What `session_find` comes to: the index that the identifier names, which is in use.
abbrev pub FoundAt : Sessions → ℤ → Option ℕ → Type 0
FoundAt s id none = Unit {0}
FoundAt s id (some k) = (k < session_max) × (id ≡ pos (k + 1)) × ((s.entries k).in_use ≡ true)

module _ (p : Ptys) (s : Sessions) (v : (i : ℕ) → EntryOk p i (s.entries i)) where
  -- The session with identifier `k + 1` is at index `k`, if that is in use.
  find_from-pos :
      (n i k : ℕ)
      → i ≤ k
      → k < i + n
      → (s.entries k).in_use ≡ true
      → find_from n i s (pos (k + 1)) ≡ some k
  unfolding find_from
  find_from-pos zero i k a b h = absurd (omega arith)
  find_from-pos (suc n) i k a b h = elim (ℕ_discrete i k) [
    | yes e ↦ rw (e, h, (v k).named h, ==_refl (k + 1))
    | no ne ↦
        let next = find_from-pos n (i + 1) k (omega arith) (omega arith) h in
        elim (Bool-cases ((s.entries i).in_use)) [
          | inl used ↦
              rw (used, (v i).named used, ==_ne (i + 1) (k + 1) (λ q. ne (omega arith))) next
          | inr unused ↦ rw unused next
        ]
  ]

  pub find-pos :
      (k : ℕ) → k < session_max → (s.entries k).in_use ≡ true → find s (pos (k + 1)) ≡ some k
  unfolding find
  find-pos k h used = find_from-pos session_max 0 k (omega arith) (omega arith) used

  find_from-FoundAt : (n i : ℕ) (id : ℤ) → i + n ≡ session_max → FoundAt s id (find_from n i s id)
  unfolding find_from
  find_from-FoundAt zero i id e = tt
  find_from-FoundAt (suc n) i id e = elim (Bool-cases ((s.entries i).in_use)) [
    | inr unused ↦ rw unused (find_from-FoundAt n (i + 1) id (omega arith))
    | inl used ↦ elim (Bool-cases (eq_int (s.entries i).id id)) [
      | inl same ↦ rw (used, same) (omega arith, sym (eq_int→eq _ _ same) ∙ (v i).named used, used)
      | inr other ↦ rw (used, other) (find_from-FoundAt n (i + 1) id (omega arith))
    ]
  ]

  pub find-FoundAt : (id : ℤ) → FoundAt s id (find s id)
  unfolding find
  find-FoundAt id = find_from-FoundAt session_max 0 id refl

  pub find-some :
      (id : ℤ) {k : ℕ}
      → find s id ≡ some k
      → (k < session_max) × (id ≡ pos (k + 1)) × ((s.entries k).in_use ≡ true)
  find-some id e = subst (FoundAt s id) e (find-FoundAt id)

-- A free entry may be anything; the others count.
pub init-Inv : (p : Ptys) → Inv p init
unfolding init
init-Inv p = record {
  entries_ok = λ i. record { named = λ h. cc; controlled = λ h. cc };
  active_ok = inl refl;
}

-- Opening terminals, writing to them and reading from them leaves open terminals open, and so keeps
-- the invariant of the sessions.
pub Inv-mono :
    {p q : Ptys} {s : Sessions}
    → ((id : ℤ) → is_valid p id ≡ true → is_valid q id ≡ true)
    → Inv p s
    → Inv q s
Inv-mono keep v = record {
  entries_ok = λ i. record {
    named = (v.entries_ok i).named;
    controlled =
        λ h. elim ((v.entries_ok i).controlled h) [ inl e ↦ inl e | inr ok ↦ inr (keep _ ok) ];
  };
  active_ok = v.active_ok;
}

new_entry : ℕ → ℕ → Entry
new_entry i leader = record {
  in_use = true;
  id = pos (i + 1);
  leader_pid = leader;
  controlling_pty = minus_one;
}

-- A store at `i` that leaves entry `i` in use.
pub store-Inv :
    {p : Ptys} {s : Sessions} (i : ℕ) (e : Entry)
    → Inv p s
    → EntryOk p i e
    → e.in_use ≡ true
    → Inv p (record s { entries = set s.entries i e })
store-Inv {p} {s} i e v ok used = record {
  entries_ok = λ j. elim (ℕ_discrete j i) [
    | yes same ↦ rw (same, ==_refl i) ok
    | no other ↦ rw (==_ne j i other) (v.entries_ok j)
  ];
  active_ok = elim v.active_ok [
    | inl none_yet ↦ inl none_yet
    | inr (k, a, b, c) ↦ inr (
      k,
      a,
      b,
      elim (ℕ_discrete k i) [
        | yes same ↦ rw (same, ==_refl i) used
        | no other ↦ rw (==_ne k i other) c
      ],
    )
  ];
}

fault-Inv : {p : Ptys} {s : Sessions} → Inv p s → Inv p (fault s)
fault-Inv v = record { entries_ok = v.entries_ok; active_ok = v.active_ok }

module _ {p : Ptys} {s : Sessions} (v : Inv p s) where
  create_from-Inv : (n i leader : ℕ) → Inv p (create_from n i s leader).0
  unfolding create_from
  create_from-Inv zero i leader = fault-Inv v
  create_from-Inv (suc n) i leader = elim (Bool-cases ((s.entries i).in_use)) [
    | inl used ↦ rw used (create_from-Inv n (i + 1) leader)
    | inr free ↦
        rw free (store-Inv i _ v (record { named = λ h. refl; controlled = λ h. inl refl }) refl)
  ]

  pub create-Inv : (leader : ℕ) → Inv p (create s leader).0
  unfolding create
  create-Inv leader = create_from-Inv session_max 0 leader

  pub set_controlling_pty-Inv : (id pty : ℤ) → Inv p (set_controlling_pty s p id pty).0
  unfolding set_controlling_pty
  set_controlling_pty-Inv id pty = elim (Option-cases (find s id)) [
    | inl missing ↦ rw (missing, set_controlling_pty) (fault-Inv v)
    | inr (i, found) ↦ elim (Bool-cases (is_valid p pty)) [
      | inr bad ↦ rw (found, set_controlling_pty, bad) (fault-Inv v)
      | inl ok ↦
          let (a, b, used) = find-some p s v.entries_ok id found in
          rw (found, set_controlling_pty, ok)
            (store-Inv i _ v (record { named = (v.entries_ok i).named; controlled = λ h. inr ok })
              used)
    ]
  ]

  pub set_active-Inv : (id : ℤ) → Inv p (set_active s id).0
  unfolding set_active
  set_active-Inv id = elim (Option-cases (find s id)) [
    | inl missing ↦ rw (missing, set_active) (fault-Inv v)
    | inr (i, found) ↦
        let (a, b, used) = find-some p s v.entries_ok id found in
        rw (found, set_active)
          (record { entries_ok = v.entries_ok; active_ok = inr (i, a, b, used) })
  ]

  -- After any calls that keep the invariant `session_active_pty` returns -1 or an open terminal.
  pub active_pty_valid : (active_pty s ≡ minus_one) ⊎ (is_valid p (active_pty s) ≡ true)
  unfolding active_pty
  active_pty_valid = elim (Option-cases (find s s.active)) [
    | inl missing ↦ rw (missing, active_pty) (inl refl)
    | inr (i, found) ↦
        rw (found, active_pty)
          ((v.entries_ok i).controlled (find-some p s v.entries_ok s.active found).2)
  ]

-- Every call keeps the invariant: entries in use are named by their place, the terminal that controls
-- a session is open, and the active session is in the table. Where it holds, `session_active_pty`
-- returns -1 or the number of an open terminal.
pub calls-Inv :
    {p : Ptys} {s : Sessions} (leader : ℕ) (id pty : ℤ)
    → Inv p s
    → Inv p (create s leader).0
      × Inv p (set_controlling_pty s p id pty).0
      × Inv p (set_active s id).0
      × ((active_pty s ≡ minus_one) ⊎ (is_valid p (active_pty s) ≡ true))
calls-Inv leader id pty v =
    (create-Inv v leader, set_controlling_pty-Inv v id pty, set_active-Inv v id, active_pty_valid v)
