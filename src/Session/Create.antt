-- ===== src/Session/Create.antt =====
-- `session_create` of kernel/src/core/session.c.
use walu_os.Prelude.{
  ℕ, zero, suc, ◌+◌, ◌≡◌, ◌≢◌, ◌<◌, ◌≤◌, ◌⊎◌, inl, inr, refl, true, false, ==_refl, set_other, ℤ,
  pos, minus_one, arith, Bool-cases, inc64,
}
use native.Mathlib.Decide.{ℕ_discrete}
use walu_os.Session.Defs.{Sessions, session_max, create_from, create}

-- What `session_create` has done with the first free entry, from index `i` on.
pub record Creates (i k leader : ℕ) (s t : Sessions) : Type 0 where
  pub was_free : (s.entries k).in_use ≡ false
  pub lower_used : (j : ℕ) → i ≤ j → j < k → (s.entries j).in_use ≡ true
  pub entry :
      t.entries k
      ≡ record { in_use = true; id = pos (k + 1); leader_pid = leader; controlling_pty = minus_one }
  pub others : (j : ℕ) → j ≢ k → t.entries j ≡ s.entries j
  pub rest : (t.active ≡ s.active) × (t.invalid_ops ≡ s.invalid_ops)

abbrev pub CreateSearch : ℕ → ℕ → Sessions → Sessions × ℤ → Type 0
CreateSearch i leader s out =
    ((k : ℕ) × (i ≤ k) × (k < session_max) × (out.1 ≡ pos (k + 1)) × Creates i k leader s out.0)
    ⊎ (((j : ℕ) → i ≤ j → j < session_max → (s.entries j).in_use ≡ true)
        × (out ≡ (record s { invalid_ops = inc64 s.invalid_ops }, minus_one)))

module _ (s : Sessions) (leader : ℕ) where
  lower_used :
      (i j : ℕ)
      → (s.entries i).in_use ≡ true
      → i ≤ j
      → (i + 1 ≤ j → (s.entries j).in_use ≡ true)
      → (s.entries j).in_use ≡ true
  lower_used i j used a above = elim (ℕ_discrete j i) [
    | yes same ↦ rw same used
    | no other ↦ above (omega arith)
  ]

  CreateSearch-lower :
      (i : ℕ) {out : Sessions × ℤ}
      → (s.entries i).in_use ≡ true
      → CreateSearch (i + 1) leader s out
      → CreateSearch i leader s out
  CreateSearch-lower i used (inl (k, a, b, e, c)) = inl (
    k,
    omega arith,
    b,
    e,
    record {
      was_free = c.was_free;
      lower_used = λ j p q. lower_used i j used p (λ r. c.lower_used j r q);
      entry = c.entry;
      others = c.others;
      rest = c.rest;
    },
  )
  CreateSearch-lower i used (inr (all, e)) =
      inr (λ j p q. lower_used i j used p (λ r. all j r q), e)

  create_from-CreateSearch :
      (n i : ℕ) → i + n ≡ session_max → CreateSearch i leader s (create_from n i s leader)
  unfolding create_from
  create_from-CreateSearch zero i e = inr (λ j a b. absurd (omega arith), refl)
  create_from-CreateSearch (suc n) i e = elim (Bool-cases ((s.entries i).in_use)) [
    | inl used ↦
        rw used (CreateSearch-lower i used (create_from-CreateSearch n (i + 1) (omega arith)))
    | inr free ↦ rw free (
        inl (
          i,
          omega arith,
          omega arith,
          refl,
          record {
            was_free = free;
            lower_used = λ j a b. absurd (omega arith);
            entry = rw (==_refl i);
            others = λ j ne. set_other s.entries i j _ ne;
            rest = (refl, refl);
          },
        ))
  ]

  -- `session_create` takes the first free entry `k` of the sixteen, names the session `k + 1`, records
  -- its leader with no terminal, and changes nothing else; or, exactly when all are in use, returns -1
  -- and only counts an invalid operation.
  pub create-CreateSearch : CreateSearch 0 leader s (create s leader)
  unfolding create
  create-CreateSearch = create_from-CreateSearch session_max 0 refl
