-- ===== src/Pty/Refusals.antt =====
-- Transfers of kernel/src/core/pty.c on identifiers that name no open terminal.
use walu_os.Prelude.{
  ℕ, ◌≡◌, ◌≤◌, ◌↔◌, refl, false, inl, inr, Option, List, [], ℤ, pos, negsuc, ltb, inc64, Bool,
  Bool-cases, arith,
}
use walu_os.Pty.Defs.{Ptys, pty_max, is_valid, master_write, slave_write, slave_read, master_read}
use walu_os.Pty.Transfer.{refused_invalid}

-- There are eight terminals, numbered from 0, and only those that were opened can be used.
pub data NoTerminal (p : Ptys) : ℤ → Type 0 where
  negative : (n : ℕ) → NoTerminal p (negsuc n)
  too_large : (n : ℕ) → 8 ≤ n → NoTerminal p (pos n)
  closed : (n : ℕ) → (p.slots n).allocated ≡ false → NoTerminal p (pos n)

pub is_valid_iff : (p : Ptys) (id : ℤ) → (is_valid p id ≡ false) ↔ NoTerminal p id
unfolding is_valid
is_valid_iff p (negsuc n) = (λ e. negative n, λ h. refl)
is_valid_iff p (pos n) = (
  λ e. elim (Bool-cases (ltb n pty_max)) [
    | inl inside ↦ closed n (ground arith)
    | inr outside ↦ too_large n (ground arith)
  ],
  λ h. elim h [ too_large n le ↦ ground arith | closed n e ↦ ground arith ],
)

-- A transfer on an identifier that is negative, or 8 or more, or of a terminal that is not open moves
-- nothing, with a buffer or without: it returns 0 and changes only the count of invalid operations,
-- which grows by one (modulo 2 ^ 64).
pub refused :
    (p : Ptys) (id : ℤ) (buf : Option (List ℕ)) (has_buf : Bool) (n : ℕ)
    → NoTerminal p id
    → (master_write p id buf ≡ (record p { invalid_ops = inc64 p.invalid_ops }, 0))
      × (slave_write p id buf ≡ (record p { invalid_ops = inc64 p.invalid_ops }, 0))
      × (slave_read p id has_buf n ≡ (record p { invalid_ops = inc64 p.invalid_ops }, []))
      × (master_read p id has_buf n ≡ (record p { invalid_ops = inc64 p.invalid_ops }, []))
refused p id buf has_buf n h = refused_invalid p id buf has_buf n ((is_valid_iff p id).1 h)
