-- ===== src/Vmm/Walk.antt =====
-- The processor's walk over the page tables that kernel/src/core/vmm.c writes.
use walu_os.Prelude.{
  ℕ, zero, suc, ◌+◌, ◌*◌, ◌/◌, ◌%◌, ◌^◌, ◌<◌, ◌≡◌, Bool, true, false, not, ◌&&◌, ◌==◌,
  if◌then◌else◌, Option, none, some, ap, inl, inr, arith, Bool-cases,
}
use walu_os.Vmm.Defs.{Vmm, slot, child_of, is_present}

-- What an entry of a page directory with the huge bit says.
pub record Page : Type 0 where
  pub base : ℕ
  pub writable : Bool
  pub user : Bool
  pub no_execute : Bool

abbrev pub is_huge : ℕ → Bool
is_huge entry = entry / 128 % 2 == 1

abbrev pub page_of : ℕ → Page
page_of entry = record {
  base = entry / 2 ^ 21 % 2 ^ 31 * 2 ^ 21;
  writable = entry / 2 % 2 == 1;
  user = entry / 4 % 2 == 1;
  no_execute = entry / 2 ^ 63 % 2 == 1;
}

-- The digits of a virtual address that select the entry of a table with `k` levels of tables below it.
abbrev pub index : ℕ → ℕ → ℕ
index k virt_addr = virt_addr / 2 ^ (21 + 9 * k) % 512

pub index-lt : (k v : ℕ) → index k v < 512
index-lt k v = omega arith

-- An entry of a page directory, and one of a table above, with the walk over the table it points to.
unfoldable pub leaf : ℕ → Option Page
leaf entry = if is_present entry && is_huge entry then some (page_of entry) else none

unfoldable pub follow : (ℕ → Option Page) → ℕ → Option Page
follow rest entry = if is_present entry && not (is_huge entry) then rest (child_of entry) else none

-- The page of 2 MiB for a virtual address; none where an entry is not present or is for a page of
-- another size.
abbrev pub walk : Vmm → ℕ → ℕ → ℕ → Option Page
walk s zero table v = leaf (s.words (slot table (index 0 v)))
walk s (suc k) table v = follow (λ child. walk s k child v) (s.words (slot table (index (suc k) v)))

-- The mapping of a virtual address, from the table of the highest level.
abbrev pub lookup : ℕ → Vmm → ℕ → Option Page
lookup pml4_table s v = walk s 2 pml4_table v

pub leaf-absent : (e : ℕ) → is_present e ≡ false → leaf e ≡ none
unfolding leaf
leaf-absent e h = rw h

pub follow-absent : (rest : ℕ → Option Page) (e : ℕ) → is_present e ≡ false → follow rest e ≡ none
unfolding follow
follow-absent rest e h = rw h

-- The entry is present and points to the table `child`.
pub record Points (entry child : ℕ) : Type 0 where
  pub present : is_present entry ≡ true
  pub is_table : is_huge entry ≡ false
  pub to_child : child_of entry ≡ child

pub follow-Points : (rest : ℕ → Option Page) {e c : ℕ} → Points e c → follow rest e ≡ rest c
unfolding follow
follow-Points rest p = rw (p.present, p.is_table) (ap rest p.to_child)

-- Two walks that agree on the table that the entry points to, where there is one.
pub follow-agree :
    (f g : ℕ → Option Page) (e : ℕ)
    → (is_present e ≡ true → f (child_of e) ≡ g (child_of e))
    → follow f e ≡ follow g e
unfolding follow
follow-agree f g e h = elim (Bool-cases (is_present e)) [
  | inl there ↦ rw (there, h there)
  | inr absent ↦ rw absent
]
