-- ===== src/Vmm/Tables.antt =====
-- The invariant of the page tables of kernel/src/core/vmm.c, and what `ensure_table` does to it.
use walu_os.Prelude.{ℕ, ◌+◌, ◌/◌, ◌%◌, ◌<◌, ◌≡◌, true, false, arith}
use walu_os.Pmm.{frame_size}
use walu_os.Pmm.Bitmap.{used, Inv}
use walu_os.Vmm.Defs.{Vmm, slot, child_of, is_present}
use walu_os.Vmm.Walk.{is_huge}

-- What the invariant says of the entry `e` at the address `a`, in a table of level `l`.
pub record Child (level origin : ℕ → ℕ) (l a e : ℕ) : Type 0 where
  pub is_table : is_huge e ≡ false
  pub below : level (child_of e) + 1 ≡ l
  pub from_here : origin (child_of e) ≡ a

-- The tables form a tree: each has a level (2 for a page directory, 4 for the root, 0 for what is no
-- table), and one entry, the origin, that points to it. Their frames are in use.
pub record Tables (root : ℕ) (s : Vmm) : Type 0 where
  pub level : ℕ → ℕ
  pub origin : ℕ → ℕ
  pub root_level : level root ≡ 4
  pub aligned : (t : ℕ) → 0 < level t → t % frame_size ≡ 0
  pub in_use : (t : ℕ) → 0 < level t → used s.pmm (t / frame_size) ≡ true
  pub zero_used : used s.pmm 0 ≡ true
  pub pmm_inv : Inv s.pmm
  pub child :
      (t i : ℕ)
      → 2 < level t
      → i < 512
      → is_present (s.words (slot t i)) ≡ true
      → Child level origin (level t) (slot t i) (s.words (slot t i))

-- Entries of different tables are different words.
pub same_slot :
    {root : ℕ} {s : Vmm} (v : Tables root s) {t u i j : ℕ}
    → 0 < v.level t
    → 0 < v.level u
    → i < 512
    → j < 512
    → slot t i ≡ slot u j
    → (t ≡ u) × (i ≡ j)
same_slot v {t} {u} ht hu hi hj e =
    let a = v.aligned t ht in let b = v.aligned u hu in (omega arith, omega arith)
