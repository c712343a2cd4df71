-- ===== src/Vmm/Defs.antt =====
-- The functions of kernel/src/core/vmm.c. The page tables are words of the memory: `table[index]` is the
-- word at `table + 8 * index`, since addresses below 1 GiB stand for themselves.
use walu_os.Prelude.{
  ℕ, ◌+◌, ◌*◌, ◌/◌, ◌%◌, ◌^◌, Bool, true, false, not, ◌&&◌, ◌||◌, ◌==◌, if◌then◌else◌, ltb, leb,
  Option, none, some, set, bit_and, bit_or,
}
use walu_os.Pmm.{Pmm, alloc_frame_low}

abbrev pub page_present : ℕ
page_present = 1

abbrev pub page_writable : ℕ
page_writable = 2

abbrev pub page_user : ℕ
page_user = 4

abbrev pub page_huge : ℕ
page_huge = 128

abbrev pub page_nx : ℕ
page_nx = 2 ^ 63

-- `VMM_FLAG_WRITABLE`, `VMM_FLAG_USER` and `VMM_FLAG_NX`
abbrev pub flag_writable : ℕ
flag_writable = 2

abbrev pub flag_user : ℕ
flag_user = 4

abbrev pub flag_nx : ℕ
flag_nx = 2 ^ 63

abbrev pub identity_window_limit : ℕ
identity_window_limit = 1073741824

-- The 64-bit word at each address, and the frames that are free.
pub record Vmm : Type 0 where
  pub words : ℕ → ℕ
  pub pmm : Pmm

-- `&table[index]`
abbrev pub slot : ℕ → ℕ → ℕ
slot table index = table + 8 * index

-- `memset` of a page
abbrev pub clear_page : (ℕ → ℕ) → ℕ → ℕ → ℕ
clear_page words page a = if leb page a && ltb a (page + 4096) then 0 else words a

-- `entry & 0x000FFFFFFFFFF000`
abbrev pub child_of : ℕ → ℕ
child_of entry = entry / 4096 % 2 ^ 40 * 4096

abbrev pub is_present : ℕ → Bool
is_present entry = not (bit_and entry page_present == 0)

-- The missing table of `ensure_table`, once a frame is asked for.
abbrev pub link : Vmm → ℕ → ℕ → Pmm × ℕ → Vmm × Option ℕ
link s parent index (pmm, frame) =
    let entry = bit_or (bit_or frame page_present) page_writable in
    if frame == 0 then (record s { pmm = pmm }, none) else (
      record { words = set (clear_page s.words frame) (slot parent index) entry; pmm = pmm },
      some (child_of entry),
    )

unfoldable pub ensure_table : Vmm → ℕ → ℕ → Vmm × Option ℕ
ensure_table s parent index =
    if is_present (s.words (slot parent index))
    then (s, some (child_of (s.words (slot parent index))))
    else link s parent index (alloc_frame_low s.pmm identity_window_limit)

-- The three indices of a virtual address
abbrev pub pml4_index : ℕ → ℕ
pml4_index virt_addr = virt_addr / 2 ^ 39 % 512

abbrev pub pdpt_index : ℕ → ℕ
pdpt_index virt_addr = virt_addr / 2 ^ 30 % 512

abbrev pub pd_index : ℕ → ℕ
pd_index virt_addr = virt_addr / 2 ^ 21 % 512

abbrev pub with_flag : ℕ → ℕ → ℕ → ℕ → ℕ
with_flag flags flag bit entry_flags =
    if not (bit_and flags flag == 0) then bit_or entry_flags bit else entry_flags

unfoldable pub entry_flags : ℕ → ℕ
entry_flags flags = with_flag flags flag_nx page_nx (
    with_flag flags flag_user page_user
      (with_flag flags flag_writable page_writable (bit_or page_present page_huge)))

-- `(phys_addr & 0x000FFFFFFFE00000) | entry_flags`
unfoldable pub huge_entry : ℕ → ℕ → ℕ
huge_entry phys_addr flags = bit_or (phys_addr / 2 ^ 21 % 2 ^ 31 * 2 ^ 21) (entry_flags flags)

-- The last step of `vmm_map_2m`, with what the second `ensure_table` gives.
abbrev pub map_page : ℕ → ℕ → ℕ → Vmm × Option ℕ → Vmm × Bool
map_page virt_addr phys_addr flags (s, pd) = elim pd [
  | none ↦ (s, false)
  | some pd ↦ (
    record s { words = set s.words (slot pd (pd_index virt_addr)) (huge_entry phys_addr flags) },
    true,
  )
]

-- The second step, with what the first `ensure_table` gives.
abbrev pub map_in : ℕ → ℕ → ℕ → Vmm × Option ℕ → Vmm × Bool
map_in virt_addr phys_addr flags (s, pdpt) = elim pdpt [
  | none ↦ (s, false)
  | some pdpt ↦ map_page virt_addr phys_addr flags (ensure_table s pdpt (pdpt_index virt_addr))
]

-- `pml4_table` is the address of the linker's symbol.
module _ (pml4_table : ℕ) where
  unfoldable pub map_2m : Vmm → ℕ → ℕ → ℕ → Vmm × Bool
  map_2m s virt_addr phys_addr flags =
      if not (virt_addr % 2 ^ 21 == 0) || not (phys_addr % 2 ^ 21 == 0)
      then (s, false)
      else map_in virt_addr phys_addr flags (ensure_table s pml4_table (pml4_index virt_addr))

  unfoldable pub init : Vmm → Vmm
  unfolding map_2m
  init s = (map_2m s 0x40000000 0x40000000 flag_writable).0
