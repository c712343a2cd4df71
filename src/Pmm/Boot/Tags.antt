-- ===== src/Pmm/Boot/Tags.antt =====
-- The loops of `pmm_init` in kernel/src/core/pmm.c, over the bytes of the loader's information block.
use walu_os.Prelude.{
  ℕ, zero, suc, ◌+◌, ◌-◌, ◌*◌, ◌/◌, ◌^◌, true, false, not, ◌&&◌, ◌==◌, if◌then◌else◌, ltb, Option,
  none, some, u32, u64,
}
use walu_os.Pmm.Defs.{Pmm, frame_size, max_memory, mark_region}

-- The byte at each address.
abbrev pub Memory : Type 0
Memory = ℕ → ℕ

-- `*(uint32_t *)` and `*(uint64_t *)`, the lowest byte first
unfoldable pub read32 : Memory → ℕ → ℕ
read32 mem a = mem a + 256 * mem (a + 1) + 65536 * mem (a + 2) + 16777216 * mem (a + 3)

unfoldable pub read64 : Memory → ℕ → ℕ
unfolding read32
read64 mem a = read32 mem a + 2 ^ 32 * read32 mem (a + 4)

abbrev pub tag_type : Memory → ℕ → ℕ
tag_type mem tag = read32 mem tag

abbrev pub tag_size : Memory → ℕ → ℕ
tag_size mem tag = read32 mem (tag + 4)

-- `(tag->size + 7) & ~7U`
abbrev pub next_tag : Memory → ℕ → ℕ
next_tag mem tag = tag + u32 (tag_size mem tag + 7) / 8 * 8

-- The loops have a body `visit`, for the address and the length of an available region; the first number
-- bounds their rounds, and `none` says that it was too small.
module _ {S : Type 0} (mem : Memory) (visit : S → ℕ → ℕ → S) where
  unfoldable pub entries : ℕ → ℕ → ℕ → ℕ → S → Option S
  entries zero ptr end entry_size s = none
  entries (suc n) ptr end entry_size s =
      let visited =
        if read32 mem (ptr + 16) == 1 then visit s (read64 mem ptr) (read64 mem (ptr + 8)) else s in
      let rest = entries n (ptr + entry_size) end entry_size visited in
      if ltb ptr end then rest else some s

  unfoldable pub tags : ℕ → ℕ → ℕ → ℕ → S → Option S
  tags rounds zero tag limit s = none
  tags rounds (suc n) tag limit s =
      let visited : Option S =
        if tag_type mem tag == 6
        then entries rounds (tag + 16) (tag + tag_size mem tag) (read32 mem (tag + 8)) s
        else some s in
      let rest : Option S = elim visited [
        | none ↦ none
        | some t ↦ tags rounds n (next_tag mem tag) limit t
      ] in
      if ltb tag limit && not (tag_type mem tag == 0) then rest else some s

-- `highest_available_end`
abbrev pub highest : ℕ → ℕ → ℕ → ℕ
highest h addr len = if ltb h (u64 (addr + len)) then u64 (addr + len) else h

abbrev pub total_of : ℕ → ℕ
total_of h =
    let capped = if ltb max_memory h then max_memory else h in
    if capped / frame_size == 0 then 1 else capped / frame_size

-- `memset` and the counts before the second walk
abbrev pub all_used : ℕ → Pmm
all_used total = record { frame_bitmap = λ i. 255; total_frames = total; used_frames = total }

abbrev pub release : Pmm → ℕ → ℕ → Pmm
release p addr len = mark_region p addr len true

-- The first mebibyte and the kernel's image are taken back.
unfoldable pub reserve : ℕ → ℕ → Pmm → Pmm
reserve kstart kend p =
    mark_region (mark_region p 0 1048576 false) kstart (u64 (kend + 2 ^ 64 - kstart)) false

-- `rounds` bounds the loops; `kstart` and `kend` are the addresses of the linker's symbols.
unfoldable pub init : ℕ → Memory → ℕ → ℕ → ℕ → Option Pmm
unfolding reserve
init rounds mem mb kstart kend =
    let limit = mb + read32 mem mb in
    elim (tags mem highest rounds rounds (mb + 8) limit 16777216) [
      | none ↦ none
      | some h ↦ elim (tags mem release rounds rounds (mb + 8) limit (all_used (total_of h))) [
        | none ↦ none
        | some p ↦ some (reserve kstart kend p)
      ]
    ]
