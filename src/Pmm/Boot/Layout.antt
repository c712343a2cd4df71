-- ===== src/Pmm/Boot/Layout.antt =====
-- An information block that describes a list of regions, and what the loops of kernel/src/core/pmm.c
-- make of it.
use walu_os.Prelude.{
  ℕ, zero, suc, ◌+◌, ◌≡◌, ◌<◌, ◌≤◌, refl, inl, inr, Bool, true, false, not, ◌&&◌, ◌==◌,
  if◌then◌else◌, ltb, lt→ltb, le→ltb_false, none, some, List, [], ◌∷◌, ◌++◌, length, arith,
  Bool-cases,
}
use walu_os.Pmm.Boot.Tags.{Memory, read32, read64, tag_type, tag_size, next_tag, entries, tags}

pub record Region : Type 0 where
  pub addr : ℕ
  pub len : ℕ
  pub kind : ℕ

-- A memory map with the size of its entries, or another tag.
pub data Tag : Type 0 where
  memory_map : ℕ → List Region → Tag
  other_tag : Tag

module _ (mem : Memory) where
  abbrev pub EntriesAt : ℕ → ℕ → ℕ → List Region → Type 0
  EntriesAt ptr end size [] = end ≤ ptr
  EntriesAt ptr end size (r ∷ rs) =
      (ptr < end)
      × (read64 mem ptr ≡ r.addr)
      × (read64 mem (ptr + 8) ≡ r.len)
      × (read32 mem (ptr + 16) ≡ r.kind)
      × EntriesAt (ptr + size) end size rs

  -- The maps have fewer than `rounds` entries.
  abbrev pub TagAt : ℕ → ℕ → Tag → Type 0
  TagAt rounds tag (memory_map size rs) =
      (tag_type mem tag ≡ 6)
      × (read32 mem (tag + 8) ≡ size)
      × (length rs < rounds)
      × EntriesAt (tag + 16) (tag + tag_size mem tag) size rs
  TagAt rounds tag other_tag = (tag_type mem tag == 6) ≡ false

  abbrev pub more_tags : ℕ → ℕ → Bool
  more_tags tag limit = ltb tag limit && not (tag_type mem tag == 0)

  abbrev pub TagsAt : ℕ → ℕ → ℕ → List Tag → Type 0
  TagsAt rounds tag limit [] = more_tags tag limit ≡ false
  TagsAt rounds tag limit (t ∷ ts) =
      (more_tags tag limit ≡ true) × TagAt rounds tag t × TagsAt rounds (next_tag mem tag) limit ts

-- The available regions, in order.
abbrev pub usable : List Region → List Region
usable [] = []
usable (r ∷ rs) = if r.kind == 1 then (r ∷ usable rs) else usable rs

abbrev pub regions : List Tag → List Region
regions [] = []
regions (memory_map size rs ∷ ts) = usable rs ++ regions ts
regions (other_tag ∷ ts) = regions ts

abbrev pub fold {ℓ} : {S : Type ℓ} → (S → ℕ → ℕ → S) → S → List Region → S
fold visit s [] = s
fold visit s (r ∷ rs) = fold visit (visit s r.addr r.len) rs

fold-append {ℓ} :
    {S : Type ℓ} (visit : S → ℕ → ℕ → S) (s : S) (xs ys : List Region)
    → fold visit s (xs ++ ys) ≡ fold visit (fold visit s xs) ys
fold-append visit s [] ys = refl
fold-append visit s (x ∷ xs) ys = fold-append visit (visit s x.addr x.len) xs ys

module _ {S : Type 0} (mem : Memory) (visit : S → ℕ → ℕ → S) where
  entries-fold :
      (n ptr end size : ℕ) (rs : List Region) (s : S)
      → length rs < n
      → EntriesAt mem ptr end size rs
      → entries mem visit n ptr end size s ≡ some (fold visit s (usable rs))
  unfolding entries
  entries-fold zero ptr end size rs s h at = absurd (omega arith)
  entries-fold (suc n) ptr end size [] s h at = rw (le→ltb_false ptr end at)
  entries-fold (suc n) ptr end size (r ∷ rs) s h (here, a, l, k, rest) =
      elim (Bool-cases (r.kind == 1)) [
        | inl available ↦
            rw (lt→ltb ptr end here, a, l, k, available)
              (entries-fold n (ptr + size) end size rs (visit s r.addr r.len) (omega arith) rest)
        | inr reserved ↦
            rw (lt→ltb ptr end here, a, l, k, reserved)
              (entries-fold n (ptr + size) end size rs s (omega arith) rest)
      ]

  -- On a block that describes a list of tags, the loops end and visit the available regions in order.
  pub tags-fold :
      (rounds n tag limit : ℕ) (ts : List Tag) (s : S)
      → length ts < n
      → TagsAt mem rounds tag limit ts
      → tags mem visit rounds n tag limit s ≡ some (fold visit s (regions ts))
  unfolding tags
  tags-fold rounds zero tag limit ts s h at = absurd (omega arith)
  tags-fold rounds (suc n) tag limit [] s h at = rw at
  tags-fold rounds (suc n) tag limit (memory_map size rs ∷ ts) s h
        (more, (kind, e, short, at), rest) =
      rw
        (
          more,
          kind,
          e,
          entries-fold rounds (tag + 16) (tag + tag_size mem tag) size rs s short at,
          fold-append visit s (usable rs) (regions ts),
        )
        (tags-fold rounds n (next_tag mem tag) limit ts (fold visit s (usable rs)) (omega arith)
          rest)
  tags-fold rounds (suc n) tag limit (other_tag ∷ ts) s h (more, kind, rest) =
      rw (more, kind) (tags-fold rounds n (next_tag mem tag) limit ts s (omega arith) rest)

  -- A tag of size 0 (not a memory map, and before the end) holds the loop of `pmm_init` for ever: no number of
  -- rounds is enough.
  pub tags_stuck :
      (rounds n tag limit : ℕ) (s : S)
      → more_tags mem tag limit ≡ true
      → (tag_type mem tag == 6) ≡ false
      → tag_size mem tag ≡ 0
      → tags mem visit rounds n tag limit s ≡ none
  unfolding tags
  tags_stuck rounds zero tag limit s more kind size = refl
  tags_stuck rounds (suc n) tag limit s more kind size =
      let stay : next_tag mem tag ≡ tag = omega (arith, size) in
      rw (more, kind, stay) (tags_stuck rounds n tag limit s more kind size)
