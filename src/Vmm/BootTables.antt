-- ===== src/Vmm/BootTables.antt =====
-- Page tables as kernel/src/arch/x86_64/boot.S lays them out, in a small machine.
use walu_os.Prelude.{
  ℕ, ◌+◌, ◌-◌, ◌*◌, ◌/◌, ◌<◌, ◌≡◌, ◌⊎◌, refl, ap, inl, inr, true, ◌&&◌, ◌==◌, ==_iff, if◌then◌else◌,
  ltb, leb, arith, bit_and_1, Bool-cases,
}
use walu_os.Pmm.{frame_size}
use walu_os.Pmm.Bitmap.{used}
use walu_os.Vmm.Defs.{Vmm, slot, is_present}
use walu_os.Vmm.Tables.{Child, Tables}

abbrev pub pml4_table : ℕ
pml4_table = 0x100000

abbrev pdpt_table : ℕ
pdpt_table = 0x101000

abbrev pd_table : ℕ
pd_table = 0x102000

-- The first 264 frames are in use.
abbrev pub booted : Vmm
booted = record {
  words = λ a.
      if a == pml4_table
      then pdpt_table + 3
      else if a == pdpt_table
      then pd_table + 3
      else if leb pd_table a && ltb a (pd_table + 4096)
      then (a - pd_table) / 8 * 2097152 + 0x83
      else 0;
  pmm = record {
    frame_bitmap = λ i. if ltb i 33 then 255 else 0;
    total_frames = 272;
    used_frames = 264;
  };
}

abbrev level : ℕ → ℕ
level t =
    if t == pml4_table then 4 else if t == pdpt_table then 3 else if t == pd_table then 2 else 0

abbrev origin : ℕ → ℕ
origin t = if t == pdpt_table then pml4_table else pdpt_table

-- Only the first entries of the two upper tables are present.
first_entry :
    (t i : ℕ)
    → 2 < level t
    → i < 512
    → is_present (booted.words (slot t i)) ≡ true
    → ((t ≡ pml4_table) ⊎ (t ≡ pdpt_table)) × (i ≡ 0)
first_entry t i ht hi present =
    let upper : (t ≡ pml4_table) ⊎ (t ≡ pdpt_table) = ground arith in
    elim (Bool-cases (i == 0)) [
      | inl first ↦ (upper, (==_iff i 0).0 first)
      | inr later ↦
          let absent : booted.words (slot t i) ≡ 0 = ground (arith, ==_iff i 0) in
          absurd (ground (arith, bit_and_1 0, ap is_present absent, present))
    ]

booted-Child :
    (t i : ℕ)
    → 2 < level t
    → i < 512
    → is_present (booted.words (slot t i)) ≡ true
    → Child level origin (level t) (slot t i) (booted.words (slot t i))
booted-Child t i ht hi present =
    let (upper, first) = first_entry t i ht hi present in
    elim upper [
      | inl root ↦ rw (root, first) (record { is_table = refl; below = refl; from_here = refl })
      | inr pdpt ↦ rw (pdpt, first) (record { is_table = refl; below = refl; from_here = refl })
    ]

table_used : (t : ℕ) → 0 < level t → used booted.pmm (t / frame_size) ≡ true
table_used t ht = elim (Bool-cases (t == pml4_table)) [
  | inl root ↦ rw ((==_iff t pml4_table).0 root) refl
  | inr not_root ↦ elim (Bool-cases (t == pdpt_table)) [
    | inl pdpt ↦ rw ((==_iff t pdpt_table).0 pdpt) refl
    | inr not_pdpt ↦
        let pd : (t == pd_table) ≡ true = ground arith in rw ((==_iff t pd_table).0 pd) refl
  ]
]

pub booted-Tables : Tables pml4_table booted
booted-Tables = record {
  level = level;
  origin = origin;
  root_level = refl;
  aligned = λ t ht. ground arith;
  in_use = table_used;
  zero_used = refl;
  pmm_inv = record { cells_in = λ i. ground arith; total_in = omega arith; counted = refl };
  child = booted-Child;
}
