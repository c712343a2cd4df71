-- ===== src/Video/Probe.antt =====
-- The loop of `video_probe_multiboot` of kernel/src/core/video.c ends, and what it leaves.
use walu_os.Prelude.{
  ℕ, zero, suc, ◌+◌, ◌*◌, ◌/◌, ◌^◌, ◌<◌, ◌≤◌, ◌≡◌, refl, subst, inl, inr, false, not, ◌&&◌, ◌==◌,
  ltb, leb, Option, some, u32, u64, arith, Bool-cases,
}
use walu_os.Pmm.Boot.Tags.{Memory, read32, tag_type, tag_size, next_tag}
use walu_os.Video.Defs.{Framebuffer, blank, read_tag, probe_from, probe_multiboot}

-- The state before the framebuffer is mapped; its size is that of its lines.
pub record Probed (g : Framebuffer) : Type 0 where
  pub not_mapped : g.mapped ≡ false
  pub size : g.size_bytes ≡ u64 (g.pitch * g.height)

blank-Probed : Probed blank
blank-Probed = record { not_mapped = refl; size = refl }

read_tag-Probed : (mem : Memory) (tag : ℕ) (g : Framebuffer) → Probed (read_tag mem tag g)
unfolding read_tag
read_tag-Probed mem tag g = elim (Bool-cases (mem (tag + 29) == 1 && leb 38 (tag_size mem tag))) [
  | inl rgb ↦ rw rgb (record { not_mapped = refl; size = refl })
  | inr other ↦ rw other (record { not_mapped = refl; size = refl })
]

-- The loop stops with a state that is as it should be.
abbrev Ends : Option Framebuffer → Type 0
Ends r = (g : Framebuffer) × (r ≡ some g) × Probed g

-- The tags start at multiples of 8 from `start`; none in the block has a size for which the rounding wraps.
module _ (mem : Memory) (start limit : ℕ)
    (sizes : (k : ℕ) → start + 8 * k < limit → tag_size mem (start + 8 * k) + 7 < 2 ^ 32) where
  -- The number of the tag behind the tag `k`.
  abbrev next : ℕ → ℕ
  next k = k + u32 (tag_size mem (start + 8 * k) + 7) / 8

  next-is : (k : ℕ) → start + 8 * next k ≡ next_tag mem (start + 8 * k)
  next-is k = omega arith

  advances :
      (k : ℕ) → start + 8 * k < limit → ltb (tag_size mem (start + 8 * k)) 8 ≡ false → k < next k
  advances k inside h =
      let size = sizes k inside in
      let least : 8 ≤ tag_size mem (start + 8 * k) = ground arith in omega arith

  probe_from-Ends :
      (n k : ℕ) {g : Framebuffer}
      → Probed g
      → 0 < n
      → limit + 8 ≤ start + 8 * k + 8 * n
      → Ends (probe_from n mem (start + 8 * k) limit g)
  unfolding probe_from
  probe_from-Ends zero k v some_left enough = absurd (omega arith)
  probe_from-Ends (suc n) k {g} v some_left enough =
      let tag = start + 8 * k in
      let ends : Ends (some g) = (g, refl, v) in
      elim (Bool-cases (ltb tag limit && not (tag_type mem tag == 0))) [
        | inr done ↦ rw done ends
        | inl more ↦ elim (Bool-cases (ltb (tag_size mem tag) 8)) [
          | inl small ↦ rw (more, small) ends
          | inr large ↦
              let step = advances k (ground arith) large in
              let again : 0 < n = ground arith in
              let rest : (h : Framebuffer)
                  → Probed h
                  → Ends (probe_from n mem (next_tag mem tag) limit h) =
                λ h w.
                  subst (λ (t : ℕ). Ends (probe_from n mem t limit h)) (next-is k)
                    (probe_from-Ends n (next k) w again (omega (arith, step, enough))) in
              elim (Bool-cases (tag_type mem tag == 8)) [
                | inr other ↦ rw (more, large, other) (rest g v)
                | inl screen ↦ elim (Bool-cases (ltb (tag_size mem tag) 32)) [
                  | inl short ↦ rw (more, large, screen, short) ends
                  | inr whole ↦
                      rw (more, large, screen, whole)
                        (rest (read_tag mem tag g) (read_tag-Probed mem tag g))
                ]
              ]
        ]
      ]

-- If nothing in the information block can be read as a tag whose size is within 7 of 2 ^ 32 (the rounding
-- would wrap), `video_probe_multiboot` ends within one round for each 8 bytes of the block; it leaves the
-- framebuffer not mapped, with a size of `pitch * height` bytes.
pub probe_multiboot-Ends :
    (mem : Memory) (rounds mb : ℕ)
    → ((k : ℕ) → 8 + 8 * k < read32 mem mb → tag_size mem (mb + 8 + 8 * k) + 7 < 2 ^ 32)
    → read32 mem mb < 8 * rounds
    → (g : Framebuffer) × (probe_multiboot rounds mem mb ≡ some g) × Probed g
unfolding probe_multiboot
probe_multiboot-Ends mem rounds mb sizes enough = elim (Bool-cases (mb == 0)) [
  | inl none_given ↦ rw none_given (blank, refl, blank-Probed)
  | inr given ↦ elim (Bool-cases (ltb (read32 mem mb) 16)) [
    | inl short ↦ rw (given, short) (blank, refl, blank-Probed)
    | inr block ↦
        let run : Ends (probe_from rounds mem (mb + 8 + 8 * 0) (mb + read32 mem mb) blank) =
          probe_from-Ends mem (mb + 8) (mb + read32 mem mb) (λ k lt. sizes k (omega arith)) rounds 0
            blank-Probed (omega arith) (omega arith) in
        let start : mb + 8 + 8 * 0 ≡ mb + 8 = omega arith in
        rw (given, block)
          (subst (λ (t : ℕ). Ends (probe_from rounds mem t (mb + read32 mem mb) blank)) start run)
  ]
]
