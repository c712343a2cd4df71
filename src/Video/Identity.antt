-- ===== src/Video/Identity.antt =====
-- What `video_map_framebuffer` of kernel/src/core/video.c does to the mapping of virtual addresses.
use walu_os.Prelude.{
  ℕ, zero, suc, ◌+◌, ◌-◌, ◌*◌, ◌/◌, ◌%◌, ◌^◌, ◌<◌, ◌≤◌, ◌≡◌, ◌⊎◌, refl, sym, ap, subst, ◌∙◌, inl,
  inr, Bool, true, false, not, ◌&&◌, ◌||◌, ◌==◌, ==_iff, ==_ne, if◌then◌else◌, ltb, leb, some, u64,
  arith, Bool-cases,
}
use walu_os.Vmm.{Vmm, flag_writable, map_2m}
use walu_os.Vmm.Walk.{Page, lookup}
use walu_os.Vmm.Tables.{Tables}
use walu_os.Vmm.Entry.{wanted}
use walu_os.Vmm.Map.{Maps, map_2m-Maps, same_page}
use walu_os.Video.Defs.{
  Framebuffer, huge_page_size, map_max_bytes, align_down_2m, align_up_2m, map_pages, finish,
  map_framebuffer,
}

-- The page of 2 MiB that maps an address to itself, for the kernel to read and write.
abbrev pub identity : ℕ → Page
identity a = record {
  base = a / 2 ^ 21 * 2 ^ 21;
  writable = true;
  user = false;
  no_execute = false;
}

-- `r` maps the addresses from `first` on, below `end`, to themselves, and the others below 2 ^ 48 as `s` does.
abbrev pub Extends : ℕ → Vmm → Vmm → ℕ → ℕ → Type 0
Extends root s r first end =
    (a : ℕ)
    → a < 2 ^ 48
    → lookup root r a ≡ (if leb first a && ltb a end then some (identity a) else lookup root s a)

first_page :
    (a addr : ℕ)
    → a < 2 ^ 48
    → addr + huge_page_size ≤ 2 ^ 48
    → addr % huge_page_size ≡ 0
    → same_page a addr ≡ leb addr a && ltb a (addr + huge_page_size)
first_page a addr ha h aligned = elim (Bool-cases (leb addr a && ltb a (addr + huge_page_size))) [
  | inl inside ↦
      let lower : addr ≤ a = ground arith in
      let upper : a < addr + huge_page_size = ground arith in
      let e : a / 2 ^ 21 % 2 ^ 27 ≡ addr / 2 ^ 21 % 2 ^ 27 = omega (arith, lower, upper) in
      (==_iff (a / 2 ^ 21 % 2 ^ 27) (addr / 2 ^ 21 % 2 ^ 27)).1 e ∙ sym inside
  | inr outside ↦
      let far : (a < addr) ⊎ (addr + huge_page_size ≤ a) = ground arith in
      ==_ne (a / 2 ^ 21 % 2 ^ 27) (addr / 2 ^ 21 % 2 ^ 27)
        (λ e. elim far [ inl before ↦ absurd (omega arith) | inr after ↦ absurd (omega arith) ])
      ∙ sym outside
]

module _ (root : ℕ) where
  nothing_mapped : (s : Vmm) (addr : ℕ) → Extends root s s addr (addr + 0 * huge_page_size)
  nothing_mapped s addr a ha =
      let none_inside : (leb addr a && ltb a (addr + 0 * huge_page_size)) ≡ false = ground arith in
      rw none_inside refl

  -- The first page, then the others.
  then_others :
      (addr end : ℕ) {s : Vmm} (r : Vmm) {first : Vmm × Bool}
      → addr + huge_page_size ≤ end
      → end ≤ 2 ^ 48
      → Maps root s addr addr flag_writable first
      → first.1 ≡ true
      → Extends root first.0 r (addr + huge_page_size) end
      → Extends root s r addr end
  then_others addr end {s} r {first} room below m done others a ha =
      let aligned : addr % 2 ^ 21 ≡ 0 =
        ground (arith, m.only_aligned done, ==_iff (addr % 2 ^ 21) 0) in
      let page : same_page a addr ≡ leb addr a && ltb a (addr + huge_page_size) =
        first_page a addr ha (omega arith) aligned in
      elim (Bool-cases (leb (addr + huge_page_size) a && ltb a end)) [
        | inl later ↦
            let inside : (leb addr a && ltb a end) ≡ true = ground arith in
            others a ha ∙ rw (later, inside) refl
        | inr not_later ↦ elim (Bool-cases (leb addr a && ltb a (addr + huge_page_size))) [
          | inl here ↦
              let inside : (leb addr a && ltb a end) ≡ true = ground arith in
              let base : addr % 2 ^ 52 ≡ a / 2 ^ 21 * 2 ^ 21 = ground arith in
              others a ha
              ∙ ap (λ (c : Bool). if c then some (identity a) else lookup root first.0 a) not_later
              ∙ m.success done a
              ∙ ap (λ (c : Bool). if c then some (wanted addr flag_writable) else lookup root s a)
                  (page ∙ here)
              ∙ ap
                  (λ (b : ℕ).
                    some (record { base = b; writable = true; user = false; no_execute = false }))
                  base
              ∙ rw inside refl
          | inr elsewhere ↦
              let outside : (leb addr a && ltb a end) ≡ false = ground arith in
              others a ha
              ∙ ap (λ (c : Bool). if c then some (identity a) else lookup root first.0 a) not_later
              ∙ m.success done a
              ∙ ap (λ (c : Bool). if c then some (wanted addr flag_writable) else lookup root s a)
                  (page ∙ elsewhere)
              ∙ rw outside refl
        ]
      ]

  -- What the loop does: `r` is the state after it and whether it went through.
  pub record Loops (s : Vmm) (first end : ℕ) (r : Vmm × Bool) : Type 0 where
    pub tables : Tables root r.0
    pub extends : r.1 ≡ true → Extends root s r.0 first end

  map_pages-Loops :
      (n addr : ℕ) {s : Vmm}
      → Tables root s
      → addr + n * huge_page_size ≤ 2 ^ 48
      → Loops s addr (addr + n * huge_page_size) (map_pages root n addr s)
  unfolding map_pages
  map_pages-Loops zero addr {s} v below = record {
    tables = v;
    extends = λ e. nothing_mapped s addr;
  }
  map_pages-Loops (suc n) addr {s} v below =
      let m = map_2m-Maps v addr addr flag_writable in
      let next : u64 (addr + huge_page_size) ≡ addr + huge_page_size = omega arith in
      let end : addr + huge_page_size + n * huge_page_size ≡ addr + suc n * huge_page_size =
        omega arith in
      elim (Bool-cases (map_2m root s addr addr flag_writable).1) [
        | inl done ↦
            let rest = map_pages-Loops n (addr + huge_page_size) m.tables (omega arith) in
            rw (done, next)
              (record {
                tables = rest.tables;
                extends = λ e.
                    then_others addr (addr + suc n * huge_page_size)
                      (map_pages root n (addr + huge_page_size)
                        (map_2m root s addr addr flag_writable).0).0
                      (omega arith) below m done
                      (subst
                        (Extends root (map_2m root s addr addr flag_writable).0
                          (map_pages root n (addr + huge_page_size)
                            (map_2m root s addr addr flag_writable).0).0
                          (addr + huge_page_size))
                        end (rest.extends e));
              })
        | inr failed ↦ rw failed (record { tables = m.tables; extends = λ e. absurd cc })
      ]

-- What `video_map_framebuffer` may do for the framebuffer `g`.
pub record Framed (root : ℕ) (s : Vmm) (g : Framebuffer) (r : Vmm × Framebuffer × Bool)
    : Type 0 where
  pub tables : Tables root r.0
  pub flag : g.mapped ≡ false → r.1.mapped ≡ r.2
  pub maps :
      r.2 ≡ true
      → (a : ℕ) → g.phys_addr ≤ a
      → a < g.phys_addr + g.size_bytes
      → lookup root r.0 a ≡ some (identity a)
  pub keeps :
      r.2 ≡ true
      → (a : ℕ) → a < 2 ^ 48
      → (a + huge_page_size ≤ g.phys_addr) ⊎ (g.phys_addr + g.size_bytes + huge_page_size ≤ a)
      → lookup root r.0 a ≡ lookup root s a

module _ {root : ℕ} {s : Vmm} (v : Tables root s) (g : Framebuffer) where
  not_mapped : Framed root s g (s, g, false)
  not_mapped = record { tables = v; flag = λ e. e; maps = λ e. absurd cc; keeps = λ e. absurd cc }

  looped :
      (first end : ℕ) {r : Vmm × Bool}
      → Loops root s first end r
      → first ≤ g.phys_addr
      → g.phys_addr < first + huge_page_size
      → g.phys_addr + g.size_bytes ≤ end
      → end < g.phys_addr + g.size_bytes + huge_page_size
      → end ≤ 2 ^ 48
      → Framed root s g (finish g r)
  looped first end {r} l a b c d below = record {
    tables = l.tables;
    flag = λ e. refl;
    maps = λ e x lo hi.
        let inside : (leb first x && ltb x end) ≡ true = ground arith in
        l.extends e x (omega arith) ∙ rw inside refl;
    keeps = λ e x hx far.
        let outside : (leb first x && ltb x end) ≡ false = ground arith in
        l.extends e x hx ∙ rw outside refl;
  }

  -- On page tables that form a tree, `video_map_framebuffer` of a framebuffer below 2 ^ 48 keeps them so. If
  -- it succeeds, every address of the framebuffer is mapped to itself for the kernel to write, and
  -- the addresses below 2 ^ 48 that are 2 MiB or more away from it are mapped as before. Where the
  -- framebuffer was not marked as mapped, it is so after exactly if the function succeeds.
  pub map_framebuffer-Framed :
      g.phys_addr + g.size_bytes ≤ 2 ^ 48 → Framed root s g (map_framebuffer root s g)
  unfolding map_framebuffer
  map_framebuffer-Framed below =
      let first = align_down_2m g.phys_addr in
      let sum : u64 (g.phys_addr + g.size_bytes) ≡ g.phys_addr + g.size_bytes = omega arith in
      let end = align_up_2m (g.phys_addr + g.size_bytes) in
      let up : end
          ≡ (g.phys_addr + g.size_bytes + huge_page_size - 1) / huge_page_size * huge_page_size =
        omega arith in
      elim (Bool-cases (not g.present || g.size_bytes == 0)) [
        | inl absent ↦ rw absent not_mapped
        | inr there ↦ elim (Bool-cases (ltb map_max_bytes g.size_bytes)) [
          | inl large ↦ rw (there, large) not_mapped
          | inr fits ↦ elim (Bool-cases (leb end first)) [
            | inl empty ↦ rw (there, fits, sum, empty) not_mapped
            | inr some_pages ↦
                let rounds = (end - first) / huge_page_size in
                let lt : first < end = ground arith in
                let last : first + rounds * huge_page_size ≡ end = omega (arith, up, lt) in
                let small : end ≤ 2 ^ 48 = omega (arith, up) in
                rw (there, fits, sum, some_pages)
                  (looped first end
                    (subst (λ (e : ℕ). Loops root s first e (map_pages root rounds first s)) last
                      (map_pages-Loops root rounds first v (omega (arith, last, small))))
                    (omega arith) (omega arith) (omega (arith, up)) (omega (arith, up)) small)
          ]
        ]
      ]
