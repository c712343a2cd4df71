-- ===== src/Userland/Storaged/Options.antt =====
-- The options of `storaged format`, as the usage lists them.
use walu_os.Prelude.{
  ◌≡◌, ◌↔◌, refl, ap, sym, subst, ◌∙◌, true, inl, inr, Option, some, List, [], ◌∷◌, ◌++◌, Bytes,
  codes, same, same_iff, Bool-cases, Option-cases, arith,
}
use walu_os.Userland.Storaged.Defs.{FormatArgs, no_args, parse_from, parse_format_args, has_device}

pub data Flag : Type 0 where
  device_is confirm_is : Bytes → Flag
  dry_run force yes : Flag

-- The words of the command line that stand for the flags.
abbrev pub spell : List Flag → List Bytes
spell [] = []
spell (Flag.device_is d ∷ fs) = codes "--device" ∷ d ∷ spell fs
spell (Flag.confirm_is c ∷ fs) = codes "--confirm" ∷ c ∷ spell fs
spell (Flag.dry_run ∷ fs) = codes "--dry-run" ∷ spell fs
spell (Flag.force ∷ fs) = codes "--force" ∷ spell fs
spell (Flag.yes ∷ fs) = codes "--yes" ∷ spell fs

-- A later flag replaces what an earlier one gave.
abbrev pub note : FormatArgs → List Flag → FormatArgs
note args [] = args
note args (Flag.device_is d ∷ fs) = note (record args { device = some d }) fs
note args (Flag.confirm_is c ∷ fs) = note (record args { confirm = some c }) fs
note args (Flag.dry_run ∷ fs) = note (record args { dry_run = true }) fs
note args (Flag.force ∷ fs) = note (record args { force = true }) fs
note args (Flag.yes ∷ fs) = note (record args { yes = true }) fs

ParsesAs : (w : Bytes) (f : Flag) → Type 0
ParsesAs w f =
    (args : FormatArgs) (ws : List Bytes)
    → parse_from args (w ∷ ws) ≡ parse_from (note args (f ∷ [])) ws

parse_dry_run : ParsesAs (codes "--dry-run") Flag.dry_run
unfolding parse_from ParsesAs
parse_dry_run args [] = refl
parse_dry_run args (v ∷ ws) = refl

parse_force : ParsesAs (codes "--force") Flag.force
unfolding parse_from ParsesAs
parse_force args [] = refl
parse_force args (v ∷ ws) = refl

parse_yes : ParsesAs (codes "--yes") Flag.yes
unfolding parse_from ParsesAs
parse_yes args [] = refl
parse_yes args (v ∷ ws) = refl

parse_from-spell :
    (args : FormatArgs) (fs : List Flag) → parse_from args (spell fs) ≡ some (note args fs)
unfolding parse_from ParsesAs
parse_from-spell args [] = refl
parse_from-spell args (Flag.device_is d ∷ fs) =
    parse_from-spell (record args { device = some d }) fs
parse_from-spell args (Flag.confirm_is c ∷ fs) =
    parse_from-spell (record args { confirm = some c }) fs
parse_from-spell args (Flag.dry_run ∷ fs) =
    parse_dry_run args (spell fs) ∙ parse_from-spell (record args { dry_run = true }) fs
parse_from-spell args (Flag.force ∷ fs) =
    parse_force args (spell fs) ∙ parse_from-spell (record args { force = true }) fs
parse_from-spell args (Flag.yes ∷ fs) =
    parse_yes args (spell fs) ∙ parse_from-spell (record args { yes = true }) fs

-- A command line that spells flags.
pub record Spelled (args : FormatArgs) (ws : List Bytes) (out : FormatArgs) : Type 0 where
  pub flags : List Flag
  pub spelled : ws ≡ spell flags
  pub noted : out ≡ note args flags

spell_cons : (f : Flag) (fs : List Flag) → spell (f ∷ []) ++ spell fs ≡ spell (f ∷ fs)
spell_cons (Flag.device_is d) fs = refl
spell_cons (Flag.confirm_is c) fs = refl
spell_cons Flag.dry_run fs = refl
spell_cons Flag.force fs = refl
spell_cons Flag.yes fs = refl

note_cons :
    (args : FormatArgs) (f : Flag) (fs : List Flag)
    → note (note args (f ∷ [])) fs ≡ note args (f ∷ fs)
note_cons args (Flag.device_is d) fs = refl
note_cons args (Flag.confirm_is c) fs = refl
note_cons args Flag.dry_run fs = refl
note_cons args Flag.force fs = refl
note_cons args Flag.yes fs = refl

cons-Spelled :
    (args : FormatArgs) (f : Flag) {ws : List Bytes} {out : FormatArgs}
    → Spelled (note args (f ∷ [])) ws out
    → Spelled args (spell (f ∷ []) ++ ws) out
cons-Spelled args f s = record {
  flags = f ∷ s.flags;
  spelled = ap (λ ws. spell (f ∷ []) ++ ws) s.spelled ∙ spell_cons f s.flags;
  noted = s.noted ∙ note_cons args f s.flags;
}

nil-Spelled : (args : FormatArgs) {out : FormatArgs} → some args ≡ some out → Spelled args [] out
nil-Spelled args e = record { flags = []; spelled = refl; noted = cc }

-- A word that is a flag may be taken for the literal.
module _ (args : FormatArgs) (ws : List Bytes) {out : FormatArgs} where
  as_literal :
      (w literal : Bytes)
      → same w literal ≡ true
      → (parse_from args (literal ∷ ws) ≡ some out → Spelled args (literal ∷ ws) out)
      → parse_from args (w ∷ ws) ≡ some out
      → Spelled args (w ∷ ws) out
  as_literal w literal t k =
      subst (λ x. parse_from args (x ∷ ws) ≡ some out → Spelled args (x ∷ ws) out)
        (sym ((same_iff w literal).0 t)) k

parse_from-Spelled :
    (args : FormatArgs) (ws : List Bytes) {out : FormatArgs}
    → parse_from args ws ≡ some out
    → Spelled args ws out
unfolding parse_from
parse_from-Spelled args [] e = nil-Spelled args e
parse_from-Spelled args (w ∷ []) e = elim (Bool-cases (same w (codes "--dry-run"))) [
  | inl t ↦ as_literal args [] w _ t (λ e'. cons-Spelled args Flag.dry_run (nil-Spelled _ e')) e
  | inr t1 ↦ elim (Bool-cases (same w (codes "--force"))) [
    | inl t ↦ as_literal args [] w _ t (λ e'. cons-Spelled args Flag.force (nil-Spelled _ e')) e
    | inr t2 ↦ elim (Bool-cases (same w (codes "--yes"))) [
      | inl t ↦ as_literal args [] w _ t (λ e'. cons-Spelled args Flag.yes (nil-Spelled _ e')) e
      | inr t3 ↦ absurd (ground (arith, e, t1, t2, t3))
    ]
  ]
]
parse_from-Spelled args (w ∷ v ∷ ws) e = elim (Bool-cases (same w (codes "--device"))) [
  | inl t ↦
      as_literal args (v ∷ ws) w _ t
        (λ e'. cons-Spelled args (Flag.device_is v) (parse_from-Spelled _ ws e')) e
  | inr t1 ↦ elim (Bool-cases (same w (codes "--dry-run"))) [
    | inl t ↦
        as_literal args (v ∷ ws) w _ t
          (λ e'. cons-Spelled args Flag.dry_run (parse_from-Spelled _ (v ∷ ws) e')) e
    | inr t2 ↦ elim (Bool-cases (same w (codes "--force"))) [
      | inl t ↦
          as_literal args (v ∷ ws) w _ t
            (λ e'. cons-Spelled args Flag.force (parse_from-Spelled _ (v ∷ ws) e')) e
      | inr t3 ↦ elim (Bool-cases (same w (codes "--yes"))) [
        | inl t ↦
            as_literal args (v ∷ ws) w _ t
              (λ e'. cons-Spelled args Flag.yes (parse_from-Spelled _ (v ∷ ws) e')) e
        | inr t4 ↦ elim (Bool-cases (same w (codes "--confirm"))) [
          | inl t ↦
              as_literal args (v ∷ ws) w _ t
                (λ e'. cons-Spelled args (Flag.confirm_is v) (parse_from-Spelled _ ws e')) e
          | inr t5 ↦ absurd (ground (arith, e, t1, t2, t3, t4, t5))
        ]
      ]
    ]
  ]
]

has_device_iff :
    (x args : FormatArgs) (device : Bytes)
    → (has_device x ≡ some (args, device)) ↔ ((x ≡ args) × (args.device ≡ some device))
has_device_iff x args device = (
  λ h. elim (Option-cases x.device) [
    | inl e ↦ absurd (ground (arith, h, e))
    | inr (d, e) ↦
        let both : ◌≡◌ {A = Option (FormatArgs × Bytes)} (some (x, d)) (some (args, device)) =
          sym (rw e) ∙ h in
        let x_args : x ≡ args = cc in (x_args, sym (ap (λ a. a.device) x_args) ∙ e ∙ cc)
  ],
  λ (x_args, named). rw (x_args, named),
)

-- `parse_format_args` accepts exactly the command lines that spell flags of the usage and name a
-- device, and gives what the flags say, the last of a kind counting.
pub parse_format_args-spell :
    (ws : List Bytes) (args : FormatArgs) (device : Bytes)
    → (parse_format_args ws ≡ some (args, device))
      ↔ (Spelled no_args ws args × (args.device ≡ some device))
unfolding parse_format_args
parse_format_args-spell ws args device = (
  λ h. elim (Option-cases (parse_from no_args ws)) [
    | inl e ↦ absurd (ground (arith, h, e))
    | inr (x, e) ↦
        let (x_args, named) =
          (has_device_iff x args device).0 (sym (rw (e, parse_format_args)) ∙ h) in
        (parse_from-Spelled no_args ws (e ∙ ap some x_args), named)
  ],
  λ (s, named).
      let parsed : parse_from no_args ws ≡ some args =
        ap (parse_from no_args) s.spelled
        ∙ parse_from-spell no_args s.flags
        ∙ ap some (sym s.noted) in
      rw (parsed, parse_format_args) ((has_device_iff args args device).1 (refl, named)),
)
