-- ===== src/Userland/Storaged/Audit.antt =====
-- The command line of storaged (userland/storaged/storaged.c) against its audit log.
use walu_os.Prelude.{
  ◌≡◌, ◌≢◌, refl, ap, sym, subst, ◌∙◌, Bool, Bool-cases, true, false, ◌⊎◌, inl, inr, none, some,
  List, [], ◌∷◌, Bytes, codes, same, same_iff, length, arith, Option-cases,
}
use walu_os.Userland.Effects.{Run}
use walu_os.Userland.Storaged.Defs.{Host, FormatArgs, usage, parse_format_args}
use walu_os.Userland.Storaged.Commands.{probe, misused, format, main}
use walu_os.Userland.Storaged.Logs.{Logged, command_format-Logged, command_probe-Logged}

-- What the words of the command line ask for: an operation and its device.
abbrev pub Asks : List Bytes → Bytes → Bytes → Type 0
Asks ws op device =
    ((op ≡ codes "probe") × (ws ≡ codes "probe" ∷ codes "--device" ∷ device ∷ []))
    ⊎ ((op ≡ codes "format")
        × ((rest : List Bytes) × (args : FormatArgs) × (ws ≡ codes "format" ∷ rest)
            × (parse_format_args rest ≡ some (args, device))))

-- Words that ask for nothing get the usage; the others are served and logged.
abbrev pub AuditedRun : Host → List Bytes → Run → Type 0
AuditedRun host ws run =
    (((op device : Bytes) → ¬ Asks ws op device) × (run ≡ (usage, 1)))
    ⊎ ((op : Bytes) × (device : Bytes) × Asks ws op device × Logged host op device run)

-- Words of two ways of asking differ.
abbrev first_is : Bytes → List Bytes → Bool
first_is word [] = false
first_is word (w ∷ ws) = same w word

abbrev behind : List Bytes → List Bytes
behind [] = []
behind (w ∷ ws) = ws

never : false ≢ true
never e = absurd cc

some_is_none : {x : FormatArgs × Bytes} → some x ≢ none
some_is_none e = absurd cc

module _ (host : Host) where
  -- Words that ask for nothing: none of the two ways of asking fits.
  refused-AuditedRun :
      (ws : List Bytes)
      → ((device : Bytes) → ws ≢ codes "probe" ∷ codes "--device" ∷ device ∷ [])
      → ((rest : List Bytes) → ws ≡ codes "format" ∷ rest → parse_format_args rest ≡ none)
      → AuditedRun host ws misused
  refused-AuditedRun ws no_probe no_format = inl (
    λ op device asked. elim asked [
      | inl (o, words) ↦ no_probe device words
      | inr (o, (rest, args, words, parsed)) ↦ some_is_none (sym parsed ∙ no_format rest words)
    ],
    refl,
  )

  format-AuditedRun : (ws : List Bytes) → AuditedRun host (codes "format" ∷ ws) (format host ws)
  unfolding format
  format-AuditedRun ws = elim (Option-cases (parse_format_args ws)) [
    | inl e ↦
        rw (e, format)
          (refused-AuditedRun (codes "format" ∷ ws)
            (λ device words. never (ap (first_is (codes "probe")) words))
            (λ rest words. ap parse_format_args (sym (ap behind words)) ∙ e))
    | inr ((args, device), e) ↦
        rw (e, format)
          (inr (
            codes "format",
            device,
            inr (refl, (ws, args, refl, e)),
            command_format-Logged host args device,
          ))
  ]

  -- `probe` with words that are not `--device` and a path
  misused_probe :
      (ws : List Bytes)
      → ((device : Bytes) → ws ≢ codes "--device" ∷ device ∷ [])
      → AuditedRun host (codes "probe" ∷ ws) misused
  misused_probe ws other =
      refused-AuditedRun (codes "probe" ∷ ws) (λ device words. other device (ap behind words))
        (λ rest words. absurd (never (ap (first_is (codes "format")) words)))

  probe-AuditedRun : (ws : List Bytes) → AuditedRun host (codes "probe" ∷ ws) (probe host ws)
  probe-AuditedRun [] = misused_probe [] (λ device words. absurd (omega (arith, ap length words)))
  probe-AuditedRun (w ∷ []) =
      misused_probe (w ∷ []) (λ device words. absurd (omega (arith, ap length words)))
  probe-AuditedRun (w ∷ device ∷ []) = elim (Bool-cases (same w (codes "--device"))) [
    | inl e ↦ rw e (
        inr (
          codes "probe",
          device,
          inl (
            refl,
            ap (λ v. codes "probe" ∷ v ∷ device ∷ []) ((same_iff w (codes "--device")).0 e),
          ),
          command_probe-Logged host device,
        ))
    | inr ne ↦ rw ne (
        misused_probe (w ∷ device ∷ [])
          (λ d words. never (sym ne ∙ ap (first_is (codes "--device")) words)))
  ]
  probe-AuditedRun (w ∷ device ∷ x ∷ ws) =
      misused_probe (w ∷ device ∷ x ∷ ws) (λ d words. absurd (omega (arith, ap length words)))

  -- Words that name an operation and its device as the usage says get exactly one entry in the audit log at
  -- its path, where that can be opened, else none: the entry has the operation and the device asked for,
  -- and a result and a detail that belong to the exit code. All other words print the usage and nothing
  -- else, and end with code 1.
  pub main-Audited : (ws : List Bytes) → AuditedRun host ws (main host ws)
  unfolding main
  main-Audited [] =
      refused-AuditedRun [] (λ device words. absurd (omega (arith, ap length words)))
        (λ rest words. absurd (omega (arith, ap length words)))
  main-Audited (command ∷ ws) = elim (Bool-cases (same command (codes "probe"))) [
    | inl p ↦ rw p (
        subst (λ c. AuditedRun host (c ∷ ws) (probe host ws))
          (sym ((same_iff command (codes "probe")).0 p)) (probe-AuditedRun ws))
    | inr np ↦ elim (Bool-cases (same command (codes "format"))) [
      | inl f ↦
          rw (np, f)
            (subst (λ c. AuditedRun host (c ∷ ws) (format host ws))
              (sym ((same_iff command (codes "format")).0 f)) (format-AuditedRun ws))
      | inr nf ↦
          rw (np, nf)
            (refused-AuditedRun (command ∷ ws)
              (λ device words. never (sym np ∙ ap (first_is (codes "probe")) words))
              (λ rest words. absurd (never (sym nf ∙ ap (first_is (codes "format")) words))))
    ]
  ]
