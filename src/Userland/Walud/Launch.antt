-- ===== src/Userland/Walud/Launch.antt =====
-- When walud runs a program, and as whom.
use walu_os.Prelude.{
  ℕ, zero, suc, ◌≤◌, ◌≡◌, ◌≢◌, refl, ap, sym, subst, ◌∙◌, inl, inr, Bool, true, false, not,
  if◌then◌else◌, Option, none, some, List, [], ◌∷◌, ◌++◌, Bytes, codes, All, NoneOf, take, length,
  clip, strtok, strtok-more, strtok-NoneOf, strtok_plain, token_at, take_while, drop_while, tail,
  Bool-cases, Option-cases, arith,
}
use walu_os.Userland.Effects.{log_error}
use walu_os.Userland.Walud.Trim.{is_gap, split_exec_start}
use walu_os.Userland.Walud.Unit.{UnitService, validate_unit, is_absolute_path}
use walu_os.Userland.Walud.Start.{
  Passwd, System, Act, logs, setgid, setuid, execv, exits, keeps_user, take_ids, apply_unit_user,
  child, walud, Started, alone, reap, launch, start_unit,
}
use walu_os.Userland.Walud.Defs.{start}

-- One argument of a program.
pub record IsArg (t : Bytes) : Type 0 where
  pub more : t ≢ []
  pub whole : NoneOf is_gap t

split_exec_start-IsArg : (n : ℕ) (line : Bytes) → All IsArg (split_exec_start n line)
unfolding split_exec_start
split_exec_start-IsArg zero line = tt
split_exec_start-IsArg (suc n) line = elim (Option-cases (strtok is_gap line)) [
  | inl e ↦ rw (e, split_exec_start) tt
  | inr ((tok, rest), e) ↦
      rw (e, split_exec_start)
        (
          record { more = strtok-more is_gap line e; whole = strtok-NoneOf is_gap line e },
          split_exec_start-IsArg n rest,
        )
]

length-split_exec_start : (n : ℕ) (line : Bytes) → length (split_exec_start n line) ≤ n
unfolding split_exec_start
length-split_exec_start zero line = omega arith
length-split_exec_start (suc n) line = elim (Option-cases (strtok is_gap line)) [
  | inl e ↦ rw (e, split_exec_start) (omega arith)
  | inr ((tok, rest), e) ↦ rw (e, split_exec_start) (omega (arith, length-split_exec_start n rest))
]

-- A program with its arguments: an absolute path, and itself the first of at most 31.
pub record IsCommand (program : Bytes) (argv : List Bytes) : Type 0 where
  pub absolute : take 1 program ≡ codes "/"
  pub first : take 1 argv ≡ program ∷ []
  pub few : length argv ≤ 31
  pub args : All IsArg argv

-- The group and the user that the process has been given.
pub record Held : Type 0 where
  pub gid : Option ℕ
  pub uid : Option ℕ

-- The process may run the program: the unit's user is one that keeps walud's rights, or the process has been given
-- the group and the user of that account.
pub data Entitled (sys : System) (user : Bytes) (held : Held) : Type 0 where
  kept : keeps_user user ≡ true → Entitled sys user held
  given :
      (pw : Passwd)
      → sys.getpwnam user ≡ some pw
      → held.gid ≡ some pw.pw_gid
      → held.uid ≡ some pw.pw_uid
      → Entitled sys user held

-- Every program that is run is a command, by a process that may; the group is asked for before the user.
abbrev pub Lawful : System → Bytes → Held → List Act → Type 0
Lawful sys user held [] = Unit
Lawful sys user held (logs es ∷ acts) = Lawful sys user held acts
Lawful sys user held (setgid gid got ∷ acts) =
    (held.uid ≡ none) × Lawful sys user (if got then record held { gid = some gid } else held) acts
Lawful sys user held (setuid uid got ∷ acts) =
    (held.gid ≢ none) × Lawful sys user (if got then record held { uid = some uid } else held) acts
Lawful sys user held (execv program argv ∷ acts) =
    Entitled sys user held × IsCommand program argv × Lawful sys user held acts
Lawful sys user held (exits code ∷ acts) = Lawful sys user held acts

abbrev pub nothing_held : Held
nothing_held = record { gid = none; uid = none }

-- The end of the child: the program, if it may be run.
abbrev finish : System → Bytes → List Bytes → Bool → List Act
finish sys program argv applied =
    if not applied
    then exits 126 ∷ []
    else if sys.execv_succeeds
    then execv program argv ∷ []
    else execv program argv ∷ exits 127 ∷ []

module _ (sys : System) (user : Bytes) (program : Bytes) (argv : List Bytes)
    (c : IsCommand program argv) where
  run-Lawful :
      (runs : Bool) (held : Held)
      → Entitled sys user held
      → Lawful sys user held
          (if runs then execv program argv ∷ [] else execv program argv ∷ exits 127 ∷ [])
  run-Lawful true held may = (may, c, tt)
  run-Lawful false held may = (may, c, tt)

  finish-Lawful :
      (held : Held) → Entitled sys user held → Lawful sys user held (finish sys program argv true)
  finish-Lawful held may = run-Lawful sys.execv_succeeds held may

  -- What `apply_unit_user` does, and the end.
  abbrev whole : List Act × Bool → List Act
  whole (acts, applied) = acts ++ finish sys program argv applied

  take_ids-Lawful :
      (pw : Passwd)
      → sys.getpwnam user ≡ some pw
      → Lawful sys user nothing_held (whole (take_ids sys pw))
  take_ids-Lawful pw found = elim (Bool-cases (sys.setgid_succeeds pw.pw_gid)) [
    | inr g ↦ rw g (refl, tt)
    | inl g ↦ elim (Bool-cases (sys.setuid_succeeds pw.pw_uid)) [
      | inr u ↦ rw (g, u) (refl, ((λ z. absurd cc), tt))
      | inl u ↦ rw (g, u) (refl, ((λ z. absurd cc), finish-Lawful _ (given pw found refl refl)))
    ]
  ]

absolute_path : (path : Bytes) → is_absolute_path path ≡ true → (s : Bytes) × (path ≡ b'/' ∷ s)
absolute_path [] e = absurd cc
absolute_path (c ∷ path) e = (path, ap (λ x. x ∷ path) (ground (arith, e)))

-- The first argument of an absolute command line is an absolute path.
absolute_split :
    (n : ℕ) (s : Bytes)
    → split_exec_start (suc n) (b'/' ∷ s)
      ≡ (b'/' ∷ take_while (λ x. not (is_gap x)) s)
        ∷ split_exec_start n (tail (drop_while (λ x. not (is_gap x)) s))
unfolding split_exec_start
absolute_split n s =
    let token : strtok is_gap (b'/' ∷ s) ≡ token_at is_gap (b'/' ∷ s) =
      strtok_plain is_gap b'/' s refl in
    rw (token, split_exec_start) refl

module _ (sys : System) where
  child-Lawful :
      (unit : UnitService) (program : Bytes) (argv : List Bytes)
      → IsCommand program argv
      → Lawful sys unit.user nothing_held (child sys unit program argv)
  unfolding child apply_unit_user
  child-Lawful unit program argv c = elim (Bool-cases (keeps_user unit.user)) [
    | inl k ↦ rw k (finish-Lawful sys unit.user program argv c nothing_held (kept k))
    | inr k ↦ elim (Option-cases (sys.getpwnam unit.user)) [
      | inl e ↦ rw (k, e) tt
      | inr (pw, e) ↦ rw (k, e) (take_ids-Lawful sys unit.user program argv c pw e)
    ]
  ]

  either-Lawful :
      (user : Bytes) (test : Bool) (a b : Started)
      → Lawful sys user nothing_held a.acts
      → Lawful sys user nothing_held b.acts
      → Lawful sys user nothing_held (if test then a else b).acts
  either-Lawful user true a b x y = x
  either-Lawful user false a b x y = y

  launch-Lawful :
      (unit : UnitService) {program : Bytes} {rest argv : List Bytes}
      → argv ≡ program ∷ rest
      → IsCommand program argv
      → Lawful sys unit.user nothing_held (launch sys unit argv).acts
  launch-Lawful unit {program} {rest} {argv} e c =
      let c' = subst (IsCommand program) e c in
      subst (λ v. Lawful sys unit.user nothing_held (launch sys unit v).acts) (sym e)
        (either-Lawful unit.user sys.fork_succeeds
          (record { run = reap sys; acts = child sys unit program (program ∷ rest) })
          (alone (log_error sys.now walud (codes "fork failed"), 6))
          (child-Lawful unit program (program ∷ rest) c') tt)

  start_unit-Lawful :
      (unit : UnitService) (s : Bytes)
      → unit.exec_start ≡ b'/' ∷ s
      → Lawful sys unit.user nothing_held (start_unit sys unit).acts
  unfolding start_unit
  start_unit-Lawful unit s absolute =
      let argv = split_exec_start 31 (clip 256 unit.exec_start) in
      let split : argv ≡ _ =
        ap (λ x. split_exec_start 31 (clip 256 x)) absolute ∙ absolute_split 30 (take 254 s) in
      launch-Lawful unit split (record {
        absolute = refl;
        first = ap (take 1) split;
        few = length-split_exec_start 31 (clip 256 unit.exec_start);
        args = split_exec_start-IsArg 31 (clip 256 unit.exec_start);
      })

  validated :
      (unit : UnitService) → validate_unit unit ≡ none → (s : Bytes) × (unit.exec_start ≡ b'/' ∷ s)
  unfolding validate_unit
  validated unit e = absolute_path unit.exec_start (ground (arith, e))

  -- In a child that `walud start` makes, a program is run only with an absolute path, as the first of at most 31
  -- arguments without blanks; and only where the unit names no user or root, or after the process was given the
  -- group and then the user of the account that the unit names.
  pub start-Lawful : (unit : UnitService) → Lawful sys unit.user nothing_held (start sys unit).acts
  unfolding start
  start-Lawful unit = elim (Option-cases (validate_unit unit)) [
    | inl e ↦
        let (s, absolute) = validated unit e in rw (e, start) (start_unit-Lawful unit s absolute)
    | inr (message, e) ↦ rw (e, start) tt
  ]
