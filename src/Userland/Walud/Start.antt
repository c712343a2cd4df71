-- ===== src/Userland/Walud/Start.antt =====
-- The child process of a unit: `apply_unit_user` and `start_unit` of userland/walud/walud.c.
use walu_os.Prelude.{
  ℕ, ◌+◌, Bool, true, false, not, ◌||◌, if◌then◌else◌, ◌==◌, Option, none, some, List, [], ◌∷◌,
  ◌++◌, Bytes, codes, same, clip,
}
use walu_os.Userland.Effects.{Effect, Run, log_info, log_error}
use walu_os.Userland.Walud.Trim.{split_exec_start}
use walu_os.Userland.Walud.Unit.{UnitService}

-- `passwd`, as far as it is read
pub record Passwd : Type 0 where
  pub pw_uid : ℕ
  pub pw_gid : ℕ

-- How a process has ended, as `waitpid` tells.
pub data Status : Type 0 where
  exited signaled : ℕ → Status
  other : Status

-- What the system answers. The last three are whether `fork`, `setgid` and `setuid` succeed, the next what
-- `waitpid` tells, or `none` where it fails.
pub record System : Type 0 where
  pub now : Option Bytes
  pub files : Bytes → Option Bytes
  pub getpwnam : Bytes → Option Passwd
  pub waitpid : Option Status
  pub fork_succeeds : Bool
  pub setgid_succeeds : ℕ → Bool
  pub setuid_succeeds : ℕ → Bool
  pub execv_succeeds : Bool

-- What the child does: it logs, asks for a group or a user (the flag says whether it got it), becomes
-- another program, or ends.
pub data Act : Type 0 where
  logs : List Effect → Act
  setgid setuid : ℕ → Bool → Act
  execv : Bytes → List Bytes → Act
  exits : ℕ → Act

abbrev pub walud : Bytes
walud = codes "walud"

abbrev fails : System → Bytes → List Act × Bool
fails sys message = (logs (log_error sys.now walud message) ∷ [], false)

-- `setgid`, then `setuid`
abbrev pub take_ids : System → Passwd → List Act × Bool
take_ids sys pw =
    if sys.setgid_succeeds pw.pw_gid
    then if sys.setuid_succeeds pw.pw_uid
      then (setgid pw.pw_gid true ∷ setuid pw.pw_uid true ∷ [], true)
      else (
        setgid pw.pw_gid true
            ∷ setuid pw.pw_uid false
            ∷ logs (log_error sys.now walud (codes "setuid failed"))
            ∷ [],
        false,
      )
    else (
      setgid pw.pw_gid false ∷ logs (log_error sys.now walud (codes "setgid failed")) ∷ [],
      false,
    )

-- The child stays what walud is where the unit names no user, or root.
abbrev pub keeps_user : Bytes → Bool
keeps_user user = same user [] || same user (codes "root")

-- `apply_unit_user`, with what it does before and whether it returns 0
unfoldable pub apply_unit_user : System → UnitService → List Act × Bool
apply_unit_user sys unit =
    if keeps_user unit.user then ([], true) else elim (sys.getpwnam unit.user) [
      | none ↦ fails sys (codes "Service.User not found")
      | some pw ↦ take_ids sys pw
    ]

-- The child behind `fork`. `execv` returns only where it fails.
unfoldable pub child : System → UnitService → Bytes → List Bytes → List Act
child sys unit program argv =
    let (acts, applied) = apply_unit_user sys unit in
    acts
    ++ (if not applied
        then exits 126 ∷ []
        else if sys.execv_succeeds
        then execv program argv ∷ []
        else execv program argv ∷ exits 127 ∷ [])

-- The parent behind `fork`.
unfoldable pub reap : System → Run
reap sys = elim sys.waitpid [
  | none ↦ (log_error sys.now walud (codes "waitpid failed"), 7)
  | some (exited ec) ↦
      if ec == 0
      then (log_info sys.now walud (codes "unit exited successfully"), 0)
      else (log_error sys.now walud (codes "unit exited with non-zero status"), ec)
  | some (signaled sig) ↦ (log_error sys.now walud (codes "unit terminated by signal"), 128 + sig)
  | some other ↦ ([], 8)
]

-- A run of walud, and what its child does, if it has one.
pub record Started : Type 0 where
  pub run : Run
  pub acts : List Act

abbrev pub alone : Run → Started
alone run = record { run = run; acts = [] }

-- `start_unit` once the arguments are known; the program is the first of them.
abbrev pub launch : System → UnitService → List Bytes → Started
launch sys unit [] = alone (log_error sys.now walud (codes "ExecStart parse failed"), 5)
launch sys unit (program ∷ argv) =
    if sys.fork_succeeds
    then record { run = reap sys; acts = child sys unit program (program ∷ argv) }
    else alone (log_error sys.now walud (codes "fork failed"), 6)

-- At most 31 arguments have room beside the null pointer.
unfoldable pub start_unit : System → UnitService → Started
start_unit sys unit = launch sys unit (split_exec_start 31 (clip 256 unit.exec_start))
