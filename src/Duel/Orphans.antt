-- ===== src/Duel/Orphans.antt =====
-- duel/orphans.py: the ledger of the process groups that a unit has running, and the reaping of what a
-- killed orchestrator left. The process table and the boot's id are the system's; a process that is
-- killed is gone from the table at once.
mod Reaped
mod Examples
use icil_competition_orchest.Prelude.{
  ℕ, String, Bool, true, false, not, ◌&&◌, List, [], ◌∷◌, ◌++◌, Option, none, some, ltb, ◌==◌,
  ◌==s◌, if◌then◌else◌, keep, find_first, any,
}

-- `/proc/<pid>/stat`: the state, the group, the session and the start time.
pub record Process : Type 0 where
  pub pid : ℕ
  pub state : String
  pub group : ℕ
  pub session : ℕ
  pub start : String

-- A group's id as the ledger holds it: a whole number, or another value with what `int` makes of it.
pub data GroupId : Type 0 where
  whole : ℕ → GroupId
  other_id : Option ℕ → GroupId

pub record Group : Type 0 where
  pub pgid : GroupId
  pub start : Option String
  pub boot : Option String

-- pids.json: missing, not readable as a list, or a list whose items are groups or not.
pub data LedgerFile : Type 0 where
  missing unreadable : LedgerFile
  holds : List (Option Group) → LedgerFile

unfoldable pub int_of : GroupId → Option ℕ
int_of (whole n) = some n
int_of (other_id n) = n

unfoldable pub groups_in : List (Option Group) → List Group
groups_in [] = []
groups_in (none ∷ gs) = groups_in gs
groups_in (some g ∷ gs) = g ∷ groups_in gs

-- `Ledger.read`
unfoldable pub read : LedgerFile → List Group
unfolding groups_in
read missing = []
read unreadable = []
read (holds gs) = groups_in gs

unfoldable pub wrapped : List Group → List (Option Group)
wrapped [] = []
wrapped (g ∷ gs) = some g ∷ wrapped gs

-- `_stat`
unfoldable pub stat : ℕ → List Process → Option Process
stat pid procs = find_first (λ (p : Process). p.pid == pid) procs

unfoldable pub start_of : ℕ → List Process → Option String
unfolding stat
start_of pid procs = elim (stat pid procs) [ none ↦ none | some p ↦ some p.start ]

-- `Ledger.started`, where the write succeeds or not.
unfoldable pub started : Bool → String → List Process → ℕ → LedgerFile → LedgerFile
unfolding read wrapped start_of
started writes boot procs pid file =
    if writes
    then holds (
        wrapped (
          read file
          ++ (record { pgid = whole pid; start = start_of pid procs; boot = some boot } ∷ [])))
    else file

unfoldable pub is_whole : ℕ → GroupId → Bool
is_whole n (whole m) = m == n
is_whole n (other_id m) = false

-- `Ledger.ended`
unfoldable pub ended : Bool → ℕ → LedgerFile → LedgerFile
unfolding read wrapped is_whole
ended writes pid file =
    if writes
    then (elim (keep (λ (g : Group). not (is_whole pid g.pgid)) (read file)) [
      | [] ↦ missing
      | g ∷ gs ↦ holds (wrapped (g ∷ gs))
    ])
    else file

-- A live process of the group, in the group's session.
unfoldable pub is_member : ℕ → Process → Bool
is_member pgid p = not (p.state ==s "Z") && ((p.group == pgid) && (p.session == pgid))

-- `group.get("boot")`, which is not empty, against this boot's id.
unfoldable pub same_boot : String → Option String → Bool
same_boot boot none = false
same_boot boot (some b) = not (b ==s "") && (b ==s boot)

unfoldable pub same_start : Process → Option String → Bool
same_start p none = false
same_start p (some s) = p.start ==s s

-- The leader, if there is one, started when the ledger says.
unfoldable pub leader_fits : Group → ℕ → List Process → Bool
unfolding stat same_start
leader_fits g pgid procs = elim (stat pgid procs) [ none ↦ true | some p ↦ same_start p g.start ]

-- `_still_recorded`, with the group's id.
unfoldable pub still_recorded : String → Group → List Process → Option ℕ
unfolding int_of same_boot leader_fits is_member
still_recorded boot g procs = elim (int_of g.pgid) [
  | none ↦ none
  | some pgid ↦
      if ltb 1 pgid
        && (same_boot boot g.boot && (leader_fits g pgid procs && any (is_member pgid) procs))
      then some pgid
      else none
]

-- `os.killpg(pgid, SIGKILL)`
unfoldable pub kill : ℕ → List Process → List Process
kill pgid procs = keep (λ (p : Process). not (p.group == pgid)) procs

unfoldable pub reversed : List Group → List Group
reversed [] = []
reversed (g ∷ gs) = reversed gs ++ (g ∷ [])

module _ (boot : String) (may_kill : ℕ → Bool) where
  unfoldable pub reap_one : Group → List Process → Option ℕ × List Process
  unfolding still_recorded kill
  reap_one g procs = elim (still_recorded boot g procs) [
    | none ↦ (none, procs)
    | some pgid ↦ if may_kill pgid then (some pgid, kill pgid procs) else (none, procs)
  ]

  unfoldable pub reap_all : List Group → List Process → List ℕ × List Process
  unfolding reap_one
  reap_all [] procs = ([], procs)
  reap_all (g ∷ gs) procs =
      let (one, procs') = reap_one g procs in
      let (rest, left) = reap_all gs procs' in
      (elim one [ none ↦ rest | some pgid ↦ pgid ∷ rest ], left)

  -- `reap_ledger`: the groups killed, the processes left and the ledger.
  unfoldable pub reap_ledger : LedgerFile → List Process → List ℕ × List Process × LedgerFile
  unfolding read reversed reap_all
  reap_ledger file procs =
      let (killed, left) = reap_all (reversed (read file)) procs in (killed, left, missing)
