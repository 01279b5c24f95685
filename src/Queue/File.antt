-- ===== src/Queue/File.antt =====
-- queue.py: `_load`, `_locked` and the methods of a `Queue`. Several objects, in one process or in
-- many, hold one file; each keeps the state that it loaded last.
use icil_competition_orchest.Prelude.{
  ℕ, suc, String, Bool, true, false, List, [], ◌∷◌, Option, none, some, ◌==◌, if◌then◌else◌, Result,
  ok, err,
}
use icil_competition_orchest.Ids.{SubmissionRef, RefError, resolved}
use icil_competition_orchest.Queue.{
  QueueEntry, QueueState, empty, new_entry, add, offer, remove, pop, take, put_back, start, finish,
  advance_block, claim_block, set_block, stamp, InProgress,
}

-- What stands at the queue's path. `unreadable` is a file that is no JSON object, or no readable
-- file at all.
pub data Disk : Type 0 where
  missing unreadable : Disk
  holds : QueueState → Disk

pub data QueueError : Type 0 where
  bad_ref : RefError → QueueError
  not_readable : QueueError

unfoldable pub load : Disk → Result QueueError QueueState
load missing = ok empty
load unreadable = err not_readable
load (holds s) = ok s

-- A call of one of the mutating methods, with the clock's reading where it stamps one.
pub data Call : Type 0 where
  adds offers : String → String → Option String → String → Option String → String → Call
  removes : String → Call
  pops : Call
  takes : String → ℕ → String → Option String → String → Call
  puts_back : Option QueueEntry → Call
  starts : String → SubmissionRef → Option String → String → Call
  finishes advances : Call
  claims sets : ℕ → Call

-- What a method returns.
pub data Reply : Type 0 where
  done : Reply
  placed : QueueEntry → ℕ → Bool → Reply
  removed : Bool → Reply
  entry : Option QueueEntry → Reply
  at_block : ℕ → Reply

-- The body of each method between the load and the save.
unfoldable pub change : SubmissionRef → Call → QueueState → Reply × QueueState
unfolding new_entry add offer remove pop take put_back start finish advance_block claim_block
    set_block
change r (adds _ _ size source now clock) s =
    let ((e, position), s') = add (new_entry s r size source now clock) s in
    (placed e position true, s')
change r (offers _ _ size source now clock) s =
    let ((e, position, queued), s') = offer (new_entry s r size source now clock) s in
    (placed e position queued, s')
change r (removes key) s = let (b, s') = remove key s in (removed b, s')
change r pops s = let (e, s') = pop s in (entry e, s')
change r (takes key block event_id now clock) s =
    let (e, s') = take key block event_id now clock s in (entry e, s')
change r (puts_back fallback) s = let (e, s') = put_back fallback s in (entry e, s')
change r (starts event_id challenger now clock) s = (done, start event_id challenger now clock s)
change r finishes s = (done, finish s)
change r advances s = let (b, s') = advance_block s in (at_block b, s')
change r (claims floor) s = let (b, s') = claim_block floor s in (at_block b, s')
change r (sets block) s = let (b, s') = set_block block s in (at_block b, s')

abbrev pub no_ref : SubmissionRef
no_ref = record { key = ""; repo = ""; revision = "" }

abbrev pub lift_ref : Result RefError SubmissionRef → Result QueueError SubmissionRef
lift_ref (ok r) = ok r
lift_ref (err e) = err (bad_ref e)

-- `add` and `offer` check the submission before they take the lock.
unfoldable pub checked : (String → String) → Call → Result QueueError SubmissionRef
checked sha (adds repo revision _ _ _ _) = lift_ref (resolved sha repo revision)
checked sha (offers repo revision _ _ _ _) = lift_ref (resolved sha repo revision)
checked sha _ = ok no_ref

-- The file, and the state that each object loaded last.
pub record World : Type 0 where
  pub disk : Disk
  pub states : ℕ → QueueState

unfoldable pub put_state : (ℕ → QueueState) → ℕ → QueueState → ℕ → QueueState
put_state states i s j = if i == j then s else states j

-- `with self._locked()`: load, change, save. A file that cannot be read raises before anything is
-- changed, and a call is one step: the thread lock and the file lock are held over it.
unfoldable pub locked :
    ℕ → (QueueState → Reply × QueueState) → World → Result QueueError Reply × World
locked i body w = elim (load w.disk) [
  | err e ↦ (err e, w)
  | ok s ↦
      let (r, s') = body s in (ok r, record { disk = holds s'; states = put_state w.states i s' })
]

module _ (sha256_hex : String → String) where
  unfoldable pub call : ℕ → Call → World → Result QueueError Reply × World
  unfolding load change checked locked put_state
  call i c w = elim (checked sha256_hex c) [ err e ↦ (err e, w) | ok r ↦ locked i (change r c) w ]

  -- Calls of any objects in the order in which they got the lock.
  unfoldable pub run : World → List (ℕ × Call) → World
  run w [] = w
  run w ((i, c) ∷ cs) = run (call i c w).1 cs

-- `reload`
unfoldable pub reload : ℕ → World → Result QueueError QueueState × World
unfolding load put_state
reload i w = elim (load w.disk) [
  | err e ↦ (err e, w)
  | ok s ↦ (ok s, record w { states = put_state w.states i s })
]

-- The published view of one entry: its position counts from 1.
pub record Row : Type 0 where
  pub position : ℕ
  pub row : QueueEntry
  pub skip_model_config_check : Bool

unfoldable pub rows : ℕ → List QueueEntry → List Row
rows i [] = []
rows i (e ∷ es) =
    record { position = suc i; row = e; skip_model_config_check = false } ∷ rows (suc i) es

pub record PublicInProgress : Type 0 where
  pub event_id : String
  pub challenger : SubmissionRef
  pub started_at : String

pub record Snapshot : Type 0 where
  pub schema : ℕ
  pub track : String
  pub block : ℕ
  pub written_at : String
  pub king : Option SubmissionRef
  pub in_progress : Option PublicInProgress
  pub entries : List Row

unfoldable pub published : Option InProgress → Option PublicInProgress
published none = none
published (some ip) =
    some (record { event_id = ip.event_id; challenger = ip.challenger; started_at = ip.started_at })

unfoldable pub snapshot :
    String → Option SubmissionRef → ℕ → Option String → String → QueueState → Snapshot
unfolding rows published stamp
snapshot track king schema now clock s = record {
  schema = schema;
  track = track;
  block = s.block;
  written_at = stamp now clock;
  king = king;
  in_progress = published s.in_progress;
  entries = rows 0 s.entries;
}
