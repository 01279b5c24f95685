-- ===== src/Queue.antt =====
-- queue.py: what a challenger queue holds, and the change that each method makes between the load
-- and the save. How the changes reach the file is Queue/File.antt.
pub mod File
pub mod Invariant
pub mod Validity
pub mod Order
pub mod Lineage
pub mod Handles
pub mod Blocks
mod Examples
use icil_competition_orchest.Prelude.{
  ℕ, zero, suc, ◌+◌, ◌-◌, max, String, Bool, true, false, not, List, [], ◌∷◌, ◌++◌, Option, none,
  some, length, keep, find_first, ◌==◌, ◌==s◌, if◌then◌else◌,
}
use icil_competition_orchest.Ids.{SubmissionRef}

pub record QueueEntry : Type 0 where
  pub key : String
  pub repo : String
  pub revision : String
  pub commit_block : ℕ
  pub duel_size : Option String
  pub accepted_at : String
  pub source : String

unfoldable pub ref : QueueEntry → SubmissionRef
ref e = record { key = e.key; repo = e.repo; revision = e.revision }

pub record InProgress : Type 0 where
  pub event_id : String
  pub challenger : SubmissionRef
  pub started_at : String
  pub entry : Option QueueEntry

pub record QueueState : Type 0 where
  pub entries : List QueueEntry
  pub in_progress : Option InProgress
  pub block : ℕ

abbrev pub empty : QueueState
empty = record { entries = []; in_progress = none; block = 0 }

-- `e.key == key` and its negation, over the list.
abbrev pub has_key : String → QueueEntry → Bool
has_key key e = e.key ==s key

abbrev pub without : String → List QueueEntry → List QueueEntry
without key = keep (λ e. not (has_key key e))

-- `now or now_iso()`: an absent or empty stamp is replaced by the clock's.
unfoldable pub stamp : Option String → String → String
stamp none clock = clock
stamp (some now) clock = if now ==s "" then clock else now

-- The entry that `add` and `offer` queue, stamped with the block of the state it joins.
unfoldable pub new_entry :
    QueueState → SubmissionRef → Option String → String → Option String → String → QueueEntry
unfolding stamp
new_entry s r duel_size source now clock = record {
  key = r.key;
  repo = r.repo;
  revision = r.revision;
  commit_block = s.block;
  duel_size = duel_size;
  accepted_at = stamp now clock;
  source = source;
}

-- `add`, under the lock.
unfoldable pub add : QueueEntry → QueueState → (QueueEntry × ℕ) × QueueState
add entry s =
    let entries = without entry.key s.entries ++ (entry ∷ []) in
    ((entry, length entries), record s { entries = entries })

-- The first index at which the key waits, and its entry.
unfoldable pub waiting : String → List QueueEntry → Option (QueueEntry × ℕ)
waiting key [] = none
waiting key (e ∷ es) =
    if has_key key e
    then some (e, 0)
    else elim (waiting key es) [ none ↦ none | some (w, i) ↦ some (w, suc i) ]

-- `offer`, under the lock: the entry, its position, and whether it was queued now.
unfoldable pub offer : QueueEntry → QueueState → (QueueEntry × ℕ × Bool) × QueueState
unfolding waiting
offer entry s = elim (waiting entry.key s.entries) [
  | some (waits, index) ↦ ((waits, index + 1, false), s)
  | none ↦
      let entries = s.entries ++ (entry ∷ []) in
      ((entry, length entries, true), record s { entries = entries })
]

unfoldable pub remove : String → QueueState → Bool × QueueState
remove key s =
    let entries = without key s.entries in
    (not (length entries == length s.entries), record s { entries = entries })

unfoldable pub peek : QueueState → Option QueueEntry
peek s = elim s.entries [ [] ↦ none | e ∷ es ↦ some e ]

unfoldable pub pop : QueueState → Option QueueEntry × QueueState
pop s = elim s.entries [ [] ↦ (none, s) | e ∷ es ↦ (some e, record s { entries = es }) ]

-- The state in which the duel of a taken entry is marked.
unfoldable pub mark : QueueEntry → ℕ → String → String → QueueState → QueueState
unfolding ref
mark e block event_id started_at s = record {
  entries = without e.key s.entries;
  in_progress =
      some (record {
        event_id = event_id;
        challenger = ref e;
        started_at = started_at;
        entry = some e;
      });
  block = max s.block block;
}

unfoldable pub take :
    String → ℕ → String → Option String → String → QueueState → Option QueueEntry × QueueState
unfolding mark stamp
take key block event_id now clock s = elim (find_first (has_key key) s.entries) [
  | none ↦ (none, s)
  | some e ↦ (some e, mark e block event_id (stamp now clock) s)
]

-- The entry of the duel in progress, or the fallback where it recorded none.
unfoldable pub kept_entry : Option QueueEntry → Option QueueEntry → Option QueueEntry
kept_entry none fallback = fallback
kept_entry (some e) fallback = some e

unfoldable pub recorded : Option InProgress → Option QueueEntry → Option QueueEntry
unfolding kept_entry
recorded none fallback = none
recorded (some ip) fallback = kept_entry ip.entry fallback

unfoldable pub put_back : Option QueueEntry → QueueState → Option QueueEntry × QueueState
unfolding recorded
put_back fallback s = elim (recorded s.in_progress fallback) [
  | none ↦ (none, record s { in_progress = none })
  | some e ↦ (some e, record s { entries = e ∷ without e.key s.entries; in_progress = none })
]

unfoldable pub start : String → SubmissionRef → Option String → String → QueueState → QueueState
unfolding stamp
start event_id challenger now clock s = record s {
  in_progress = some (record {
    event_id = event_id;
    challenger = challenger;
    started_at = stamp now clock;
    entry = none;
  });
}

unfoldable pub finish : QueueState → QueueState
finish s = record s { in_progress = none }

unfoldable pub advance_block : QueueState → ℕ × QueueState
advance_block s = (s.block + 1, record s { block = s.block + 1 })

unfoldable pub claim_block : ℕ → QueueState → ℕ × QueueState
claim_block floor s = let block = max s.block floor + 1 in (block, record s { block = block })

unfoldable pub set_block : ℕ → QueueState → ℕ × QueueState
set_block block s = (block, record s { block = block })
