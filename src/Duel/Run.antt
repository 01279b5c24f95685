-- ===== src/Duel/Run.antt =====
-- duel/orchestrate.py: what a duel keeps on its host, and the operations on its run directory, the head
-- and the index that its phases are made of. A track's run directories of other duels are left out.
pub mod Phases
pub mod Publish
pub mod Whole
pub mod Readable
pub mod Decided
pub mod Rerun
pub mod Killed
pub mod Healed
pub mod Crowns
mod Scenes
mod Examples
mod KilledExamples
use icil_competition_orchest.Prelude.{
  ℕ, String, Bool, true, false, not, ◌&&◌, List, [], ◌∷◌, ◌++◌, Option, none, some, ◌==◌, ◌==s◌,
  if◌then◌else◌, Result, ok, err,
}
use icil_competition_orchest.Ids.{SubmissionRef}
use icil_competition_orchest.Floats.{Floats}
use icil_competition_orchest.Records.{UnitDef, UnitRow, Side, challenger, king, Counts}
use icil_competition_orchest.Score.{Scores, Reason, no_units, unscored, margin_met, short_of_margin}
use icil_competition_orchest.Duel.Side.{Outcome}
use icil_competition_orchest.Duel.Side.Journal.{clean}
use icil_competition_orchest.Duel.Side.Run.{SideState}
use icil_competition_orchest.Duel.Prompts.{Made, Making}
use icil_competition_orchest.Duel.Prompts.Loop.{Found, PromptManifest, no_manifest}
use icil_competition_orchest.Store.{
  Kind, duel, genesis, succession, vacancy, other_kind, IndexRecord, Head,
}
use icil_competition_orchest.Store.Index.{
  Codec, Track, event_of, head_king, iter_index, rebuild_head, repair_parts,
}
use icil_competition_orchest.Store.Verify.{same_king}
use icil_competition_orchest.Daemon.{Spec, Request, event_id, duel_id}

pub data Status : Type 0 where
  published void refused : Status

pub record DuelResult (F : Type 0) : Type 0 where
  pub status : Status
  pub kind : String
  pub event_id : String
  pub duel_id : String
  pub reason : String
  pub record_of : Option IndexRecord
  pub units : List (UnitRow F)

-- The signed event: its record, what it counts and the rows.
pub record Event (F : Type 0) : Type 0 where
  pub index : IndexRecord
  pub king_scores : Scores F
  pub challenger_scores : Option (Scores F)
  pub counts : Counts
  pub units : List (UnitRow F)
  pub reason : String
  pub void_fraction : F
  pub forfeit : Option String

-- `<run_root>/<track>/<event_id[:16]>/`: request.json with its time, prompts/manifest.jsonl, the two sides'
-- results, forfeit.json, outcome.json and failed.txt.
pub record RunDir (F : Type 0) : Type 0 where
  pub request : Option (Request × String)
  pub manifest : PromptManifest F
  pub challenger_side : SideState F
  pub king_side : SideState F
  pub forfeit : Option String
  pub outcome : Option (DuelResult F)
  pub failed : Option String

-- The run directory of the duel that is asked for, those moved aside, and the track's store.
pub record Host (F : Type 0) : Type 0 where
  pub dir : RunDir F
  pub stale : List (RunDir F)
  pub track : Track

-- Why a duel stopped undecided: `HarnessUnavailable`, another `DuelFailed`, `CrownMoved`, or what the index
-- raises where `run` does not catch it.
pub data Stopped : Type 0 where
  unavailable duel_failed : String → Stopped
  crown_moved unreadable_index : Stopped

-- The track's part of the spec, the store's encodings, and the benchmark's part of an event as text.
pub record Conf (F : Type 0) : Type 0 where
  pub spec : Spec
  pub fl : Floats F
  pub codec : Codec
  pub per : ℕ
  pub skills : List String
  pub score_margin : F
  pub max_void_fraction : F
  pub view : Option String
  pub demo_video : Bool
  pub put_media : String → String
  pub dump : Event F → String
  pub load : String → Option (Event F)

-- What fetching or preparing a submission comes to.
pub data Checked : Type 0 where
  passed : Checked
  was_refused was_unavailable : String → Checked

pub data Derived : Type 0 where
  benchmark_refused underivable : String → Derived
  derived : List UnitDef → Derived

-- The answers about one unit of one side.
pub record UnitAsk (F : Type 0) : Type 0 where
  pub late : Bool
  pub changed_before : Option String
  pub changed_after : Option String
  pub played : Outcome F

-- What one run of a duel meets.
pub record Asks (F : Type 0) : Type 0 where
  pub now : String
  pub units : Derived
  pub fetch : Side → Checked
  pub prepare : Side → Checked
  pub prompt_file : String → Found
  pub prompt_late : String → Bool
  pub making : String → Making F
  pub unit : Side → String → UnitAsk F
  pub relative : String → String
  pub sha256_file : String → String
  -- the clip at a path below a side's directory, if the file is there
  pub clip_file : Side → String → Option String

unfoldable pub kind_text : Kind → String
kind_text duel = "duel"
kind_text genesis = "genesis"
kind_text succession = "succession"
kind_text vacancy = "vacancy"
kind_text (other_kind k) = k

unfoldable pub reason_text : Reason → String
reason_text no_units = "no-units"
reason_text unscored = "unscored"
reason_text margin_met = "margin-met"
reason_text short_of_margin = "short-of-margin"

unfoldable pub kind_of : Request → Kind
kind_of req = elim req.king [ none ↦ genesis | some k ↦ duel ]

-- A forfeit whose reason is empty is none: where forfeit.json is read, and where an event notes it.
unfoldable pub kept_forfeit : Option String → Option String
kept_forfeit none = none
kept_forfeit (some why) = if why ==s "" then none else some why

module _ {F : Type 0} where
  unfoldable pub fresh_side : SideState F
  fresh_side = record { journal = record { lines = []; tail = clean }; done = []; served = [] }

  unfoldable pub fresh_dir : RunDir F
  unfolding fresh_side
  fresh_dir = record {
    request = none;
    manifest = no_manifest;
    challenger_side = fresh_side;
    king_side = fresh_side;
    forfeit = none;
    outcome = none;
    failed = none;
  }

  unfoldable pub move_aside : Host F → Host F
  unfolding fresh_dir
  move_aside h = record h { dir = fresh_dir; stale = h.dir ∷ h.stale }

-- Two sizes as the spec has them.
unfoldable pub same_size : Option String → Option String → Bool
same_size none none = true
same_size (some a) (some b) = a ==s b
same_size none (some b) = false
same_size (some a) none = false

unfoldable pub same_request : Request → Request → Bool
unfolding same_size same_king
same_request a b =
    same_king (some a.challenger) (some b.challenger)
    && same_king a.king b.king
    && same_size a.size b.size
    && (a.block == b.block)

-- The last record of an event, as `_published` looks for it from the end.
unfoldable pub last_of_event : String → List IndexRecord → Option IndexRecord
last_of_event id [] = none
last_of_event id (r ∷ rs) = elim (last_of_event id rs) [
  | none ↦ if r.event_id ==s id then some r else none
  | some s ↦ some s
]

module _ {F : Type 0} (c : Conf F) (req : Request) where
  -- The request with its size as the spec has it.
  unfoldable pub asked : Request
  asked = record req { size = some (c.spec.size_of req.size) }

  unfoldable pub holds_request : RunDir F → Bool
  unfolding asked same_request
  holds_request d = elim d.request [ none ↦ false | some (r, at) ↦ same_request r asked ]

  -- `record_request`: another duel's run of the same id is moved aside.
  unfoldable pub record_request : String → Host F → Host F
  unfolding asked holds_request move_aside
  record_request now h = elim h.dir.request [
    | none ↦ record h { dir = record h.dir { request = some (asked, now) } }
    | some r ↦
        if holds_request h.dir
        then h
        else (let h' = move_aside h in
            record h' { dir = record h'.dir { request = some (asked, now) } })
  ]

  -- `_check_crown`: whether the head still names the king that the duel was asked against.
  unfoldable pub crown_holds : Track → Bool
  crown_holds t = same_king (head_king t.head) req.king

  -- `_published`: what the index says of the event; `none` where reading it raises.
  unfoldable pub find_published : Track → Option (Option IndexRecord)
  unfolding last_of_event
  find_published t = elim (iter_index c.codec t) [
    | none ↦ none
    | some rs ↦ some (last_of_event (event_id c.spec req) rs)
  ]

  -- `_republished`
  unfoldable pub event_doc : IndexRecord → Track → Option (Event F)
  event_doc r t = elim (event_of r.event_id t.events) [ none ↦ none | some bytes ↦ c.load bytes ]

  unfoldable pub republished_result : IndexRecord → Track → DuelResult F
  unfolding event_doc kind_text
  republished_result r t = record {
    status = published;
    kind = kind_text r.kind;
    event_id = r.event_id;
    duel_id = duel_id c.spec req;
    reason = elim (event_doc r t) [
      | none ↦ kind_text r.kind
      | some e ↦ if e.reason ==s "" then kind_text r.kind else e.reason
    ];
    record_of = some r;
    units = elim (event_doc r t) [ none ↦ [] | some e ↦ e.units ];
  }

  unfoldable pub republish : IndexRecord → Host F → Result Stopped (DuelResult F) × Host F
  unfolding republished_result
  republish r h = elim (rebuild_head c.codec h.track) [
    | none ↦ (
      err unreadable_index,
      record h { track = record h.track { parts = repair_parts c.codec h.track.parts } },
    )
    | some t ↦
        let result = republished_result r t in
        (ok result, record h { track = t; dir = record h.dir { outcome = some result } })
  ]
