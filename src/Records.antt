-- ===== src/Records.antt =====
-- store/records.py: the published row of a unit, and what a record counts over its rows. The keys
-- `king_success`, `challenger_success` and so on are two records of one shape here.
use icil_competition_orchest.Prelude.{
  ℕ, ◌+◌, String, Bool, false, List, [], ◌∷◌, ◌++◌, Option, none, some, ◌==s◌, if◌then◌else◌,
}

-- What one side did on a unit.
pub record SideRow (F : Type 0) : Type 0 where
  pub success : Option Bool
  pub video : Option String
  pub progress : Option F
  pub metric : Option F
  pub steps : Option ℕ
  pub error : Option String

pub data Winner : Type 0 where
  challenger_wins king_wins tie : Winner

pub data Side : Type 0 where
  challenger king : Side

-- A unit as it was derived, before either side has run.
pub record UnitDef : Type 0 where
  pub unit_id : String
  pub skill : String
  pub benchmark : String
  pub index : ℕ
  pub task : String
  pub task_label : String
  pub instance_no : ℕ
  pub seed : ℕ
  pub scene_seed : Option ℕ
  pub demo : String

pub record UnitRow (F : Type 0) : Type 0 where
  pub unit_id : String
  pub skill : String
  pub index : ℕ
  pub task : String
  pub task_label : String
  pub instance_no : ℕ
  pub seed : ℕ
  pub scene_seed : Option ℕ
  pub demo_id : String
  pub view : Option String
  pub prompt_sha256 : Option String
  pub demo_video : Option String
  pub king_row : SideRow F
  pub challenger_row : SideRow F
  pub outcome : Winner
  pub void : Bool

abbrev pub unplayed : {F : Type 0} → SideRow F
unplayed = record {
  success = none;
  video = none;
  progress = none;
  metric = none;
  steps = none;
  error = none;
}

unfoldable pub unit_verdict_from_unit : {F : Type 0} → UnitDef → Option String → UnitRow F
unit_verdict_from_unit u view = record {
  unit_id = u.unit_id;
  skill = u.skill;
  index = u.index;
  task = u.task;
  task_label = u.task_label;
  instance_no = u.instance_no;
  seed = u.seed;
  scene_seed = u.scene_seed;
  demo_id = u.demo;
  view = view;
  prompt_sha256 = none;
  demo_video = none;
  king_row = unplayed;
  challenger_row = unplayed;
  outcome = tie;
  void = false;
}

-- The keys `wins`, `losses`, `ties`, `decided` and `void` of a record.
pub record Counts : Type 0 where
  pub wins : ℕ
  pub losses : ℕ
  pub ties : ℕ
  pub decided : ℕ
  pub void : ℕ

abbrev pub no_counts : Counts
no_counts = record { wins = 0; losses = 0; ties = 0; decided = 0; void = 0 }

unfoldable pub count_outcome : Winner → Counts → Counts
count_outcome challenger_wins t = record t { wins = t.wins + 1 }
count_outcome king_wins t = record t { losses = t.losses + 1 }
count_outcome tie t = record t { ties = t.ties + 1 }

-- A clip is counted where its value is a text that is not empty.
unfoldable pub clip_of : Option String → List String
clip_of none = []
clip_of (some v) = if v ==s "" then [] else v ∷ []

module _ {F : Type 0} where
  -- One turn of the loop of `unit_tally`.
  unfoldable pub count_unit : Counts → UnitRow F → Counts
  unfolding count_outcome
  count_unit t u = if u.void then record t { void = t.void + 1 } else count_outcome u.outcome t

  unfoldable pub count_units : Counts → List (UnitRow F) → Counts
  unfolding count_unit
  count_units t [] = t
  count_units t (u ∷ us) = count_units (count_unit t u) us

  unfoldable pub unit_tally : List (UnitRow F) → Counts
  unfolding count_units
  unit_tally us = let t = count_units no_counts us in record t { decided = t.wins + t.losses }

  -- The clips that the rows name, with repetitions: `media_shas` before `sorted(set(...))`.
  unfoldable pub named_media : List (UnitRow F) → List String
  unfolding clip_of
  named_media [] = []
  named_media (u ∷ us) =
      clip_of u.demo_video
      ++ (clip_of u.king_row.video ++ (clip_of u.challenger_row.video ++ named_media us))
