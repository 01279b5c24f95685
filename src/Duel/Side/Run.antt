-- ===== src/Duel/Side/Run.antt =====
-- duel/side.py: `run_side`, the loop over a side's units. What the harness answers while a unit is
-- played (its prompt, the clock, the runtime) is a parameter, one answer for each unit.
use icil_competition_orchest.Prelude.{
  String, Bool, true, false, List, [], ◌∷◌, ◌++◌, Option, none, some, any, concat, prefix, or_else,
  ◌==s◌, if◌then◌else◌,
}
use icil_competition_orchest.Floats.{Floats}
use icil_competition_orchest.Records.{UnitDef, Side}
use icil_competition_orchest.Duel.Merge.{UnitRecord, Prompt}
use icil_competition_orchest.Duel.Side.{
  Outcome, Reported, silent, text, other_value, failed, voided, side_name,
}
use icil_competition_orchest.Duel.Side.Journal.{Journal, put_result, read_results, append, is_unit}

-- The answers about one unit.
pub record Answers (F : Type 0) : Type 0 where
  -- `prompts.prompts.get(unit_id)`
  pub prompt : Option Prompt
  -- the reason why the duel already knows the unit void
  pub void_unit : Option String
  -- `time.monotonic() >= side_deadline`
  pub late : Bool
  -- `prompt.changed()`, before the unit and after it
  pub changed_before : Option String
  pub changed_after : Option String
  -- what `_play` returns
  pub played : Outcome F

pub record Harness (F : Type 0) : Type 0 where
  pub fl : Floats F
  pub side : Side
  -- why the side's submission was refused
  pub refused : Option String
  pub answers : String → Answers F
  -- asked before each unit, of the results so far
  pub stop : List (UnitRecord F) → Bool
  -- `clip.relative_to(side_dir)` and `sha256_file`
  pub relative : String → String
  pub sha256_file : String → String

-- The benchmark reports another prompt than the recorded one.
unfoldable pub reads_other : Reported → Option String → Bool
reads_other silent sha = false
reads_other other_value sha = true
reads_other (text s) none = true
reads_other (text s) (some sha) = if s ==s sha then false else true

unfoldable pub shown : Reported → String
shown silent = "None"
shown (text s) = prefix 12 s
shown other_value = "another value"

-- `prompt.sha256 if prompt is not None and not prompt.void else None`
unfoldable pub prompt_sha : Option Prompt → Option String
prompt_sha none = none
prompt_sha (some p) = if p.void then none else p.sha256

module _ {F : Type 0} where
  -- After the unit: it counts only if it ran from the recorded bytes.
  unfoldable pub recheck : Floats F → Prompt → Option String → Outcome F → Outcome F
  unfolding voided reads_other shown
  recheck fl p (some changed) o =
      voided (concat ("no prompt: " ∷ changed ∷ " during the unit" ∷ [])) o.wall_s
  recheck fl p none o =
      if reads_other o.reported p.sha256
      then voided
          (concat (
            "no prompt: the benchmark read a prompt hashing to "
            ∷ shown o.reported
            ∷ "..., not the recorded "
            ∷ prefix 12 (or_else p.sha256 "None")
            ∷ "..."
            ∷ []))
          o.wall_s
      else o

  -- A unit with a good prompt: not played where it is void for the duel already, where the side was
  -- refused, where time is up or where the prompt's file changed. The flag says whether it was played.
  unfoldable pub with_prompt : Harness F → Answers F → Prompt → Outcome F × Bool
  unfolding recheck voided failed side_name
  with_prompt h a p = elim a.void_unit [
    | some reason ↦ (voided (concat ("not played: " ∷ reason ∷ [])) h.fl.zero_f, false)
    | none ↦ elim h.refused [
      | some reason ↦ (
        failed (concat ("the " ∷ side_name h.side ∷ "'s submission was refused: " ∷ reason ∷ []))
            h.fl.zero_f,
        false,
      )
      | none ↦
          if a.late
          then (voided "the side ran out of its wall-clock budget" h.fl.zero_f, false)
          else elim a.changed_before [
            | some changed ↦ (voided (concat ("no prompt: " ∷ changed ∷ [])) h.fl.zero_f, false)
            | none ↦ (recheck h.fl p a.changed_after a.played, true)
          ]
    ]
  ]

  unfoldable pub unit_outcome : Harness F → Answers F → Outcome F × Bool
  unfolding with_prompt voided
  unit_outcome h a = elim a.prompt [
    | none ↦ (voided "no prompt: no prompt was materialized" h.fl.zero_f, false)
    | some p ↦
        if p.void
        then (voided (concat ("no prompt: " ∷ or_else p.error "None" ∷ [])) h.fl.zero_f, false)
        else with_prompt h a p
  ]

  unfoldable pub kept_clip : Outcome F → Option String
  kept_clip o =
      if o.void
      then none
      else elim o.clip [ none ↦ none | some c ↦ if c ==s "" then none else some c ]

  unfoldable pub unit_record : Harness F → UnitDef → Outcome F → Option String → UnitRecord F
  unfolding kept_clip
  unit_record h u o sha = record {
    unit_id = u.unit_id;
    skill = u.skill;
    success = o.success;
    void = o.void;
    steps = o.steps;
    error = o.error;
    progress = o.progress;
    metric = o.metric;
    wall_s = o.wall_s;
    clip = elim (kept_clip o) [ none ↦ none | some c ↦ some (h.relative c) ];
    clip_sha256 = elim (kept_clip o) [ none ↦ none | some c ↦ some (h.sha256_file c) ];
    prompt_sha256 = sha;
  }

-- `results.jsonl`, the results in memory, and the units for which a policy was served.
pub record SideState (F : Type 0) : Type 0 where
  pub journal : Journal F
  pub done : List (UnitRecord F)
  pub served : List String

module _ {F : Type 0} where
  unfoldable pub is_done : String → List (UnitRecord F) → Bool
  is_done id done = any (is_unit id) done

  -- One unit that has no result yet.
  unfoldable pub finish_unit : Harness F → UnitDef → SideState F → SideState F
  unfolding unit_outcome prompt_sha unit_record
  finish_unit h u st =
      let a = h.answers u.unit_id in
      let (o, played) = unit_outcome h a in
      let r = unit_record h u o (prompt_sha a.prompt) in
      record {
        journal = append r st.journal;
        done = put_result r st.done;
        served = if played then st.served ++ u.unit_id ∷ [] else st.served;
      }

  -- The loop: a unit with a result is skipped, and `stop` ends the side.
  unfoldable pub loop : Harness F → List UnitDef → SideState F → SideState F
  unfolding is_done
  loop h [] st = st
  loop h (u ∷ us) st =
      let rest = loop h us (finish_unit h u st) in
      let skip = loop h us st in
      if is_done u.unit_id st.done then skip else if h.stop st.done then st else rest

  -- The state of a run that starts: what the file holds. `served` goes on over the runs.
  unfoldable pub restart : SideState F → SideState F
  restart st = record st { done = read_results st.journal }

  unfoldable pub run_side : Harness F → List UnitDef → SideState F → SideState F
  unfolding loop restart
  run_side h us st = loop h us (restart st)
