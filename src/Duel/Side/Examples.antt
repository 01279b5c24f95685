-- ===== src/Duel/Side/Examples.antt =====
-- Sides at concrete units, in whole numbers: tests, and each theorem at a concrete input.
use icil_competition_orchest.Prelude.{
  ℕ, ◌≡◌, ◌↔◌, ◌⊎◌, refl, true, false, [], ◌∷◌, ◌++◌, some, none,
}
use icil_competition_orchest.Floats.Whole.{whole}
use icil_competition_orchest.Records.{UnitDef, challenger}
use icil_competition_orchest.Duel.Merge.{UnitRecord, Prompt}
use icil_competition_orchest.Duel.Side.{
  policy, PolicyEnd, Outcome, text, attribute, Session, Budgets,
}
use icil_competition_orchest.Duel.Side.Journal.{
  torn, no_journal, read_lines, read_results, append, append_after_torn,
}
use icil_competition_orchest.Duel.Side.Run.{
  Answers, Harness, SideState, finish_unit, unit_outcome, with_prompt, recheck, run_side,
}
use icil_competition_orchest.Duel.Side.Attribution.{IsPolicys, attribute_lem}
use icil_competition_orchest.Duel.Side.Resume.{run_side-resumes}
use icil_competition_orchest.Duel.Side.Bytes.{ReadsRecorded, played_from_recorded}

abbrev lift_1 : UnitDef
lift_1 = record {
  unit_id = "LI-000";
  skill = "lift";
  benchmark = "b";
  index = 0;
  task = "t";
  task_label = "T";
  instance_no = 0;
  seed = 7;
  scene_seed = none;
  demo = "d";
}

abbrev lift_2 : UnitDef
lift_2 = record lift_1 { unit_id = "LI-001"; index = 1 }

abbrev prompt_1 : Prompt
prompt_1 = record {
  unit_id = "LI-000";
  void = false;
  error = none;
  sha256 = some "p";
  scene_seed = none;
  demo_clip = none;
}

abbrev success : Outcome ℕ
success = record {
  success = some true;
  void = false;
  steps = some 9;
  error = none;
  progress = some 50;
  metric = none;
  clip = none;
  wall_s = 3;
  void_cause = none;
  reported = text "p";
}

abbrev blamed : Outcome ℕ
blamed = record success { success = none; void = true; void_cause = some "policy" }

abbrev crash : PolicyEnd
crash = record { reason = "out of memory"; cause = policy }

abbrev answers : Answers ℕ
answers = record {
  prompt = some prompt_1;
  void_unit = none;
  late = false;
  changed_before = none;
  changed_after = none;
  played = success;
}

abbrev side_harness : Harness ℕ
side_harness = record {
  fl = whole;
  side = challenger;
  refused = none;
  answers = λ id. answers;
  stop = λ done. false;
  relative = λ clip. clip;
  sha256_file = λ clip. clip;
}

abbrev fresh : SideState ℕ
fresh = record { journal = no_journal; done = []; served = [] }

abbrev result_1 : UnitRecord ℕ
result_1 = record {
  unit_id = "LI-000";
  skill = "lift";
  success = some true;
  void = false;
  steps = some 9;
  error = none;
  progress = some 50;
  metric = none;
  wall_s = 3;
  clip = none;
  clip_sha256 = none;
  prompt_sha256 = some "p";
}

abbrev budgets : Budgets ℕ
budgets = record { act_timeout_s = 1; policy_budget_s = 60; result_reserve_s = 5 }

abbrev slow : Session ℕ
slow = record { start_s = 75; left_s = 20; run_unit = λ limits. success; ended = none }

served_both : (run_side side_harness (lift_1 ∷ lift_2 ∷ []) fresh).served ≡ "LI-000" ∷ "LI-001" ∷ []
unfolding run_side unit_outcome with_prompt recheck read_results finish_unit
served_both = refl

run_side-resumes_example :
    run_side side_harness (lift_1 ∷ [] ++ lift_2 ∷ []) (run_side side_harness (lift_1 ∷ []) fresh)
    ≡ run_side side_harness (lift_1 ∷ [] ++ lift_2 ∷ []) fresh
run_side-resumes_example = run_side-resumes side_harness (lift_1 ∷ []) (lift_2 ∷ []) fresh refl

attribute_lem_example :
    (((attribute blamed (some crash)).void ≡ true)
      ↔ ((blamed.void ≡ true) × ¬ IsPolicys blamed.void_cause (some crash)))
    × (((attribute blamed (some crash)).success ≡ blamed.success)
        ⊎ ((attribute blamed (some crash)).success ≡ some false))
    × ((attribute blamed (some crash)).steps ≡ blamed.steps)
    × ((attribute blamed (some crash)).progress ≡ blamed.progress)
    × ((attribute blamed (some crash)).metric ≡ blamed.metric)
    × ((attribute blamed (some crash)).clip ≡ blamed.clip)
    × ((attribute blamed (some crash)).wall_s ≡ blamed.wall_s)
attribute_lem_example = attribute_lem blamed (some crash)

played_there : (unit_outcome side_harness answers).1 ≡ true
unfolding unit_outcome with_prompt
played_there = refl

scored_there : (unit_outcome side_harness answers).0.void ≡ false
unfolding unit_outcome with_prompt recheck
scored_there = refl

played_from_recorded_example :
    ((unit_outcome side_harness answers).0 ≡ success)
    × (side_harness.refused ≡ none)
    × (answers.late ≡ false)
    × (answers.void_unit ≡ none)
    × (answers.changed_before ≡ none)
    × (answers.changed_after ≡ none)
    × ((p : Prompt) × (answers.prompt ≡ some p)
        × (p.void ≡ false)
        × ReadsRecorded (text "p") p.sha256)
played_from_recorded_example = played_from_recorded side_harness answers played_there scored_there

append_after_torn_example :
    read_results (append result_1 (record { lines = []; tail = torn })) ≡ read_lines [] []
append_after_torn_example =
    append_after_torn result_1 (record { lines = []; tail = torn }) (λ same. cc)
