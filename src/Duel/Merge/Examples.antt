-- ===== src/Duel/Merge/Examples.antt =====
-- Merging at concrete duels, in whole numbers: tests, and each theorem at a concrete input.
use icil_competition_orchest.Prelude.{ℕ, ◌≡◌, refl, true, false, List, [], ◌∷◌, some, none, All}
use icil_competition_orchest.Floats.Whole.{whole, whole_laws}
use icil_competition_orchest.Records.{
  UnitDef, UnitRow, king, challenger, unit_tally, unit_verdict_from_unit,
}
use icil_competition_orchest.Score.{tally}
use icil_competition_orchest.Duel.Merge.{
  UnitRecord, Prompt, derived_rows, on_prompts, on_prompt, change_row, merges, merge,
  certainly_void,
}
use icil_competition_orchest.Duel.Merge.Consistent.{IsConsistent, SameCounts, published_rows}
use icil_competition_orchest.Duel.Merge.Rows.{certainly_void-merges}

abbrev unit_1 : UnitDef
unit_1 = record {
  unit_id = "LI-000";
  skill = "lift";
  benchmark = "b";
  index = 0;
  task = "t";
  task_label = "T";
  instance_no = 0;
  seed = 7;
  scene_seed = none;
  demo = "d";
}

abbrev prompt_1 : Prompt
prompt_1 = record {
  unit_id = "LI-000";
  void = false;
  error = none;
  sha256 = some "p";
  scene_seed = none;
  demo_clip = none;
}

abbrev success_1 : UnitRecord ℕ
success_1 = record {
  unit_id = "LI-000";
  skill = "lift";
  success = some true;
  void = false;
  steps = some 9;
  error = none;
  progress = some 50;
  metric = none;
  wall_s = 3;
  clip = none;
  clip_sha256 = none;
  prompt_sha256 = some "p";
}

abbrev void_1 : UnitRecord ℕ
void_1 = record success_1 { success = none; void = true; error = some "harness" }

abbrev rows_1 : List (UnitRow ℕ)
rows_1 = unit_verdict_from_unit unit_1 none ∷ []

abbrev shown_1 : List (UnitRow ℕ)
shown_1 = record (unit_verdict_from_unit unit_1 none) { prompt_sha256 = some "p" } ∷ []

abbrev merged_1 : List (UnitRow ℕ)
merged_1 =
    record (unit_verdict_from_unit unit_1 none) {
      prompt_sha256 = some "p";
      void = true;
      king_row = record {
        success = none;
        video = none;
        progress = none;
        metric = none;
        steps = none;
        error = some "harness";
      };
      challenger_row = record {
        success = none;
        video = none;
        progress = some 50;
        metric = none;
        steps = some 9;
        error = none;
      };
    }
    ∷ []

published_there :
    on_prompts (λ clip. clip) false (prompt_1 ∷ []) (derived_rows none (unit_1 ∷ [])) ≡ some shown_1
unfolding on_prompts on_prompt change_row derived_rows unit_verdict_from_unit
published_there = refl

merged_there : merges whole ((challenger, success_1) ∷ (king, void_1) ∷ []) shown_1 ≡ some merged_1
unfolding merges merge change_row unit_verdict_from_unit
merged_there = refl

void_there : certainly_void whole 20 merged_1 ≡ true
unfolding certainly_void unit_verdict_from_unit
void_there = refl

again_there : merges whole ((challenger, success_1) ∷ []) merged_1 ≡ some merged_1
unfolding merges merge change_row unit_verdict_from_unit
again_there = refl

published_rows_example :
    All IsConsistent merged_1
    × SameCounts (unit_tally merged_1) (tally merged_1)
    × ((unit_tally merged_1).decided ≡ (tally merged_1).decided)
published_rows_example =
    published_rows whole none (unit_1 ∷ []) (λ clip. clip) false (prompt_1 ∷ [])
      ((challenger, success_1) ∷ (king, void_1) ∷ []) shown_1 merged_1 published_there merged_there

certainly_void-merges_example : certainly_void whole 20 merged_1 ≡ true
certainly_void-merges_example =
    certainly_void-merges whole whole_laws 20 ((challenger, success_1) ∷ []) merged_1 merged_1
      again_there void_there
