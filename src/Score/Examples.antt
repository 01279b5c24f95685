-- ===== src/Score/Examples.antt =====
-- Scoring at concrete duels, in whole numbers: tests, and each theorem at a concrete input.
use icil_competition_orchest.Prelude.{
  ℕ, ◌≡◌, ◌≢◌, ◌↔◌, ◌⊎◌, refl, inl, inr, true, false, [], ◌∷◌, some, none, keep, map,
}
use icil_competition_orchest.Floats.Whole.{whole, whole_laws}
use icil_competition_orchest.Records.{UnitDef, UnitRow, king, unit_verdict_from_unit}
use icil_competition_orchest.Score.{
  verdict, too_void, tally, skill_scores, margin_met, no_units, unscored,
}
use icil_competition_orchest.Score.Voids.{is_scored, verdict-keep}
use icil_competition_orchest.Score.Tallies.{other, swap_row, swap_tally, skill_scores-swap}
use icil_competition_orchest.Score.Crown.{reason_lem}
use icil_competition_orchest.Score.Rising.{verdict_mono}

abbrev lift_1 : UnitDef
lift_1 = record {
  unit_id = "LI-000";
  skill = "lift";
  benchmark = "b";
  index = 0;
  task = "t";
  task_label = "T";
  instance_no = 0;
  seed = 7;
  scene_seed = none;
  demo = "d";
}

abbrev row : UnitRow ℕ
row = unit_verdict_from_unit lift_1 none

-- Lost by the king and won by the challenger, lost by both, and void.
abbrev won : UnitRow ℕ
won = record row {
  king_row = record (row.king_row) { success = some false };
  challenger_row = record (row.challenger_row) { success = some true };
}

abbrev lost : UnitRow ℕ
lost = record row {
  king_row = record (row.king_row) { success = some false };
  challenger_row = record (row.challenger_row) { success = some false };
}

abbrev gone : UnitRow ℕ
gone = record won { void = true }

crown_moves_there : (verdict whole (won ∷ lost ∷ gone ∷ []) 10 ("lift" ∷ [])).dethroned ≡ true
unfolding verdict unit_verdict_from_unit
crown_moves_there = refl

too_void_there : too_void whole (won ∷ gone ∷ gone ∷ []) 50 ≡ true
unfolding too_void unit_verdict_from_unit
too_void_there = refl

verdict-keep_example :
    ((verdict whole (keep is_scored (won ∷ gone ∷ [])) 10 ("lift" ∷ [])).king_scores
      ≡ (verdict whole (won ∷ gone ∷ []) 10 ("lift" ∷ [])).king_scores)
    × ((verdict whole (keep is_scored (won ∷ gone ∷ [])) 10 ("lift" ∷ [])).challenger_scores
        ≡ (verdict whole (won ∷ gone ∷ []) 10 ("lift" ∷ [])).challenger_scores)
    × ((verdict whole (keep is_scored (won ∷ gone ∷ [])) 10 ("lift" ∷ [])).dethroned
        ≡ (verdict whole (won ∷ gone ∷ []) 10 ("lift" ∷ [])).dethroned)
verdict-keep_example = verdict-keep whole (won ∷ gone ∷ []) 10 ("lift" ∷ [])

skill_scores-swap_example :
    (skill_scores whole (map swap_row (won ∷ lost ∷ [])) (other king) ("lift" ∷ [])
      ≡ skill_scores whole (won ∷ lost ∷ []) king ("lift" ∷ []))
    × (tally (map swap_row (won ∷ lost ∷ [])) ≡ swap_tally (tally (won ∷ lost ∷ [])))
skill_scores-swap_example = skill_scores-swap whole (won ∷ lost ∷ []) king ("lift" ∷ [])

reason_lem_example :
    let v = verdict whole (won ∷ lost ∷ []) 10 ("lift" ∷ []) in
    ((v.dethroned ≡ true) ↔ (v.reason ≡ margin_met))
    × ((v.reason ≡ no_units) ↔ (won ∷ lost ∷ [] ≡ []))
    × ((v.reason ≡ unscored) ↔ (
        (won ∷ lost ∷ [] ≢ [])
        × ((v.king_scores.average ≡ none) ⊎ (v.challenger_scores.average ≡ none))))
reason_lem_example = reason_lem whole (won ∷ lost ∷ []) 10 ("lift" ∷ [])

verdict_mono_example : (verdict whole (won ∷ won ∷ gone ∷ []) 10 ("lift" ∷ [])).dethroned ≡ true
unfolding unit_verdict_from_unit
verdict_mono_example =
    verdict_mono whole whole_laws (won ∷ lost ∷ gone ∷ []) (won ∷ won ∷ gone ∷ []) 10 ("lift" ∷ [])
      (
        (refl, refl, refl, inl refl),
        ((refl, refl, refl, inr (refl, refl)), ((refl, refl, refl, inl refl), tt)),
      )
      crown_moves_there
