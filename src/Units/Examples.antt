-- ===== src/Units/Examples.antt =====
-- Units of a concrete track: tests, and the theorem at a concrete input.
use icil_competition_orchest.Prelude.{
  ℕ, zero, suc, String, ◌+◌, join, ◌*◌, ◌≡◌, refl, [], ◌∷◌, some, length, ok,
}
use icil_competition_orchest.Units.{Derived, PluginUnit, Deriving, plugin_units, check_unit}
use icil_competition_orchest.Units.Numbering.{AreNumbered, plugin_units-AreNumbered}

abbrev one_derived : Derived
one_derived = record {
  task = some "pick";
  task_label = some "Pick";
  params = some (("scene_seed", "7") ∷ ("embodiment", "arm") ∷ []);
  further = ("seed", "9") ∷ ("colour", "red") ∷ [];
}

-- As many strokes.
abbrev unary : ℕ → String
unary zero = ""
unary (suc n) = join "I" (unary n)

abbrev two_bench : Deriving
two_bench = record {
  benchmark_of = λ skill. "bench";
  skill_code = λ skill. skill;
  derive_units = λ name material count skill. some (some one_derived ∷ some one_derived ∷ []);
  unit_id = λ code n. join code (unary n);
  unit_seed = λ duel skill index. 5 + index;
}

abbrev unit_1 : PluginUnit
unit_1 = record {
  unit_id = "LI-";
  skill = "LI-";
  benchmark = "bench";
  index = 0;
  seed = 5;
  task = "pick";
  task_label = "Pick";
  instance_no = 0;
  demo = "LI-";
  params = ("scene_seed", "7") ∷ ("embodiment", "arm") ∷ [];
  passed = ("colour", "red") ∷ [];
}

abbrev unit_2 : PluginUnit
unit_2 = record unit_1 { unit_id = "LI-I"; index = 1; seed = 6; demo = "LI-I" }

abbrev unit_3 : PluginUnit
unit_3 = record unit_1 { unit_id = "PU-II"; skill = "PU-"; demo = "PU-II" }

abbrev unit_4 : PluginUnit
unit_4 = record unit_2 { unit_id = "PU-III"; skill = "PU-"; demo = "PU-III" }

-- Two units for each of two skills.
derived_there :
    plugin_units two_bench "d" 2 ("LI-" ∷ "PU-" ∷ []) ≡ ok (unit_1 ∷ unit_2 ∷ unit_3 ∷ unit_4 ∷ [])
unfolding plugin_units check_unit
derived_there = refl

plugin_units-AreNumbered_example :
    AreNumbered two_bench "d" 2 0 ("LI-" ∷ "PU-" ∷ []) (unit_1 ∷ unit_2 ∷ unit_3 ∷ unit_4 ∷ [])
    × (length (unit_1 ∷ unit_2 ∷ unit_3 ∷ unit_4 ∷ []) ≡ 2 * 2)
plugin_units-AreNumbered_example =
    plugin_units-AreNumbered two_bench "d" 2 ("LI-" ∷ "PU-" ∷ [])
      (unit_1 ∷ unit_2 ∷ unit_3 ∷ unit_4 ∷ []) derived_there
