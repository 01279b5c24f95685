-- ===== src/Duel/Prompts/Examples.antt =====
-- Prompts at a concrete unit, in whole numbers: tests, and each theorem at a concrete input.
use mathlib.Core.Path.{subst}
use icil_competition_orchest.Prelude.{
  Bool-cases, inl, inr, ℕ, String, ◌≡◌, refl, true, false, List, [], ◌∷◌, some, none, ok, arith,
  ◌==s◌, find_first,
}
use icil_competition_orchest.Floats.Whole.{whole}
use icil_competition_orchest.Records.{UnitDef, UnitRow, unit_verdict_from_unit}
use icil_competition_orchest.Duel.Merge.{on_prompt, certainly_void}
use icil_competition_orchest.Duel.Side.{text}
use icil_competition_orchest.Duel.Prompts.{Made, Making, exited, materialize_unit}
use icil_competition_orchest.Duel.Prompts.Loop.{
  hashes, Workshop, Bench, PromptManifest, no_manifest, is_of, changed, read_manifest,
  materialize_units,
}
use icil_competition_orchest.Duel.Prompts.Verified.{IsVerified, materialize_unit-IsVerified}
use icil_competition_orchest.Duel.Side.Journal.{clean, torn}
use icil_competition_orchest.Duel.Prompts.Reused.{materialize_units-again}

abbrev str : ℕ → String
str n = ""

abbrev unit_1 : UnitDef
unit_1 = record {
  unit_id = "LI-000";
  skill = "lift";
  benchmark = "b";
  index = 0;
  task = "t";
  task_label = "T";
  instance_no = 0;
  seed = 7;
  scene_seed = none;
  demo = "d";
}

abbrev good : Making ℕ
good = record {
  name = "b";
  argv = ok ("make" ∷ []);
  stale = none;
  ran = exited 0 "";
  has_result = true;
  outcome = ok (record {
    success = some true;
    void = false;
    error = none;
    written = text "p";
    reported_seed = some 4;
  });
  path = "prompt.npz";
  file = some "p";
  verdict =
      ok (some (record { is_ok = true; problems = []; hashed = text "p"; read_seed = some 4 }));
  clip = none;
  wall_s = 3;
  timeout = "60";
}

abbrev made_1 : Made ℕ
made_1 = record {
  prompt = record {
    unit_id = "LI-000";
    void = false;
    error = none;
    sha256 = some "p";
    scene_seed = some 4;
    demo_clip = none;
  };
  path = some "prompt.npz";
  demo_sha256 = none;
  wall_s = 3;
}

made_there : materialize_unit str "LI-000" good ≡ made_1
unfolding materialize_unit
made_there = refl

-- The prompt's own seed is another.
seed_moved :
    (materialize_unit str "LI-000" (record good {
      verdict =
          ok (some (record { is_ok = true; problems = []; hashed = text "p"; read_seed = some 5 }));
    })).prompt.void
    ≡ true
unfolding materialize_unit
seed_moved = refl

valid_there : (materialize_unit str "LI-000" good).prompt.void ≡ false
unfolding materialize_unit
valid_there = refl

materialize_unit-IsVerified_example : IsVerified good (materialize_unit str "LI-000" good)
materialize_unit-IsVerified_example = materialize_unit-IsVerified str "LI-000" good valid_there

abbrev shop : Workshop ℕ
shop = record {
  fl = whole;
  str = str;
  file_of = λ id. hashes "p";
  late = λ id. false;
  making = λ id. good;
  put_media = λ clip. clip;
  demo_video = true;
  max_void_fraction = 20;
}

abbrev rows : List (UnitRow ℕ)
rows = unit_verdict_from_unit unit_1 none ∷ []

abbrev bench : Bench ℕ
bench = record {
  manifest = record { lines = some made_1 ∷ []; tail = clean };
  prompts = made_1 ∷ [];
  rows =
      record (unit_verdict_from_unit unit_1 none) { prompt_sha256 = some "p"; scene_seed = some 4 }
      ∷ [];
}

bench_there : materialize_units shop (unit_1 ∷ []) no_manifest rows ≡ some bench
unfolding materialize_units unit_verdict_from_unit certainly_void on_prompt materialize_unit
bench_there = refl

unchanged :
    (id : String) (m : Made ℕ)
    → find_first (is_of id) (read_manifest bench.manifest) ≡ some m
    → changed m (hashes "p") ≡ none
unfolding changed read_manifest
unchanged id m h = elim (Bool-cases ("LI-000" ==s id)) [
  | inl hit ↦
      let same : made_1 ≡ m = ground arith in subst (λ x. changed x (hashes "p") ≡ none) same refl
  | inr miss ↦ ground arith
]

-- The second run is late, and would make another prompt.
materialize_units-again_example :
    (bench.manifest.tail ≡ clean)
    × (materialize_units
          (record shop {
            file_of = λ id. hashes "p";
            late = λ id. true;
            making = λ id. record good { file = some "q" };
          })
          (unit_1 ∷ [])
          bench.manifest
          rows
        ≡ some bench)
materialize_units-again_example =
    materialize_units-again shop (unit_1 ∷ []) no_manifest rows bench (λ id. hashes "p")
      (λ id. true) (λ id. record good { file = some "q" }) refl bench_there unchanged

-- A killed run left a part of a line: the prompt that is made next is glued to it, and lost.
abbrev cut_off : PromptManifest ℕ
cut_off = record { lines = []; tail = torn }

abbrev lost_line : Bench ℕ
lost_line = record bench { manifest = record { lines = none ∷ []; tail = clean } }

made_after_torn : materialize_units shop (unit_1 ∷ []) cut_off rows ≡ some lost_line
unfolding materialize_units unit_verdict_from_unit certainly_void on_prompt materialize_unit
made_after_torn = refl

not_read_back : read_manifest lost_line.manifest ≡ []
unfolding read_manifest
not_read_back = refl

-- So the next run makes it again, and appends it again.
made_twice :
    materialize_units shop (unit_1 ∷ []) lost_line.manifest rows
    ≡ some (record bench { manifest = record { lines = none ∷ some made_1 ∷ []; tail = clean } })
unfolding materialize_units unit_verdict_from_unit certainly_void on_prompt materialize_unit
made_twice = refl
