-- ===== src/Duel/Run/Scenes.antt =====
-- A concrete track with one unit, in whole numbers, for the tests.
use icil_competition_orchest.Prelude.{ℕ, true, false, List, [], ◌∷◌, some, none, ok, err, Result}
use icil_competition_orchest.Ids.{SubmissionRef}
use icil_competition_orchest.Floats.Whole.{whole}
use icil_competition_orchest.Records.{UnitDef, UnitRow, unplayed, unit_verdict_from_unit}
use icil_competition_orchest.Duel.Side.{Outcome, silent, text}
use icil_competition_orchest.Duel.Prompts.{Making, exited}
use icil_competition_orchest.Duel.Prompts.Loop.{hashes}
use icil_competition_orchest.Store.Index.{Track}
use icil_competition_orchest.Store.Coded.{coded}
use icil_competition_orchest.Daemon.{Spec, Request}
use icil_competition_orchest.Duel.Run.{
  DuelResult, void, Host, Stopped, Conf, passed, was_refused, derived, Asks, fresh_dir,
}

abbrev pub spec : Spec
spec = record {
  version = 1;
  track = "t";
  sha256_hex = λ s. s;
  str = λ n. "";
  size_of = λ size. "full";
  baseline = none;
}

abbrev pub alice : SubmissionRef
alice = record { key = "a"; repo = "o/a"; revision = "r1" }

abbrev pub bob : SubmissionRef
bob = record { key = "b"; repo = "o/b"; revision = "r2" }

abbrev pub first : Request
first = record { challenger = bob; king = none; size = none; block = 7 }

abbrev pub conf : Conf ℕ
conf = record {
  spec = spec;
  fl = whole;
  codec = coded;
  per = 100;
  skills = "lift" ∷ [];
  score_margin = 10;
  max_void_fraction = 20;
  view = none;
  demo_video = true;
  put_media = λ clip. clip;
  dump = λ e. e.index.finished_at;
  load = λ bytes. none;
}

abbrev pub won : Outcome ℕ
won = record {
  success = some true;
  void = false;
  steps = some 9;
  error = none;
  progress = some 50;
  metric = none;
  clip = none;
  wall_s = 3;
  void_cause = none;
  reported = silent;
}

abbrev pub unit_1 : UnitDef
unit_1 = record {
  unit_id = "LI-000";
  skill = "lift";
  benchmark = "b";
  index = 0;
  task = "t";
  task_label = "T";
  instance_no = 0;
  seed = 7;
  scene_seed = none;
  demo = "d";
}

abbrev pub making : Making ℕ
making = record {
  name = "b";
  argv = ok ("make" ∷ []);
  stale = none;
  ran = exited 0 "";
  has_result = true;
  outcome = ok (record {
    success = some true;
    void = false;
    error = none;
    written = silent;
    reported_seed = none;
  });
  path = "prompt.npz";
  file = some "p";
  verdict = ok (some (record { is_ok = true; problems = []; hashed = text "p"; read_seed = none }));
  clip = none;
  wall_s = 3;
  timeout = "60";
}

abbrev pub asks : Asks ℕ
asks = record {
  now = "t1";
  units = derived (unit_1 ∷ []);
  fetch = λ side. passed;
  prepare = λ side. passed;
  prompt_file = λ id. hashes "p";
  prompt_late = λ id. false;
  making = λ id. making;
  unit =
      λ side id. record { late = false; changed_before = none; changed_after = none; played = won };
  relative = λ clip. clip;
  sha256_file = λ clip. clip;
  clip_file = λ side clip. none;
}

-- The challenger's repository is gone.
abbrev pub gone : Asks ℕ
gone = record asks { fetch = λ side. was_refused "gone" }

abbrev pub nothing : Track
nothing = record { parts = []; beyond = []; head = none; events = [] }

abbrev pub opened : Host ℕ
opened = record { dir = fresh_dir; stale = []; track = nothing }

abbrev pub no_result : DuelResult ℕ
no_result = record {
  status = void;
  kind = "";
  event_id = "";
  duel_id = "";
  reason = "";
  record_of = none;
  units = [];
}

abbrev pub got : Result Stopped (DuelResult ℕ) → DuelResult ℕ
got (ok r) = r
got (err e) = no_result

-- The challenger won the unit.
abbrev pub rows : List (UnitRow ℕ)
rows =
    record (unit_verdict_from_unit unit_1 none) {
      challenger_row = record unplayed { success = some true };
      king_row = record unplayed { success = some false };
    }
    ∷ []
