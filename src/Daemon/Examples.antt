-- ===== src/Daemon/Examples.antt =====
-- Steps of the daemon at a concrete track: tests, and each theorem at a concrete input.
use icil_competition_orchest.Prelude.{◌<◌, ◌≡◌, refl, true, false, [], ◌∷◌, some, none}
use icil_competition_orchest.Ids.{SubmissionRef}
use icil_competition_orchest.Queue.{QueueEntry, take}
use icil_competition_orchest.Daemon.{Spec, Request, unavailable, Meets, Daemon, current_king, step}
use icil_competition_orchest.Floats.Whole.{whole}
use icil_competition_orchest.Daemon.Loop.{crashed, served, idle, sleeps}
use icil_competition_orchest.Daemon.Steps.{head_block, duels_itself, step-opens}
use icil_competition_orchest.Daemon.Retries.{step-retries}

abbrev spec : Spec
spec = record {
  version = 1;
  track = "t";
  sha256_hex = λ s. s;
  str = λ n. "";
  size_of = λ size. "full";
  baseline = none;
}

abbrev alice : SubmissionRef
alice = record { key = "a"; repo = "o/a"; revision = "r1" }

abbrev bob : QueueEntry
bob = record {
  key = "b";
  repo = "o/b";
  revision = "r2";
  commit_block = 3;
  duel_size = none;
  accepted_at = "t1";
  source = "";
}

abbrev waiting_bob : Daemon
waiting_bob = record {
  queue = record { entries = bob ∷ []; in_progress = none; block = 5 };
  head =
      some (record { seq = 1; event_id = "e"; block = 6; finished_at = "t0"; king = some alice });
  stalled = false;
  requests = [];
}

-- The harness is away, and nobody else uses the queue.
abbrev away : Meets
away = record {
  ready = true;
  ended = unavailable;
  head_after = waiting_bob.head;
  before_take = λ q. q;
  during = λ q. q;
  now = "t2";
}

abbrev asked_bob : Request
asked_bob = record {
  challenger = record { key = "b"; repo = "o/b"; revision = "r2" };
  king = some alice;
  size = none;
  block = 7;
}

ran_bob : (step spec away waiting_bob).ran ≡ some asked_bob
unfolding step take
ran_bob = refl

step-opens_example :
    (some alice ≡ current_king waiting_bob.head)
    × (duels_itself asked_bob ≡ false)
    × (5 < 7)
    × (head_block waiting_bob.head < 7)
step-opens_example = step-opens spec away waiting_bob asked_bob refl ran_bob

step-retries_example :
    ((step spec away waiting_bob).had ≡ false)
    × ((step spec away (step spec away waiting_bob).daemon).ran
        ≡ some (record asked_bob { size = some "full" }))
step-retries_example =
    step-retries spec away away waiting_bob asked_bob refl ran_bob refl (λ q. refl) refl

waits_there :
    sleeps whole 300 15 0 (crashed ∷ crashed ∷ served ∷ crashed ∷ idle ∷ [])
    ≡ 100 ∷ 200 ∷ 100 ∷ 15 ∷ []
unfolding sleeps
waits_there = refl
