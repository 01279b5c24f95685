-- ===== src/Queue/Examples.antt =====
-- Runs of the queue: tests, and each theorem at a concrete input.
use icil_competition_orchest.Prelude.{◌<◌, String, ◌≡◌, refl, [], ◌∷◌, none, some, arith}
use mathlib.Core.List.{Perm}
use icil_competition_orchest.Ids.{submission_key}
use icil_competition_orchest.Queue.{QueueEntry, QueueState, empty, take, put_back, without}
use icil_competition_orchest.Queue.File.{
  unreadable, holds, load, takes, pops, finishes, advances, change, checked, World, locked, call,
  run,
}
use icil_competition_orchest.Queue.Invariant.{IsValid}
use icil_competition_orchest.Queue.Validity.{DiskValid, call-DiskValid}
use icil_competition_orchest.Queue.Lineage.{put_back-take}
use icil_competition_orchest.Queue.Handles.{told, alone, told-alone, run-unreadable}
use icil_competition_orchest.Queue.Blocks.{claims_rise}

abbrev sha : String → String
sha s = s

abbrev first : QueueEntry
first = record {
  key = "a";
  repo = "o/a";
  revision = "r1";
  commit_block = 3;
  duel_size = none;
  accepted_at = "t1";
  source = "";
}

abbrev second : QueueEntry
second = record first { key = "b"; repo = "o/b" }

abbrev waits : QueueState
waits = record { entries = first ∷ second ∷ []; in_progress = none; block = 5 }

abbrev world : World
world = record { disk = holds waits; states = λ i. empty }

-- A key that `submission_key` derives here: the hash is the identity, cut to 16 characters.
abbrev keyed : QueueState
keyed = record {
  entries = record first { key = "o/a@r1" } ∷ record first { key = "o/b@r1"; repo = "o/b" } ∷ [];
  in_progress = none;
  block = 5;
}

take-second : (take "b" 7 "e" none "t2" waits).0 ≡ some second
unfolding take
take-second = refl

keyed-IsValid : IsValid sha keyed
unfolding submission_key
keyed-IsValid = record {
  unique = (refl, (refl, tt));
  entries_ok = ((refl, omega arith), ((refl, omega arith), tt));
  running_ok = tt;
}

call-DiskValid_example :
    DiskValid sha
      (call sha 0
        (takes "o/b@r1" 9 "e" none "t2")
        (record { disk = holds keyed; states = λ i. empty })).1.disk
call-DiskValid_example =
    call-DiskValid sha 0 (takes "o/b@r1" 9 "e" none "t2")
      (record { disk = holds keyed; states = λ i. empty }) tt keyed-IsValid

put_back-take_example :
    let (back, s) = put_back none (take "b" 7 "e" none "t2" waits).1 in
    (second.key ≡ "b")
    × (back ≡ some second)
    × (s.in_progress ≡ none)
    × (s.entries ≡ second ∷ without "b" waits.entries)
    × Perm s.entries waits.entries
put_back-take_example =
    put_back-take "b" 7 "e" none "t2" none waits second (refl, (refl, tt)) take-second

told-alone_example :
    told sha world ((1, pops) ∷ (2, finishes) ∷ [])
    ≡ told sha (record world { states = λ i. waits }) (alone sha ((1, pops) ∷ (2, finishes) ∷ []))
told-alone_example =
    told-alone sha world (record world { states = λ i. waits }) ((1, pops) ∷ (2, finishes) ∷ [])
      refl

run-unreadable_example :
    (run sha
      (record { disk = unreadable; states = λ i. waits })
      ((0, pops) ∷ (1, advances) ∷ [])).disk
    ≡ unreadable
run-unreadable_example =
    run-unreadable sha (record { disk = unreadable; states = λ i. waits })
      ((0, pops) ∷ (1, advances) ∷ []) refl

claims_rise_example : (6 < 9) × (8 < 9)
unfolding call run locked load change checked
claims_rise_example =
    claims_rise sha 0 1 4 8 6 9 world ((1, pops) ∷ (0, finishes) ∷ []) (tt, (tt, tt)) refl refl
