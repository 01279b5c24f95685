-- ===== src/Duel/Run/Examples.antt =====
-- Duels at a concrete track: tests, and each theorem at a concrete input.
use icil_competition_orchest.Prelude.{ℕ, ◌≡◌, ◌≢◌, refl, some, none, ok, Result, arith}
use icil_competition_orchest.Records.{unit_verdict_from_unit}
use icil_competition_orchest.Score.{crown_moves, skill_scores}
use icil_competition_orchest.Duel.Merge.{certainly_void, on_prompt, merges, merge}
use icil_competition_orchest.Duel.Side.Journal.{read_results}
use icil_competition_orchest.Duel.Side.Run.{run_side, finish_unit}
use icil_competition_orchest.Duel.Prompts.{materialize_unit}
use icil_competition_orchest.Store.Index.{iter_index, head_king, append}
use icil_competition_orchest.Store.Verify.{same_king}
use icil_competition_orchest.Daemon.{Request, event_id}
use icil_competition_orchest.Duel.Run.{
  DuelResult, published, refused, Host, Stopped, fresh_dir, find_published, record_request,
}
use icil_competition_orchest.Duel.Run.Publish.{publish}
use icil_competition_orchest.Duel.Run.Whole.{run}
use icil_competition_orchest.Duel.Run.Rerun.{Untouched, run-again, run-keeps_track, run-refused}
use icil_competition_orchest.Duel.Run.Crowns.{publish-crown}
use icil_competition_orchest.Duel.Run.Scenes.{
  alice, bob, first, conf, asks, gone, nothing, opened, got, rows,
}

turned_away_there :
    run conf gone first opened
    ≡ (ok (got (run conf gone first opened).0), (run conf gone first opened).1)
unfolding run fresh_dir iter_index head_king
turned_away_there = refl

turned_away_refused : (got (run conf gone first opened).0).status ≡ refused
unfolding run fresh_dir iter_index head_king
turned_away_refused = refl

genesis_there : (got (run conf asks first opened).0).status ≡ published
unfolding run fresh_dir iter_index head_king certainly_void on_prompt materialize_unit merges
    read_results run_side finish_unit merge append event_id
genesis_there = refl

run-again_example :
    run conf asks first (run conf gone first opened).1
    ≡ (ok (got (run conf gone first opened).0), (run conf gone first opened).1)
run-again_example =
    run-again conf gone first asks opened (run conf gone first opened).1
      (got (run conf gone first opened).0) turned_away_there

run-refused_example :
    ((run conf gone first opened).1.track ≡ opened.track)
    × Untouched (record_request conf first "t1" opened).dir (run conf gone first opened).1.dir
run-refused_example =
    run-refused conf gone first opened (run conf gone first opened).1
      (got (run conf gone first opened).0) turned_away_there turned_away_refused

unpublished_there :
    (r : DuelResult ℕ)
    → ◌≡◌ {A = Result Stopped (DuelResult ℕ)} (ok (got (run conf gone first opened).0)) (ok r)
    → r.status ≢ published
unpublished_there r e = ground (arith, turned_away_refused)

run-keeps_track_example : (run conf gone first opened).1.track ≡ opened.track
run-keeps_track_example =
    run-keeps_track conf gone first opened (run conf gone first opened).1
      (ok (got (run conf gone first opened).0)) turned_away_there unpublished_there

-- Alice holds the crown.
abbrev second : Request
second = record { challenger = bob; king = some alice; size = none; block = 8 }

abbrev crowned_alice : Host ℕ
crowned_alice = record opened {
  track = record nothing {
    head =
        some (record { seq = 1; event_id = "e"; block = 6; finished_at = "t0"; king = some alice });
  };
}

new_there : find_published conf second crowned_alice.track ≡ some none
unfolding find_published iter_index
new_there = refl

published_there : publish conf asks second none rows crowned_alice ≡ (
  ok (got (publish conf asks second none rows crowned_alice).0),
  (publish conf asks second none rows crowned_alice).1,
)
unfolding publish iter_index same_king head_king append event_id
published_there = refl

publish-crown_example :
    head_king (publish conf asks second none rows crowned_alice).1.track.head ≡ some bob
unfolding crown_moves skill_scores unit_verdict_from_unit
publish-crown_example =
    publish-crown conf asks second none rows crowned_alice
      (publish conf asks second none rows crowned_alice).1
      (got (publish conf asks second none rows crowned_alice).0) new_there published_there
