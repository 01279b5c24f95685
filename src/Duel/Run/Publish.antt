-- ===== src/Duel/Run/Publish.antt =====
-- duel/orchestrate.py: publishing a duel: the event, its record and what the duel comes to.
use icil_competition_orchest.Prelude.{
  String, false, List, ◌∷◌, Option, none, some, map, if◌then◌else◌, Result, ok, err,
}
use icil_competition_orchest.Records.{UnitRow, king, unit_tally}
use icil_competition_orchest.Score.{verdict, skill_scores, void_fraction}
use icil_competition_orchest.Duel.Merge.{as_king}
use icil_competition_orchest.Store.{genesis, duel}
use icil_competition_orchest.Store.Index.{Track, append}
use icil_competition_orchest.Daemon.{Request, event_id, duel_id}
use icil_competition_orchest.Duel.Run.{
  kept_forfeit, DuelResult, published, Event, Host, Stopped, duel_failed, crown_moved,
  unreadable_index, Conf, Asks, kind_text, reason_text, kind_of, move_aside, crown_holds,
  find_published, republish,
}

module _ {F : Type 0} (c : Conf F) (a : Asks F) where
  -- `_publish` once the crown is known to hold: the event, its record and what the duel comes to.
  unfoldable pub event_for : Request → Option String → List (UnitRow F) → Event F
  unfolding kind_of reason_text kept_forfeit
  event_for req forfeit rows = elim req.king [
    | none ↦
        let units = map as_king rows in
        record {
          index = record {
            seq = 0;
            event_id = event_id c.spec req;
            kind = genesis;
            track = c.spec.track;
            block = req.block;
            finished_at = a.now;
            king = some req.challenger;
            challenger = none;
            new_king = none;
            dethroned = false;
            event_sha256 = none;
          };
          king_scores = skill_scores c.fl units king c.skills;
          challenger_scores = none;
          counts = unit_tally units;
          units = units;
          reason = "genesis";
          void_fraction = void_fraction c.fl units;
          forfeit = kept_forfeit forfeit;
        }
    | some k ↦
        let v = verdict c.fl rows c.score_margin c.skills in
        record {
          index = record {
            seq = 0;
            event_id = event_id c.spec req;
            kind = duel;
            track = c.spec.track;
            block = req.block;
            finished_at = a.now;
            king = some k;
            challenger = some req.challenger;
            new_king = if v.dethroned then some req.challenger else none;
            dethroned = v.dethroned;
            event_sha256 = none;
          };
          king_scores = v.king_scores;
          challenger_scores = some v.challenger_scores;
          counts = unit_tally rows;
          units = rows;
          reason = reason_text v.reason;
          void_fraction = void_fraction c.fl rows;
          forfeit = kept_forfeit forfeit;
        }
  ]

  unfoldable pub write_event : Event F → Track → Track
  write_event e t = record t { events = (e.index.event_id, c.dump e) ∷ t.events }

  unfoldable pub publish_event : Request → Event F → Host F → Result Stopped (DuelResult F) × Host F
  unfolding write_event kind_text
  publish_event req e h =
      let (numbered, t) = append c.codec c.per e.index (write_event e h.track) in
      elim numbered [
        | err missing ↦
            (err (duel_failed "write the event before its record"), record h { track = t })
        | ok seq ↦
            let result : DuelResult F = record {
              status = published;
              kind = kind_text e.index.kind;
              event_id = e.index.event_id;
              duel_id = duel_id c.spec req;
              reason = e.reason;
              record_of = some (record e.index { seq = seq });
              units = e.units;
            } in
            (ok result, record h { track = t; dir = record h.dir { outcome = some result } })
      ]

  unfoldable pub publish :
      Request → Option String → List (UnitRow F) → Host F → Result Stopped (DuelResult F) × Host F
  unfolding find_published republish crown_holds move_aside event_for publish_event
  publish req forfeit rows h = elim (find_published c req h.track) [
    | none ↦ (err unreadable_index, h)
    | some (some r) ↦ republish c req r h
    | some none ↦
        if crown_holds c req h.track
        then publish_event req (event_for req forfeit rows) h
        else (err crown_moved, move_aside h)
  ]
