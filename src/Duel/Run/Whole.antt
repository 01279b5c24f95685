-- ===== src/Duel/Run/Whole.antt =====
-- duel/orchestrate.py: `run`, with `_run`, `_refused`, `_void`, `_decided` and `_failed`.
use icil_competition_orchest.Prelude.{
  ℕ, ◌+◌, String, false, List, [], ◌∷◌, Option, none, some, concat, length, map, if◌then◌else◌,
  Result, ok, err,
}
use icil_competition_orchest.Records.{UnitDef, UnitRow, challenger, king}
use icil_competition_orchest.Score.{void_count}
use icil_competition_orchest.Duel.Merge.{derived_rows}
use icil_competition_orchest.Duel.Prompts.{Made}
use icil_competition_orchest.Duel.Prompts.Loop.{materialize_units}
use icil_competition_orchest.Daemon.{Request, event_id, duel_id}
use icil_competition_orchest.Duel.Run.{
  DuelResult, Status, void, refused, RunDir, Host, Stopped, unavailable, duel_failed, crown_moved,
  unreadable_index, Conf, benchmark_refused, underivable, derived, Asks, kind_text, kind_of,
  record_request, move_aside, crown_holds, find_published, republish,
}
use icil_competition_orchest.Duel.Run.Phases.{is_some, check_sides, workshop, is_void, evaluate}
use icil_competition_orchest.Duel.Run.Publish.{publish}

unfoldable pub count_void : {F : Type 0} → List (Made F) → ℕ
count_void [] = 0
count_void (m ∷ ms) = if m.prompt.void then count_void ms + 1 else count_void ms

-- `_refused`: the rows show the challenger's failure, with the reason.
unfoldable pub refuse_row : {F : Type 0} → String → UnitRow F → UnitRow F
refuse_row reason u = record u {
  challenger_row = record u.challenger_row { success = some false; error = some reason };
}

module _ {F : Type 0} (c : Conf F) (a : Asks F) (req : Request) where
  -- `_decided`
  unfoldable pub decided :
      Status → String → List (UnitRow F) → Host F → Result Stopped (DuelResult F) × Host F
  unfolding kind_text kind_of
  decided status reason rows h =
      let result : DuelResult F = record {
        status = status;
        kind = kind_text (kind_of req);
        event_id = event_id c.spec req;
        duel_id = duel_id c.spec req;
        reason = reason;
        record_of = none;
        units = rows;
      } in
      (ok result, record h { dir = record h.dir { outcome = some result } })

  abbrev pub crashed : String → Host F → Result Stopped (DuelResult F) × Host F
  crashed why h = (err (duel_failed why), h)

  unfoldable pub void_text : ℕ → List (UnitRow F) → String → String
  void_text n rows end = concat (c.spec.str n ∷ " of " ∷ c.spec.str (length rows) ∷ end ∷ [])

  -- After a side that was evaluated: void, or on with what follows.
  unfoldable pub unless_void :
      String
      → Option (List (UnitRow F) × RunDir F)
      → Host F
      → (List (UnitRow F) → Host F → Result Stopped (DuelResult F) × Host F)
      → Result Stopped (DuelResult F) × Host F
  unfolding is_void decided void_text
  unless_void end played h go = elim played [
    | none ↦ crashed "StopIteration: " h
    | some (rows, d) ↦
        let h' = record h { dir = d } in
        if is_void c a rows
        then decided void (void_text (void_count rows) rows end) rows h'
        else go rows h'
  ]

  unfoldable pub play_king :
      List UnitDef
      → List (Made F)
      → Option String
      → List (UnitRow F)
      → Host F
      → Result Stopped (DuelResult F) × Host F
  unfolding unless_void evaluate publish
  play_king units prompts forfeit rows h = elim req.king [
    | none ↦ publish c a req forfeit rows h
    | some k ↦
        unless_void " units are void after the king's side"
          (evaluate c a king units prompts forfeit rows h.dir) h (publish c a req forfeit)
  ]

  -- From the prompts on, for submissions that were not refused.
  unfoldable pub play :
      List UnitDef
      → Option String
      → List (UnitRow F)
      → Host F
      → Result Stopped (DuelResult F) × Host F
  unfolding workshop materialize_units is_void decided void_text count_void unless_void evaluate
      play_king
  play units forfeit rows h = elim (materialize_units (workshop c a) units h.dir.manifest rows) [
    | none ↦ crashed "StopIteration: " h
    | some b ↦
        let h' = record h { dir = record h.dir { manifest = b.manifest } } in
        if is_void c a b.rows
        then decided void (void_text (count_void b.prompts) b.rows " prompts are void") b.rows h'
        else unless_void " units are void after the challenger's side"
            (evaluate c a challenger units b.prompts forfeit b.rows h'.dir) h'
            (play_king units b.prompts forfeit)
  ]

  -- `_run`
  unfoldable pub run_phases : Host F → Result Stopped (DuelResult F) × Host F
  unfolding derived_rows check_sides is_some decided refuse_row play
  run_phases h = elim a.units [
    | benchmark_refused why ↦ (err (unavailable why), h)
    | underivable why ↦ (err (duel_failed why), h)
    | derived units ↦
        let rows = derived_rows c.view units in
        elim (check_sides a (is_some req.king) h.dir.forfeit) [
          | err why ↦ (err (unavailable why), h)
          | ok r ↦ elim r.of_challenger [
            | some why ↦
                let reason = concat ("the challenger's submission was refused: " ∷ why ∷ []) in
                decided refused reason (map (refuse_row reason) rows) h
            | none ↦ play units r.of_king rows (record h {
              dir = record h.dir {
                forfeit = elim r.of_king [ none ↦ h.dir.forfeit | some why ↦ some why ];
              };
            })
          ]
        ]
  ]

  -- What `run` leaves in failed.txt, and how it names a crash.
  unfoldable pub settle_run :
      Result Stopped (DuelResult F) × Host F → Result Stopped (DuelResult F) × Host F
  settle_run (ok result, h) = (ok result, record h { dir = record h.dir { failed = none } })
  settle_run (err crown_moved, h) = (err crown_moved, h)
  settle_run (err (unavailable why), h) =
      (err (unavailable why), record h { dir = record h.dir { failed = some why } })
  settle_run (err (duel_failed why), h) =
      (err (duel_failed why), record h { dir = record h.dir { failed = some why } })
  settle_run (err unreadable_index, h) = (
    err (duel_failed "UnicodeDecodeError"),
    record h { dir = record h.dir { failed = some "UnicodeDecodeError" } },
  )

  unfoldable pub run_recorded : Host F → Result Stopped (DuelResult F) × Host F
  unfolding find_published republish crown_holds move_aside run_phases settle_run
  run_recorded h = elim h.dir.outcome [
    | some result ↦ (ok result, h)
    | none ↦ elim (find_published c req h.track) [
      | none ↦ (err unreadable_index, h)
      | some (some r) ↦ republish c req r h
      | some none ↦
          if crown_holds c req h.track
          then settle_run (run_phases h)
          else (err crown_moved, move_aside h)
    ]
  ]

  unfoldable pub run : Host F → Result Stopped (DuelResult F) × Host F
  unfolding record_request run_recorded
  run h = run_recorded (record_request c req a.now h)
