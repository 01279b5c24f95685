-- ===== src/Duel/Run/Rerun.antt =====
-- duel/orchestrate.py: how `run` ends, and what running a duel again does.
use mathlib.Core.Path.{subst}
use icil_competition_orchest.Prelude.{
  String, ◌≡◌, ◌≢◌, refl, ap, ◌∙◌, true, List, Option, none, some, arith, Option-cases, Bool-cases,
  Result-cases, ◌⊎◌, inl, inr, Result, ok, err, eq_refl,
}
use icil_competition_orchest.Records.{UnitDef}
use icil_competition_orchest.Duel.Merge.{derived_rows}
use icil_competition_orchest.Store.Verify.Clean.{same_king_refl, ==-refl}
use icil_competition_orchest.Daemon.{Request}
use icil_competition_orchest.Duel.Run.{
  DuelResult, published, refused, RunDir, Host, Stopped, unavailable, duel_failed, crown_moved,
  unreadable_index, Conf, Derived, benchmark_refused, underivable, derived, Asks, find_published,
  republish, crown_holds, move_aside, same_size, same_request, asked, holds_request, record_request,
}
use icil_competition_orchest.Duel.Run.Phases.{is_some, check_sides}
use icil_competition_orchest.Duel.Run.Whole.{
  decided, play, run_phases, settle_run, run_recorded, run,
}
use icil_competition_orchest.Duel.Run.Decided.{
  Plays, Plays-from, found_reads, play-Plays, republish-Plays,
}

-- No prompt was made and neither side was played.
abbrev pub Untouched : {F : Type 0} → RunDir F → RunDir F → Type 0
Untouched d d' =
    (d'.manifest ≡ d.manifest)
    × (d'.challenger_side ≡ d.challenger_side)
    × (d'.king_side ≡ d.king_side)

abbrev pub Ends : {F : Type 0} → Host F → Result Stopped (DuelResult F) × Host F → Type 0
Ends h (ok result, h') =
    (h'.dir.outcome ≡ some result)
    × (h'.dir.request ≡ h.dir.request)
    × ((result.status ≡ published) ⊎ (h'.track ≡ h.track))
    × (result.status ≡ refused → Untouched h.dir h'.dir)
Ends h (err why, h') = h'.track ≡ h.track

module _ {F : Type 0} where
  Plays-Ends : (h : Host F) (x : Result Stopped (DuelResult F) × Host F) → Plays h x → Ends h x
  Plays-Ends h (err why, h') p = p
  Plays-Ends h (ok result, h') (saved, same, inl public) =
      (saved, same, inl public, λ no_one. ground arith)
  Plays-Ends h (ok result, h') (saved, same, inr (is_void, kept)) =
      (saved, same, inr kept, λ no_one. ground arith)

  track_kept :
      (h h' : Host F) (end : Result Stopped (DuelResult F))
      → Ends h (end, h')
      → ((result : DuelResult F) → end ≡ ok result → result.status ≢ published)
      → h'.track ≡ h.track
  track_kept h h' (err why) p unpublished = p
  track_kept h h' (ok result) p unpublished = elim p.2 [
    | inl there ↦ absurd (unpublished result refl there)
    | inr kept ↦ kept
  ]

  settle_run-Ends :
      (c : Conf F) (a : Asks F) (req : Request) (h : Host F)
      (x : Result Stopped (DuelResult F) × Host F)
      → Ends h x
      → Ends h (settle_run c a req x)
  unfolding settle_run
  settle_run-Ends c a req h (ok result, h') p = p
  settle_run-Ends c a req h (err crown_moved, h') p = p
  settle_run-Ends c a req h (err (unavailable why), h') p = p
  settle_run-Ends c a req h (err (duel_failed why), h') p = p
  settle_run-Ends c a req h (err unreadable_index, h') p = p

Derived-cases :
    (d : Derived)
    → ((why : String) × (d ≡ benchmark_refused why))
      ⊎ ((why : String) × (d ≡ underivable why))
      ⊎ ((us : List UnitDef) × (d ≡ derived us))
Derived-cases (benchmark_refused why) = inl (why, refl)
Derived-cases (underivable why) = inr (inl (why, refl))
Derived-cases (derived us) = inr (inr (us, refl))

module _ {F : Type 0} (c : Conf F) (a : Asks F) (req : Request) where
  run_phases-Ends : (h : Host F) → Ends h (run_phases c a req h)
  unfolding run_phases decided
  run_phases-Ends h = elim (Derived-cases a.units) [
    | inl (why, refused_there) ↦ rw (refused_there, run_phases) refl
    | inr (inl (why, lost)) ↦ rw (lost, run_phases) refl
    | inr (inr (units, found)) ↦
        elim (Result-cases (check_sides a (is_some req.king) h.dir.forfeit)) [
          | inl (why, away) ↦ rw (found, away, run_phases) refl
          | inr (r, checked) ↦ elim (Option-cases r.of_challenger) [
            | inr (why, bad) ↦
                rw (found, checked, bad, run_phases)
                  (refl, refl, inr refl, λ there. (refl, refl, refl))
            | inl good ↦
                let rows = derived_rows c.view units in
                let forfeit : Option String = elim r.of_king [
                  | none ↦ h.dir.forfeit
                  | some why ↦ some why
                ] in
                let h' : Host F = record h { dir = record h.dir { forfeit = forfeit } } in
                let x = play c a req units r.of_king rows h' in
                rw (found, checked, good, run_phases)
                  (Plays-Ends h x (
                    Plays-from c a req h h' x refl refl
                      (play-Plays c a req units r.of_king rows h')))
          ]
        ]
  ]

  run_recorded-Ends : (h : Host F) → Ends h (run_recorded c a req h)
  unfolding run_recorded move_aside
  run_recorded-Ends h = elim (Option-cases h.dir.outcome) [
    | inr (result, on_file) ↦
        rw (on_file, run_recorded) (on_file, refl, inr refl, λ r. (refl, refl, refl))
    | inl undecided ↦ elim (Option-cases (find_published c req h.track)) [
      | inl lost ↦ rw (undecided, lost, run_recorded) refl
      | inr (some r, found) ↦
          rw (undecided, found, run_recorded)
            (Plays-Ends h (republish c req r h)
              (republish-Plays c a req r h (found_reads c a req h found)))
      | inr (none, found) ↦ elim (Bool-cases (crown_holds c req h.track)) [
        | inl holds ↦
            rw (undecided, found, holds, run_recorded)
              (settle_run-Ends c a req h (run_phases c a req h) (run_phases-Ends h))
        | inr moved ↦ rw (undecided, found, moved, run_recorded) refl
      ]
    ]
  ]

  same_size_refl : (o : Option String) → same_size o o ≡ true
  unfolding same_size
  same_size_refl none = refl
  same_size_refl (some s) = eq_refl s

  same_request_refl : (r : Request) → same_request r r ≡ true
  unfolding same_request
  same_request_refl r =
      rw
        (
          same_king_refl (some r.challenger),
          same_king_refl r.king,
          same_size_refl r.size,
          ==-refl r.block,
        )
        refl

  -- Once it is recorded, a request is the one that its run directory holds, and is not recorded again.
  record_request-holds :
      (now : String) (h : Host F) → holds_request c req (record_request c req now h).dir ≡ true
  unfolding record_request holds_request move_aside
  record_request-holds now h = elim (Option-cases h.dir.request) [
    | inl new ↦ rw (new, record_request) (same_request_refl (asked c req))
    | inr (r, old) ↦ elim (Bool-cases (holds_request c req h.dir)) [
      | inl held ↦ rw (old, held, record_request) held
      | inr another ↦ rw (old, another, record_request) (same_request_refl (asked c req))
    ]
  ]

  pub record_request-held :
      (now : String) (h : Host F)
      → holds_request c req h.dir ≡ true
      → record_request c req now h ≡ h
  unfolding record_request holds_request
  record_request-held now h held = elim (Option-cases h.dir.request) [
    | inl new ↦ ground arith
    | inr (r, old) ↦ ground arith
  ]

  holds_request-same :
      (d d' : RunDir F)
      → d'.request ≡ d.request
      → holds_request c req d ≡ true
      → holds_request c req d' ≡ true
  unfolding holds_request
  holds_request-same d d' same held = ground arith

  run_recorded-decided :
      (b : Asks F) (h : Host F) (result : DuelResult F)
      → h.dir.outcome ≡ some result
      → run_recorded c b req h ≡ (ok result, h)
  unfolding run_recorded
  run_recorded-decided b h result on_file = ground arith

  record_request-track : (now : String) (h : Host F) → (record_request c req now h).track ≡ h.track
  unfolding record_request move_aside
  record_request-track now h = ground arith

  -- A duel that was decided is decided: running it again, whatever the second run would meet, returns the
  -- same result and changes nothing.
  pub run-again :
      (b : Asks F) (h h' : Host F) (result : DuelResult F)
      → run c a req h ≡ (ok result, h')
      → run c b req h' ≡ (ok result, h')
  unfolding run
  run-again b h h' result done =
      let h1 = record_request c req a.now h in
      let ends = subst (Ends h1) done (run_recorded-Ends h1) in
      let held = holds_request-same h1.dir h'.dir ends.1 (record_request-holds a.now h) in
      ap (run_recorded c b req) (record_request-held b.now h' held)
      ∙ run_recorded-decided b h' result ends.0

  -- A run that does not end in a published record, stopped or decided, leaves the index, the head and the
  -- events of its track as they were.
  pub run-keeps_track :
      (h h' : Host F) (end : Result Stopped (DuelResult F))
      → run c a req h ≡ (end, h')
      → ((result : DuelResult F) → end ≡ ok result → result.status ≢ published)
      → h'.track ≡ h.track
  unfolding run
  run-keeps_track h h' end done unpublished =
      let h1 = record_request c req a.now h in
      track_kept h1 h' end (subst (Ends h1) done (run_recorded-Ends h1)) unpublished
      ∙ record_request-track a.now h

  -- A duel whose challenger was refused published nothing, made no prompt and played neither side: its run
  -- directory has the manifest and the results that it had when the request was recorded.
  pub run-refused :
      (h h' : Host F) (result : DuelResult F)
      → run c a req h ≡ (ok result, h')
      → result.status ≡ refused
      → (h'.track ≡ h.track) × Untouched (record_request c req a.now h).dir h'.dir
  unfolding run
  run-refused h h' result done bad =
      let h1 = record_request c req a.now h in
      let (saved, same, kept, untouched) = subst (Ends h1) done (run_recorded-Ends h1) in
      (
        track_kept h1 h' (ok result) (saved, same, kept, untouched) (λ r e. ground (arith, bad))
            ∙ record_request-track a.now h,
        untouched bad,
      )
