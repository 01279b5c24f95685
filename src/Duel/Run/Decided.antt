-- ===== src/Duel/Run/Decided.antt =====
-- duel/orchestrate.py: what `run` leaves, decided or not, and that a decided duel is not run again.
use icil_competition_orchest.Prelude.{
  String, ◌≡◌, ◌≢◌, refl, ap, ◌∙◌, List, Option, none, some, arith, Option-cases, Bool-cases,
  Result-cases, ◌⊎◌, inl, inr, Result, ok, err, eq_refl,
}
use icil_competition_orchest.Records.{UnitDef, UnitRow, Side, challenger, king}
use icil_competition_orchest.Duel.Merge.{merges, other}
use icil_competition_orchest.Duel.Side.Run.{SideState, run_side}
use icil_competition_orchest.Duel.Side.Journal.{read_results}
use icil_competition_orchest.Duel.Prompts.{Made}
use icil_competition_orchest.Duel.Prompts.Loop.{materialize_units}
use icil_competition_orchest.Store.{IndexRecord}
use icil_competition_orchest.Store.Index.{
  Track, iter_index, rebuild_head, append, event_of, no_event,
}
use icil_competition_orchest.Daemon.{Request}
use icil_competition_orchest.Duel.Run.{
  DuelResult, published, void, Event, RunDir, Host, Stopped, Conf, Asks, find_published, republish,
  crown_holds, republished_result, move_aside,
}
use icil_competition_orchest.Duel.Run.Phases.{
  side_of, put_side, of_side, side_harness, evaluate, workshop, is_void,
}
use icil_competition_orchest.Duel.Run.Publish.{event_for, publish_event, publish, write_event}
use icil_competition_orchest.Duel.Run.Whole.{decided, unless_void, play_king, play}
use icil_competition_orchest.Duel.Run.Readable.{rebuild_head-reads, append-written}

-- How a phase may end that began at a host: decided, with the outcome on file and nothing published unless
-- it says so; or stopped, with nothing published.
abbrev pub Plays : {F : Type 0} → Host F → Result Stopped (DuelResult F) × Host F → Type 0
Plays h (ok result, h') =
    (h'.dir.outcome ≡ some result)
    × (h'.dir.request ≡ h.dir.request)
    × ((result.status ≡ published) ⊎ (result.status ≡ void) × (h'.track ≡ h.track))
Plays h (err why, h') = h'.track ≡ h.track

module _ {F : Type 0} (c : Conf F) (a : Asks F) (req : Request) where
  put_side-request :
      (side : Side) (s : SideState F) (d : RunDir F) → (put_side side s d).request ≡ d.request
  unfolding put_side
  put_side-request challenger s d = refl
  put_side-request king s d = refl

  evaluate-request :
      (side : Side) (units : List UnitDef) (prompts : List (Made F)) (forfeit : Option String)
      (rows : List (UnitRow F)) (d : RunDir F) {us : List (UnitRow F)} {d' : RunDir F}
      → evaluate c a side units prompts forfeit rows d ≡ some (us, d')
      → d'.request ≡ d.request
  unfolding evaluate
  evaluate-request side units prompts forfeit rows d {us} {d'} h =
      let others = read_results (side_of (other side) d).journal in
      let st =
        run_side (side_harness c a side prompts others forfeit rows) units (side_of side d) in
      elim (Option-cases
        (merges c.fl (of_side side (read_results (side_of side d).journal)) rows)) [
          | inl lost ↦ ground arith
          | inr (now, first) ↦ elim (Option-cases (merges c.fl (of_side side st.done) rows)) [
            | inl lost ↦ ground arith
            | inr (then_rows, second) ↦
                let same : d' ≡ put_side side st d = ground arith in
                ap (λ x. x.request) same ∙ put_side-request side st d
          ]
        ]

  pub written :
      (e : Event F) (t : Track)
      → event_of e.index.event_id (write_event c a e t).events ≡ some (c.dump e)
  unfolding write_event event_of
  written e t = rw (eq_refl e.index.event_id) refl

  publish_event-Plays : (e : Event F) (h : Host F) → Plays h (publish_event c a req e h)
  unfolding publish_event
  publish_event-Plays e h =
      elim (Result-cases (append c.codec c.per e.index (write_event c a e h.track)).0) [
        | inl (no_event, lost) ↦
            absurd (append-written c.codec c.per e.index _ (c.dump e) (written e h.track) lost)
        | inr (seq, numbered) ↦ rw (numbered, publish_event) (refl, refl, inl refl)
      ]

  pub republish-Plays :
      (r : IndexRecord) (h : Host F)
      → iter_index c.codec h.track ≢ none
      → Plays h (republish c req r h)
  unfolding republish republished_result
  republish-Plays r h read = elim (Option-cases (rebuild_head c.codec h.track)) [
    | inl lost ↦ absurd (rebuild_head-reads c.codec h.track read lost)
    | inr (t, rebuilt) ↦ rw (rebuilt, republish) (refl, refl, inl refl)
  ]

  pub Plays-from :
      (h0 h : Host F) (x : Result Stopped (DuelResult F) × Host F)
      → h.track ≡ h0.track
      → h.dir.request ≡ h0.dir.request
      → Plays h x
      → Plays h0 x
  Plays-from h0 h (ok result, h') t r p = ground arith
  Plays-from h0 h (err why, h') t r p = p ∙ t

  pub found_reads :
      (h : Host F) {o : Option IndexRecord}
      → find_published c req h.track ≡ some o
      → iter_index c.codec h.track ≢ none
  unfolding find_published
  found_reads h found = λ lost. ground arith

  publish-Plays :
      (forfeit : Option String) (rows : List (UnitRow F)) (h : Host F)
      → Plays h (publish c a req forfeit rows h)
  unfolding publish move_aside
  publish-Plays forfeit rows h = elim (Option-cases (find_published c req h.track)) [
    | inl lost ↦ rw (lost, publish) refl
    | inr (none, found) ↦ elim (Bool-cases (crown_holds c req h.track)) [
      | inl holds ↦
          rw (found, holds, publish) (publish_event-Plays (event_for c a req forfeit rows) h)
      | inr moved ↦ rw (found, moved, publish) refl
    ]
    | inr (some r, found) ↦ rw (found, publish) (republish-Plays r h (found_reads h found))
  ]

  unless_void-Plays :
      (end : String) (played : Option (List (UnitRow F) × RunDir F)) (h : Host F)
      (go : List (UnitRow F) → Host F → Result Stopped (DuelResult F) × Host F)
      → ((us : List (UnitRow F)) (d : RunDir F) → played ≡ some (us, d) → d.request ≡ h.dir.request)
      → ((us : List (UnitRow F)) (h' : Host F) → Plays h' (go us h'))
      → Plays h (unless_void c a req end played h go)
  unfolding unless_void decided
  unless_void-Plays end none h go keeps goes = refl
  unless_void-Plays end (some (us, d)) h go keeps goes = elim (Bool-cases (is_void c a us)) [
    | inl over ↦ rw (over, unless_void) (refl, keeps us d refl, inr (refl, refl))
    | inr on ↦
        rw (on, unless_void)
          (Plays-from h (record h { dir = d }) (go us (record h { dir = d })) refl (keeps us d refl)
            (goes us (record h { dir = d })))
  ]

  play_king-Plays :
      (units : List UnitDef) (prompts : List (Made F)) (forfeit : Option String)
      (rows : List (UnitRow F)) (h : Host F)
      → Plays h (play_king c a req units prompts forfeit rows h)
  unfolding play_king
  play_king-Plays units prompts forfeit rows h = elim (Option-cases req.king) [
    | inl empty ↦ rw (empty, play_king) (publish-Plays forfeit rows h)
    | inr (k, holder) ↦
        rw (holder, play_king)
          (unless_void-Plays " units are void after the king's side"
            (evaluate c a king units prompts forfeit rows h.dir) h (publish c a req forfeit)
            (λ us d. evaluate-request king units prompts forfeit rows h.dir)
            (publish-Plays forfeit))
  ]

  pub play-Plays :
      (units : List UnitDef) (forfeit : Option String) (rows : List (UnitRow F)) (h : Host F)
      → Plays h (play c a req units forfeit rows h)
  unfolding play decided
  play-Plays units forfeit rows h =
      elim (Option-cases (materialize_units (workshop c a) units h.dir.manifest rows)) [
        | inl lost ↦ rw (lost, play) refl
        | inr (b, made) ↦ elim (Bool-cases (is_void c a b.rows)) [
          | inl over ↦ rw (made, over, play) (refl, refl, inr (refl, refl))
          | inr on ↦
              let h' : Host F = record h { dir = record h.dir { manifest = b.manifest } } in
              rw (made, on, play)
                (Plays-from h h'
                  (unless_void c a req " units are void after the challenger's side"
                    (evaluate c a challenger units b.prompts forfeit b.rows h'.dir) h'
                    (play_king c a req units b.prompts forfeit))
                  refl refl
                  (unless_void-Plays " units are void after the challenger's side"
                    (evaluate c a challenger units b.prompts forfeit b.rows h'.dir) h'
                    (play_king c a req units b.prompts forfeit)
                    (λ us d. evaluate-request challenger units b.prompts forfeit b.rows h'.dir)
                    (play_king-Plays units b.prompts forfeit)))
        ]
      ]
