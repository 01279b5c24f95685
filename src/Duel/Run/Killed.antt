-- ===== src/Duel/Run/Killed.antt =====
-- duel/orchestrate.py: a duel that was killed inside the signature of its index line, and is run
-- again.
use icil_competition_orchest.Prelude.{
  String, ◌≡◌, refl, sym, ap, ◌∙◌, true, false, List, [], ◌∷◌, ◌++◌, Option, none, some, arith,
  Option-cases, inl, inr, ok, eq_refl,
}
use icil_competition_orchest.Store.{IndexRecord, Head}
use icil_competition_orchest.Store.Index.{
  CodecLaws, Line, Track, parse, is_signed_line, repair_parts, numbered, iter_index, rebuild_head,
  head_of, crowned,
}
use icil_competition_orchest.Store.Crashes.{Reached, Reached-Holds, cut_write, cut_write-torn}
use icil_competition_orchest.Store.Rebuild.{iter_index-Holds}
use icil_competition_orchest.Store.Cut.{iter_index-cut_write}
use icil_competition_orchest.Daemon.{Request, event_id}
use icil_competition_orchest.Duel.Run.{
  DuelResult, published, Host, Conf, Asks, last_of_event, holds_request, find_published,
  republished_result, republish,
}
use icil_competition_orchest.Duel.Run.Whole.{run_recorded, run}
use icil_competition_orchest.Duel.Run.Readable.{rebuild_head-reads}
use icil_competition_orchest.Duel.Run.Rerun.{record_request-held}

last_of_event-append :
    (id : String) (rs : List IndexRecord) (r : IndexRecord)
    → r.event_id ≡ id
    → last_of_event id (rs ++ r ∷ []) ≡ some r
unfolding last_of_event
last_of_event-append id [] r e = ground (arith, eq_refl id)
last_of_event-append id (x ∷ xs) r e = rw (last_of_event-append id xs r e)

module _ {F : Type 0} (c : Conf F) (req : Request) where
  pub find_published-last :
      (t : Track) (rs : List IndexRecord) (r : IndexRecord)
      → iter_index c.codec t ≡ some (rs ++ r ∷ [])
      → r.event_id ≡ event_id c.spec req
      → find_published c req t ≡ some (some r)
  unfolding find_published
  find_published-last t rs r read e =
      rw (read, find_published) (ap some (last_of_event-append (event_id c.spec req) rs r e))

  iter_index-head :
      (t : Track) (head : Option Head)
      → iter_index c.codec (record t { head = head }) ≡ iter_index c.codec t
  unfolding iter_index
  iter_index-head t head = refl

  -- Reading a rebuilt index is reading the repaired one.
  rebuild_head-index :
      (t u : Track)
      → rebuild_head c.codec t ≡ some u
      → iter_index c.codec u
        ≡ iter_index c.codec (record t { parts = repair_parts c.codec t.parts })
  unfolding rebuild_head
  rebuild_head-index t u rebuilt =
      let t' = record t { parts = repair_parts c.codec t.parts } in
      elim (Option-cases (iter_index c.codec t')) [
        | inl lost ↦ ground arith
        | inr (rs, read) ↦ elim (Option-cases (crowned none none rs)) [
          | inl empty ↦ let same : t' ≡ u = ground arith in ap (iter_index c.codec) (sym same)
          | inr ((last, king), found) ↦
              let same : record t' { head = some (head_of last king) } ≡ u = ground arith in
              ap (iter_index c.codec) (sym same) ∙ iter_index-head t' (some (head_of last king))
        ]
      ]

  -- A run that finds the record of its event.
  pub run-found :
      (b : Asks F) (h : Host F) (r : IndexRecord) (t : Track)
      → holds_request c req h.dir ≡ true
      → h.dir.outcome ≡ none
      → find_published c req h.track ≡ some (some r)
      → rebuild_head c.codec h.track ≡ some t
      → run c b req h ≡ (
          let result = republished_result c req r t in
          (ok result, record h { track = t; dir = record h.dir { outcome = some result } }))
  unfolding run run_recorded republish
  run-found b h r t held undecided found rebuilt =
      ap (run_recorded c b req) (record_request-held c b req b.now h held)
      ∙ rw (undecided, found, rebuilt, run_recorded, republish) refl

  pub numbered-event :
      (r : IndexRecord) (bytes : String) (t : Track)
      → (numbered c.codec c.per r bytes (repair_parts c.codec t.parts)).event_id ≡ r.event_id
  unfolding numbered
  numbered-event r bytes t = refl

  module _ (laws : CodecLaws c.codec) where
    -- A duel killed inside the signature of its index line: run again, it finds the record that the cut line
    -- still spells and counts as published with it, and the repair that follows drops the line. The
    -- index then holds the records before it and no other.
    pub run-loses :
        (b : Asks F) (h : Host F) (r : IndexRecord) (bytes : String) (l : Line)
        (rs : List IndexRecord)
        → Reached c.codec c.per h.track
        → iter_index c.codec (record h.track { parts = repair_parts c.codec h.track.parts })
          ≡ some rs
        → r.event_id ≡ event_id c.spec req
        → parse c.codec l
          ≡ some (numbered c.codec c.per r bytes (repair_parts c.codec h.track.parts))
        → is_signed_line c.codec l ≡ false
        → holds_request c req h.dir ≡ true
        → h.dir.outcome ≡ none
        → (result : DuelResult F) × (h' : Host F) × (run c b req
              (record h { track = cut_write c.codec c.per l h.track })
            ≡ (ok result, h'))
          × (result.status ≡ published)
          × (result.record_of
              ≡ some (numbered c.codec c.per r bytes (repair_parts c.codec h.track.parts)))
          × (iter_index c.codec h'.track ≡ some rs)
    unfolding republished_result
    run-loses b h r bytes l rs reached read named spelt torn held undecided =
        let (ss, kept) = Reached-Holds c.codec laws c.per h.track reached in
        let cut = cut_write c.codec c.per l h.track in
        let signed = numbered c.codec c.per r bytes (repair_parts c.codec h.track.parts) in
        let there = iter_index-cut_write c.codec laws c.per h.track ss r bytes l kept spelt in
        let found =
          find_published-last cut ss signed there (numbered-event r bytes h.track ∙ named) in
        elim (Option-cases (rebuild_head c.codec cut)) [
          | inl lost ↦ absurd (rebuild_head-reads c.codec cut (λ z. ground arith) lost)
          | inr (t, rebuilt) ↦ (
            republished_result c req signed t,
            _,
            run-found b (record h { track = cut }) signed t held undecided found rebuilt,
            refl,
            refl,
            rebuild_head-index cut t rebuilt
                ∙ iter_index-Holds c.codec laws c.per cut ss
                    (cut_write-torn c.codec laws c.per l h.track ss kept torn)
                ∙ sym (iter_index-Holds c.codec laws c.per h.track ss kept)
                ∙ read,
          )
        ]
