-- ===== src/Duel/Run/Crowns.antt =====
-- duel/orchestrate.py: whose the crown is after a duel was published.
use icil_competition_orchest.Prelude.{
  String, ◌≡◌, refl, sym, ap, ◌∙◌, List, Option, none, some, arith, Bool-cases, inl, inr, ok,
  if◌then◌else◌,
}
use icil_competition_orchest.Ids.{SubmissionRef}
use icil_competition_orchest.Records.{UnitRow, king, challenger}
use icil_competition_orchest.Score.{verdict, skill_scores, crown_moves}
use icil_competition_orchest.Store.{IndexRecord, king_after}
use icil_competition_orchest.Store.Index.{
  Part, Track, repair_parts, append, append_line, numbered, head_king, head_of, event_of,
}
use icil_competition_orchest.Store.Crashes.{append-some, append_line-record}
use icil_competition_orchest.Daemon.{Request}
use icil_competition_orchest.Duel.Run.{DuelResult, Host, Conf, Asks, find_published, crown_holds}
use icil_competition_orchest.Duel.Run.Publish.{write_event, event_for, publish_event, publish}
use icil_competition_orchest.Duel.Run.Decided.{written}
use icil_competition_orchest.Duel.Run.Healed.{publish_event-track}

module _ {F : Type 0} (c : Conf F) (a : Asks F) (req : Request) where
  -- The challenger where there was no king, or where its average clears the margin over the king's.
  abbrev pub crown_after : List (UnitRow F) → Option SubmissionRef
  crown_after rows = elim req.king [
    | none ↦ some req.challenger
    | some k ↦
        if crown_moves c.fl (skill_scores c.fl rows king c.skills).average
          (skill_scores c.fl rows challenger c.skills).average c.score_margin
        then some req.challenger
        else some k
  ]

  numbered-king :
      (r : IndexRecord) (bytes : String) (ps : List Part) (k : Option SubmissionRef)
      → king_after (numbered c.codec c.per r bytes ps) k ≡ king_after r k
  unfolding numbered king_after
  numbered-king r bytes ps k = refl

  append_line-head :
      (r : IndexRecord) (bytes : String) (t : Track)
      → (append_line c.codec c.per r bytes t).1.head ≡ t.head
  unfolding append_line
  append_line-head r bytes t = ground arith

  append-king :
      (r : IndexRecord) (bytes : String) (t : Track)
      → event_of r.event_id t.events ≡ some bytes
      → head_king (append c.codec c.per r t).1.head ≡ king_after r (head_king t.head)
  unfolding head_of head_king
  append-king r bytes t there =
      let (signed, t') = append_line c.codec c.per r bytes t in
      rw (append-some c.codec c.per r bytes t there) (
        ap (λ x. king_after signed (head_king x)) (append_line-head r bytes t)
        ∙ ap (λ x. king_after x (head_king t.head)) (append_line-record c.codec c.per r bytes t)
        ∙ numbered-king r bytes (repair_parts c.codec t.parts) (head_king t.head))

  event_for-king :
      (forfeit : Option String) (rows : List (UnitRow F)) (previous : Option SubmissionRef)
      → king_after (event_for c a req forfeit rows).index previous ≡ crown_after rows
  unfolding event_for king_after verdict
  event_for-king forfeit rows previous = ground arith

  -- A duel that is published for the first time gives the crown to its challenger where the track had no king,
  -- or where the challenger's average clears the score margin over the king's; otherwise the king that the
  -- duel was asked against keeps it.
  pub publish-crown :
      (forfeit : Option String) (rows : List (UnitRow F)) (h h' : Host F) (result : DuelResult F)
      → find_published c req h.track ≡ some none
      → publish c a req forfeit rows h ≡ (ok result, h')
      → head_king h'.track.head ≡ crown_after rows
  unfolding publish
  publish-crown forfeit rows h h' result new done = elim (Bool-cases (crown_holds c req h.track)) [
    | inl holds ↦
        let e = event_for c a req forfeit rows in
        let same : publish_event c a req e h ≡ (ok result, h') = rw (new, holds, publish) at done in
        ap (λ x. head_king x.1.track.head) (sym same)
        ∙ ap (λ t. head_king t.head) (publish_event-track c req a e h)
        ∙ append-king e.index (c.dump e) (write_event c a e h.track) (written c a req e h.track)
        ∙ event_for-king forfeit rows _
    | inr moved ↦ ground arith
  ]
