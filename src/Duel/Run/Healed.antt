-- ===== src/Duel/Run/Healed.antt =====
-- duel/orchestrate.py: a duel that was killed between its index line and the head's rewrite,
-- and is run again.
use icil_competition_orchest.Prelude.{
  String, ◌≡◌, refl, sym, ap, ◌∙◌, true, false, List, Option, none, some, arith, Option-cases,
  Result-cases, inl, inr, ok, ◌==s◌,
}
use icil_competition_orchest.Records.{UnitRow}
use icil_competition_orchest.Score.{Reason, no_units, unscored, margin_met, short_of_margin}
use icil_competition_orchest.Store.{IndexRecord, king_of}
use icil_competition_orchest.Store.Index.{
  CodecLaws, Track, repair_parts, numbered, append_line, append, event_of, iter_index, head_king,
}
use icil_competition_orchest.Store.Crashes.{writes, Reached, follows, Reached-Holds}
use icil_competition_orchest.Store.Rebuild.{iter_index-appended, rebuild_head-append}
use icil_competition_orchest.Daemon.{Request, event_id}
use icil_competition_orchest.Duel.Run.{
  DuelResult, published, Event, Host, Conf, Asks, holds_request, republished_result, reason_text,
}
use icil_competition_orchest.Duel.Run.Publish.{write_event, event_for, publish_event}
use icil_competition_orchest.Duel.Run.Whole.{run}
use icil_competition_orchest.Duel.Run.Decided.{written}
use icil_competition_orchest.Duel.Run.Killed.{find_published-last, run-found, numbered-event}

reason_text-some : (r : Reason) → (reason_text r ==s "") ≡ false
unfolding reason_text
reason_text-some no_units = refl
reason_text-some unscored = refl
reason_text-some margin_met = refl
reason_text-some short_of_margin = refl

module _ {F : Type 0} (c : Conf F) (req : Request) (a : Asks F) where
  event_for-event_id :
      (forfeit : Option String) (rows : List (UnitRow F))
      → (event_for c a req forfeit rows).index.event_id ≡ event_id c.spec req
  unfolding event_for
  event_for-event_id forfeit rows = ground arith

  event_for-reason :
      (forfeit : Option String) (rows : List (UnitRow F))
      → ((event_for c a req forfeit rows).reason ==s "") ≡ false
  unfolding event_for
  event_for-reason forfeit rows = elim (Option-cases req.king) [
    | inl empty ↦ rw (empty, event_for) refl
    | inr (k, holder) ↦ rw (holder, event_for) (reason_text-some _)
  ]

  pub publish_event-track :
      (e : Event F) (h : Host F)
      → (publish_event c a req e h).1.track
        ≡ (append c.codec c.per e.index (write_event c a e h.track)).1
  unfolding publish_event
  publish_event-track e h =
      elim (Result-cases (append c.codec c.per e.index (write_event c a e h.track)).0) [
        | inl (why, lost) ↦ rw (lost, publish_event) refl
        | inr (seq, numbered_there) ↦ rw (numbered_there, publish_event) refl
      ]

  write_event-Reached :
      (e : Event F) (t : Track)
      → Reached c.codec c.per t
      → Reached c.codec c.per (write_event c a e t)
  unfolding write_event
  write_event-Reached e t reached = follows t _ reached (writes _ t)

  write_event-read :
      (e : Event F) (t : Track)
      → iter_index c.codec (record (write_event c a e t) {
        parts = repair_parts c.codec (write_event c a e t).parts;
      })
        ≡ iter_index c.codec (record t { parts = repair_parts c.codec t.parts })
  unfolding write_event iter_index
  write_event-read e t = refl

  write_event-head :
      (e : Event F) (t : Track) → head_king (write_event c a e t).head ≡ head_king t.head
  unfolding write_event
  write_event-head e t = refl

  append-events : (r : IndexRecord) (t : Track) → (append c.codec c.per r t).1.events ≡ t.events
  unfolding append append_line
  append-events r t = ground arith

  republished_of :
      (e : Event F) (r : IndexRecord) (t : Track)
      → event_of r.event_id t.events ≡ some (c.dump e)
      → c.load (c.dump e) ≡ some e
      → (e.reason ==s "") ≡ false
      → ((republished_result c req r t).units ≡ e.units)
        × ((republished_result c req r t).reason ≡ e.reason)
  unfolding republished_result
  republished_of e r t there back given = ground arith

  -- A duel killed between its index line and the head's rewrite: run again, it publishes nothing more,
  -- returns the rows and the reason that it was published with, and leaves the track as it would be
  -- had it not been killed, with the same index and the crown where its record puts it. The head
  -- before it named the king whom the index crowns.
  pub run-heals :
      (laws : CodecLaws c.codec) (b : Asks F) (h : Host F) (forfeit : Option String)
      (rows : List (UnitRow F)) (rs : List IndexRecord)
      → Reached c.codec c.per h.track
      → iter_index c.codec (record h.track { parts = repair_parts c.codec h.track.parts }) ≡ some rs
      → head_king h.track.head ≡ king_of none rs
      → c.load (c.dump (event_for c a req forfeit rows)) ≡ some (event_for c a req forfeit rows)
      → holds_request c req h.dir ≡ true
      → h.dir.outcome ≡ none
      → (let e = event_for c a req forfeit rows in
          (result : DuelResult F) × (h' : Host F) × (run c b req (record h {
            track = (append_line c.codec c.per e.index (c.dump e) (write_event c a e h.track)).1;
          })
            ≡ (ok result, h'))
          × (h'.track ≡ (publish_event c a req e h).1.track)
          × (result.status ≡ published)
          × (result.units ≡ e.units)
          × (result.reason ≡ e.reason))
  unfolding republished_result
  run-heals laws b h forfeit rows rs reached read crown back held undecided =
      let e = event_for c a req forfeit rows in
      let t = write_event c a e h.track in
      let cut = (append_line c.codec c.per e.index (c.dump e) t).1 in
      let whole = (append c.codec c.per e.index t).1 in
      let signed = numbered c.codec c.per e.index (c.dump e) (repair_parts c.codec t.parts) in
      let filed = write_event-Reached e h.track reached in
      let (ss, kept) = Reached-Holds c.codec laws c.per t filed in
      let there = iter_index-appended c.codec laws c.per t ss e.index (c.dump e) kept in
      let named = numbered-event c req e.index (c.dump e) t ∙ event_for-event_id forfeit rows in
      let rebuilt =
        rebuild_head-append c.codec laws c.per t e.index (c.dump e) rs filed
          (written c a req e h.track) (write_event-read e h.track ∙ read)
          (write_event-head e h.track ∙ crown) in
      let (units, reason) =
        republished_of e signed whole
          (ap (λ id. event_of id whole.events) (numbered-event c req e.index (c.dump e) t)
            ∙ ap (event_of e.index.event_id) (append-events e.index t)
            ∙ written c a req e h.track)
          back (event_for-reason forfeit rows) in
      (
        republished_result c req signed whole,
        _,
        run-found c req b (record h { track = cut }) signed whole held undecided
            (find_published-last c req cut ss signed there named) rebuilt,
        sym (publish_event-track e h),
        refl,
        units,
        reason,
      )
