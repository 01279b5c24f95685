-- ===== src/Store/Verify/Published.antt =====
-- store/verify.py on a track that store/writer.py published to.
use icil_competition_orchest.Prelude.{
  ℕ, ◌+◌, String, ◌≡◌, refl, ap, ◌∙◌, List, [], ◌∷◌, ◌++◌, Option, none, some, length,
  length-append, arith, eq_refl,
}
use icil_competition_orchest.Ids.{SubmissionRef}
use icil_competition_orchest.Store.{IndexRecord, king_after, king_of, empty_head}
use icil_competition_orchest.Store.Index.{
  Codec, CodecLaws, Track, part_of, event_of, line_of, put_line, count_parts, numbered, append,
  head_of, head_king,
}
use icil_competition_orchest.Store.Filed.{
  IsFiled, last_of, part_of-bounds, put_line-IsFiled, last_of-append,
}
use icil_competition_orchest.Store.Tails.{repair_parts-whole}
use icil_competition_orchest.Store.Crashes.{
  Holds, append_line-parts, append-some, numbered-seq, append_line-record, parse-line_of,
  nothing-IsFiled,
}
use icil_competition_orchest.Store.Verify.{
  Report, when, same_king, verify_line, verify_parts, head_flaws, no_report, verify_track,
}
use icil_competition_orchest.Store.Verify.Clean.{
  same_king_refl, ==-refl, record_flaws-none, verify_line-whole, verify_parts-put_line,
}

-- A track that `init` opened, and that only whole appends of its own records wrote to, each after its event.
pub data Published (c : Codec) (per : ℕ) (track : String) : Track → Type 0 where
  opens :
      (es : List (String × String))
      → Published c per track
          (record { parts = []; beyond = []; head = some empty_head; events = es })
  publishes :
      (t : Track) (r : IndexRecord) (bytes : String)
      → Published c per track t
      → event_of r.event_id t.events ≡ some bytes
      → r.track ≡ track
      → Published c per track (append c per r t).1

-- What the verifier makes of an index that holds `rs`.
report_of : List IndexRecord → Report
report_of rs = record {
  errors = [];
  expected = length rs + 1;
  last = last_of rs;
  king = king_of none rs;
}

record Clean (c : Codec) (per : ℕ) (track : String) (t : Track) (rs : List IndexRecord)
    : Type 0 where
  filed : IsFiled c per t.parts rs
  near : t.beyond ≡ []
  report : verify_parts c per track t.events 0 no_report t.parts ≡ report_of rs
  king : head_king t.head ≡ king_of none rs
  head : head_flaws t.head (last_of rs) (king_of none rs) ≡ []

king_of-append :
    (k : Option SubmissionRef) (rs : List IndexRecord) (r : IndexRecord)
    → king_of k (rs ++ r ∷ []) ≡ king_after r (king_of k rs)
unfolding king_of
king_of-append k [] r = refl
king_of-append k (x ∷ xs) r = king_of-append (king_after x k) xs r

head_flaws-head_of :
    (r : IndexRecord) (k : Option SubmissionRef) → head_flaws (some (head_of r k)) (some r) k ≡ []
unfolding head_flaws head_of when
head_flaws-head_of r k = ground (
  arith,
  eq_refl r.event_id,
  eq_refl r.finished_at,
  ==-refl r.seq,
  ==-refl r.block,
  same_king_refl k,
)

plus_zero : (m : ℕ) → m + 0 ≡ m
plus_zero m = omega arith

module _ (c : Codec) (laws : CodecLaws c) (per : ℕ) (track : String) where
  verify_line-numbered :
      (n : ℕ) (rs : List IndexRecord) (events : List (String × String)) (r : IndexRecord)
      (bytes : String)
      → r.seq ≡ length rs + 1
      → r.track ≡ track
      → event_of r.event_id events ≡ some bytes
      → r.event_sha256 ≡ some (c.sha256 bytes)
      → verify_line c per track events (part_of per (length rs + 1)) n (report_of rs) (line_of c r)
        ≡ report_of (rs ++ r ∷ [])
  unfolding report_of
  verify_line-numbered n rs events r bytes q t e h =
      let place : part_of per r.seq ≡ part_of per (length rs + 1) = ap (part_of per) q in
      let flawless =
        record_flaws-none c per track events laws (part_of per (length rs + 1)) (length rs + 1) r
          bytes place q (ground (arith, q)) t e h in
      let whole =
        verify_line-whole c per track events laws (part_of per (length rs + 1)) n (report_of rs) r
          flawless in
      ground
        (arith, whole, q, length-append rs (r ∷ []), last_of-append rs r, king_of-append none rs r)

  appended :
      (t : Track) (rs : List IndexRecord) (r : IndexRecord) (bytes : String)
      → Clean c per track t rs
      → event_of r.event_id t.events ≡ some bytes
      → (append c per r t).1 ≡ (
          let signed = numbered c per r bytes t.parts in
          record {
            parts = put_line (part_of per (length rs + 1)) (line_of c signed) t.parts;
            beyond = t.beyond;
            head = some (head_of signed (king_after signed (head_king t.head)));
            events = t.events;
          })
  appended t rs r bytes h e =
      let same = repair_parts-whole c t.parts h.filed.whole in
      let holds : Holds c per t rs = record { filed = rw same h.filed; near = h.near } in
      rw
        (
          append-some c per r bytes t e,
          append_line-record c per r bytes t,
          append_line-parts c laws per r bytes t rs holds,
          same,
        )
        refl

  append-Clean :
      (t : Track) (rs : List IndexRecord) (r : IndexRecord) (bytes : String)
      → Clean c per track t rs
      → event_of r.event_id t.events ≡ some bytes
      → r.track ≡ track
      → (ss : List IndexRecord) × Clean c per track (append c per r t).1 ss
  unfolding numbered head_king head_of
  append-Clean t rs r bytes h e k =
      let signed = numbered c per r bytes t.parts in
      let n = numbered-seq c laws per r bytes t.parts rs h.filed in
      let b = part_of-bounds per (length rs) (count_parts t.parts) h.filed.enough h.filed.full in
      let (line, put) =
        verify_parts-put_line c per track t.events (part_of per (length rs + 1)) 0 no_report t.parts
          (line_of c signed) h.filed.whole b.0 b.1 in
      (
        rs ++ signed ∷ [],
        rw (appended t rs r bytes h e) (record {
          filed =
              put_line-IsFiled c per t.parts rs (line_of c signed) signed h.filed
                (parse-line_of c laws per signed) n;
          near = h.near;
          report =
              put
              ∙ ap
                  (λ m.
                    verify_line c per track t.events m line
                      (verify_parts c per track t.events 0 no_report t.parts) (line_of c signed))
                  (plus_zero (part_of per (length rs + 1)))
              ∙ ap
                  (λ s.
                    verify_line c per track t.events (part_of per (length rs + 1)) line s
                      (line_of c signed))
                  h.report
              ∙ verify_line-numbered line rs t.events signed bytes n k e refl;
          king = rw (king_of-append none rs signed, h.king) refl;
          head =
              rw (last_of-append rs signed, king_of-append none rs signed, h.king)
                (head_flaws-head_of signed (king_after signed (king_of none rs)));
        }),
      )

  Published-Clean :
      (t : Track) → Published c per track t → (rs : List IndexRecord) × Clean c per track t rs
  unfolding verify_parts report_of last_of king_of head_flaws same_king when head_king
  Published-Clean t (opens es) = (
    [],
    record { filed = nothing-IsFiled c per; near = refl; report = refl; king = refl; head = refl },
  )
  Published-Clean t (publishes s r bytes p e k) =
      let (rs, h) = Published-Clean s p in append-Clean s rs r bytes h e k

  -- The verifier finds nothing wrong with the index or the head of a track that was only published to.
  pub verify_track-Published :
      (t : Track) → Published c per track t → verify_track c per track t ≡ ([], [])
  unfolding verify_track report_of
  verify_track-Published t p =
      let (rs, h) = Published-Clean t p in
      ap (λ s. (s.errors, head_flaws t.head s.last s.king)) h.report ∙ ap (λ e. ([], e)) h.head
