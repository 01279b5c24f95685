-- ===== src/Store/Rebuild.antt =====
-- store/writer.py: `iter_index` after an append, and `rebuild_head` against the head that `append` writes.
use icil_competition_orchest.Prelude.{
  ℕ, suc, ◌+◌, ◌≤◌, String, ◌≡◌, refl, sym, ap, ◌∙◌, List, [], ◌∷◌, ◌++◌, Option, none, some, arith,
  length, ok,
}
use icil_competition_orchest.Ids.{SubmissionRef}
use icil_competition_orchest.Store.{IndexRecord, king_after, king_of}
use icil_competition_orchest.Store.Index.{
  Codec, CodecLaws, Track, insert_seq, sort_seq, repair_parts, numbered, append_line, append,
  event_of, crowned, head_of, head_king, iter_index, rebuild_head,
}
use icil_competition_orchest.Store.Filed.{NumberedFrom}
use icil_competition_orchest.Store.Tails.{repair_parts-whole}
use icil_competition_orchest.Store.Crashes.{
  Reached, Holds, Reached-Holds, append_line-record, append_line-IsFiled, append-some, numbered-seq,
}

insert_seq-first :
    (n : ℕ) (r : IndexRecord) (rs : List IndexRecord)
    → r.seq ≤ n
    → NumberedFrom n rs
    → insert_seq r rs ≡ r ∷ rs
unfolding insert_seq NumberedFrom
insert_seq-first n r [] b h = refl
insert_seq-first n r (x ∷ xs) b h = ground arith

pub sort_seq-numbered : (n : ℕ) (rs : List IndexRecord) → NumberedFrom n rs → sort_seq rs ≡ rs
unfolding sort_seq NumberedFrom
sort_seq-numbered n [] h = refl
sort_seq-numbered n (x ∷ xs) h = ground (
  arith,
  sort_seq-numbered (suc n) xs h.1,
  insert_seq-first (suc n) x xs (omega (arith, h.0)) h.1,
)

crowned-append :
    (last : Option IndexRecord) (king : Option SubmissionRef) (rs : List IndexRecord)
    (r : IndexRecord)
    → crowned last king (rs ++ r ∷ []) ≡ some (r, king_after r (king_of king rs))
unfolding crowned king_of
crowned-append none king [] r = refl
crowned-append (some l) king [] r = refl
crowned-append none king (x ∷ xs) r = crowned-append (some x) (king_after x king) xs r
crowned-append (some l) king (x ∷ xs) r = crowned-append (some x) (king_after x king) xs r

module _ (c : Codec) (laws : CodecLaws c) (per : ℕ) where
  -- A repaired index is read as the records it holds.
  pub iter_index-Holds :
      (t : Track) (rs : List IndexRecord)
      → Holds c per t rs
      → iter_index c (record t { parts = repair_parts c t.parts }) ≡ some rs
  unfolding iter_index
  iter_index-Holds t rs h = ground (arith, h.filed.reads, sort_seq-numbered 1 rs h.filed.numbered)

  -- The track whose head is left out of account: reading the index does not depend on it.
  pub iter_index-appended :
      (t : Track) (rs : List IndexRecord) (r : IndexRecord) (bytes : String)
      → Holds c per t rs
      → iter_index c (append_line c per r bytes t).1
        ≡ some (rs ++ numbered c per r bytes (repair_parts c t.parts) ∷ [])
  unfolding iter_index
  iter_index-appended t rs r bytes h =
      let put = append_line-IsFiled c laws per r bytes t rs h in
      ground (
        arith,
        put.reads,
        sort_seq-numbered 1 (rs ++ numbered c per r bytes (repair_parts c t.parts) ∷ [])
            put.numbered,
      )

  -- An append to a track that has been through any appends, kills and losses of its head, whose event was
  -- written: the record takes the number after the last one, it is the last that the index is read as
  -- from then on, and the records before it are read as they were.
  pub append-Reached :
      (t : Track) (r : IndexRecord) (bytes : String)
      → Reached c per t
      → event_of r.event_id t.events ≡ some bytes
      → (rs : List IndexRecord) × (iter_index c (record t { parts = repair_parts c t.parts })
          ≡ some rs)
        × ((append c per r t).0 ≡ ok (length rs + 1))
        × (iter_index c (append c per r t).1
            ≡ some (rs ++ numbered c per r bytes (repair_parts c t.parts) ∷ []))
  unfolding append_line numbered iter_index
  append-Reached t r bytes reached e =
      let (rs, h) = Reached-Holds c laws per t reached in
      (
        rs,
        iter_index-Holds t rs h,
        rw (append-some c per r bytes t e)
            (ap ok (numbered-seq c laws per r bytes (repair_parts c t.parts) rs h.filed)),
        rw (append-some c per r bytes t e) (iter_index-appended t rs r bytes h),
      )

  rebuild_head-whole :
      (u : Track) (ss : List IndexRecord) (r : IndexRecord)
      → repair_parts c u.parts ≡ u.parts
      → iter_index c u ≡ some (ss ++ r ∷ [])
      → rebuild_head c u
        ≡ some (record u { head = some (head_of r (king_after r (king_of none ss))) })
  unfolding rebuild_head
  rebuild_head-whole u ss r whole read =
      ground (arith, ap (λ ps. record u { parts = ps }) whole, crowned-append none none ss r)

  append_line-head :
      (r : IndexRecord) (bytes : String) (t : Track) → (append_line c per r bytes t).1.head ≡ t.head
  unfolding append_line
  append_line-head r bytes t = ground arith

  -- A kill between the index line and the head: `rebuild_head` makes of the track what the whole append
  -- would have, where the head named the king that the index crowns.
  pub rebuild_head-append :
      (t : Track) (r : IndexRecord) (bytes : String) (rs : List IndexRecord)
      → Reached c per t
      → event_of r.event_id t.events ≡ some bytes
      → iter_index c (record t { parts = repair_parts c t.parts }) ≡ some rs
      → head_king t.head ≡ king_of none rs
      → rebuild_head c (append_line c per r bytes t).1 ≡ some (append c per r t).1
  rebuild_head-append t r bytes rs reached e read king =
      let (ss, h) = Reached-Holds c laws per t reached in
      let whole = repair_parts-whole c _ (append_line-IsFiled c laws per r bytes t ss h).whole in
      let new = iter_index-appended t ss r bytes h in
      let same : ss ≡ rs = ground (arith, iter_index-Holds t ss h, read) in
      let rebuilt =
        rebuild_head-whole (append_line c per r bytes t).1 ss
          (numbered c per r bytes (repair_parts c t.parts)) whole new in
      let head = append_line-head r bytes t in
      let named : king_of none ss ≡ head_king (append_line c per r bytes t).1.head =
        ap (king_of none) same ∙ sym king ∙ sym (ap head_king head) in
      rw (append-some c per r bytes t e, append_line-record c per r bytes t, ← named) rebuilt
