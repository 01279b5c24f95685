-- ===== src/Store/Crashes.antt =====
-- store/writer.py: appends to one track's index, and the places where a kill can leave one.
use icil_competition_orchest.Prelude.{
  ℕ, ◌+◌, String, ◌≡◌, refl, true, false, List, [], ◌∷◌, ◌++◌, Option, none, some, arith, length,
  ok, err, Option-cases, inl, inr,
}
use icil_competition_orchest.Store.{IndexRecord, Head, king_after}
use icil_competition_orchest.Store.Index.{
  Codec, CodecLaws, Line, Part, Track, put_line, parse, body_of, is_signed_line, repair_parts,
  next_seq, line_of, part_of, read_parts, last_record, numbered, append_line, append, event_of,
  no_event, head_of, head_king,
}
use icil_competition_orchest.Store.Filed.{
  IsFiled, NumberedFrom, last_of, next_seq-IsFiled, put_line-IsFiled, part_of-IsFiled,
}
use icil_competition_orchest.Store.Tails.{
  put_tail, repair_parts-whole, within, torn-IsFiled, unended-IsFiled,
}

module _ (c : Codec) (per : ℕ) where
  -- What a kill inside the write of an index line leaves, after the repair that opens `append`: `l` at the
  -- end of the part that the line goes to.
  unfoldable pub cut_write : Line → Track → Track
  unfolding put_tail repair_parts part_of next_seq
  cut_write l t =
      let parts = repair_parts c t.parts in
      record t { parts = put_tail (part_of per (next_seq c parts)) l parts }

  -- What may happen to a track's files. The head may be any: it is a cache, and a kill or a loss leaves an
  -- old one or none.
  pub data Step : Track → Track → Type 0 where
    appends : (r : IndexRecord) (t : Track) → Step t (append c per r t).1
    -- killed after the index line and before the head
    unheaded :
        (r : IndexRecord) (bytes : String) (t : Track) → Step t (append_line c per r bytes t).1
    -- killed after all of the line but its newline
    unended :
        (r : IndexRecord) (bytes : String) (t : Track)
        → Step t (cut_write (line_of c (numbered c per r bytes (repair_parts c t.parts))) t)
    -- killed inside the line: the piece carries no signature of its body
    torn : (l : Line) (t : Track) → is_signed_line c l ≡ false → Step t (cut_write l t)
    repaired : (t : Track) → Step t (record t { parts = repair_parts c t.parts })
    heads : (h : Option Head) (t : Track) → Step t (record t { head = h })
    writes : (es : List (String × String)) (t : Track) → Step t (record t { events = es })

  pub data Reached : Track → Type 0 where
    fresh : (h : Option Head) → Reached (record { parts = []; beyond = []; head = h; events = [] })
    follows : (t u : Track) → Reached t → Step t u → Reached u

-- The records that a track's index holds once it is repaired, none of them beyond a missing part.
pub record Holds (c : Codec) (per : ℕ) (t : Track) (rs : List IndexRecord) : Type 0 where
  pub filed : IsFiled c per (repair_parts c t.parts) rs
  pub near : t.beyond ≡ []

module _ (c : Codec) (per : ℕ) (r : IndexRecord) where
  append-none :
      (t : Track) → event_of r.event_id t.events ≡ none → append c per r t ≡ (err no_event, t)
  unfolding append
  append-none t z = ground arith

  pub append-some :
      (bytes : String) (t : Track)
      → event_of r.event_id t.events ≡ some bytes
      → append c per r t ≡ (
          let (signed, t') = append_line c per r bytes t in
          (
            ok signed.seq,
            record t' { head = some (head_of signed (king_after signed (head_king t'.head))) },
          ))
  unfolding append
  append-some bytes t z = ground arith

pub append_line-record :
    (c : Codec) (per : ℕ) (r : IndexRecord) (bytes : String) (t : Track)
    → (append_line c per r bytes t).0 ≡ numbered c per r bytes (repair_parts c t.parts)
unfolding append_line numbered
append_line-record c per r bytes t = refl

pub nothing-IsFiled : (c : Codec) (per : ℕ) → IsFiled c per [] []
unfolding repair_parts read_parts last_record last_of NumberedFrom
nothing-IsFiled c per = record {
  numbered = tt;
  reads = refl;
  last = refl;
  whole = tt;
  enough = omega arith;
  full = omega arith;
}

module _ (c : Codec) (laws : CodecLaws c) (per : ℕ) where
  pub parse-line_of : (r : IndexRecord) → parse c (line_of c r) ≡ some r
  unfolding parse line_of body_of
  parse-line_of r = laws.decode_encode r

  signed-line_of : (r : IndexRecord) → is_signed_line c (line_of c r) ≡ true
  unfolding is_signed_line line_of
  signed-line_of r = laws.verify_sign (c.encode r)

  pub numbered-seq :
      (r : IndexRecord) (bytes : String) (ps : List Part) (rs : List IndexRecord)
      → IsFiled c per ps rs
      → (numbered c per r bytes ps).seq ≡ length rs + 1
  unfolding numbered
  numbered-seq r bytes ps rs h = next_seq-IsFiled c per ps rs h

  -- An append's line goes to a part that is there, or is the next one.
  pub append_line-parts :
      (r : IndexRecord) (bytes : String) (t : Track) (rs : List IndexRecord)
      → Holds c per t rs
      → (append_line c per r bytes t).1 ≡ record t {
        parts =
            put_line
              (part_of per (length rs + 1))
              (line_of c (numbered c per r bytes (repair_parts c t.parts)))
              (repair_parts c t.parts);
      }
  unfolding append_line numbered
  append_line-parts r bytes t rs h =
      let next = next_seq-IsFiled c per (repair_parts c t.parts) rs h.filed in
      rw (next, within _ _ (part_of-IsFiled c per (repair_parts c t.parts) rs h.filed)) refl

  -- The line of an append goes to the end of the log, whatever the head says.
  pub append_line-IsFiled :
      (r : IndexRecord) (bytes : String) (t : Track) (rs : List IndexRecord)
      → Holds c per t rs
      → IsFiled c per
          (append_line c per r bytes t).1.parts
          (rs ++ numbered c per r bytes (repair_parts c t.parts) ∷ [])
  append_line-IsFiled r bytes t rs h =
      let ps = repair_parts c t.parts in
      let signed = numbered c per r bytes ps in
      let n = numbered-seq r bytes ps rs h.filed in
      rw (append_line-parts r bytes t rs h)
        (put_line-IsFiled c per ps rs (line_of c signed) signed h.filed (parse-line_of signed) n)

  append_line-Holds :
      (r : IndexRecord) (bytes : String) (t : Track) (rs : List IndexRecord)
      → Holds c per t rs
      → Holds c per
          (append_line c per r bytes t).1
          (rs ++ numbered c per r bytes (repair_parts c t.parts) ∷ [])
  append_line-Holds r bytes t rs h =
      let put = append_line-IsFiled r bytes t rs h in
      record {
        filed = simp (repair_parts-whole c _ put.whole) put;
        near = rw (append_line-parts r bytes t rs h) h.near;
      }

  pub cut_write-torn :
      (l : Line) (t : Track) (rs : List IndexRecord)
      → Holds c per t rs
      → is_signed_line c l ≡ false
      → Holds c per (cut_write c per l t) rs
  unfolding cut_write
  cut_write-torn l t rs h s = record {
    filed =
        rw (next_seq-IsFiled c per (repair_parts c t.parts) rs h.filed)
          (torn-IsFiled c per (repair_parts c t.parts) rs l h.filed s);
    near = h.near;
  }

  cut_write-unended :
      (r : IndexRecord) (bytes : String) (t : Track) (rs : List IndexRecord)
      → Holds c per t rs
      → Holds c per
          (cut_write c per (line_of c (numbered c per r bytes (repair_parts c t.parts))) t)
          (rs ++ numbered c per r bytes (repair_parts c t.parts) ∷ [])
  unfolding cut_write
  cut_write-unended r bytes t rs h = record {
    filed =
        let ps = repair_parts c t.parts in
        let signed = numbered c per r bytes ps in
        rw (next_seq-IsFiled c per ps rs h.filed) (
          unended-IsFiled c per ps rs (line_of c signed) signed h.filed (signed-line_of signed)
            (parse-line_of signed) (numbered-seq r bytes ps rs h.filed));
    near = h.near;
  }

  repaired-Holds :
      (t : Track) (rs : List IndexRecord)
      → Holds c per t rs
      → Holds c per (record t { parts = repair_parts c t.parts }) rs
  repaired-Holds t rs h = record {
    filed = rw (repair_parts-whole c _ h.filed.whole) h.filed;
    near = h.near;
  }

  append-Holds :
      (r : IndexRecord) (t : Track) (rs : List IndexRecord)
      → Holds c per t rs
      → (ss : List IndexRecord) × Holds c per (append c per r t).1 ss
  append-Holds r t rs h = elim (Option-cases (event_of r.event_id t.events)) [
    | inl z ↦ (rs, rw (append-none c per r t z) h)
    | inr (bytes, z) ↦
        let put = append_line-Holds r bytes t rs h in
        (
          rs ++ numbered c per r bytes (repair_parts c t.parts) ∷ [],
          rw (append-some c per r bytes t z) (record { filed = put.filed; near = put.near }),
        )
  ]

  Step-Holds :
      {t u : Track}
      → Step c per t u
      → (rs : List IndexRecord) → Holds c per t rs
      → (ss : List IndexRecord) × Holds c per u ss
  Step-Holds (appends r t) rs h = append-Holds r t rs h
  Step-Holds (unheaded r bytes t) rs h = (_, append_line-Holds r bytes t rs h)
  Step-Holds (unended r bytes t) rs h = (_, cut_write-unended r bytes t rs h)
  Step-Holds (torn l t s) rs h = (rs, cut_write-torn l t rs h s)
  Step-Holds (repaired t) rs h = (rs, repaired-Holds t rs h)
  Step-Holds (heads k t) rs h = (rs, record { filed = h.filed; near = h.near })
  Step-Holds (writes es t) rs h = (rs, record { filed = h.filed; near = h.near })

  -- Whatever appends, kills inside an append, repairs and losses of the head a track has been through, its
  -- index repaired holds records numbered 1, 2, ... in the order they were signed, in whole lines that
  -- are read back in that order, and none in a part beyond a missing one.
  pub Reached-Holds : (t : Track) → Reached c per t → (rs : List IndexRecord) × Holds c per t rs
  unfolding repair_parts
  Reached-Holds t (fresh k) = ([], record { filed = nothing-IsFiled c per; near = refl })
  Reached-Holds t (follows s u reached step) =
      let (rs, h) = Reached-Holds s reached in Step-Holds step rs h
