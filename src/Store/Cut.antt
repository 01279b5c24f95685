-- ===== src/Store/Cut.antt =====
-- store/writer.py: what `iter_index` reads of an index whose last line was cut inside its signature.
use icil_competition_orchest.Prelude.{
  ℕ, zero, suc, ◌+◌, String, ◌≡◌, refl, ap, ◌∙◌, List, [], ◌∷◌, ◌++◌, some, arith, length, All,
}
use mathlib.Core.List.{append-nil}
use icil_competition_orchest.Store.{IndexRecord}
use icil_competition_orchest.Store.Index.{
  Codec, CodecLaws, Line, Part, Track, put_in, put_line, parse, repair_parts, part_of, part_lines,
  next_seq, numbered, read_parts, iter_index, sort_seq,
}
use icil_competition_orchest.Store.Filed.{IsWhole, put_line-IsFiled, next_seq-IsFiled}
use icil_competition_orchest.Store.Tails.{put_tail}
use icil_competition_orchest.Store.Crashes.{Holds, cut_write, numbered-seq}
use icil_competition_orchest.Store.Rebuild.{sort_seq-numbered}

-- A line that lost its newline is read as it is, whether or not it is signed.
read_parts-put_tail :
    (c : Codec) (n : ℕ) (l : Line) (ps : List Part)
    → All IsWhole ps
    → read_parts c (put_tail n l ps) ≡ read_parts c (put_line n l ps)
unfolding read_parts put_tail put_line put_in part_lines IsWhole
read_parts-put_tail c n l [] w = refl
read_parts-put_tail c zero l (p ∷ ps) w = ground (arith, append-nil (p.lines ++ l ∷ []), w.0)
read_parts-put_tail c (suc n) l (p ∷ ps) w = ground (arith, read_parts-put_tail c n l ps w.1)

module _ (c : Codec) (laws : CodecLaws c) (per : ℕ) where
  cut_write-parts :
      (l : Line) (t : Track)
      → cut_write c per l t ≡ record t {
        parts =
            put_tail (part_of per (next_seq c (repair_parts c t.parts))) l (repair_parts c t.parts);
      }
  unfolding cut_write
  cut_write-parts l t = refl

  iter_index-read :
      (t : Track) (ps : List Part) (rs : List IndexRecord)
      → read_parts c ps ≡ some rs
      → iter_index c (record t { parts = ps }) ≡ some (sort_seq rs)
  unfolding iter_index
  iter_index-read t ps rs read = rw (read, iter_index) refl

  -- The record of a line that was cut inside its signature is read from the index.
  pub iter_index-cut_write :
      (t : Track) (rs : List IndexRecord) (r : IndexRecord) (bytes : String) (l : Line)
      → Holds c per t rs
      → parse c l ≡ some (numbered c per r bytes (repair_parts c t.parts))
      → iter_index c (cut_write c per l t)
        ≡ some (rs ++ numbered c per r bytes (repair_parts c t.parts) ∷ [])
  iter_index-cut_write t rs r bytes l h e =
      let ps = repair_parts c t.parts in
      let signed = numbered c per r bytes ps in
      let put =
        put_line-IsFiled c per ps rs l signed h.filed e
          (numbered-seq c laws per r bytes ps rs h.filed) in
      let read =
        read_parts-put_tail c (part_of per (length rs + 1)) l ps h.filed.whole ∙ put.reads in
      ap (iter_index c) (cut_write-parts l t)
      ∙ ap {A = ℕ} (λ n. iter_index c (record t { parts = put_tail (part_of per n) l ps }))
          (next_seq-IsFiled c per ps rs h.filed)
      ∙ iter_index-read t _ (rs ++ signed ∷ []) read
      ∙ ap some (sort_seq-numbered 1 (rs ++ signed ∷ []) put.numbered)
