-- ===== src/Duel/Run/Readable.antt =====
-- store/writer.py: `rebuild_head` and `append` as `duel/orchestrate.py` calls them never raise there.
use mathlib.Core.List.{append-nil}
use icil_competition_orchest.Prelude.{
  ℕ, String, ◌≡◌, ◌≢◌, List, [], ◌∷◌, ◌++◌, none, some, arith, Option-cases, Bool-cases, inl, inr,
  err,
}
use icil_competition_orchest.Store.{IndexRecord}
use icil_competition_orchest.Store.Index.{
  Codec, Line, not_utf8, no_tab, tabbed, Part, Track, part_lines, is_signed_line, repair_part,
  repair_parts, read_lines, read_parts, iter_index, rebuild_head, crowned, event_of, append,
  no_event,
}
use icil_competition_orchest.Store.Crashes.{append-some}

module _ (c : Codec) where
  read_lines-front : (ls ks : List Line) → read_lines c (ls ++ ks) ≢ none → read_lines c ls ≢ none
  unfolding read_lines
  read_lines-front [] ks h = λ z. cc
  read_lines-front (not_utf8 ∷ ls) ks h = h
  read_lines-front (no_tab b ∷ ls) ks h = ground (arith, read_lines-front ls ks)
  read_lines-front (tabbed b s ∷ ls) ks h = ground (arith, read_lines-front ls ks)

  read_lines-repaired :
      (p : Part)
      → read_lines c (part_lines p) ≢ none
      → read_lines c (part_lines (repair_part c p)) ≢ none
  unfolding repair_part part_lines
  read_lines-repaired p h = elim (Option-cases p.tail) [
    | inl whole ↦ rw (whole, repair_part) h
    | inr (l, cut) ↦
        let front = read_lines-front p.lines (l ∷ []) in
        elim (Bool-cases (is_signed_line c l)) [
          | inl signed ↦
              rw (cut, signed, repair_part) (rw (append-nil (p.lines ++ l ∷ [])) (rw cut at h))
          | inr torn ↦ rw (cut, torn, repair_part) (rw (append-nil p.lines) (front (rw cut at h)))
        ]
  ]

  read_parts-repaired :
      (ps : List Part) → read_parts c ps ≢ none → read_parts c (repair_parts c ps) ≢ none
  unfolding read_parts repair_parts
  read_parts-repaired [] h = h
  read_parts-repaired (p ∷ []) h = ground (arith, read_lines-repaired p)
  read_parts-repaired (p ∷ q ∷ ps) h = ground (arith, read_parts-repaired (q ∷ ps))

  iter_index-repaired :
      (t : Track)
      → iter_index c t ≢ none
      → iter_index c (record t { parts = repair_parts c t.parts }) ≢ none
  unfolding iter_index
  iter_index-repaired t h = ground (arith, read_parts-repaired t.parts)

  -- An index that can be read can be read once its tail is repaired, and its head is rebuilt.
  pub rebuild_head-reads : (t : Track) → iter_index c t ≢ none → rebuild_head c t ≢ none
  unfolding rebuild_head
  rebuild_head-reads t h =
      elim (Option-cases (iter_index c (record t { parts = repair_parts c t.parts }))) [
        | inl lost ↦ absurd (iter_index-repaired t h lost)
        | inr (rs, read) ↦ elim (Option-cases (crowned none none rs)) [
          | inl empty ↦ rw (read, empty, rebuild_head) (λ z. cc)
          | inr (last, found) ↦ rw (read, found, rebuild_head) (λ z. cc)
        ]
      ]

-- An append whose event was written never refuses.
pub append-written :
    (c : Codec) (per : ℕ) (r : IndexRecord) (t : Track) (bytes : String)
    → event_of r.event_id t.events ≡ some bytes
    → (append c per r t).0 ≢ err no_event
append-written c per r t bytes e = rw (append-some c per r bytes t e) (λ z. cc)
