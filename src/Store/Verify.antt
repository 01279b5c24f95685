-- ===== src/Store/Verify.antt =====
-- store/verify.py: `verify_store` on one track's index and head, up to the schema checks and what stands
-- inside an event file.
pub mod Clean
pub mod Published
use icil_competition_orchest.Prelude.{
  ℕ, suc, ◌+◌, String, length, Bool, true, false, not, ◌&&◌, ◌||◌, List, [], ◌∷◌, ◌++◌, Option,
  none, some, ◌==◌, ◌==s◌, if◌then◌else◌,
}
use icil_competition_orchest.Ids.{SubmissionRef}
use icil_competition_orchest.Store.{IndexRecord, Head, king_after}
use icil_competition_orchest.Store.Index.{
  Codec, Line, not_utf8, no_tab, tabbed, Part, Track, part_of, event_of,
}

-- The errors of an index line.
pub data Flaw : Type 0 where
  no_newline blank_line bad_utf8 no_signature unparsable not_canonical : Flaw
  bad_form bad_signature wrong_seq wrong_part wrong_track : Flaw
  event_missing event_differs : Flaw

-- The errors of a head.
pub data HeadFlaw : Type 0 where
  head_missing claims_records not_last other_block other_time other_king : HeadFlaw

-- What the loop over the lines keeps, each error with its part and its line's number.
pub record Report : Type 0 where
  pub errors : List (ℕ × ℕ × Flaw)
  pub expected : ℕ
  pub last : Option IndexRecord
  pub king : Option SubmissionRef

unfoldable pub when {ℓ} : {A : Type ℓ} → Bool → A → List A
when true x = x ∷ []
when false x = []

unfoldable pub located : ℕ → ℕ → List Flaw → List (ℕ × ℕ × Flaw)
located part n [] = []
located part n (f ∷ fs) = (part, n, f) ∷ located part n fs

unfoldable pub same_king : Option SubmissionRef → Option SubmissionRef → Bool
same_king none none = true
same_king none (some b) = false
same_king (some a) none = false
same_king (some a) (some b) = a.repo ==s b.repo && a.revision ==s b.revision && a.key ==s b.key

module _ (c : Codec) (per : ℕ) (track : String) (events : List (String × String)) where
  unfoldable pub event_flaws : IndexRecord → List Flaw
  unfolding event_of when
  event_flaws r = elim (event_of r.event_id events) [
    | none ↦ event_missing ∷ []
    | some bytes ↦ elim r.event_sha256 [
      | none ↦ []
      | some h ↦ when (not (h ==s c.sha256 bytes)) event_differs
    ]
  ]

  -- A record without a `seq` that is a number is reported as unparsable.
  unfoldable pub record_flaws : ℕ → ℕ → String → String → IndexRecord → List Flaw
  unfolding event_flaws when part_of
  record_flaws part expected body sig r =
      when (not (c.encode r ==s body)) not_canonical
      ++ (if c.is_signature sig
          then when (not (c.verify body sig)) bad_signature
          else bad_form ∷ [])
      ++ when (not (r.seq == expected)) wrong_seq
      ++ when (r.seq == 0 || not (part_of per r.seq == part)) wrong_part
      ++ when (not (r.track ==s track)) wrong_track
      ++ event_flaws r

  unfoldable pub verify_line : ℕ → ℕ → Report → Line → Report
  unfolding record_flaws located
  verify_line part n s not_utf8 = record s { errors = s.errors ++ (part, n, bad_utf8) ∷ [] }
  verify_line part n s (no_tab b) = record s {
    errors = s.errors ++ (part, n, if b ==s "" then blank_line else no_signature) ∷ [];
  }
  verify_line part n s (tabbed body sig) = elim (c.decode body) [
    | none ↦ record s { errors = s.errors ++ (part, n, unparsable) ∷ [] }
    | some r ↦ record {
      errors = s.errors ++ located part n (record_flaws part s.expected body sig r);
      expected = r.seq + 1;
      last = some r;
      king = king_after r s.king;
    }
  ]

  unfoldable pub verify_lines : ℕ → ℕ → Report → List Line → Report
  unfolding verify_line
  verify_lines part n s [] = s
  verify_lines part n s (l ∷ ls) = verify_lines part (suc n) (verify_line part n s l) ls

  unfoldable pub verify_tail : ℕ → ℕ → Report → Option Line → Report
  unfolding verify_line
  verify_tail part n s none = s
  verify_tail part n s (some l) =
      verify_line part n (record s { errors = s.errors ++ (part, n, no_newline) ∷ [] }) l

  unfoldable pub verify_part : ℕ → Report → Part → Report
  unfolding verify_lines verify_tail
  verify_part part s p =
      verify_tail part (length p.lines + 1) (verify_lines part 1 s p.lines) p.tail

  unfoldable pub verify_parts : ℕ → Report → List Part → Report
  unfolding verify_part
  verify_parts part s [] = s
  verify_parts part s (p ∷ ps) = verify_parts (suc part) (verify_part part s p) ps

unfoldable pub head_flaws : Option Head → Option IndexRecord → Option SubmissionRef → List HeadFlaw
unfolding when same_king
head_flaws none last king = head_missing ∷ []
head_flaws (some h) none king =
    when (not (h.seq == 0)) claims_records ++ when (not (same_king h.king king)) other_king
head_flaws (some h) (some l) king =
    when (not (h.seq == l.seq && h.event_id ==s l.event_id)) not_last
    ++ when (not (h.block == l.block)) other_block
    ++ when (not (h.finished_at ==s l.finished_at)) other_time
    ++ when (not (same_king h.king king)) other_king

abbrev pub no_report : Report
no_report = record { errors = []; expected = 1; last = none; king = none }

-- The errors of a track's index, and those of its head.
unfoldable pub verify_track : Codec → ℕ → String → Track → List (ℕ × ℕ × Flaw) × List HeadFlaw
unfolding verify_parts head_flaws
verify_track c per track t =
    let s = verify_parts c per track t.events 0 no_report t.parts in
    (s.errors, head_flaws t.head s.last s.king)
