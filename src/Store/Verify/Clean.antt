-- ===== src/Store/Verify/Clean.antt =====
-- store/verify.py: one more whole line, verified.
use icil_competition_orchest.Prelude.{
  ℕ, zero, suc, ◌+◌, ◌≤◌, String, ◌≡◌, refl, ap, ◌∙◌, true, false, List, [], ◌∷◌, ◌++◌, Option,
  none, some, length, All, ◌==◌, arith, eq_refl,
}
use icil_competition_orchest.Ids.{SubmissionRef}
use icil_competition_orchest.Store.{IndexRecord, king_after}
use icil_competition_orchest.Store.Index.{
  Codec, CodecLaws, Line, Part, part_of, event_of, line_of, put_in, put_line, count_parts,
}
use icil_competition_orchest.Store.Filed.{IsWhole}
use icil_competition_orchest.Store.Verify.{
  Report, when, same_king, event_flaws, record_flaws, located, verify_line, verify_lines,
  verify_tail, verify_part, verify_parts,
}

pub same_king_refl : (k : Option SubmissionRef) → same_king k k ≡ true
unfolding same_king
same_king_refl none = refl
same_king_refl (some k) = rw (eq_refl k.repo, eq_refl k.revision, eq_refl k.key) refl

pub ==-refl : (n : ℕ) → (n == n) ≡ true
==-refl n = ground arith

module _ (c : Codec) (per : ℕ) (track : String) (events : List (String × String)) where
  -- A line after the lines of a part is the last that is verified.
  pub verify_lines-append :
      (part n : ℕ) (s : Report) (ls : List Line) (l : Line)
      → verify_lines c per track events part n s (ls ++ l ∷ [])
        ≡ verify_line c per track events part
            (length ls + n)
            (verify_lines c per track events part n s ls)
            l
  unfolding verify_lines
  verify_lines-append part n s [] l =
      ap (λ m. verify_line c per track events part m s l) (omega arith)
  verify_lines-append part n s (x ∷ xs) l =
      verify_lines-append part (suc n) (verify_line c per track events part n s x) xs l
      ∙ ap
          (λ m.
            verify_line c per track events part m
              (verify_lines c per track events part n s (x ∷ xs)) l)
          (omega arith)

  -- A line that a whole record stands in, with the number expected, its own part and its event, has no error.
  pub record_flaws-none :
      (laws : CodecLaws c) (part expected : ℕ) (r : IndexRecord) (bytes : String)
      → part_of per r.seq ≡ part
      → r.seq ≡ expected
      → (r.seq == 0) ≡ false
      → r.track ≡ track
      → event_of r.event_id events ≡ some bytes
      → r.event_sha256 ≡ some (c.sha256 bytes)
      → record_flaws c per track events part expected (c.encode r) (c.sign (c.encode r)) r ≡ []
  unfolding record_flaws event_flaws when
  record_flaws-none laws part expected r bytes p q z t e h = ground (
    arith,
    eq_refl (c.encode r),
    eq_refl track,
    eq_refl (c.sha256 bytes),
    laws.sign_form (c.encode r),
    laws.verify_sign (c.encode r),
    ==-refl expected,
    ==-refl part,
  )

  pub verify_line-whole :
      (laws : CodecLaws c) (part n : ℕ) (s : Report) (r : IndexRecord)
      → record_flaws c per track events part s.expected (c.encode r) (c.sign (c.encode r)) r ≡ []
      → verify_line c per track events part n s (line_of c r) ≡ record {
        errors = s.errors ++ [];
        expected = r.seq + 1;
        last = some r;
        king = king_after r s.king;
      }
  unfolding verify_line line_of located
  verify_line-whole laws part n s r f = ground (arith, laws.decode_encode r)

  verify_part-put_in :
      (part : ℕ) (s : Report) (p : Part) (l : Line)
      → IsWhole p
      → verify_part c per track events part s (put_in l p)
        ≡ verify_line c per track events part
            (length p.lines + 1)
            (verify_part c per track events part s p)
            l
  unfolding verify_part verify_tail put_in IsWhole
  verify_part-put_in part s p l w = rw w (verify_lines-append part 1 s p.lines l)

  pub verify_parts-put_line :
      (m from : ℕ) (s : Report) (ps : List Part) (l : Line)
      → All IsWhole ps
      → m ≤ count_parts ps
      → count_parts ps ≤ suc m
      → (n : ℕ) × (verify_parts c per track events from s (put_line m l ps)
          ≡ verify_line c per track events
              (m + from)
              n
              (verify_parts c per track events from s ps)
              l)
  unfolding verify_parts verify_part verify_tail put_line put_in IsWhole verify_lines
  verify_parts-put_line zero from s [] l w a b =
      (1, ap (λ k. verify_line c per track events k 1 s l) (omega arith))
  verify_parts-put_line (suc m) from s [] l w a b = ground arith
  verify_parts-put_line zero from s (p ∷ []) l w a b = (
    length p.lines + 1,
    verify_part-put_in from s p l w.0
        ∙ ap
            (λ k.
              verify_line c per track events k (length p.lines + 1)
                (verify_part c per track events from s p) l)
            (omega arith),
  )
  verify_parts-put_line zero from s (p ∷ q ∷ ps) l w a b = ground arith
  verify_parts-put_line (suc m) from s (p ∷ ps) l w a b =
      let (n, e) =
        verify_parts-put_line m (suc from) (verify_part c per track events from s p) ps l w.1
          (omega (arith, a)) (omega (arith, b)) in
      (
        n,
        e
            ∙ ap
                (λ k.
                  verify_line c per track events k n
                    (verify_parts c per track events from s (p ∷ ps)) l)
                (omega arith),
      )
