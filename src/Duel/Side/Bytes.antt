-- ===== src/Duel/Side/Bytes.antt =====
-- duel/side.py: which outcomes a side can be scored with.
use icil_competition_orchest.Prelude.{
  String, ◌≡◌, true, false, Option, none, some, inl, inr, arith, eq_iff, Option-cases,
}
use icil_competition_orchest.Duel.Merge.{Prompt}
use icil_competition_orchest.Duel.Side.{Reported, silent, text, other_value}
use icil_competition_orchest.Duel.Side.Run.{Harness, Answers, reads_other, unit_outcome}

-- What the benchmark says it read, if it says anything, is the recorded prompt.
abbrev pub ReadsRecorded : Reported → Option String → Type 0
ReadsRecorded silent sha = Unit
ReadsRecorded (text s) sha = sha ≡ some s
ReadsRecorded other_value sha = ⊥

reads_other-false :
    (r : Reported) (sha : Option String) → reads_other r sha ≡ false → ReadsRecorded r sha
unfolding reads_other
reads_other-false silent sha h = tt
reads_other-false (text s) none h = cc
reads_other-false (text s) (some sha) h = ground (arith, eq_iff s sha)
reads_other-false other_value sha h = cc

module _ {F : Type 0} where
  -- A unit that was played and is not void is scored with what the play came to, and only from the
  -- recorded bytes: the side was not refused, time was not up, the unit was not void for the duel, and
  -- its prompt was good, was the recorded file before the unit and after it, and is what the benchmark
  -- read, if it says what it read.
  pub played_from_recorded :
      (h : Harness F) (a : Answers F)
      → (unit_outcome h a).1 ≡ true
      → (unit_outcome h a).0.void ≡ false
      → ((unit_outcome h a).0 ≡ a.played)
        × (h.refused ≡ none)
        × (a.late ≡ false)
        × (a.void_unit ≡ none)
        × (a.changed_before ≡ none)
        × (a.changed_after ≡ none)
        × ((p : Prompt) × (a.prompt ≡ some p)
            × (p.void ≡ false)
            × ReadsRecorded a.played.reported p.sha256)
  unfolding unit_outcome
  played_from_recorded h a played scored = elim (Option-cases a.prompt) [
    | inl missing ↦ ground arith
    | inr (p, e) ↦ (
      ground arith,
      ground arith,
      ground arith,
      ground arith,
      ground arith,
      ground arith,
      (p, e, ground arith, reads_other-false a.played.reported p.sha256 (ground arith)),
    )
  ]

  -- A refused side forfeits every unit that has a good prompt and is not void for the duel: each is a
  -- failure of the side, never void, and no policy is served for it.
  pub refused_fails :
      (h : Harness F) (a : Answers F) (p : Prompt) (reason : String)
      → h.refused ≡ some reason
      → a.prompt ≡ some p
      → p.void ≡ false
      → a.void_unit ≡ none
      → ((unit_outcome h a).0.success ≡ some false)
        × ((unit_outcome h a).0.void ≡ false)
        × ((unit_outcome h a).1 ≡ false)
  unfolding unit_outcome
  refused_fails h a p reason r e v d = ground arith
