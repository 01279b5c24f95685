-- ===== src/Duel/Merge/Consistent.antt =====
-- duel/orchestrate.py: the rows that a duel publishes agree with themselves, and so what a record
-- counts over them is what the verdict counted.
use mathlib.Core.Path.{subst}
use icil_competition_orchest.Prelude.{
  String, ◌≡◌, refl, Bool, false, List, [], ◌∷◌, Option, none, some, arith, All, Bool-cases,
  Option-cases, ◌⊎◌, inl, inr, ◌==s◌,
}
use icil_competition_orchest.Floats.{Floats}
use icil_competition_orchest.Records.{
  UnitDef, UnitRow, tie, Side, Counts, no_counts, count_unit, count_units, unit_tally,
}
use icil_competition_orchest.Score.{paired_outcome, Tally, no_tally, tally_unit, tally_units, tally}
use icil_competition_orchest.Duel.Merge.{
  UnitRecord, Prompt, settle, void_if, put_side_row, played, side_row, change_row, on_prompts,
  merges, update_row, has_row, prompt_row, on_prompt, merge_row, merge, derived_rows,
}

-- A void row scores neither side and is a tie; any other row's outcome is that of its two sides.
pub record IsConsistent {F : Type 0} (u : UnitRow F) : Type 0 where
  pub void_unscored :
      (u.void ≡ false) ⊎ (u.king_row.success ≡ none) × (u.challenger_row.success ≡ none)
  pub outcome_paired : u.outcome ≡ paired_outcome u.king_row.success u.challenger_row.success

-- Before a side has run.
abbrev pub IsUnplayed : {F : Type 0} → UnitRow F → Type 0
IsUnplayed u = (u.king_row.success ≡ none) × (u.challenger_row.success ≡ none) × (u.outcome ≡ tie)

derived-IsUnplayed :
    (F : Type 0) (view : Option String) (ds : List UnitDef)
    → All (IsUnplayed {F = F}) (derived_rows view ds)
unfolding derived_rows
derived-IsUnplayed F view [] = tt
derived-IsUnplayed F view (d ∷ ds) = ((refl, refl, refl), derived-IsUnplayed F view ds)

module _ {F : Type 0} where
  update_row-All :
      {P : UnitRow F → Type 0} (id : String) (f : UnitRow F → UnitRow F) (us : List (UnitRow F))
      → ((u : UnitRow F) → P u → P (f u))
      → All P us
      → All P (update_row id f us)
  unfolding update_row
  update_row-All id f [] k a = tt
  update_row-All {P} id f (u ∷ us) k a = elim (Bool-cases (u.unit_id ==s id)) [
    | inl hit ↦ rw (hit, update_row) (k u a.0, a.1)
    | inr miss ↦ rw (miss, update_row) (a.0, update_row-All {P = P} id f us k a.1)
  ]

  prompt_row-IsUnplayed :
      (put_media : String → String) (demo : Bool) (p : Prompt) (u : UnitRow F)
      → IsUnplayed u
      → IsUnplayed (prompt_row put_media demo p u)
  unfolding prompt_row
  prompt_row-IsUnplayed put_media demo p u h = ground arith

  IsUnplayed-IsConsistent : (u : UnitRow F) → IsUnplayed u → IsConsistent u
  unfolding paired_outcome
  IsUnplayed-IsConsistent u h = record {
    void_unscored = inr (h.0, h.1);
    outcome_paired = ground arith;
  }

  change_row-All :
      {P : UnitRow F → Type 0} (id : String) (f : UnitRow F → UnitRow F) (us vs : List (UnitRow F))
      → ((u : UnitRow F) → P u → P (f u))
      → change_row id f us ≡ some vs
      → All P us
      → All P vs
  unfolding change_row
  change_row-All {P} id f us vs k h a = elim (Bool-cases (has_row id us)) [
    | inl known ↦
        let same : update_row id f us ≡ vs = ground arith in
        subst (All P) same (update_row-All {P = P} id f us k a)
    | inr gone ↦ cc
  ]

  settle-IsConsistent : (u : UnitRow F) → IsConsistent (settle u)
  unfolding settle
  settle-IsConsistent u = record {
    void_unscored = elim (Bool-cases u.void) [
      | inl v ↦ inr (ground arith, ground arith)
      | inr v ↦ inl (ground arith)
    ];
    outcome_paired = ground arith;
  }

  merge_row-IsConsistent :
      (fl : Floats F) (side : Side) (r : UnitRecord F) (u : UnitRow F)
      → IsConsistent (merge_row fl side r u)
  unfolding merge_row
  merge_row-IsConsistent fl side r u =
      settle-IsConsistent (void_if r.void (put_side_row side (played fl r (side_row side u)) u))

  on_prompts-IsUnplayed :
      (put_media : String → String) (demo : Bool) (ps : List Prompt) (us vs : List (UnitRow F))
      → on_prompts put_media demo ps us ≡ some vs
      → All IsUnplayed us
      → All IsUnplayed vs
  unfolding on_prompts
  on_prompts-IsUnplayed put_media demo [] us vs h a =
      let same : us ≡ vs = ground arith in subst (All IsUnplayed) same a
  on_prompts-IsUnplayed put_media demo (p ∷ ps) us vs h a =
      elim (Option-cases (on_prompt put_media demo p us)) [
        | inl gone ↦ cc
        | inr (us', known) ↦
            on_prompts-IsUnplayed put_media demo ps us' vs (rw (known, on_prompts) at h) (
              change_row-All p.unit_id (prompt_row put_media demo p) us us'
                (prompt_row-IsUnplayed put_media demo p) (unfold on_prompt in known) a)
      ]

  All-IsConsistent : (us : List (UnitRow F)) → All IsUnplayed us → All IsConsistent us
  All-IsConsistent [] a = tt
  All-IsConsistent (u ∷ us) a = (IsUnplayed-IsConsistent u a.0, All-IsConsistent us a.1)

  merges-IsConsistent :
      (fl : Floats F) (rs : List (Side × UnitRecord F)) (us vs : List (UnitRow F))
      → merges fl rs us ≡ some vs
      → All IsConsistent us
      → All IsConsistent vs
  unfolding merges
  merges-IsConsistent fl [] us vs h a =
      let same : us ≡ vs = ground arith in subst (All IsConsistent) same a
  merges-IsConsistent fl ((side, r) ∷ rs) us vs h a = elim (Option-cases (merge fl side r us)) [
    | inl gone ↦ cc
    | inr (us', known) ↦ merges-IsConsistent fl rs us' vs (rw (known, merges) at h) (
        change_row-All r.unit_id (merge_row fl side r) us us'
          (λ u _. merge_row-IsConsistent fl side r u) (unfold merge in known) a)
  ]

-- The counts of a record are those of a verdict's diagnostic.
pub record SameCounts (c : Counts) (t : Tally) : Type 0 where
  pub wins : c.wins ≡ t.wins
  pub losses : c.losses ≡ t.losses
  pub ties : c.ties ≡ t.ties
  pub void : c.void ≡ t.void

module _ {F : Type 0} where
  count_unit-SameCounts :
      (c : Counts) (t : Tally) (u : UnitRow F)
      → IsConsistent u
      → SameCounts c t
      → SameCounts (count_unit c u) (tally_unit t u)
  unfolding count_unit tally_unit
  count_unit-SameCounts c t u k s = ground (arith, k.outcome_paired)

  count_units-SameCounts :
      (c : Counts) (t : Tally) (us : List (UnitRow F))
      → All IsConsistent us
      → SameCounts c t
      → SameCounts (count_units c us) (tally_units t us)
  unfolding count_units tally_units
  count_units-SameCounts c t [] a s = s
  count_units-SameCounts c t (u ∷ us) a s =
      count_units-SameCounts (count_unit c u) (tally_unit t u) us a.1
        (count_unit-SameCounts c t u a.0 s)

  -- Whatever prompts and results a duel's derived units get, in any order of the two sides: every row
  -- it could publish is void with neither side scored and a tie, or has the outcome of its two sides;
  -- and the wins, losses, ties, decided and void units that the record counts from the rows' outcomes
  -- are those that the verdict counted from the sides' successes.
  pub published_rows :
      (fl : Floats F) (view : Option String) (ds : List UnitDef) (put_media : String → String)
      (demo : Bool) (ps : List Prompt) (rs : List (Side × UnitRecord F)) (us vs : List (UnitRow F))
      → on_prompts put_media demo ps (derived_rows view ds) ≡ some us
      → merges fl rs us ≡ some vs
      → All IsConsistent vs
        × SameCounts (unit_tally vs) (tally vs)
        × ((unit_tally vs).decided ≡ (tally vs).decided)
  unfolding unit_tally tally
  published_rows fl view ds put_media demo ps rs us vs prompted merged =
      let unplayed =
        on_prompts-IsUnplayed put_media demo ps (derived_rows view ds) us prompted
          (derived-IsUnplayed F view ds) in
      let consistent = merges-IsConsistent fl rs us vs merged (All-IsConsistent us unplayed) in
      let same =
        count_units-SameCounts no_counts no_tally vs consistent
          (record { wins = refl; losses = refl; ties = refl; void = refl }) in
      (
        consistent,
        record { wins = same.wins; losses = same.losses; ties = same.ties; void = same.void },
        omega (arith, same.wins, same.losses),
      )
