-- ===== src/Duel/Merge.antt =====
-- duel/orchestrate.py: how prompts and unit results become published rows (`_on_prompt`, `_merge`,
-- `_as_king`, `_rate`, `_certainly_void`).
pub mod Consistent
pub mod Rows
mod Examples
use icil_competition_orchest.Prelude.{
  ℕ, String, Bool, true, false, not, ◌&&◌, List, [], ◌∷◌, Option, none, some, or_else, any, ◌==s◌,
  if◌then◌else◌, map,
}
use icil_competition_orchest.Floats.{Floats}
use icil_competition_orchest.Records.{
  UnitDef, UnitRow, SideRow, Winner, tie, Side, challenger, king, unplayed, unit_verdict_from_unit,
}
use icil_competition_orchest.Score.{paired_outcome, too_void}

-- One line of a side's `results.jsonl`.
pub record UnitRecord (F : Type 0) : Type 0 where
  pub unit_id : String
  pub skill : String
  pub success : Option Bool
  pub void : Bool
  pub steps : Option ℕ
  pub error : Option String
  pub progress : Option F
  pub metric : Option F
  pub wall_s : F
  pub clip : Option String
  pub clip_sha256 : Option String
  pub prompt_sha256 : Option String

-- What materializing a unit's prompt came to.
pub record Prompt : Type 0 where
  pub unit_id : String
  pub void : Bool
  pub error : Option String
  pub sha256 : Option String
  pub scene_seed : Option ℕ
  pub demo_clip : Option String

unfoldable pub other : Side → Side
other king = challenger
other challenger = king

module _ {F : Type 0} where
  unfoldable pub side_row : Side → UnitRow F → SideRow F
  side_row challenger u = u.challenger_row
  side_row king u = u.king_row

  unfoldable pub put_side_row : Side → SideRow F → UnitRow F → UnitRow F
  put_side_row challenger r u = record u { challenger_row = r }
  put_side_row king r u = record u { king_row = r }

  -- `duel.row(unit_id)`, changed in place; no row of that id is a `StopIteration`.
  unfoldable pub has_row : String → List (UnitRow F) → Bool
  has_row id us = any (λ u. u.unit_id ==s id) us

  unfoldable pub update_row : String → (UnitRow F → UnitRow F) → List (UnitRow F) → List (UnitRow F)
  update_row id f [] = []
  update_row id f (u ∷ us) = if u.unit_id ==s id then f u ∷ us else u ∷ update_row id f us

  -- The end of `_merge`: a void row shows neither side as scored.
  unfoldable pub settle : UnitRow F → UnitRow F
  unfolding paired_outcome
  settle u =
      if u.void
      then record u {
        king_row = record (u.king_row) { success = none };
        challenger_row = record (u.challenger_row) { success = none };
        outcome = tie;
      }
      else record u { outcome = paired_outcome u.king_row.success u.challenger_row.success }

  unfoldable pub change_row :
      String → (UnitRow F → UnitRow F) → List (UnitRow F) → Option (List (UnitRow F))
  unfolding has_row update_row
  change_row id f us = if has_row id us then some (update_row id f us) else none

  -- `row["void"] = True`, on that condition.
  unfoldable pub void_if : Bool → UnitRow F → UnitRow F
  void_if b u = if b then record u { void = true } else u

  -- `_on_prompt`: a void prompt voids the row for both sides, and a good one names what both play.
  unfoldable pub prompt_row : (String → String) → Bool → Prompt → UnitRow F → UnitRow F
  prompt_row put_media demo_video p u =
      if p.void
      then record u {
        void = true;
        king_row = record (u.king_row) { error = p.error };
        challenger_row = record (u.challenger_row) { error = p.error };
      }
      else record u {
        prompt_sha256 = p.sha256;
        scene_seed = elim p.scene_seed [ none ↦ u.scene_seed | some s ↦ some s ];
        demo_video = elim p.demo_clip [
          | none ↦ u.demo_video
          | some clip ↦ if demo_video then some (put_media clip) else u.demo_video
        ];
      }

  unfoldable pub on_prompt :
      (String → String) → Bool → Prompt → List (UnitRow F) → Option (List (UnitRow F))
  unfolding prompt_row change_row
  on_prompt put_media demo_video p us = change_row p.unit_id (prompt_row put_media demo_video p) us

  -- A genesis row: what the entrant did as the challenger is published as the king's.
  unfoldable pub as_king : UnitRow F → UnitRow F
  as_king u = record u { king_row = u.challenger_row; challenger_row = unplayed; outcome = tie }

module _ {F : Type 0} (fl : Floats F) where
  -- A progress that the schema can hold: a number in [0, 1].
  unfoldable pub rate : Option F → Option F
  rate none = none
  rate (some x) = if fl.le fl.zero_f x && fl.le x (fl.ratio 1 1) then some x else none

  -- The side's part of `_merge`.
  unfoldable pub played : UnitRecord F → SideRow F → SideRow F
  unfolding rate
  played r s = if r.void then record s { error = r.error; success = none } else record s {
    error = r.error;
    success = some (or_else r.success false);
    steps = r.steps;
    progress = rate r.progress;
    metric = r.metric;
  }

  unfoldable pub merge_row : Side → UnitRecord F → UnitRow F → UnitRow F
  unfolding side_row put_side_row played settle void_if
  merge_row side r u = settle (void_if r.void (put_side_row side (played r (side_row side u)) u))

  unfoldable pub merge : Side → UnitRecord F → List (UnitRow F) → Option (List (UnitRow F))
  unfolding merge_row change_row
  merge side r us = change_row r.unit_id (merge_row side r) us

  -- The clip that `_merge` leaves for `_flush_media`, if any.
  unfoldable pub pending_clip : Side → UnitRecord F → UnitRow F → Option String
  unfolding side_row
  pending_clip side r u = if r.void then none else elim r.clip [
    | none ↦ none
    | some clip ↦
        if clip ==s ""
        then none
        else if or_else (side_row side u).video "" ==s ""
        then some clip
        else none
  ]

  unfoldable pub certainly_void : F → List (UnitRow F) → Bool
  unfolding too_void
  certainly_void max_void_fraction us = too_void fl us max_void_fraction

-- `_derive`: a row for each unit, in order.
unfoldable pub derived_rows : {F : Type 0} → Option String → List UnitDef → List (UnitRow F)
unfolding unit_verdict_from_unit
derived_rows view [] = []
derived_rows view (u ∷ us) = unit_verdict_from_unit u view ∷ derived_rows view us

-- Every prompt of the duel, then every result, in the order in which they were finished.
unfoldable pub on_prompts :
    {F : Type 0}
    → (String → String)
    → Bool
    → List Prompt
    → List (UnitRow F)
    → Option (List (UnitRow F))
on_prompts put_media demo [] us = some us
on_prompts put_media demo (p ∷ ps) us = elim (on_prompt put_media demo p us) [
  | none ↦ none
  | some us' ↦ on_prompts put_media demo ps us'
]

unfoldable pub merges :
    {F : Type 0}
    → Floats F
    → List (Side × UnitRecord F)
    → List (UnitRow F)
    → Option (List (UnitRow F))
merges fl [] us = some us
merges fl ((side, r) ∷ rs) us = elim (merge fl side r us) [
  | none ↦ none
  | some us' ↦ merges fl rs us'
]
