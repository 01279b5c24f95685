-- ===== src/Duel/Run/Phases.antt =====
-- duel/orchestrate.py: the phases of a duel, from checking the submissions to publishing the record.
use icil_competition_orchest.Prelude.{
  String, Bool, true, false, List, [], ◌∷◌, Option, none, some, find_first, or_else, concat,
  if◌then◌else◌, Result, ok, err, ◌>>=◌,
}
use icil_competition_orchest.Floats.{Floats}
use icil_competition_orchest.Records.{UnitDef, UnitRow, Side, challenger, king}
use icil_competition_orchest.Duel.Merge.{
  UnitRecord, other, side_row, put_side_row, update_row, pending_clip, certainly_void, merges,
}
use icil_competition_orchest.Duel.Side.{side_name}
use icil_competition_orchest.Duel.Side.Journal.{read_results, is_unit}
use icil_competition_orchest.Duel.Side.Run.{Harness, SideState, run_side}
use icil_competition_orchest.Duel.Prompts.{Made}
use icil_competition_orchest.Duel.Prompts.Loop.{Workshop, is_of}
use icil_competition_orchest.Duel.Run.{
  RunDir, Conf, Checked, kept_forfeit, passed, was_refused, was_unavailable, Asks,
}

-- Why the challenger's and the king's submissions are refused.
pub record Refusals : Type 0 where
  pub of_challenger : Option String
  pub of_king : Option String

-- `none` for a side that passed, the reason for one that was refused.
unfoldable pub answered : String → Checked → Result String (Option String)
answered doing passed = ok none
answered doing (was_refused why) = ok (some why)
answered doing (was_unavailable why) = err (concat (doing ∷ why ∷ []))

-- The king's step, unless there is no king or it was refused before.
unfoldable pub king_step :
    Bool → Option String → Result String (Option String) → Result String (Option String)
king_step false before step = ok before
king_step true (some why) step = ok (some why)
king_step true none step = step

unfoldable pub is_some : {A : Type 0} → Option A → Bool
is_some none = false
is_some (some a) = true

-- Fetching and checking: a refused challenger ends them, and a king whose forfeit was recorded is not asked
-- again.
unfoldable pub check_sides : {F : Type 0} → Asks F → Bool → Option String → Result String Refusals
unfolding answered king_step kept_forfeit
check_sides a has_king forfeit =
    let before = if has_king then kept_forfeit forfeit else none in
    answered "fetching the challenger: " (a.fetch challenger) >>= λ rc. elim rc [
      | some why ↦ ok (record { of_challenger = some why; of_king = before })
      | none ↦ king_step has_king before (answered "fetching the king: " (a.fetch king)) >>= λ rk.
          answered "checking the challenger: " (a.prepare challenger) >>= λ rc'. elim rc' [
            | some why ↦ ok (record { of_challenger = some why; of_king = rk })
            | none ↦
                king_step has_king rk (answered "checking the king: " (a.prepare king)) >>= λ rk'.
                ok (record { of_challenger = none; of_king = rk' })
          ]
    ]

module _ {F : Type 0} where
  unfoldable pub side_of : Side → RunDir F → SideState F
  side_of challenger d = d.challenger_side
  side_of king d = d.king_side

  unfoldable pub put_side : Side → SideState F → RunDir F → RunDir F
  put_side challenger s d = record d { challenger_side = s }
  put_side king s d = record d { king_side = s }

  -- A side's results as `_merge` takes them, one after another.
  unfoldable pub of_side : Side → List (UnitRecord F) → List (Side × UnitRecord F)
  of_side side [] = []
  of_side side (r ∷ rs) = (side, r) ∷ of_side side rs

  -- `void_units`: what the other side's results already void.
  unfoldable pub void_unit : Side → List (UnitRecord F) → String → Option String
  unfolding side_name
  void_unit o rs id = elim (find_first (is_unit id) rs) [
    | none ↦ none
    | some r ↦
        if r.void
        then some
            (concat ("void on the " ∷ side_name o ∷ "'s side: " ∷ or_else r.error "None" ∷ []))
        else none
  ]

  -- `_flush_media`: a finished clip into the store and its hash into the row. Nothing reads a row's clip
  -- before the end of a side, which flushes them all.
  unfoldable pub flush_clip : Floats F → Asks F → Side → UnitRecord F → UnitRow F → UnitRow F
  unfolding pending_clip side_row put_side_row
  flush_clip fl a side r u = elim (pending_clip fl side r u) [
    | none ↦ u
    | some clip ↦ elim (a.clip_file side clip) [
      | none ↦ u
      | some sha ↦ put_side_row side (record (side_row side u) { video = some sha }) u
    ]
  ]

  unfoldable pub flush_media :
      Floats F → Asks F → Side → List (UnitRecord F) → List (UnitRow F) → List (UnitRow F)
  unfolding update_row flush_clip
  flush_media fl a side [] us = us
  flush_media fl a side (r ∷ rs) us =
      flush_media fl a side rs (update_row r.unit_id (flush_clip fl a side r) us)

module _ {F : Type 0} (c : Conf F) (a : Asks F) where
  unfoldable pub workshop : Workshop F
  workshop = record {
    fl = c.fl;
    str = c.spec.str;
    file_of = a.prompt_file;
    late = a.prompt_late;
    making = a.making;
    put_media = c.put_media;
    demo_video = c.demo_video;
    max_void_fraction = c.max_void_fraction;
  }

  unfoldable pub is_void : List (UnitRow F) → Bool
  is_void us = certainly_void c.fl c.max_void_fraction us

  -- What a side's loop is given: the prompts that were made, the units that the other side's results void,
  -- the king's forfeit, and `stop`, which reads the rows as the results so far make them.
  unfoldable pub side_harness :
      Side → List (Made F) → List (UnitRecord F) → Option String → List (UnitRow F) → Harness F
  unfolding other void_unit of_side is_void
  side_harness side prompts others forfeit rows = record {
    fl = c.fl;
    side = side;
    refused = elim side [ challenger ↦ none | king ↦ forfeit ];
    answers = λ id. record {
      prompt = elim (find_first (is_of id) prompts) [ none ↦ none | some m ↦ some m.prompt ];
      void_unit = void_unit (other side) others id;
      late = (a.unit side id).late;
      changed_before = (a.unit side id).changed_before;
      changed_after = (a.unit side id).changed_after;
      played = (a.unit side id).played;
    };
    stop = λ finished. elim (merges c.fl (of_side side finished) rows) [
      | none ↦ false
      | some us ↦ is_void us
    ];
    relative = a.relative;
    sha256_file = a.sha256_file;
  }

  -- `_evaluate`: what an earlier run finished is merged first; `none` is the `StopIteration` of a result
  -- that belongs to no row.
  unfoldable pub evaluate :
      Side
      → List UnitDef
      → List (Made F)
      → Option String
      → List (UnitRow F)
      → RunDir F
      → Option (List (UnitRow F) × RunDir F)
  unfolding side_of put_side of_side other side_harness flush_media
  evaluate side units prompts forfeit rows d =
      elim (merges c.fl (of_side side (read_results (side_of side d).journal)) rows) [
        | none ↦ none
        | some _ ↦
            let others = read_results (side_of (other side) d).journal in
            let st =
              run_side (side_harness side prompts others forfeit rows) units (side_of side d) in
            elim (merges c.fl (of_side side st.done) rows) [
              | none ↦ none
              | some us ↦ some (flush_media c.fl a side st.done us, put_side side st d)
            ]
      ]
