-- ===== src/Duel/Merge/Rows.antt =====
-- duel/orchestrate.py: the order in which results are merged, and merging one again, change nothing.
use icil_competition_orchest.Prelude.{
  String, ◌≡◌, ◌≢◌, refl, sym, true, false, List, [], ◌∷◌, some, arith, Bool-cases, ◌⊎◌, inl, inr,
  eq_iff, ◌==s◌,
}
use icil_competition_orchest.Floats.{Floats, FloatLaws}
use icil_competition_orchest.Records.{UnitRow, Side, challenger, king}
use icil_competition_orchest.Score.Voids.{MoreVoid, MoreVoid-refl, too_void_mono}
use icil_competition_orchest.Duel.Merge.{
  UnitRecord, update_row, has_row, change_row, merge_row, merge, merges, settle, certainly_void,
}

module _ {F : Type 0} where
  settle-unit_id : (u : UnitRow F) → (settle u).unit_id ≡ u.unit_id
  unfolding settle
  settle-unit_id u = ground arith

  merge_row-unit_id :
      (fl : Floats F) (side : Side) (r : UnitRecord F) (u : UnitRow F)
      → (merge_row fl side r u).unit_id ≡ u.unit_id
  unfolding merge_row
  merge_row-unit_id fl side r u = ground arith

  merge_row_comm :
      (fl : Floats F) (r s : UnitRecord F) (u : UnitRow F)
      → merge_row fl king s (merge_row fl challenger r u)
        ≡ merge_row fl challenger r (merge_row fl king s u)
  unfolding merge_row
  merge_row_comm fl r s u = ground arith

  merge_row_idem :
      (fl : Floats F) (side : Side) (r : UnitRecord F) (u : UnitRow F)
      → merge_row fl side r (merge_row fl side r u) ≡ merge_row fl side r u
  unfolding merge_row
  merge_row_idem fl challenger r u = ground arith
  merge_row_idem fl king r u = ground arith

  has_row-update_row :
      (id j : String) (f : UnitRow F → UnitRow F) (us : List (UnitRow F))
      → ((u : UnitRow F) → (f u).unit_id ≡ u.unit_id)
      → has_row id (update_row j f us) ≡ has_row id us
  unfolding has_row update_row
  has_row-update_row id j f [] k = refl
  has_row-update_row id j f (u ∷ us) k = ground (arith, has_row-update_row id j f us k, k u)

  update_row-swap :
      (i j : String) (f g : UnitRow F → UnitRow F) (us : List (UnitRow F))
      → ((u : UnitRow F) → (f u).unit_id ≡ u.unit_id)
      → ((u : UnitRow F) → (g u).unit_id ≡ u.unit_id)
      → ((u : UnitRow F) → i ≡ j → f (g u) ≡ g (f u))
      → update_row i f (update_row j g us) ≡ update_row j g (update_row i f us)
  unfolding update_row
  update_row-swap i j f g [] kf kg c = refl
  update_row-swap i j f g (u ∷ us) kf kg c = ground (
    arith,
    update_row-swap i j f g us kf kg c,
    kf u,
    kg u,
    c u,
    eq_iff u.unit_id i,
    eq_iff u.unit_id j,
  )

  update_row_idem :
      (i : String) (f : UnitRow F → UnitRow F) (us : List (UnitRow F))
      → ((u : UnitRow F) → (f u).unit_id ≡ u.unit_id)
      → ((u : UnitRow F) → f (f u) ≡ f u)
      → update_row i f (update_row i f us) ≡ update_row i f us
  unfolding update_row
  update_row_idem i f [] kf c = refl
  update_row_idem i f (u ∷ us) kf c = ground (arith, update_row_idem i f us kf c, kf u, c u)

  merge_row_apart :
      (fl : Floats F) (a b : Side) (r s : UnitRecord F) (u : UnitRow F)
      → a ≢ b
      → merge_row fl b s (merge_row fl a r u) ≡ merge_row fl a r (merge_row fl b s u)
  merge_row_apart fl challenger challenger r s u n = absurd (n refl)
  merge_row_apart fl challenger king r s u n = merge_row_comm fl r s u
  merge_row_apart fl king challenger r s u n = sym (merge_row_comm fl s r u)
  merge_row_apart fl king king r s u n = absurd (n refl)

  -- The published rows do not depend on the order in which a duel's results are merged: two results
  -- merged one after the other may change places, unless they are the same side's on one unit.
  pub merges-swap :
      (fl : Floats F) (a b : Side) (r s : UnitRecord F) (rs : List (Side × UnitRecord F))
      (us : List (UnitRow F))
      → (a ≡ b → r.unit_id ≢ s.unit_id)
      → merges fl ((a, r) ∷ (b, s) ∷ rs) us ≡ merges fl ((b, s) ∷ (a, r) ∷ rs) us
  unfolding merges merge change_row
  merges-swap fl a b r s rs us apart = ground (
    arith,
    has_row-update_row s.unit_id r.unit_id (merge_row fl a r) us (merge_row-unit_id fl a r),
    has_row-update_row r.unit_id s.unit_id (merge_row fl b s) us (merge_row-unit_id fl b s),
    update_row-swap s.unit_id r.unit_id (merge_row fl b s) (merge_row fl a r) us
        (merge_row-unit_id fl b s) (merge_row-unit_id fl a r)
        (λ u same. merge_row_apart fl a b r s u (λ e. apart e (sym same))),
  )

  -- A result that is merged again, as a resumed duel merges what an earlier run of it finished, changes
  -- no row.
  pub merges-again :
      (fl : Floats F) (side : Side) (r : UnitRecord F) (rs : List (Side × UnitRecord F))
      (us : List (UnitRow F))
      → merges fl ((side, r) ∷ (side, r) ∷ rs) us ≡ merges fl ((side, r) ∷ rs) us
  unfolding merges merge change_row
  merges-again fl side r rs us = ground (
    arith,
    has_row-update_row r.unit_id r.unit_id (merge_row fl side r) us (merge_row-unit_id fl side r),
    update_row_idem r.unit_id (merge_row fl side r) us (merge_row-unit_id fl side r)
        (merge_row_idem fl side r),
  )

  merge_row-void :
      (fl : Floats F) (side : Side) (r : UnitRecord F) (u : UnitRow F)
      → u.void ≡ true
      → (merge_row fl side r u).void ≡ true
  unfolding merge_row
  merge_row-void fl side r u h = ground arith

  more_void :
      (u v : UnitRow F) → (u.void ≡ true → v.void ≡ true) → (u.void ≡ false) ⊎ (v.void ≡ true)
  more_void u v k = elim (Bool-cases u.void) [
    | inl yes_void ↦ inr (k yes_void)
    | inr not_void ↦ inl not_void
  ]

  update_row-MoreVoid :
      (i : String) (f : UnitRow F → UnitRow F) (us : List (UnitRow F))
      → ((u : UnitRow F) → u.void ≡ true → (f u).void ≡ true)
      → MoreVoid us (update_row i f us)
  unfolding update_row
  update_row-MoreVoid i f [] k = tt
  update_row-MoreVoid i f (u ∷ us) k = elim (Bool-cases (u.unit_id ==s i)) [
    | inl hit ↦ rw (hit, update_row) (more_void u (f u) (k u), MoreVoid-refl us)
    | inr miss ↦ rw (miss, update_row) (more_void u u (λ v. v), update_row-MoreVoid i f us k)
  ]

  -- Once a duel is certainly void, no result that comes in afterwards, of either side, makes it stand:
  -- stopping there decides what playing on would have decided.
  pub certainly_void-merges :
      (fl : Floats F) (laws : FloatLaws fl) (max_void : F) (rs : List (Side × UnitRecord F))
      (us vs : List (UnitRow F))
      → merges fl rs us ≡ some vs
      → certainly_void fl max_void us ≡ true
      → certainly_void fl max_void vs ≡ true
  unfolding merges certainly_void merge change_row
  certainly_void-merges fl laws max_void [] us vs h c =
      let same : us ≡ vs = ground arith in rw (← same) c
  certainly_void-merges fl laws max_void ((side, r) ∷ rs) us vs h c =
      elim (Bool-cases (has_row r.unit_id us)) [
        | inl known ↦
            certainly_void-merges fl laws max_void rs
              (update_row r.unit_id (merge_row fl side r) us) vs (ground arith)
              (too_void_mono fl laws us (update_row r.unit_id (merge_row fl side r) us) max_void
                (update_row-MoreVoid r.unit_id (merge_row fl side r) us (merge_row-void fl side r))
                c)
        | inr gone ↦ ground arith
      ]
