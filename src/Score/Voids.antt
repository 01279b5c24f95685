-- ===== src/Score/Voids.antt =====
-- duel/score.py: void units. They are scored on neither side, and more of them never save a duel.
use icil_competition_orchest.Prelude.{
  suc, ◌≤◌, String, ◌≡◌, refl, ap, Bool, true, false, not, List, [], ◌∷◌, arith, length, keep,
  Bool-cases, ◌⊎◌, inl, inr,
}
use icil_competition_orchest.Floats.{Floats, FloatLaws}
use icil_competition_orchest.Records.{UnitRow, Side, challenger, king}
use icil_competition_orchest.Score.{
  Rate, count_rate, rates, skill_scores, verdict, void_count, void_fraction, count_row, too_void,
}

abbrev pub is_scored : {F : Type 0} → UnitRow F → Bool
is_scored u = not u.void

module _ {F : Type 0} where
  count_rate-keep :
      (side : Side) (skill : String) (r : Rate) (us : List (UnitRow F))
      → count_rate side skill r (keep is_scored us) ≡ count_rate side skill r us
  unfolding count_rate
  count_rate-keep side skill r [] = refl
  count_rate-keep side skill r (u ∷ us) = elim (Bool-cases u.void) [
    | inl v ↦ ground (arith, count_rate-keep side skill r us)
    | inr n ↦ ground (arith, count_rate-keep side skill (count_row side skill r u) us)
  ]

module _ {F : Type 0} (fl : Floats F) where
  rates-keep :
      (us : List (UnitRow F)) (side : Side) (skills : List String)
      → rates fl (keep is_scored us) side skills ≡ rates fl us side skills
  unfolding rates
  rates-keep us side [] = refl
  rates-keep us side (s ∷ ss) =
      cc (count_rate-keep side s (record { scored = 0; successes = 0 }) us, rates-keep us side ss)

  skill_scores-keep :
      (us : List (UnitRow F)) (side : Side) (skills : List String)
      → skill_scores fl (keep is_scored us) side skills ≡ skill_scores fl us side skills
  unfolding skill_scores
  skill_scores-keep us side skills = cc (rates-keep us side skills)

  -- A duel is decided by its units that are not void alone: both sides' scores and whether the crown
  -- moves are those of the duel without its void units, whatever a void row says of either side.
  pub verdict-keep :
      (us : List (UnitRow F)) (margin : F) (skills : List String)
      → ((verdict fl (keep is_scored us) margin skills).king_scores
          ≡ (verdict fl us margin skills).king_scores)
        × ((verdict fl (keep is_scored us) margin skills).challenger_scores
            ≡ (verdict fl us margin skills).challenger_scores)
        × ((verdict fl (keep is_scored us) margin skills).dethroned
            ≡ (verdict fl us margin skills).dethroned)
  unfolding verdict
  verdict-keep us margin skills = (
    skill_scores-keep us king skills,
    skill_scores-keep us challenger skills,
    cc (rates-keep us king skills, rates-keep us challenger skills),
  )

-- `vs` is `us` with some units turned void.
abbrev pub MoreVoid : {F : Type 0} → List (UnitRow F) → List (UnitRow F) → Type 0
MoreVoid [] [] = Unit
MoreVoid [] (v ∷ vs) = ⊥
MoreVoid (u ∷ us) [] = ⊥
MoreVoid (u ∷ us) (v ∷ vs) = ((u.void ≡ false) ⊎ (v.void ≡ true)) × MoreVoid us vs

module _ {F : Type 0} where
  MoreVoid-length : (us vs : List (UnitRow F)) → MoreVoid us vs → length us ≡ length vs
  MoreVoid-length [] [] m = refl
  MoreVoid-length [] (v ∷ vs) m = absurd m
  MoreVoid-length (u ∷ us) [] m = absurd m
  MoreVoid-length (u ∷ us) (v ∷ vs) m = ap suc (MoreVoid-length us vs m.1)

  void_count_mono : (us vs : List (UnitRow F)) → MoreVoid us vs → void_count us ≤ void_count vs
  unfolding void_count
  void_count_mono [] [] m = omega arith
  void_count_mono [] (v ∷ vs) m = absurd m
  void_count_mono (u ∷ us) [] m = absurd m
  void_count_mono (u ∷ us) (v ∷ vs) m = ground (arith, void_count_mono us vs m.1, m.0)

module _ {F : Type 0} (fl : Floats F) (laws : FloatLaws fl) where
  void_fraction_mono :
      (us vs : List (UnitRow F))
      → MoreVoid us vs
      → fl.le (void_fraction fl us) (void_fraction fl vs) ≡ true
  unfolding void_fraction
  void_fraction_mono [] [] m = laws.le_refl fl.zero_f
  void_fraction_mono [] (v ∷ vs) m = absurd m
  void_fraction_mono (u ∷ us) [] m = absurd m
  void_fraction_mono (u ∷ us) (v ∷ vs) m =
      rw (ap suc (MoreVoid-length us vs m.1), void_fraction)
        (laws.ratio_mono (void_count (u ∷ us)) (void_count (v ∷ vs)) (suc (length vs))
          (void_count_mono (u ∷ us) (v ∷ vs) m))

  -- A duel that is too void stays too void whatever happens to its remaining units, since a void unit
  -- never stops being void: the orchestrator may stop playing it there.
  pub too_void_mono :
      (us vs : List (UnitRow F)) (max_void : F)
      → MoreVoid us vs
      → too_void fl us max_void ≡ true
      → too_void fl vs max_void ≡ true
  unfolding too_void
  too_void_mono us vs max_void m h = elim (Bool-cases (fl.le (void_fraction fl vs) max_void)) [
    | inl small ↦ cc (
        laws.le_trans (void_fraction fl us) (void_fraction fl vs) max_void
          (void_fraction_mono us vs m) small)
    | inr large ↦ rw large
  ]

pub MoreVoid-refl : {F : Type 0} (us : List (UnitRow F)) → MoreVoid us us
MoreVoid-refl [] = tt
MoreVoid-refl (u ∷ us) =
    (elim (Bool-cases u.void) [ inl v ↦ inr v | inr v ↦ inl v ], MoreVoid-refl us)
