-- ===== src/Score/Crown.antt =====
-- duel/score.py: rates, averages and the crown rule.
use icil_competition_orchest.Prelude.{
  String, ◌≡◌, ◌≢◌, refl, Bool, true, List, [], ◌∷◌, Option, none, some, arith, inl, inr, ◌⊎◌, ◌↔◌,
}
use icil_competition_orchest.Floats.{Floats}
use icil_competition_orchest.Records.{UnitRow, Side, challenger, king}
use icil_competition_orchest.Score.{
  rates, average, crown_moves, verdict, no_units, unscored, margin_met, scored_reason, reason_of,
}

module _ {F : Type 0} (fl : Floats F) where
  average_unplayed :
      (side : Side) (skills : List String) → average fl (rates fl [] side skills) ≡ none
  unfolding average rates
  average_unplayed side [] = refl
  average_unplayed side (s ∷ ss) = average_unplayed side ss

  scored_reason-ne-no_units :
      (k c : Option F) (moves : Bool) → scored_reason fl k c moves ≢ no_units
  unfolding scored_reason
  scored_reason-ne-no_units none c moves e = cc
  scored_reason-ne-no_units (some k) none moves e = cc
  scored_reason-ne-no_units (some k) (some c) moves e = ground arith

  decided_by :
      (k c : Option F) (margin : F)
      → ((crown_moves fl k c margin ≡ true)
          ↔ (scored_reason fl k c (crown_moves fl k c margin) ≡ margin_met))
        × ((scored_reason fl k c (crown_moves fl k c margin) ≡ unscored)
            ↔ ((k ≡ none) ⊎ (c ≡ none)))
  unfolding crown_moves scored_reason
  decided_by none c margin = ((λ e. cc, λ e. cc), (λ e. inl refl, λ e. refl))
  decided_by (some k) none margin = ((λ e. cc, λ e. cc), (λ e. inr refl, λ e. refl))
  decided_by (some k) (some c) margin =
      ((λ e. ground arith, λ e. ground arith), (λ e. ground arith, λ e. ground arith))

  -- The reason published with a verdict is what decided it. The crown moves exactly when the reason is
  -- that the margin was met; the reason is that there are no units exactly for a duel of none; and a
  -- duel with a unit is called unscored exactly when one of the sides has no average.
  pub reason_lem :
      (us : List (UnitRow F)) (margin : F) (skills : List String)
      → (((verdict fl us margin skills).dethroned ≡ true)
          ↔ ((verdict fl us margin skills).reason ≡ margin_met))
        × (((verdict fl us margin skills).reason ≡ no_units) ↔ (us ≡ []))
        × (((verdict fl us margin skills).reason ≡ unscored) ↔ (
            (us ≢ [])
            × (((verdict fl us margin skills).king_scores.average ≡ none)
                ⊎ ((verdict fl us margin skills).challenger_scores.average ≡ none))))
  unfolding verdict reason_of
  reason_lem [] margin skills = (
    (λ e. cc (average_unplayed king skills), λ e. cc),
    (λ e. refl, λ e. refl),
    (λ e. cc, λ (n, missing). absurd (n refl)),
  )
  reason_lem (u ∷ us) margin skills =
      let k = average fl (rates fl (u ∷ us) king skills) in
      let c = average fl (rates fl (u ∷ us) challenger skills) in
      let moves = crown_moves fl k c margin in
      let d = decided_by k c margin in
      (
        d.0,
        (λ e. absurd (scored_reason-ne-no_units k c moves e), λ e. cc),
        (λ e. (λ q. cc, d.1.0 e), λ (n, missing). d.1.1 missing),
      )
