-- ===== src/Score/Tallies.antt =====
-- duel/score.py: the paired diagnostic.
use icil_competition_orchest.Prelude.{◌+◌, String, ◌≡◌, refl, List, [], ◌∷◌, arith, length, map}
use icil_competition_orchest.Floats.{Floats}
use icil_competition_orchest.Records.{UnitRow, Side, challenger, king}
use icil_competition_orchest.Score.{
  Rate, no_rate, count_rate, rates, skill_scores, Tally, no_tally, tally, tally_unit, tally_units,
  void_count, count_row,
}

abbrev pub swap_tally : Tally → Tally
swap_tally t = record t { wins = t.losses; losses = t.wins }

abbrev pub other : Side → Side
other challenger = king
other king = challenger

module _ {F : Type 0} where
  tally_units-partition :
      (t : Tally) (us : List (UnitRow F))
      → ((tally_units t us).wins
            + (tally_units t us).losses
            + (tally_units t us).ties
            + (tally_units t us).void
            + t.units
          ≡ (tally_units t us).units + t.wins + t.losses + t.ties + t.void)
        × ((tally_units t us).units ≡ t.units + length us)
        × ((tally_units t us).void ≡ t.void + void_count us)
  unfolding tally_units void_count
  tally_units-partition t [] = omega arith
  tally_units-partition t (u ∷ us) = ground (arith, tally_units-partition (tally_unit t u) us)

  -- Every unit of a duel is counted once: as a win, a loss or a tie of the challenger, or, where it is
  -- void, as void and nothing else; the decided units are the wins and the losses.
  pub tally-partition :
      (us : List (UnitRow F))
      → ((tally us).wins + (tally us).losses + (tally us).ties + (tally us).void ≡ length us)
        × ((tally us).units ≡ length us)
        × ((tally us).void ≡ void_count us)
        × ((tally us).decided ≡ (tally us).wins + (tally us).losses)
  unfolding tally
  tally-partition us = omega (arith, tally_units-partition no_tally us)

  -- The row with the two sides exchanged.
  abbrev pub swap_row : UnitRow F → UnitRow F
  swap_row u = record u { king_row = u.challenger_row; challenger_row = u.king_row }

  tally_unit-swap :
      (t : Tally) (u : UnitRow F)
      → tally_unit (swap_tally t) (swap_row u) ≡ swap_tally (tally_unit t u)
  unfolding tally_unit
  tally_unit-swap t u = ground arith

  tally_units-swap :
      (t : Tally) (us : List (UnitRow F))
      → tally_units (swap_tally t) (map swap_row us) ≡ swap_tally (tally_units t us)
  unfolding tally_units
  tally_units-swap t [] = refl
  tally_units-swap t (u ∷ us) =
      rw (tally_unit-swap t u, tally_units) (tally_units-swap (tally_unit t u) us)

  count_rate-swap :
      (side : Side) (skill : String) (r : Rate) (us : List (UnitRow F))
      → count_rate (other side) skill r (map swap_row us) ≡ count_rate side skill r us
  unfolding count_rate
  count_rate-swap side skill r [] = refl
  count_rate-swap challenger skill r (u ∷ us) =
      count_rate-swap challenger skill (count_row challenger skill r u) us
  count_rate-swap king skill r (u ∷ us) = count_rate-swap king skill (count_row king skill r u) us

module _ {F : Type 0} (fl : Floats F) where
  rates-swap :
      (us : List (UnitRow F)) (side : Side) (skills : List String)
      → rates fl (map swap_row us) (other side) skills ≡ rates fl us side skills
  unfolding rates
  rates-swap us side [] = refl
  rates-swap us side (s ∷ ss) = cc (count_rate-swap side s no_rate us, rates-swap us side ss)

  -- The scoring favours neither side: with the sides of every row exchanged, each side has the
  -- other's scores, and the diagnostic has the wins and the losses exchanged and all else as it was.
  pub skill_scores-swap :
      (us : List (UnitRow F)) (side : Side) (skills : List String)
      → (skill_scores fl (map swap_row us) (other side) skills ≡ skill_scores fl us side skills)
        × (tally (map swap_row us) ≡ swap_tally (tally us))
  unfolding skill_scores tally
  skill_scores-swap us side skills =
      (cc (rates-swap us side skills), ground (arith, tally_units-swap no_tally us))
