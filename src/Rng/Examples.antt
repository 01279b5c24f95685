-- ===== src/Rng/Examples.antt =====
-- The generator at concrete draws: tests, and the theorem at a concrete input.
use icil_competition_orchest.Prelude.{
  ℕ, suc, ◌+◌, ◌≤◌, ◌<◌, ◌==◌, ◌≡◌, refl, List, [], ◌∷◌, some, ok, arith, if◌then◌else◌,
}
use icil_competition_orchest.Rng.{below, choice}
use icil_competition_orchest.Rng.Range.{below_lem}

-- The first draw is the greatest, which is refused for three numbers; every other is 5.
abbrev draws : ℕ → ℕ
draws counter = if counter == 1 then 18446744073709551615 else 5

chosen_there : choice draws {A = ℕ} 9 (7 ∷ 8 ∷ 9 ∷ []) 0 ≡ some 9
unfolding choice
chosen_there = refl

below_lem_example :
    (v : ℕ) × (c : ℕ) × (below draws 9 3 0 ≡ ok (v, c)) × (v < 3) × (c ≤ suc (0 + 1))
below_lem_example = below_lem draws 9 3 0 1 (omega arith) (omega arith) (omega arith)
