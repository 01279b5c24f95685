-- ===== src/Rng/Range.antt =====
-- rng.py: what is drawn is in range, and each number in range has equally many draws.
use mathlib.Core.Path.{subst}
use native.Mathlib.Nat.{mod-lt, div-add-mod'}
use icil_competition_orchest.Prelude.{
  ℕ, zero, suc, ◌+◌, ◌*◌, ◌/◌, ◌%◌, ◌≤◌, ◌<◌, ◌≡◌, refl, sym, ltb, ok, arith, Bool-cases, inl, inr,
  ap,
}
use icil_competition_orchest.Rng.{max_draw, limit, tries, below}

-- The limit is a whole number of rounds of `n`, and is above 0.
limit_rounds : (n : ℕ) → limit n ≡ max_draw / n * n
unfolding limit
limit_rounds n = omega (arith, div-add-mod' 18446744073709551616 n)

plus_zero : (m : ℕ) → m + 0 ≡ m
plus_zero m = omega arith

next : (a b : ℕ) → suc (a + suc b) ≡ suc (suc a + b)
next a b = omega arith

module _ (draw : ℕ → ℕ) where
  tries-found :
      (fuel n counter turns : ℕ)
      → 0 < n
      → turns < fuel
      → draw (suc (counter + turns)) < limit n
      → (v : ℕ) × (c : ℕ) × (tries draw fuel n counter ≡ ok (v, c))
        × (v < n)
        × (c ≤ suc (counter + turns))
  unfolding tries
  tries-found zero n counter turns pos b h = ground arith
  tries-found (suc fuel) n counter zero pos b h =
      elim (Bool-cases (ltb (draw (suc counter)) (limit n))) [
        | inl hit ↦ (
          draw (suc counter) % n,
          suc counter,
          rw hit refl,
          mod-lt (draw (suc counter)) pos,
          omega arith,
        )
        | inr miss ↦
            let same : draw (suc (counter + 0)) ≡ draw (suc counter) =
              ap (λ k. draw (suc k)) (plus_zero counter) in
            ground (arith, same, h, miss)
      ]
  tries-found (suc fuel) n counter (suc turns) pos b h =
      elim (Bool-cases (ltb (draw (suc counter)) (limit n))) [
        | inl hit ↦ (
          draw (suc counter) % n,
          suc counter,
          rw hit refl,
          mod-lt (draw (suc counter)) pos,
          omega arith,
        )
        | inr miss ↦
            let here = subst (λ k. draw k < limit n) (next counter turns) h in
            let (v, c, e, small, soon) =
              tries-found fuel n (suc counter) turns pos (omega (arith, b)) here in
            (v, c, rw miss e, small, omega (arith, soon))
      ]

  -- Where one of the next draws, as many as the fuel, is below the limit, which is a whole number of rounds
  -- of `n`, a number below `n` is drawn, and the counter has moved no further than past that draw.
  pub below_lem :
      (fuel n counter turns : ℕ)
      → 0 < n
      → turns < fuel
      → draw (suc (counter + turns)) < max_draw / n * n
      → (v : ℕ) × (c : ℕ) × (below draw fuel n counter ≡ ok (v, c))
        × (v < n)
        × (c ≤ suc (counter + turns))
  unfolding below
  below_lem fuel n counter turns pos b h =
      let (v, c, e, small, soon) =
        tries-found fuel n counter turns pos b
          (subst (λ m. draw (suc (counter + turns)) < m) (sym (limit_rounds n)) h) in
      (v, c, ground (arith, e, pos), small, soon)
