-- ===== src/Rng.antt =====
-- rng.py: `HashRng.below` and `choice`. The numbers that the hash gives, one for each count of the
-- counter, are a parameter. The rejection loop is recursion on fuel: a hash may refuse any number of
-- times, and Rng/Range says which fuel is enough.
pub mod Range
pub mod Shuffle
mod Examples
use icil_competition_orchest.Prelude.{
  ℕ, zero, suc, ◌+◌, ◌-◌, ◌%◌, List, [], ◌∷◌, Option, none, some, length, get_elem?, ltb, ◌==◌,
  if◌then◌else◌, Result, ok, err, ◌>>=◌,
}

pub data RngError : Type 0 where
  not_positive empty_sequence out_of_fuel : RngError

-- `_MAX`, `1 << 64`
abbrev pub max_draw : ℕ
max_draw = 18446744073709551616

-- The draws below the limit are a whole number of rounds of `n`.
unfoldable pub limit : ℕ → ℕ
limit n = max_draw - max_draw % n

module _ (draw : ℕ → ℕ) where
  -- The `while True`: each turn moves the counter and draws.
  unfoldable pub tries : ℕ → ℕ → ℕ → Result RngError (ℕ × ℕ)
  unfolding limit
  tries zero n counter = err out_of_fuel
  tries (suc fuel) n counter =
      let again = tries fuel n (suc counter) in
      let x = draw (suc counter) in if ltb x (limit n) then ok (x % n, suc counter) else again

  -- The number drawn, and the counter after it.
  unfoldable pub below : ℕ → ℕ → ℕ → Result RngError (ℕ × ℕ)
  unfolding tries
  below fuel n counter = if n == 0 then err not_positive else tries fuel n counter

  unfoldable pub choice {ℓ} : {A : Type ℓ} → ℕ → List A → ℕ → Option A
  unfolding below
  choice fuel [] counter = none
  choice fuel (x ∷ xs) counter = elim (below fuel (length (x ∷ xs)) counter) [
    | err e ↦ none
    | ok (i, c) ↦ get_elem? (x ∷ xs) i
  ]

module _ {ℓ} {A : Type ℓ} where
  unfoldable pub set_at : ℕ → A → List A → List A
  set_at i a [] = []
  set_at zero a (x ∷ xs) = a ∷ xs
  set_at (suc i) a (x ∷ xs) = x ∷ set_at i a xs

  -- `out[i], out[j] = out[j], out[i]` for `j <= i`. Indices that are not so, or out of range, leave the list:
  -- `shuffled` meets none.
  unfoldable pub swap_at : ℕ → ℕ → List A → List A
  unfolding set_at
  swap_at j i [] = []
  swap_at zero zero (x ∷ xs) = x ∷ xs
  swap_at (suc j) zero (x ∷ xs) = x ∷ xs
  swap_at zero (suc i) (x ∷ xs) = elim (get_elem? xs i) [
    | none ↦ x ∷ xs
    | some y ↦ y ∷ set_at i x xs
  ]
  swap_at (suc j) (suc i) (x ∷ xs) = x ∷ swap_at j i xs

module _ (draw : ℕ → ℕ) where
  -- The loop from index `i` down to 1.
  unfoldable pub shuffle : {A : Type 0} → ℕ → ℕ → List A → ℕ → Result RngError (List A × ℕ)
  unfolding below swap_at
  shuffle fuel zero out counter = ok (out, counter)
  shuffle fuel (suc i) out counter = below draw fuel (suc i + 1) counter >>= λ drawn.
      shuffle fuel i (swap_at drawn.0 (suc i) out) drawn.1

  unfoldable pub shuffled : {A : Type 0} → ℕ → List A → ℕ → Result RngError (List A × ℕ)
  unfolding shuffle
  shuffled fuel seq counter = shuffle fuel (length seq - 1) seq counter
