-- ===== src/Prelude/Results.antt =====
-- What may raise returns a `Result`: the value, or what was raised.
use mathlib.Core.Path.{◌≡◌, refl}
use mathlib.Core.Logic.{◌⊎◌, inl, inr}

pub data Result (E A : Type 0) : Type 0 where
  err : E → Result E A
  ok : A → Result E A

module _ {E A B : Type 0} where
  -- What follows runs unless something was raised already.
  infixl 5 ◌>>=◌
  abbrev pub ◌>>=◌ : Result E A → (A → Result E B) → Result E B
  err raised >>= next = err raised
  ok value >>= next = next value

  -- Both halves of a chain that came through.
  pub >>=-eq-ok :
      (r : Result E A) (next : A → Result E B) {end : B}
      → (r >>= next) ≡ ok end
      → (value : A) × (r ≡ ok value) × (next value ≡ ok end)
  >>=-eq-ok (err raised) next through = cc
  >>=-eq-ok (ok value) next through = (value, refl, through)

pub Result-cases :
    {E A : Type 0} (r : Result E A)
    → ((raised : E) × (r ≡ err raised)) ⊎ ((value : A) × (r ≡ ok value))
Result-cases (err raised) = inl (raised, refl)
Result-cases (ok value) = inr (value, refl)
