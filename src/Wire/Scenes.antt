-- ===== src/Wire/Scenes.antt =====
-- packages/icil-policy/src/icil_policy/wire.py: data of the tests, and how they tell documents apart.
use native.Mathlib.Decide.{ℕ_discrete}
use icil_competition_orchest.Prelude.{
  String, false, [], ◌∷◌, ◌==s◌, Bool-cases, inl, inr, eq_iff, arith,
}
use icil_competition_orchest.Wire.{Json}
use icil_competition_orchest.Wire.Encode.{NdArray}

pub String-discrete : Discrete String
String-discrete s t = elim (Bool-cases (s ==s t)) [
  | inl same ↦ yes ((eq_iff s t).0 same)
  | inr other ↦ no (λ same. ground (arith, eq_iff s t))
]

pub Json-discrete : Discrete Json
Json-discrete = hlevel (ℕ_discrete, String-discrete)

abbrev pub row : NdArray
row = record { dtype = "<i2"; hasobject = false; shape = 1 ∷ 2 ∷ []; bytes = 1 ∷ 2 ∷ 3 ∷ 4 ∷ [] }

abbrev pub byte : NdArray
byte = record { dtype = "|u1"; hasobject = false; shape = 1 ∷ []; bytes = 5 ∷ [] }
