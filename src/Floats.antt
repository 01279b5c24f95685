-- ===== src/Floats.antt =====
-- Python's floats, as scores and budgets use them: a type with the operations that the code calls.
-- The laws are those of IEEE arithmetic on finite values, where rounding is monotone.
pub mod Whole
use icil_competition_orchest.Prelude.{
  ℕ, ◌≤◌, ◌≡◌, ◌⊎◌, arith, Bool, true, not, String, if◌then◌else◌,
}

pub record Floats (F : Type 0) : Type 0 where
  pub zero_f : F
  -- `a / b` of two integers, and `x / n` of a float by an integer
  pub ratio : ℕ → ℕ → F
  pub over : F → ℕ → F
  pub times : F → ℕ → F
  pub plus : F → F → F
  pub minus : F → F → F
  -- `x <= y`
  pub le : F → F → Bool
  -- `f"{x:.1f}"` and `f"{x:g}"`
  pub fixed : F → String
  pub general : F → String
  -- `SCORE_EPSILON`
  pub epsilon : F

-- `x < y` and `min(x, y)`, for values that are not NaN
abbrev pub lt_f : {F : Type 0} → Floats F → F → F → Bool
lt_f fl x y = not (fl.le y x)

unfoldable pub min_f : {F : Type 0} → Floats F → F → F → F
min_f fl x y = if lt_f fl y x then y else x

unfoldable pub max_f : {F : Type 0} → Floats F → F → F → F
max_f fl x y = if lt_f fl x y then y else x

pub record FloatLaws {F : Type 0} (fl : Floats F) : Type 0 where
  pub le_refl : (x : F) → fl.le x x ≡ true
  pub le_trans : (x y z : F) → fl.le x y ≡ true → fl.le y z ≡ true → fl.le x z ≡ true
  pub le_total : (x y : F) → (fl.le x y ≡ true) ⊎ (fl.le y x ≡ true)
  pub ratio_mono : (a b n : ℕ) → a ≤ b → fl.le (fl.ratio a n) (fl.ratio b n) ≡ true
  pub plus_mono :
      (x y u v : F) → fl.le x y ≡ true → fl.le u v ≡ true → fl.le (fl.plus x u) (fl.plus y v) ≡ true
  pub over_mono : (x y : F) (n : ℕ) → fl.le x y ≡ true → fl.le (fl.over x n) (fl.over y n) ≡ true

module _ {F : Type 0} (fl : Floats F) (laws : FloatLaws fl) where
  pub min_f-le : (x y : F) → (fl.le (min_f fl x y) x ≡ true) × (fl.le (min_f fl x y) y ≡ true)
  unfolding min_f
  min_f-le x y = ground (arith, laws.le_refl x, laws.le_refl y, laws.le_total x y)
