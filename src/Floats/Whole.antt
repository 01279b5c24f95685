-- ===== src/Floats/Whole.antt =====
-- Whole numbers as an instance of `Floats`, a rate being in hundredths: what the tests compute with.
use native.Mathlib.Nat.{le-div_iff_mul-le, div-mul-le_self, div-zero}
use icil_competition_orchest.Prelude.{
  ℕ, zero, suc, ◌+◌, ◌-◌, ◌*◌, ◌/◌, ◌≤◌, ◌≡◌, true, leb, leb→le, arith,
}
use icil_competition_orchest.Floats.{Floats, FloatLaws}

abbrev pub whole : Floats ℕ
whole = record {
  zero_f = 0;
  ratio = λ a b. a * 100 / b;
  over = λ x n. x / n;
  times = λ x n. x * n;
  plus = λ x y. x + y;
  minus = λ x y. x - y;
  le = leb;
  fixed = λ x. "";
  general = λ x. "";
  epsilon = 0;
}

le→leb : (a b : ℕ) → a ≤ b → leb a b ≡ true
le→leb a b h = ground arith

div_le : (a b n : ℕ) → a ≤ b → a / n ≤ b / n
div_le a b zero h = rw (div-zero a, div-zero b) (omega arith)
div_le a b (suc k) h =
    (le-div_iff_mul-le {k = suc k} {x = a / suc k} {y = b} (omega arith)).1
      (omega (arith, h, div-mul-le_self a (suc k)))

pub whole_laws : FloatLaws whole
whole_laws = record {
  le_refl = λ x. le→leb x x (omega arith);
  le_trans = λ x y z p q. le→leb x z (omega (arith, leb→le x y p, leb→le y z q));
  le_total = λ x y. ground arith;
  ratio_mono = λ a b n h. le→leb _ _ (div_le (a * 100) (b * 100) n (omega (arith, h)));
  plus_mono = λ x y u v p q. le→leb _ _ (omega (arith, leb→le x y p, leb→le u v q));
  over_mono = λ x y n p. le→leb _ _ (div_le x y n (leb→le x y p));
}
