-- ===== src/Wire/Sorting.antt =====
-- packages/icil-policy/src/icil_policy/wire.py: what sorting the arrays of a message keeps.
use icil_competition_orchest.Prelude.{
  ℕ, suc, ◌+◌, String, ◌≡◌, refl, ◌∙◌, true, false, [], ◌∷◌, Option, none, some, ◌==s◌,
  if◌then◌else◌, length, All, Bool-cases, inl, inr, arith, eq_iff,
}
use icil_competition_orchest.Wire.Encode.{
  Key, named, unnamed, NdArray, Arrays, is_key, value_of, put_in, sorted,
}

-- A mapping: no text is a key twice.
abbrev pub AreDistinct : Arrays → Type 0
AreDistinct [] = Unit
AreDistinct ((named s, value) ∷ rest) = (value_of s rest ≡ none) × AreDistinct rest
AreDistinct ((unnamed s, value) ∷ rest) = AreDistinct rest

abbrev pub sum : (Key × Option NdArray → ℕ) → Arrays → ℕ
sum weight [] = 0
sum weight (a ∷ rest) = weight a + sum weight rest

value_of-put_in :
    (n : String) (a : Key × Option NdArray) (l : Arrays)
    → (is_key n a.0 ≡ true → value_of n l ≡ none)
    → value_of n (put_in a l) ≡ (if is_key n a.0 then some a.1 else value_of n l)
unfolding put_in
value_of-put_in n a [] new = refl
value_of-put_in n a (b ∷ bs) new = elim (Bool-cases (is_key n a.0)) [
  | inl own ↦
      let gone = new own in
      let ih = value_of-put_in n a bs (λ _. ground arith) in ground (arith, ih)
  | inr other ↦ let ih = value_of-put_in n a bs (λ own. cc) in ground (arith, ih)
]

AreDistinct-put_in :
    (a : Key × Option NdArray) (l : Arrays) → AreDistinct (a ∷ l) → AreDistinct (put_in a l)
unfolding put_in
AreDistinct-put_in a [] distinct = distinct
AreDistinct-put_in (unnamed s, v) ((unnamed t, w) ∷ bs) distinct =
    let ih = AreDistinct-put_in (unnamed s, v) bs distinct in ground arith
AreDistinct-put_in (unnamed s, v) ((named t, w) ∷ bs) (fresh, distinct) =
    let ih = AreDistinct-put_in (unnamed s, v) bs distinct in
    let kept = value_of-put_in t (unnamed s, v) bs (λ own. cc) in ground arith
AreDistinct-put_in (named s, v) ((unnamed t, w) ∷ bs) (new, distinct) =
    let ih = AreDistinct-put_in (named s, v) bs (new, distinct) in ground arith
AreDistinct-put_in (named s, v) ((named t, w) ∷ bs) (new, distinct) =
    let apart : (t ==s s) ≡ false = ground arith in
    let new' : value_of s bs ≡ none = ground arith in
    let ih = AreDistinct-put_in (named s, v) bs (new', distinct.1) in
    let kept = value_of-put_in t (named s, v) bs (λ _. distinct.0) in
    ground (arith, eq_iff s t, eq_iff t s)

sorted-value_of_own :
    (a : Key × Option NdArray) (rest : Arrays) (n : String)
    → AreDistinct (a ∷ rest)
    → is_key n a.0 ≡ true
    → value_of n rest ≡ none
sorted-value_of_own (named s, v) rest n (new, distinct) own = let same = (eq_iff s n).0 own in cc
sorted-value_of_own (unnamed s, v) rest n distinct own = cc

AreDistinct-rest : (a : Key × Option NdArray) (l : Arrays) → AreDistinct (a ∷ l) → AreDistinct l
AreDistinct-rest (named s, v) l distinct = distinct.1
AreDistinct-rest (unnamed s, v) l distinct = distinct

-- A lookup finds the same after the sort.
pub sorted-value_of :
    (n : String) (l : Arrays) → AreDistinct l → value_of n (sorted l) ≡ value_of n l
unfolding sorted
sorted-value_of n [] distinct = refl
sorted-value_of n (a ∷ rest) distinct =
    let ih = sorted-value_of n rest (AreDistinct-rest a rest distinct) in
    let put =
      value_of-put_in n a (sorted rest)
        (λ own. cc (ih, sorted-value_of_own a rest n distinct own)) in
    ground (arith, ih, put)

AreDistinct-onto :
    (a : Key × Option NdArray) (l m : Arrays)
    → ((n : String) → value_of n m ≡ value_of n l)
    → AreDistinct (a ∷ l)
    → AreDistinct m
    → AreDistinct (a ∷ m)
AreDistinct-onto (named s, v) l m same distinct there = (same s ∙ distinct.0, there)
AreDistinct-onto (unnamed s, v) l m same distinct there = there

pub sorted-AreDistinct : (l : Arrays) → AreDistinct l → AreDistinct (sorted l)
unfolding sorted
sorted-AreDistinct [] distinct = tt
sorted-AreDistinct (a ∷ rest) distinct =
    let rest_distinct = AreDistinct-rest a rest distinct in
    AreDistinct-put_in a (sorted rest) (
      AreDistinct-onto a rest (sorted rest) (λ n. sorted-value_of n rest rest_distinct) distinct
        (sorted-AreDistinct rest rest_distinct))

sum-put_in :
    (weight : Key × Option NdArray → ℕ) (a : Key × Option NdArray) (l : Arrays)
    → sum weight (put_in a l) ≡ weight a + sum weight l
unfolding put_in
sum-put_in weight a [] = refl
sum-put_in weight a (b ∷ bs) = ground (arith, sum-put_in weight a bs)

pub sorted-sum :
    (weight : Key × Option NdArray → ℕ) (l : Arrays) → sum weight (sorted l) ≡ sum weight l
unfolding sorted
sorted-sum weight [] = refl
sorted-sum weight (a ∷ rest) =
    omega (arith, sum-put_in weight a (sorted rest), sorted-sum weight rest)

length-put_in : (a : Key × Option NdArray) (l : Arrays) → length (put_in a l) ≡ suc (length l)
unfolding put_in
length-put_in a [] = refl
length-put_in a (b ∷ bs) = ground (arith, length-put_in a bs)

pub length-sorted : (l : Arrays) → length (sorted l) ≡ length l
unfolding sorted
length-sorted [] = refl
length-sorted (a ∷ rest) = omega (arith, length-put_in a (sorted rest), length-sorted rest)

module _ (Q : Key × Option NdArray → Type 0) where
  All-put_in : (a : Key × Option NdArray) (l : Arrays) → Q a → All Q l → All Q (put_in a l)
  unfolding put_in
  All-put_in a [] here there = (here, tt)
  All-put_in a (b ∷ bs) here there = let ih = All-put_in a bs here there.1 in ground arith

  pub All-sorted : (l : Arrays) → All Q l → All Q (sorted l)
  unfolding sorted
  All-sorted [] there = tt
  All-sorted (a ∷ rest) there = All-put_in a (sorted rest) there.0 (All-sorted rest there.1)
