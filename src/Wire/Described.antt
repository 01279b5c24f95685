-- ===== src/Wire/Described.antt =====
-- packages/icil-policy/src/icil_policy/wire.py: what the descriptions of `encode` are to `recv`.
use icil_competition_orchest.Prelude.{
  ℕ, ◌+◌, ◌*◌, ◌≤◌, ◌≡◌, refl, ap, String, false, List, [], ◌∷◌, map, Option, none, some, ◌==s◌,
  length, any, All, find_first, ok, >>=-eq-ok, arith, Option-cases, inl, inr, eq_iff, eq_refl,
}
use icil_competition_orchest.Wire.{
  max_ndim, count, product, nonzero_product, shape_of, Received, check_entry, specs,
}
use icil_competition_orchest.Wire.Encode.{
  value_of, Key, named, unnamed, NdArray, Arrays, numbers, entry_of, entries, sent_as, is_dtype,
  checked, describe, describe_all,
}
use icil_competition_orchest.Wire.Sorting.{AreDistinct, sum}

-- `arrays.get(n)` of a message that was received.
abbrev pub array_of : String → List Received → Option Received
array_of n rs = find_first (λ (r : Received). r.spec.name ==s n) rs

shape_of-numbers : (ds : List ℕ) → shape_of (numbers ds) ≡ some ds
unfolding shape_of numbers
shape_of-numbers [] = refl
shape_of-numbers (d ∷ ds) = rw (shape_of-numbers ds) refl

pub count-entries : (rs : List Received) → count (entries rs) ≡ length rs
unfolding count entries
count-entries [] = refl
count-entries (r ∷ rs) = omega (arith, count-entries rs)

-- A value as the receiver has it under its name.
abbrev pub sent_under : String → Option (Option NdArray) → Option Received
sent_under n (some (some a)) = some (sent_as n a)
sent_under n _ = none

abbrev pub bytes_of : Option NdArray → ℕ
bytes_of none = 0
bytes_of (some a) = length a.bytes

abbrev pub weight : Key × Option NdArray → ℕ
weight a = bytes_of a.1

module _ (itemsize : String → Option ℕ) (unnamed_dtype : itemsize "" ≡ none) (max_bytes : ℕ) where
  -- An array as numpy has it: as many bytes as its shape and element type say. Nor is it too large for the
  -- receiver, which counts the dimensions that are not zero as well.
  abbrev pub Fits : Key × Option NdArray → Type 0
  Fits (key, none) = Unit
  Fits (key, some a) =
      (b : ℕ)
      → itemsize a.dtype ≡ some b
      → (length a.bytes ≡ product a.shape * b) × (nonzero_product a.shape * b ≤ max_bytes)

  describe-ok :
      (s : String) (v : NdArray) {r : Received}
      → describe itemsize (named s, some v) ≡ ok r
      → (b : ℕ) × (r ≡ sent_as s v)
        × ((s ==s "") ≡ false)
        × (itemsize v.dtype ≡ some b)
        × (length v.shape ≤ max_ndim)
  unfolding describe checked is_dtype
  describe-ok s v through = elim (Option-cases (itemsize v.dtype)) [
    | inl unknown ↦ ground arith
    | inr (b, known) ↦ (b, ground arith, ground arith, known, ground arith)
  ]

  dtype-named : (dtype : String) {b : ℕ} → itemsize dtype ≡ some b → (dtype ==s "") ≡ false
  dtype-named dtype known = ground (arith, eq_iff dtype "", ap itemsize)

  check_entry-entry_of :
      (s : String) (v : NdArray) (b : ℕ) (seen : List String) (total : ℕ)
      → (s ==s "") ≡ false
      → itemsize v.dtype ≡ some b
      → length v.shape ≤ max_ndim
      → length v.bytes ≡ product v.shape * b
      → nonzero_product v.shape * b ≤ max_bytes
      → any (λ x. x ==s s) seen ≡ false
      → total + length v.bytes ≤ max_bytes
      → check_entry itemsize max_bytes seen total (entry_of (sent_as s v)) ≡ ok (sent_as s v).spec
  unfolding check_entry entry_of sent_as
  check_entry-entry_of s v b seen total titled known shallow whole small new within =
      rw (titled, new, dtype-named v.dtype known, known, shape_of-numbers v.shape) (ground arith)

  -- None of the names that are still to come has been seen.
  abbrev pub Fresh : List String → Arrays → Type 0
  Fresh seen l =
      (n : String) (v : Option NdArray) → value_of n l ≡ some v → any (λ x. x ==s n) seen ≡ false

  Fresh-rest :
      (s : String) (v : Option NdArray) (seen : List String) (rest : Arrays)
      → value_of s rest ≡ none
      → Fresh seen ((named s, v) ∷ rest)
      → Fresh (s ∷ seen) rest
  Fresh-rest s v seen rest once fresh n w found =
      let apart : (s ==s n) ≡ false = ground (arith, eq_iff s n, ap (λ m. value_of m rest)) in
      let unseen = fresh n w (rw apart found) in rw apart unseen

  pub specs-entries :
      (l : Arrays) (rs : List Received) (seen : List String) (total : ℕ)
      → All Fits l
      → AreDistinct l
      → Fresh seen l
      → total + sum weight l ≤ max_bytes
      → describe_all itemsize l ≡ ok rs
      → specs itemsize max_bytes seen total (entries rs) ≡ ok (map (λ r. r.spec) rs)
  unfolding describe_all specs entries
  specs-entries [] rs seen total fits distinct fresh within through =
      let empty : rs ≡ [] = cc in rw empty refl
  specs-entries ((unnamed s, v) ∷ rest) rs seen total fits distinct fresh within through =
      unfold describe in ground arith
  specs-entries ((named s, none) ∷ rest) rs seen total fits distinct fresh within through =
      unfold describe checked in ground arith
  specs-entries ((named s, some v) ∷ rest) rs seen total fits distinct fresh within through =
      let (r, one, through') = >>=-eq-ok (describe itemsize (named s, some v)) _ through in
      let (more, all, end) = >>=-eq-ok (describe_all itemsize rest) _ through' in
      let (b, same, titled, known, shallow) = describe-ok s v one in
      let (whole, small) = fits.0 b known in
      let new = fresh s (some v) (rw (eq_refl s) refl) in
      let head =
        check_entry-entry_of s v b seen total titled known shallow whole small new (omega arith) in
      let tail =
        specs-entries rest more (s ∷ seen) (total + length v.bytes) fits.1 distinct.1
          (Fresh-rest s (some v) seen rest distinct.0 fresh) (omega arith) all in
      let whole_rs : rs ≡ sent_as s v ∷ more = cc in
      unfold sent_as in (rw (whole_rs, head, tail) refl)

  -- What is received under a name is what was given under it.
  pub describe_all-array_of :
      (l : Arrays) (rs : List Received)
      → describe_all itemsize l ≡ ok rs
      → (length rs ≡ length l)
        × All (λ r. length r.payload ≡ r.spec.nbytes) rs
        × ((n : String) → array_of n rs ≡ sent_under n (value_of n l))
  unfolding describe_all
  describe_all-array_of [] rs through = let empty : rs ≡ [] = cc in rw empty (refl, tt, λ n. refl)
  describe_all-array_of ((unnamed s, v) ∷ rest) rs through = unfold describe in ground arith
  describe_all-array_of ((named s, none) ∷ rest) rs through =
      unfold describe checked in ground arith
  describe_all-array_of ((named s, some v) ∷ rest) rs through =
      let (r, one, through') = >>=-eq-ok (describe itemsize (named s, some v)) _ through in
      let (more, all, end) = >>=-eq-ok (describe_all itemsize rest) _ through' in
      let (b, same, titled, known, shallow) = describe-ok s v one in
      let (many, filled, found) = describe_all-array_of rest more all in
      let whole_rs : rs ≡ sent_as s v ∷ more = cc in
      unfold sent_as in
      (rw whole_rs (omega arith, (refl, filled), λ n. ground (arith, found n, eq_iff s n)))
