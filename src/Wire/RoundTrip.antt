-- ===== src/Wire/RoundTrip.antt =====
-- packages/icil-policy/src/icil_policy/wire.py: a message through `encode` and `recv`.
use icil_competition_orchest.Prelude.{
  ℕ, ◌≤◌, ◌≡◌, refl, sym, ◌∙◌, ap, String, true, false, not, ◌||◌, List, [], ◌∷◌, ◌++◌, map, Option,
  none, some, ◌==s◌, length, All, Bool-cases, ltb, ◌==◌, max, ok, >>=-eq-ok, arith, inl, inr,
  eq_iff,
}
use icil_competition_orchest.Wire.{
  Json, Members, no_member, bad_fields, bad_arrays, too_many, unknown_op, not_json, header_too_long,
  max_header_bytes, max_arrays, count, Received, refuse_if, need, check_header, specs, frame,
  payloads, recv,
}
use icil_competition_orchest.Wire.Encode.{
  value_of, Given, Arrays, client_ops, reply_ops, one_of, entries, header_of, given_or,
  describe_all, sorted, encode,
}
use icil_competition_orchest.Wire.Sorting.{
  AreDistinct, sum, sorted-value_of, sorted-AreDistinct, sorted-sum, length-sorted, All-sorted,
}
use icil_competition_orchest.Wire.Described.{
  array_of, sent_under, weight, Fits, count-entries, specs-entries, describe_all-array_of,
}

payloads-sent :
    (rs : List Received) (left : List (List ℕ))
    → All (λ r. length r.payload ≡ r.spec.nbytes) rs
    → payloads (map (λ r. r.spec) rs) (map (λ r. r.payload) rs ++ left) ≡ ok (rs, left)
unfolding payloads frame
payloads-sent [] left filled = refl
payloads-sent (r ∷ rs) left filled =
    let ih = payloads-sent rs left filled.1 in
    let small : ltb (max r.spec.nbytes 1) (length r.payload) ≡ false = ground arith in
    let whole : (length r.payload == r.spec.nbytes) ≡ true = ground arith in
    rw (small, whole, ih) refl

check_header-header_of :
    (op : String) (fields : Members) (rs : List Received)
    → (op ==s "") ≡ false
    → length rs ≤ max_arrays
    → check_header (header_of op fields rs)
      ≡ ok (record { head_op = op; head_fields = fields; described = entries rs })
unfolding check_header header_of
check_header-header_of op fields rs titled few =
    let counted : ltb max_arrays (count (entries rs)) ≡ false = ground (arith, count-entries rs) in
    rw (titled, counted) refl

op-titled :
    (op : String) → (one_of op client_ops || one_of op reply_ops) ≡ true → (op ==s "") ≡ false
unfolding one_of
op-titled op known = elim (Bool-cases (op ==s "")) [
  | inl empty ↦
      let same = ap (λ o. one_of o client_ops || one_of o reply_ops) ((eq_iff op "").0 empty) in cc
  | inr titled ↦ titled
]

module _ (itemsize : String → Option ℕ) (dumps : Json → Option (List ℕ))
    (loads : List ℕ → Option Json) (unnamed_dtype : itemsize "" ≡ none)
    (reads : (j : Json) (b : List ℕ) → dumps j ≡ some b → loads b ≡ some j) where
  recv-sent :
      (max_bytes : ℕ) (op : String) (fields : Members) (rs : List Received) (encoded : List ℕ)
      (left : List (List ℕ))
      → (op ==s "") ≡ false
      → length rs ≤ max_arrays
      → length encoded ≤ max_header_bytes
      → dumps (header_of op fields rs) ≡ some encoded
      → specs itemsize max_bytes [] 0 (entries rs) ≡ ok (map (λ r. r.spec) rs)
      → All (λ r. length r.payload ≡ r.spec.nbytes) rs
      → recv itemsize loads max_bytes (encoded ∷ map (λ r. r.payload) rs ++ left)
        ≡ ok (record { op = op; fields = fields; arrays = rs }, left)
  unfolding recv frame
  recv-sent max_bytes op fields rs encoded left titled few short dumped described filled =
      let fits : ltb (max max_header_bytes 1) (length encoded) ≡ false = ground arith in
      rw
        (
          fits,
          reads (header_of op fields rs) encoded dumped,
          check_header-header_of op fields rs titled few,
          described,
          payloads-sent rs left filled,
        )
        refl

  -- A message that `encode` frames comes out of `recv` as it was given, and what follows its frames is
  -- left on the connection: the operation and the fields are the same, there are as many arrays, and
  -- under each name stands the array that was given under it. The arrays are numpy's, each with the
  -- bytes of its shape, no name is given twice, and they are not too many bytes for the receiver. A
  -- mapping that is left out stands for an empty one.
  pub encode-recv :
      (max_bytes : ℕ) (op : String) (fields : Given Members) (arrays : Given Arrays)
      (members : Members) (l : Arrays) (frames left : List (List ℕ))
      → given_or no_member bad_fields fields ≡ ok members
      → given_or [] bad_arrays arrays ≡ ok l
      → All (Fits itemsize unnamed_dtype max_bytes) l
      → AreDistinct l
      → sum weight l ≤ max_bytes
      → encode itemsize dumps op fields arrays ≡ ok frames
      → (rs : List Received) × (recv itemsize loads max_bytes (frames ++ left)
          ≡ ok (record { op = op; fields = members; arrays = rs }, left))
        × (length rs ≡ length l)
        × ((n : String) → array_of n rs ≡ sent_under n (value_of n l))
  unfolding encode recv
  encode-recv max_bytes op fields arrays members l frames left is_members is_l fits distinct within
        through =
      let (_, known, h1) =
        >>=-eq-ok (refuse_if (not (one_of op client_ops || one_of op reply_ops)) unknown_op) _
          through in
      let (m, as_members, h2) = >>=-eq-ok (given_or no_member bad_fields fields) _ h1 in
      let (a, as_l, h3) = >>=-eq-ok (given_or [] bad_arrays arrays) _ h2 in
      let (_, few, h4) = >>=-eq-ok (refuse_if (ltb max_arrays (length a)) too_many) _ h3 in
      let (rs, described, h5) = >>=-eq-ok (describe_all itemsize (sorted a)) _ h4 in
      let (encoded, dumped, h6) = >>=-eq-ok (need not_json (dumps (header_of op m rs))) _ h5 in
      let (_, short, end) =
        >>=-eq-ok (refuse_if (ltb max_header_bytes (length encoded)) header_too_long) _ h6 in
      let same_members : m ≡ members = cc in
      let same_l : a ≡ l = cc in
      let described_l : describe_all itemsize (sorted l) ≡ ok rs = cc in
      let few_l : length l ≤ max_arrays = rw (sym same_l) (ground arith) in
      let (many, filled, found) =
        describe_all-array_of itemsize unnamed_dtype max_bytes (sorted l) rs described_l in
      let sizes =
        specs-entries itemsize unnamed_dtype max_bytes (sorted l) rs [] 0
          (All-sorted (Fits itemsize unnamed_dtype max_bytes) l fits)
          (sorted-AreDistinct l distinct) (λ n v _. refl) (omega (arith, sorted-sum weight l))
          described_l in
      let dumped_m : dumps (header_of op members rs) ≡ some encoded =
        rw (sym same_members) (ground arith) in
      let arrived =
        recv-sent max_bytes op members rs encoded left (op-titled op (ground arith))
          (omega (arith, length-sorted l)) (ground arith) dumped_m sizes filled in
      let framed : frames ≡ encoded ∷ map (λ r. r.payload) rs = cc in
      (
        rs,
        ap (λ fs. recv itemsize loads max_bytes (fs ++ left)) framed ∙ arrived,
        omega (arith, length-sorted l),
        λ n. found n ∙ ap (sent_under n) (sorted-value_of n l distinct),
      )
