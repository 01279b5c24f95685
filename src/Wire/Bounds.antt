-- ===== src/Wire/Bounds.antt =====
-- packages/icil-policy/src/icil_policy/wire.py: what `recv` has checked of a message that it returns.
use mathlib.Core.Option
use icil_competition_orchest.Prelude.{
  ℕ, ◌+◌, ◌*◌, ◌≤◌, ◌≡◌, String, false, not, ◌==◌, List, [], ◌∷◌, Option, some, map, ◌++◌, ◌==s◌,
  length, any, All, ok, >>=-eq-ok, arith,
}
use icil_competition_orchest.Wire.{
  Json, object, Items, no_item, item, wrong_length, malformed, Header, max_header_bytes, max_arrays,
  max_ndim, count, product, Spec, Received, Message, refuse_if, need, check_entry, check_header,
  specs, frame, payloads, recv,
}

-- No name stands among those seen or those before it.
abbrev Unique : List String → List Spec → Type 0
Unique seen [] = Unit
Unique seen (s ∷ ss) = (any (λ x. x ==s s.name) seen ≡ false) × Unique (s.name ∷ seen) ss

abbrev total_bytes : List Spec → ℕ
total_bytes [] = 0
total_bytes (s ∷ ss) = s.nbytes + total_bytes ss

module _ (itemsize : String → Option ℕ) where
  -- A description that numpy can fill: its element type is known and its bytes are those of its shape.
  abbrev Sized : Spec → Type 0
  Sized s =
      (length s.shape ≤ max_ndim)
      × (some s.nbytes ≡ Option.map (λ b. product s.shape * b) (itemsize s.dtype))

  check_entry-ok :
      (mb : ℕ) (seen : List String) (total : ℕ) (e : Json) {s : Spec}
      → check_entry itemsize mb seen total e ≡ ok s
      → (any (λ x. x ==s s.name) seen ≡ false) × Sized s × (total + s.nbytes ≤ mb)
  unfolding check_entry
  check_entry-ok mb seen total (object e) through = ground arith
  check_entry-ok mb seen total _ through = ground arith

  specs-ok :
      (mb : ℕ) (seen : List String) (total : ℕ) (items : Items) {ss : List Spec}
      → total ≤ mb
      → specs itemsize mb seen total items ≡ ok ss
      → Unique seen ss × All Sized ss × (total + total_bytes ss ≤ mb) × (length ss ≡ count items)
  unfolding specs count
  specs-ok mb seen total no_item small through = ground arith
  specs-ok mb seen total (item e es) {ss} small through =
      let (s, one, through') = >>=-eq-ok (check_entry itemsize mb seen total e) _ through in
      let (more, rest, end) =
        >>=-eq-ok (specs itemsize mb (s.name ∷ seen) (total + s.nbytes) es) _ through' in
      let (fresh, sized, fits) = check_entry-ok mb seen total e one in
      let (unique, sizeds, total_fits, counted) =
        specs-ok mb (s.name ∷ seen) (total + s.nbytes) es fits rest in
      ground arith

-- Each array holds as many bytes as its description says.
abbrev Filled : Received → Type 0
Filled r = length r.payload ≡ r.spec.nbytes

payloads-ok :
    (ss : List Spec) (conn : List (List ℕ)) {rs : List Received} {left : List (List ℕ)}
    → payloads ss conn ≡ ok (rs, left)
    → (map (λ r. r.spec) rs ≡ ss) × All Filled rs × (conn ≡ map (λ r. r.payload) rs ++ left)
unfolding payloads frame
payloads-ok [] conn through = ground arith
payloads-ok (s ∷ ss) [] through = cc
payloads-ok (s ∷ ss) (f ∷ fs) {rs} {left} through =
    let ((g, rest), one, h1) = >>=-eq-ok (frame s.nbytes (f ∷ fs)) _ through in
    let (_, filled, h2) = >>=-eq-ok (refuse_if (not (length g == s.nbytes)) wrong_length) _ h1 in
    let ((more, l), all, end) = >>=-eq-ok (payloads ss rest) _ h2 in
    let ih = payloads-ok ss rest all in ground arith

check_header-ok : (j : Json) {h : Header} → check_header j ≡ ok h → count h.described ≤ max_arrays
unfolding check_header
check_header-ok (object members) through = ground arith
check_header-ok _ through = ground arith

-- A message that a receiver can take: bounded, its names distinct, and each array whole.
abbrev pub Bounded : (String → Option ℕ) → ℕ → Message → Type 0
Bounded itemsize max_bytes m =
    let described = map (λ r. r.spec) m.arrays in
    (length described ≤ max_arrays)
    × Unique [] described
    × All (Sized itemsize) described
    × All Filled m.arrays
    × (total_bytes described ≤ max_bytes)

-- Of a message that `recv` returns, the arrays are at most `MAX_ARRAYS`, no name occurs twice, each
-- has a known element type, at most `MAX_NDIM` dimensions and just the bytes of its shape, and all of
-- them together have at most `max_bytes` bytes. The connection held one frame for the header, then
-- those of the arrays, and holds the rest.
pub recv-Bounded :
    (itemsize : String → Option ℕ) (loads : List ℕ → Option Json) (max_bytes : ℕ)
    (conn left : List (List ℕ)) (m : Message)
    → recv itemsize loads max_bytes conn ≡ ok (m, left)
    → Bounded itemsize max_bytes m
      × (raw : List ℕ) × (conn ≡ raw ∷ map (λ r. r.payload) m.arrays ++ left)
unfolding recv frame
recv-Bounded itemsize loads mb [] left m through = cc
recv-Bounded itemsize loads mb (raw ∷ fs) left m through =
    let ((g, rest), one, h1) = >>=-eq-ok (frame max_header_bytes (raw ∷ fs)) _ through in
    let (j, _, h2) = >>=-eq-ok (need malformed (loads g)) _ h1 in
    let (h, checked, h3) = >>=-eq-ok (check_header j) _ h2 in
    let (ss, described, h4) = >>=-eq-ok (specs itemsize mb [] 0 h.described) _ h3 in
    let ((rs, l), paid, end) = >>=-eq-ok (payloads ss rest) _ h4 in
    let few = check_header-ok j checked in
    let (unique, sized, fits, counted) =
      specs-ok itemsize mb [] 0 h.described (omega arith) described in
    let (same, filled, frames) = payloads-ok ss rest paid in (ground arith, raw, ground arith)
