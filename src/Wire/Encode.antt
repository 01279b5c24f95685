-- ===== src/Wire/Encode.antt =====
-- packages/icil-policy/src/icil_policy/wire.py: `encode` and `_checked`. What numpy makes of a value and
-- what `json.dumps` makes of the header are parameters.
use Prim.Native.Nat.{Ordering}
use Prim.Native.String.{compare}
use icil_competition_orchest.Prelude.{
  ℕ, String, Bool, true, false, not, ◌||◌, List, [], ◌∷◌, map, Option, none, some, ltb, ◌==s◌,
  if◌then◌else◌, length, any, Result, ok, err, ◌>>=◌,
}
use icil_competition_orchest.Wire.{
  Json, int, text, array, object, Items, no_item, item, Members, no_member, member, WireError,
  bad_fields, bad_arrays, too_many, bad_name, bad_dtype, too_deep, unknown_op, unsendable, not_json,
  header_too_long, protocol_version, max_header_bytes, max_arrays, max_ndim, Received, refuse_if,
  need,
}

abbrev pub client_ops : List String
client_ops = "hello" ∷ "reset" ∷ "prompt" ∷ "act" ∷ "close" ∷ []

abbrev pub reply_ops : List String
reply_ops = "ok" ∷ "action" ∷ "error" ∷ []

-- `x in xs`, of texts.
unfoldable pub one_of : String → List String → Bool
one_of x xs = any (λ y. y ==s x) xs

-- A key of the arrays: a text, or another value by the text that `str` makes of it.
pub data Key : Type 0 where
  named unnamed : String → Key

-- What numpy makes of a value: its element type in little-endian form, whether it holds objects, its
-- shape and its bytes in C order.
pub record NdArray : Type 0 where
  pub dtype : String
  pub hasobject : Bool
  pub shape : List ℕ
  pub bytes : List ℕ

-- What is given for a parameter that may be left out: nothing, a mapping as it should be, or else.
pub data Given (A : Type 0) : Type 0 where
  absent unfit : Given A
  given : A → Given A

-- A value that numpy refuses is `none`.
abbrev pub Arrays : Type 0
Arrays = List (Key × Option NdArray)

abbrev pub is_key : String → Key → Bool
is_key n (named s) = s ==s n
is_key n (unnamed s) = false

-- `arrays.get(n)`
abbrev pub value_of : String → Arrays → Option (Option NdArray)
value_of n [] = none
value_of n (a ∷ rest) = if is_key n a.0 then some a.1 else value_of n rest

unfoldable pub given_or : {A : Type 0} → A → WireError → Given A → Result WireError A
given_or d e absent = ok d
given_or d e unfit = err e
given_or d e (given a) = ok a

-- The order of texts by their code points, `s <= t`.
unfoldable pub text_le : String → String → Bool
text_le s t = elim (compare s t) [ Ordering.gt ↦ false | _ ↦ true ]

-- The order of the pairs `(not isinstance(n, str), str(n))`.
unfoldable pub key_le : Key → Key → Bool
unfolding text_le
key_le (named s) (named t) = text_le s t
key_le (named s) (unnamed t) = true
key_le (unnamed s) (named t) = false
key_le (unnamed s) (unnamed t) = text_le s t

unfoldable pub put_in : Key × Option NdArray → Arrays → Arrays
unfolding key_le
put_in a [] = a ∷ []
put_in a (b ∷ bs) = let rest = put_in a bs in if key_le a.0 b.0 then a ∷ b ∷ bs else b ∷ rest

-- `sorted(arrays, key=...)`: stable.
unfoldable pub sorted : Arrays → Arrays
unfolding put_in
sorted [] = []
sorted (a ∷ as_given) = put_in a (sorted as_given)

unfoldable pub numbers : List ℕ → Items
numbers [] = no_item
numbers (d ∷ ds) = item (int d) (numbers ds)

-- The description of an array in the header.
unfoldable pub entry_of : Received → Json
unfolding numbers
entry_of r = object (
    member "name" (text r.spec.name) (
      member "dtype" (text r.spec.dtype) (member "shape" (array (numbers r.spec.shape)) no_member)))

unfoldable pub entries : List Received → Items
unfolding entry_of
entries [] = no_item
entries (r ∷ rs) = item (entry_of r) (entries rs)

unfoldable pub header_of : String → Members → List Received → Json
unfolding entries
header_of op fields rs = object (
    member "protocol" (int protocol_version) (
      member "op" (text op)
        (member "fields" (object fields) (member "arrays" (array (entries rs)) no_member))))

-- An array as it is described and sent.
unfoldable pub sent_as : String → NdArray → Received
sent_as name a = record {
  spec = record { name = name; dtype = a.dtype; shape = a.shape; nbytes = length a.bytes };
  payload = a.bytes;
}

module _ (itemsize : String → Option ℕ) where
  -- `little.str not in DTYPES`, the table of the element types giving each its size.
  unfoldable pub is_dtype : String → Bool
  is_dtype dtype = elim (itemsize dtype) [ none ↦ false | some bytes ↦ true ]

  -- `_checked`
  unfoldable pub checked : Option NdArray → Result WireError NdArray
  unfolding is_dtype
  checked none = err unsendable
  checked (some a) = refuse_if (not (is_dtype a.dtype) || a.hasobject) bad_dtype >>= λ _.
      refuse_if (ltb max_ndim (length a.shape)) too_deep >>= λ _. ok a

  unfoldable pub describe : Key × Option NdArray → Result WireError Received
  unfolding checked sent_as
  describe (unnamed s, value) = err bad_name
  describe (named s, value) =
      refuse_if (s ==s "") bad_name >>= λ _. checked value >>= λ a. ok (sent_as s a)

  unfoldable pub describe_all : Arrays → Result WireError (List Received)
  unfolding describe
  describe_all [] = ok []
  describe_all (a ∷ rest) = describe a >>= λ r. describe_all rest >>= λ rs. ok (r ∷ rs)

  module _ (dumps : Json → Option (List ℕ)) where
    -- `encode`: the frames to send in order.
    unfoldable pub encode : String → Given Members → Given Arrays → Result WireError (List (List ℕ))
    unfolding one_of given_or sorted describe_all header_of
    encode op fields arrays =
        refuse_if (not (one_of op client_ops || one_of op reply_ops)) unknown_op >>= λ _.
        given_or no_member bad_fields fields >>= λ members.
        given_or [] bad_arrays arrays >>= λ named_arrays.
        refuse_if (ltb max_arrays (length named_arrays)) too_many >>= λ _.
        describe_all (sorted named_arrays) >>= λ rs.
        need not_json (dumps (header_of op members rs)) >>= λ encoded.
        refuse_if (ltb max_header_bytes (length encoded)) header_too_long >>= λ _.
        ok (encoded ∷ map (λ r. r.payload) rs)
