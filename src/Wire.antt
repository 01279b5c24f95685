-- ===== src/Wire.antt =====
-- packages/icil-policy/src/icil_policy/wire.py: `recv` and `_frame`; `encode` stands in a child. The connection is the list of the
-- frames that it will deliver. What `json.loads` makes of a header's bytes and numpy's table of
-- element types are parameters; an array is its name, element type, shape and bytes.
pub mod Encode
mod Bounds
pub mod Sorting
pub mod Described
pub mod RoundTrip
pub mod Scenes
pub mod Examples
mod TripExamples
use icil_competition_orchest.Prelude.{
  ℕ, zero, suc, ◌+◌, ◌*◌, ◌^◌, max, String, Bool, true, false, not, ◌&&◌, ◌||◌, List, [], ◌∷◌,
  Option, none, some, ltb, leb, ◌==◌, ◌==s◌, if◌then◌else◌, length, any, Result, ok, err, ◌>>=◌,
}

-- A parsed document. `number` is a number that is negative or no integer; a member's name occurs once.
mutual
  pub data Json : Type 0 where
    null : Json
    bool : Bool → Json
    int : ℕ → Json
    number text : String → Json
    array : Items → Json
    object : Members → Json

  pub data Items : Type 0 where
    no_item : Items
    item : Json → Items → Items

  pub data Members : Type 0 where
    no_member : Members
    member : String → Json → Members → Members

-- What `recv` and `encode` may raise. `closed` is the `EOFError` of a connection that is gone, let
-- through; the last line is what only `encode` raises.
pub data WireError : Type 0 where
  closed too_long malformed not_object bad_protocol bad_keys bad_op bad_fields bad_arrays :
      WireError
  too_many bad_description bad_name twice bad_dtype bad_shape too_deep too_big : WireError
  total_too_big wrong_length : WireError
  unknown_op unsendable not_json header_too_long : WireError

abbrev pub protocol_version : ℕ
protocol_version = 1

abbrev pub max_header_bytes : ℕ
max_header_bytes = 4 * 2 ^ 20

abbrev pub max_arrays : ℕ
max_arrays = 1024

abbrev pub max_ndim : ℕ
max_ndim = 32

abbrev pub header_keys : List String
header_keys = "protocol" ∷ "op" ∷ "fields" ∷ "arrays" ∷ []

abbrev pub array_keys : List String
array_keys = "name" ∷ "dtype" ∷ "shape" ∷ []

unfoldable pub get : String → Members → Option Json
get key no_member = none
get key (member name value rest) = if name ==s key then some value else get key rest

unfoldable pub size : Members → ℕ
size no_member = 0
size (member name value rest) = suc (size rest)

unfoldable pub has_all : List String → Members → Bool
has_all [] members = true
has_all (key ∷ keys) members = elim (get key members) [
  | none ↦ false
  | some value ↦ has_all keys members
]

-- `set(members) == keys`, the names being distinct on both sides.
unfoldable pub has_keys : List String → Members → Bool
unfolding size has_all
has_keys keys members = (size members == length keys) && has_all keys members

-- The text under a name, where it is one and not empty.
unfoldable pub name_of : Option Json → Option String
name_of (some (text s)) = if s ==s "" then none else some s
name_of _ = none

-- A list of numbers none of which is negative.
unfoldable pub shape_of : Items → Option (List ℕ)
shape_of no_item = some []
shape_of (item (int d) ds) = elim (shape_of ds) [ none ↦ none | some rest ↦ some (d ∷ rest) ]
shape_of (item _ ds) = none

unfoldable pub count : Items → ℕ
count no_item = 0
count (item _ rest) = suc (count rest)

-- `math.prod(shape)`
unfoldable pub product : List ℕ → ℕ
product [] = 1
product (d ∷ ds) = d * product ds

-- `math.prod(d for d in shape if d)`
unfoldable pub nonzero_product : List ℕ → ℕ
nonzero_product [] = 1
nonzero_product (d ∷ ds) = if d == 0 then nonzero_product ds else d * nonzero_product ds

pub record Spec : Type 0 where
  pub name : String
  pub dtype : String
  pub shape : List ℕ
  pub nbytes : ℕ

pub record Received : Type 0 where
  pub spec : Spec
  pub payload : List ℕ

pub record Message : Type 0 where
  pub op : String
  pub fields : Members
  pub arrays : List Received

-- What the header says that the loop over the descriptions does not read.
pub record Header : Type 0 where
  pub head_op : String
  pub head_fields : Members
  pub described : Items

abbrev pub refuse_if : Bool → WireError → Result WireError Unit
refuse_if true e = err e
refuse_if false e = ok tt

abbrev pub need : {A : Type 0} → WireError → Option A → Result WireError A
need e none = err e
need e (some a) = ok a

unfoldable pub fields_of : Option Json → Result WireError Members
fields_of (some (object fields)) = ok fields
fields_of _ = err bad_fields

unfoldable pub items_of : WireError → Option Json → Result WireError Items
items_of e (some (array items)) = ok items
items_of e _ = err e

unfoldable pub speaks : Option Json → Bool
speaks (some (int version)) = version == protocol_version
speaks _ = false

-- The checks of `recv` on the header, before its arrays are looked at.
unfoldable pub check_header : Json → Result WireError Header
unfolding get has_keys name_of count fields_of items_of speaks
check_header (object h) = refuse_if (not (speaks (get "protocol" h))) bad_protocol >>= λ _.
    refuse_if (not (has_keys header_keys h)) bad_keys >>= λ _.
    need bad_op (name_of (get "op" h)) >>= λ op. fields_of (get "fields" h) >>= λ fields.
    items_of bad_arrays (get "arrays" h) >>= λ items.
    refuse_if (ltb max_arrays (count items)) too_many >>= λ _.
    ok (record { head_op = op; head_fields = fields; described = items })
check_header _ = err not_object

-- `_frame`: the next frame, if it is no longer than `max(limit, 1)`, and those after it.
unfoldable pub frame : ℕ → List (List ℕ) → Result WireError (List ℕ × List (List ℕ))
frame limit [] = err closed
frame limit (f ∷ fs) = if ltb (max limit 1) (length f) then err too_long else ok (f, fs)

-- The second loop: one frame for each description, of just its length. What the connection holds after
-- them is left for the next message.
unfoldable pub payloads :
    List Spec → List (List ℕ) → Result WireError (List Received × List (List ℕ))
unfolding frame
payloads [] conn = ok ([], conn)
payloads (s ∷ ss) conn = frame s.nbytes conn >>= λ (f, rest).
    refuse_if (not (length f == s.nbytes)) wrong_length >>= λ _.
    payloads ss rest >>= λ (more, left). ok (record { spec = s; payload = f } ∷ more, left)

module _ (itemsize : String → Option ℕ) where
  -- The first loop's body, with the names seen and the bytes counted so far.
  unfoldable pub check_entry : ℕ → List String → ℕ → Json → Result WireError Spec
  unfolding get has_keys name_of items_of shape_of product nonzero_product
  check_entry max_bytes seen total (object e) =
      refuse_if (not (has_keys array_keys e)) bad_description >>= λ _.
      need bad_name (name_of (get "name" e)) >>= λ name.
      refuse_if (any (λ s. s ==s name) seen) twice >>= λ _.
      need bad_dtype (name_of (get "dtype" e)) >>= λ dtype.
      need bad_dtype (itemsize dtype) >>= λ bytes. items_of bad_shape (get "shape" e) >>= λ items.
      need bad_shape (shape_of items) >>= λ shape.
      refuse_if (ltb max_ndim (length shape)) too_deep >>= λ _.
      refuse_if (ltb max_bytes (nonzero_product shape * bytes)) too_big >>= λ _.
      refuse_if (ltb max_bytes (total + product shape * bytes)) total_too_big >>= λ _.
      ok (record { name = name; dtype = dtype; shape = shape; nbytes = product shape * bytes })
  check_entry max_bytes seen total _ = err bad_description

  unfoldable pub specs : ℕ → List String → ℕ → Items → Result WireError (List Spec)
  unfolding check_entry
  specs max_bytes seen total no_item = ok []
  specs max_bytes seen total (item e es) = check_entry max_bytes seen total e >>= λ s.
      specs max_bytes (s.name ∷ seen) (total + s.nbytes) es >>= λ more. ok (s ∷ more)

  module _ (loads : List ℕ → Option Json) where
    unfoldable pub recv : ℕ → List (List ℕ) → Result WireError (Message × List (List ℕ))
    unfolding frame check_header specs payloads
    recv max_bytes conn = frame max_header_bytes conn >>= λ (raw, rest).
        need malformed (loads raw) >>= λ document. check_header document >>= λ h.
        specs max_bytes [] 0 h.described >>= λ ss. payloads ss rest >>= λ (arrays, left).
        ok (record { op = h.head_op; fields = h.head_fields; arrays = arrays }, left)
