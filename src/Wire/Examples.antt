-- ===== src/Wire/Examples.antt =====
-- packages/icil-policy/src/icil_policy/wire.py: messages that `recv` takes and refuses.
use icil_competition_orchest.Prelude.{
  ℕ, String, List, [], ◌∷◌, ◌++◌, map, Option, some, none, if◌then◌else◌, ◌==s◌, ◌≡◌, refl, ok, err,
}
use icil_competition_orchest.Wire.{
  Json, int, text, array, object, Items, no_item, item, no_member, member, Message, recv,
  total_too_big,
}
use icil_competition_orchest.Wire.Bounds.{Bounded, recv-Bounded}

abbrev pub sizes : String → Option ℕ
sizes dtype = if dtype ==s "<i2" then some 2 else if dtype ==s "|u1" then some 1 else none

abbrev entry : String → String → Items → Json
entry name dtype shape = object (
    member "name" (text name)
      (member "dtype" (text dtype) (member "shape" (array shape) no_member)))

abbrev header : Items → Json
header described = object (
    member "protocol" (int 1) (
      member "op" (text "act")
        (member "fields" (object no_member) (member "arrays" (array described) no_member))))

-- Two arrays, of a row of two and of one byte.
abbrev two : Items
two =
    item (entry "a" "<i2" (item (int 1) (item (int 2) no_item)))
      (item (entry "b" "|u1" (item (int 1) no_item)) no_item)

abbrev two_frames : List (List ℕ)
two_frames = (0 ∷ []) ∷ (1 ∷ 2 ∷ 3 ∷ 4 ∷ []) ∷ (5 ∷ []) ∷ (6 ∷ []) ∷ []

abbrev taken : Message
taken = record {
  op = "act";
  fields = no_member;
  arrays =
      record {
        spec = record { name = "a"; dtype = "<i2"; shape = 1 ∷ 2 ∷ []; nbytes = 4 };
        payload = 1 ∷ 2 ∷ 3 ∷ 4 ∷ [];
      }
      ∷ record {
        spec = record { name = "b"; dtype = "|u1"; shape = 1 ∷ []; nbytes = 1 };
        payload = 5 ∷ [];
      }
      ∷ [];
}

recv-two : recv sizes (λ _. some (header two)) 5 two_frames ≡ ok (taken, (6 ∷ []) ∷ [])
unfolding recv
recv-two = refl

-- One byte less than the two arrays take.
recv-over : recv sizes (λ _. some (header two)) 4 two_frames ≡ err total_too_big
unfolding recv
recv-over = refl

recv-Bounded_example :
    Bounded sizes 5 taken
    × (raw : List ℕ) × (two_frames ≡ raw ∷ map (λ r. r.payload) taken.arrays ++ ((6 ∷ []) ∷ []))
recv-Bounded_example =
    recv-Bounded sizes (λ _. some (header two)) 5 two_frames ((6 ∷ []) ∷ []) taken recv-two
