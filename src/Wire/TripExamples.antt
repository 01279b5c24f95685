-- ===== src/Wire/TripExamples.antt =====
-- packages/icil-policy/src/icil_policy/wire.py: a message that is sent and received.
use icil_competition_orchest.Prelude.{
  All, ℕ, String, List, [], ◌∷◌, ◌++◌, Option, some, none, ◌≡◌, refl, length, ok, err, arith,
}
use icil_competition_orchest.Wire.{
  Json, no_member, Received, product, nonzero_product, recv, unknown_op, unsendable, bad_name,
}
use icil_competition_orchest.Wire.Encode.{
  value_of, named, unnamed, given, absent, Arrays, header_of, sent_as, given_or, encode,
}
use icil_competition_orchest.Wire.Described.{array_of, sent_under, Fits}
use icil_competition_orchest.Wire.RoundTrip.{encode-recv}
use icil_competition_orchest.Wire.Examples.{sizes}
use icil_competition_orchest.Wire.Scenes.{Json-discrete, row, byte}

-- Not in the order of their names.
abbrev two_given : Arrays
two_given = (named "b", some byte) ∷ (named "a", some row) ∷ []

abbrev two_sent : List Received
two_sent = sent_as "a" row ∷ sent_as "b" byte ∷ []

two_given-Fits : All (Fits sizes refl 5) two_given
unfolding product nonzero_product
two_given-Fits = (λ b known. ground arith, (λ b known. ground arith, tt))

-- An encoder of one document.
abbrev dumps_one : Json → Option (List ℕ)
dumps_one j = elim (Json-discrete j (header_of "act" no_member two_sent)) [
  | yes same ↦ some (7 ∷ [])
  | no other ↦ none
]

abbrev loads_one : List ℕ → Option Json
loads_one b = some (header_of "act" no_member two_sent)

dumps_one-header : dumps_one (header_of "act" no_member two_sent) ≡ some (7 ∷ [])
dumps_one-header =
    elim (Json-discrete (header_of "act" no_member two_sent) (header_of "act" no_member two_sent))
      as (λ d.
        elim d as (λ _. Option (List ℕ)) [ yes same ↦ some (7 ∷ []) | no other ↦ none ]
        ≡ some (7 ∷ [])) [ yes same ↦ refl | no other ↦ absurd (other refl) ]

reads_one : (j : Json) (b : List ℕ) → dumps_one j ≡ some b → loads_one b ≡ some j
reads_one j b =
    elim (Json-discrete j (header_of "act" no_member two_sent))
      as (λ d.
        elim d as (λ _. Option (List ℕ)) [ yes same ↦ some (7 ∷ []) | no other ↦ none ] ≡ some b
        → loads_one b ≡ some j) [ yes same ↦ λ _. cc | no other ↦ λ nothing. cc ]

encode-two :
    encode sizes dumps_one "act" absent (given two_given)
    ≡ ok ((7 ∷ []) ∷ (1 ∷ 2 ∷ 3 ∷ 4 ∷ []) ∷ (5 ∷ []) ∷ [])
unfolding encode
encode-two = rw dumps_one-header refl

encode-unknown : encode sizes dumps_one "pickle" absent absent ≡ err unknown_op
unfolding encode
encode-unknown = refl

-- A value that numpy refuses, and a key that is no text.
encode-unsendable :
    encode sizes dumps_one "act" absent (given ((named "a", none) ∷ [])) ≡ err unsendable
unfolding encode
encode-unsendable = refl

encode-unnamed :
    encode sizes dumps_one "act" absent (given ((unnamed "7", some byte) ∷ [])) ≡ err bad_name
unfolding encode
encode-unnamed = refl

encode-recv_example :
    (rs : List Received) × (recv sizes loads_one 5
        (((7 ∷ []) ∷ (1 ∷ 2 ∷ 3 ∷ 4 ∷ []) ∷ (5 ∷ []) ∷ []) ++ ((6 ∷ []) ∷ []))
      ≡ ok (record { op = "act"; fields = no_member; arrays = rs }, (6 ∷ []) ∷ []))
    × (length rs ≡ 2)
    × ((n : String) → array_of n rs ≡ sent_under n (value_of n two_given))
unfolding given_or
encode-recv_example =
    encode-recv sizes dumps_one loads_one refl reads_one 5 "act" absent (given two_given) no_member
      two_given ((7 ∷ []) ∷ (1 ∷ 2 ∷ 3 ∷ 4 ∷ []) ∷ (5 ∷ []) ∷ []) ((6 ∷ []) ∷ []) refl refl
      two_given-Fits (refl, (refl, tt)) (omega arith) encode-two
