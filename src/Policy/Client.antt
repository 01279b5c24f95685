-- ===== src/Policy/Client.antt =====
-- packages/icil-policy/src/icil_policy/client.py: the calls of `RemotePolicy` once it is connected.
use icil_competition_orchest.Prelude.{
  ℕ, String, Bool, true, false, List, [], ◌∷◌, Option, none, some, ◌==◌, if◌then◌else◌, concat,
  Result, ok, err,
}
use icil_competition_orchest.Wire.{
  Json, int, text, object, Members, no_member, member, get, protocol_version, Message, Received,
}
use icil_competition_orchest.Wire.Encode.{one_of, Given, absent, given, Arrays}
use icil_competition_orchest.Wire.Described.{array_of}
use icil_competition_orchest.Policy.{action_types, is_action}
use icil_competition_orchest.Policy.Serve.{is_int}
use icil_competition_orchest.Policy.Call.{
  Remote, Answer, Calling, Failure, unavailable, misused, abandon, failure, call,
}

unfoldable pub speaks_it : Option Json → Bool
speaks_it (some (int n)) = n == protocol_version
speaks_it _ = false

unfoldable pub action_type_of : Option Json → Option String
unfolding one_of
action_type_of (some (text a)) = if one_of a action_types then some a else none
action_type_of _ = none

-- A mapping's usable action.
unfoldable pub has_action : List Received → Bool
has_action rs = elim (array_of "action" rs) [ none ↦ false | some r ↦ is_action r.spec.shape ]

module _ (c : Calling) (ask : List (List ℕ) → Answer) where
  -- `hello`, of what its call came to.
  unfoldable pub hello : String → Remote → Result Failure Members × Remote
  unfolding call abandon speaks_it action_type_of failure
  hello version r =
      let (answer, r') =
        call c ask "hello"
          (given (member "client" (text (concat ("icil-policy " ∷ version ∷ []))) no_member)) absent
          "ok" r in
      elim answer [
        | err (unavailable u) ↦ (err (unavailable u), abandon r')
        | err other ↦ (err other, r')
        | ok m ↦
            if speaks_it (get "protocol" m.fields)
            then (elim (action_type_of (get "action_type" m.fields)) [
              | none ↦ (
                err (
                    failure c "hello" (
                      concat (
                        "the policy declares action_type "
                        ∷ c.texts.repr (get "action_type" m.fields)
                        ∷ []))),
                abandon r',
              )
              | some a ↦ (ok m.fields, record r' { action_type = some a })
            ])
            else (
              err (
                  failure c "hello" (
                    concat (
                      "the server speaks protocol "
                      ∷ c.texts.repr (get "protocol" m.fields)
                      ∷ ", not 1"
                      ∷ []))),
              abandon r',
            )
      ]

  -- A call of which only the success is used.
  unfoldable pub silently : Result Failure Message × Remote → Result Failure Unit × Remote
  silently (err e, r) = (err e, r)
  silently (ok m, r) = (ok tt, r)

  unfoldable pub reset : Json → Remote → Result Failure Unit × Remote
  unfolding is_int call silently
  reset seed r =
      if is_int seed
      then silently (call c ask "reset" (given (member "seed" seed no_member)) absent "ok" r)
      else (err (misused "seed"), r)

  unfoldable pub set_demonstration :
      Given Arrays → Given Members → Remote → Result Failure Unit × Remote
  unfolding call silently
  set_demonstration arrays (given info) r =
      silently (call c ask "prompt" (given (member "info" (object info) no_member)) arrays "ok" r)
  set_demonstration arrays _ r = (err (misused "info"), r)

  unfoldable pub shape_said : List Received → String
  shape_said rs = elim (array_of "action" rs) [
    | none ↦ "None"
    | some r ↦ c.texts.shape_text r.spec.shape
  ]

  unfoldable pub act : Given Arrays → Remote → Result Failure (List Received) × Remote
  unfolding failure shape_said
  act observation r =
      let (answer, r') = call c ask "act" (given no_member) observation "action" r in
      elim answer [
        | err e ↦ (err e, r')
        | ok m ↦ if has_action m.arrays then (ok m.arrays, r') else (
          err (
              failure c "act" (
                concat
                  ("the reply holds no usable 'action' (shape " ∷ shape_said m.arrays ∷ ")" ∷ []))),
          r',
        )
      ]

  -- `close`: it raises nothing.
  unfoldable pub close : Remote → Remote
  unfolding call abandon
  close r =
      if r.is_closed
      then r
      else if r.is_open
      then abandon (record (call c ask "close" absent absent "ok" r).1 { is_closed = true })
      else abandon (record r { is_closed = true })
