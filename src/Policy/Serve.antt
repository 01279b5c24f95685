-- ===== src/Policy/Serve.antt =====
-- packages/icil-policy/src/icil_policy/serve.py: `Session`, from `hello` to `close` or hang-up.
use icil_competition_orchest.Prelude.{
  ℕ, ◌*◌, ◌^◌, String, Bool, true, false, ◌&&◌, ◌||◌, List, [], ◌∷◌, ◌++◌, Option, none, some, ltb,
  ◌==◌, if◌then◌else◌, length, all, codes, concat, join, prefix, leb, Result, ok, err,
}
use icil_competition_orchest.Wire.{
  Json, null, int, number, text, object, Members, no_member, member, get, protocol_version,
  Received,
}
use icil_competition_orchest.Wire.Encode.{absent, given, Arrays, encode}
use icil_competition_orchest.Policy.{
  Called, returned, raised, interrupted, deserted, Acted, Serving, build_policy, checked_action,
}

-- Why a session does not go on: the client is gone, or the process ends with a status.
pub data Over : Type 0 where
  hung_up : Over
  ended : ℕ → Over

pub record Session (P : Type 0) : Type 0 where
  pub policy : Option P
  pub action_type : Option String
  -- frames that have arrived and are not read, and the frames that were sent
  pub unread : List (List ℕ)
  pub sent : List (List ℕ)

-- What one round of the loop meets: frames that arrive, or silence for as long as a client may be
-- idle; whether sending finds the client gone; and the tail of the log. Frames sent to a client
-- that is found gone are left out.
pub record Turn : Type 0 where
  pub silent : Bool
  pub arrived : List (List ℕ)
  pub deaf : Bool
  pub log_tail : String

abbrev pub message_chars : ℕ
message_chars = 4000

abbrev pub max_message_bytes : ℕ
max_message_bytes = 16 * 2 ^ 30

-- `type(value) is int`: of a number that is no natural one, by the digits of its token.
unfoldable pub is_int : Json → Bool
is_int (int n) = true
is_int (number token) = all (λ c. (c == 45) || (leb 48 c && leb c 57)) (codes token)
is_int _ = false

unfoldable pub info_of : Json → Option Members
info_of (object info) = some info
info_of _ = none

unfoldable pub shortened : String → String
shortened message =
    if ltb message_chars (length (codes message))
    then join (prefix message_chars message) " [...]"
    else message

unfoldable pub exit_status : Over → ℕ
exit_status hung_up = 0
exit_status (ended status) = status

-- What follows runs unless the session is over, on the session that is left.
unfoldable pub and_then :
    {P A B : Type 0}
    → Result Over A × Session P
    → (A → Session P → Result Over B × Session P)
    → Result Over B × Session P
and_then (err over, s) next = (err over, s)
and_then (ok a, s) next = next a s

module _ {P : Type 0} (v : Serving P) (t : Turn) where
  abbrev After : Type 0 → Type 0
  After A = Result Over A × Session P

  unfoldable pub send_frames : List (List ℕ) → Session P → After Unit
  send_frames frames s =
      if t.deaf then (err hung_up, s) else (ok tt, record s { sent = s.sent ++ frames })

  -- `_send`: what cannot be encoded escapes from the session.
  unfoldable pub send : String → Members → Session P → After Unit
  unfolding send_frames
  send op fields s = elim (encode v.format.itemsize v.format.dumps op (given fields) absent) [
    | err refused ↦ (err (ended 1), s)
    | ok frames ↦ send_frames frames s
  ]

  -- `_error`
  unfoldable pub error : String → String → Session P → After Unit
  unfolding shortened send
  error kind message s =
      send "error"
        (member "type" (text kind) (
          member "message" (text (shortened message))
            (member "log_tail" (text t.log_tail) no_member)))
        s

  -- `_call`: the value, or `none` once the exception has been answered.
  unfoldable pub answered : {A : Type 0} → String → Called A → Session P → After (Option A)
  unfolding error and_then
  answered op (returned a) s = (ok (some a), s)
  answered op (raised kind why) s =
      and_then (error kind (concat (op ∷ ": " ∷ why ∷ [])) s) (λ _ s'. (ok none, s'))
  answered op interrupted s = (err (ended 1), s)
  answered op deserted s = (err (ended 0), s)

  unfoldable pub greet : Session P → After Unit
  unfolding send
  greet s =
      send "ok"
        (member "protocol" (int protocol_version) (
          member "action_type" (elim s.action_type [ none ↦ null | some a ↦ text a ])
            (member "policy" (text v.manifest.policy) no_member)))
        s

  unfoldable pub op_hello : Session P → After Unit
  unfolding greet build_policy answered and_then
  op_hello s = elim s.policy [
    | some p ↦ greet s
    | none ↦ and_then (answered "hello" (build_policy v.texts v.manifest v.code) s) (λ built s'.
        elim built [
          | none ↦ (err (ended 1), s')
          | some i ↦ greet (record s' { policy = some i.state; action_type = i.declared })
        ])
  ]

  unfoldable pub ok_if : After (Option Unit) → After Unit
  unfolding and_then send
  ok_if called =
      and_then called (λ done s. elim done [ none ↦ (ok tt, s) | some _ ↦ send "ok" no_member s ])

  unfoldable pub refuse_seed : Option Json → Session P → After Unit
  unfolding error
  refuse_seed seed s =
      error "WireError" (concat ("reset: seed must be an integer, not " ∷ v.texts.repr seed ∷ [])) s

  unfoldable pub op_reset : P → Members → Session P → After Unit
  unfolding is_int refuse_seed answered ok_if
  op_reset p fields s = elim (get "seed" fields) [
    | none ↦ refuse_seed none s
    | some seed ↦
        if is_int seed
        then (let (called, p') = v.code.reset p seed in
            ok_if (answered "reset" called (record s { policy = some p' })))
        else refuse_seed (some seed) s
  ]

  unfoldable pub set_prompt : P → List Received → Members → Session P → After Unit
  unfolding answered ok_if
  set_prompt p arrays info s =
      let (called, p') = v.code.set_demonstration p arrays info in
      ok_if (answered "prompt" called (record s { policy = some p' }))

  unfoldable pub refuse_info : Json → Session P → After Unit
  unfolding error
  refuse_info value s =
      error "WireError"
        (concat ("prompt: info must be an object, not " ∷ v.texts.type_name value ∷ [])) s

  unfoldable pub op_prompt : P → Members → List Received → Session P → After Unit
  unfolding set_prompt info_of refuse_info
  op_prompt p fields arrays s = elim (get "info" fields) [
    | none ↦ set_prompt p arrays no_member s
    | some value ↦ elim (info_of value) [
      | some info ↦ set_prompt p arrays info s
      | none ↦ refuse_info value s
    ]
  ]

  -- `_act_frames`: the frames of what `act` came to, once it is checked.
  unfoldable pub framed : Called Arrays → Called (List (List ℕ))
  framed (raised kind why) = raised kind why
  framed interrupted = interrupted
  framed deserted = deserted
  framed (returned arrays) =
      elim (encode v.format.itemsize v.format.dumps "action" absent (given arrays)) [
        | err refused ↦ raised "WireError" (v.texts.why refused)
        | ok frames ↦ returned frames
      ]

  unfoldable pub act_frames : Called Acted → Called (List (List ℕ))
  unfolding framed checked_action
  act_frames (raised kind why) = raised kind why
  act_frames interrupted = interrupted
  act_frames deserted = deserted
  act_frames (returned result) = framed (checked_action v.texts result)

  unfoldable pub send_action : Option (List (List ℕ)) → Session P → After Unit
  unfolding send_frames
  send_action none s = (ok tt, s)
  send_action (some frames) s = send_frames frames s

  unfoldable pub op_act : P → List Received → Session P → After Unit
  unfolding act_frames answered and_then send_action
  op_act p arrays s =
      let (called, p') = v.code.act p arrays in
      and_then (answered "act" (act_frames called) (record s { policy = some p' })) send_action

  -- The reply to `close`, and the end: a client that is gone already is not waited for.
  unfoldable pub part : Session P → After Unit
  unfolding send
  part s =
      let (done, s') = send "ok" no_member s in
      elim done [
        | ok _ ↦ (err (ended 0), s')
        | err hung_up ↦ (err (ended 0), s')
        | err (ended n) ↦ (err (ended n), s')
      ]

  unfoldable pub op_close : Session P → After Unit
  unfolding answered and_then part
  op_close s = elim s.policy [
    | none ↦ part s
    | some p ↦ elim v.code.close [
      | none ↦ part s
      | some close ↦
          let (called, p') = close p in
          and_then (answered "close" called (record s { policy = some p' }))
            (λ done s'. elim done [ none ↦ (err (ended 0), s') | some _ ↦ part s' ])
    ]
  ]
