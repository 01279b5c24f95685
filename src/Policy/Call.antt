-- ===== src/Policy/Call.antt =====
-- packages/icil-policy/src/icil_policy/client.py: `_call` of `RemotePolicy`, with what it keeps and raises. What an
-- exchange on the connection meets is an answer to the frames that are sent.
use icil_competition_orchest.Prelude.{
  ℕ, ◌^◌, String, Bool, false, List, [], ◌∷◌, Option, none, some, ◌==s◌, if◌then◌else◌, concat,
  text_or, Result, ok, err,
}
use icil_competition_orchest.Wire.{Json, text, Members, get, WireError, closed, Message, recv}
use icil_competition_orchest.Wire.Encode.{Given, Arrays, encode}
use icil_competition_orchest.Policy.{Texts, Format}

abbrev pub max_reply_bytes : ℕ
max_reply_bytes = 2 ^ 30

-- `RemotePolicy`: its address, the text of its timeout, whether the connection is there, whether `close` was called, and the action type that was
-- learned.
pub record Remote : Type 0 where
  pub address : String
  pub timeout : String
  pub is_open : Bool
  pub is_closed : Bool
  pub action_type : Option String

-- What an exchange meets: sending or receiving may find the server gone, and the reply may be late.
pub record Answer : Type 0 where
  pub lost : Option String
  pub replies : List (List ℕ)
  pub expired : Bool

-- `PolicyUnavailable`, with its message before the log's tail is added to it.
pub record Unavailable : Type 0 where
  pub op : String
  pub message : String
  pub remote_type : Option String
  pub log_tail : String

-- What a call raises: `PolicyUnavailable`, the `WireError` of a value that cannot be sent, or the
-- `TypeError` of a wrong argument, by the argument's name.
pub data Failure : Type 0 where
  unavailable : Unavailable → Failure
  refused : WireError → Failure
  misused : String → Failure

-- `str(fields.get(key) or default)`
unfoldable pub said : Texts → String → Option Json → String
said texts default none = default
said texts default (some (text s)) = if s ==s "" then default else s
said texts default (some other) = if texts.truth other then texts.str_of other else default

unfoldable pub tail_of : Option Json → String
tail_of (some (text s)) = s
tail_of _ = ""

-- What a client has: the format, Python's texts, and the tail of its own log.
pub record Calling : Type 0 where
  pub format : Format
  pub texts : Texts
  pub own_tail : String

-- `_abandon`
unfoldable pub abandon : Remote → Remote
abandon r = record r { is_open = false }

module _ (c : Calling) where
  -- `_unavailable`, for what is no error reply.
  unfoldable pub failure : String → String → Failure
  failure op message = unavailable (record {
    op = op;
    message = concat (op ∷ ": " ∷ message ∷ []);
    remote_type = none;
    log_tail = c.own_tail;
  })

  -- What `recv` makes of the replies, or why the exchange failed.
  unfoldable pub read_reply : Remote → Answer → Result String Message
  unfolding recv
  read_reply r a =
      if a.expired then err (concat ("no answer within " ∷ r.timeout ∷ "s" ∷ [])) else elim a.lost [
        | some why ↦ err (concat ("the policy went away: " ∷ why ∷ []))
        | none ↦ elim (recv c.format.itemsize c.format.loads max_reply_bytes a.replies) [
          | err closed ↦ err "the policy went away: EOFError"
          | err e ↦ err (concat ("malformed reply: " ∷ c.texts.why e ∷ []))
          | ok (m, left) ↦ ok m
        ]
      ]

  -- A reply by its operation.
  unfoldable pub judge : String → String → Message → Remote → Result Failure Message × Remote
  unfolding said tail_of abandon failure
  judge op expect m r =
      if m.op ==s "error"
      then (
        err (
            unavailable (record {
              op = op;
              message = concat (
                  op
                  ∷ ": "
                  ∷ said c.texts "Error" (get "type" m.fields)
                  ∷ ": "
                  ∷ said c.texts "" (get "message" m.fields)
                  ∷ []);
              remote_type = some (said c.texts "Error" (get "type" m.fields));
              log_tail = text_or (some c.own_tail) (tail_of (get "log_tail" m.fields));
            })),
        r,
      )
      else if m.op ==s expect
      then (ok m, r)
      else (
        err (
            failure op (
              concat (
                "the server answered "
                ∷ c.texts.repr_text m.op
                ∷ ", not "
                ∷ c.texts.repr_text expect
                ∷ []))),
        abandon r,
      )

  -- What a call comes to by what the exchange met.
  unfoldable pub receive : String → String → Remote → Answer → Result Failure Message × Remote
  unfolding read_reply failure judge abandon
  receive op expect r a = elim (read_reply r a) [
    | err why ↦ (err (failure op why), abandon r)
    | ok m ↦ judge op expect m r
  ]

  module _ (ask : List (List ℕ) → Answer) where
    -- `_call`
    unfoldable pub call :
        String → Given Members → Given Arrays → String → Remote → Result Failure Message × Remote
    unfolding failure receive
    call op fields arrays expect r =
        if r.is_open
        then (elim (encode c.format.itemsize c.format.dumps op fields arrays) [
          | err e ↦ (err (refused e), r)
          | ok frames ↦ receive op expect r (ask frames)
        ])
        else (
          err (
              failure op (
                concat (
                  "the connection to "
                  ∷ r.address
                  ∷ (if r.is_closed then " is closed" else " is closed after an earlier failure")
                  ∷ []))),
          r,
        )
