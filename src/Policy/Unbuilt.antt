-- ===== src/Policy/Unbuilt.antt =====
-- packages/icil-policy/src/icil_policy/serve.py: a session before `hello`.
use icil_competition_orchest.Prelude.{
  ℕ, ◌≡◌, refl, ◌&&◌, ◌==◌, ◌++◌, length, false, List, none, ok, ◌==s◌, inl, inr, Bool-cases,
  Result-cases,
}
use icil_competition_orchest.Wire.{WireError, closed, Message, recv}
use icil_competition_orchest.Wire.Encode.{client_ops, one_of}
use icil_competition_orchest.Policy.{Code, Serving}
use icil_competition_orchest.Policy.Serve.{
  Session, Turn, max_message_bytes, send_frames, send, error, part, op_close,
}
use icil_competition_orchest.Policy.Loop.{dispatch, refuse_message, round}

module _ {P : Type 0} (v : Serving P) (other : Code P) (t : Turn) where
  abbrev swapped : Serving P
  swapped = record v { code = other }

  op_close-swapped : (s : Session P) → s.policy ≡ none → op_close v t s ≡ op_close swapped t s
  unfolding op_close part send send_frames
  op_close-swapped s unbuilt = rw (unbuilt, op_close) refl

  refuse_message-swapped :
      (e : WireError) (s : Session P) → refuse_message v t e s ≡ refuse_message swapped t e s
  unfolding refuse_message error send send_frames
  refuse_message-swapped closed s = refl
  refuse_message-swapped _ s = refl

  dispatch-swapped :
      (m : Message) (s : Session P)
      → s.policy ≡ none
      → (m.op ==s "hello") ≡ false
      → dispatch v t m s ≡ dispatch swapped t m s
  unfolding dispatch error send send_frames
  dispatch-swapped m s unbuilt unasked = elim (Bool-cases (one_of m.op client_ops)) [
    | inr unknown ↦ rw unknown refl
    | inl known ↦ elim (Bool-cases (m.op ==s "close")) [
      | inl parts ↦ rw (known, unasked, parts) (op_close-swapped s unbuilt)
      | inr stays ↦ rw (known, unasked, stays, unbuilt) refl
    ]
  ]

  -- Before `hello`, what a session does is the same for whatever code the competitor has: nothing of it
  -- runs for a message that is not `hello`, nor for one that is malformed, for silence or for a hang-up.
  pub round-swapped :
      (s : Session P)
      → s.policy ≡ none
      → ((m : Message) (left : List (List ℕ))
          → recv v.format.itemsize v.format.loads max_message_bytes (s.unread ++ t.arrived)
            ≡ ok (m, left)
          → (m.op ==s "hello") ≡ false)
      → round v t s ≡ round (record v { code = other }) t s
  unfolding round
  round-swapped s unbuilt unasked =
      elim (Bool-cases (t.silent && length (s.unread ++ t.arrived) == 0)) [
        | inl quiet ↦ rw quiet refl
        | inr heard ↦
            elim (Result-cases
              (recv v.format.itemsize v.format.loads max_message_bytes (s.unread ++ t.arrived))) [
                | inl (e, refused) ↦ rw (heard, refused) (refuse_message-swapped e s)
                | inr ((m, left), arrived) ↦
                    rw (heard, arrived)
                      (dispatch-swapped m (record s { unread = left }) unbuilt
                        (unasked m left arrived))
              ]
      ]
