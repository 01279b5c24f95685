-- ===== src/Policy/Loop.antt =====
-- packages/icil-policy/src/icil_policy/serve.py: `_dispatch` and the loop of `Session.run`.
use icil_competition_orchest.Prelude.{
  ℕ, ◌&&◌, List, [], ◌∷◌, ◌++◌, Option, none, some, ◌==◌, ◌==s◌, if◌then◌else◌, length, concat,
  Result, ok, err,
}
use icil_competition_orchest.Wire.{WireError, closed, Message, recv}
use icil_competition_orchest.Wire.Encode.{client_ops, one_of}
use icil_competition_orchest.Policy.{Serving, separated}
use icil_competition_orchest.Policy.Serve.{
  Over, ended, Session, Turn, max_message_bytes, exit_status, and_then, error, op_hello, op_reset,
  op_prompt, op_act, op_close,
}

module _ {P : Type 0} (v : Serving P) (t : Turn) where
  abbrev After : Type 0 → Type 0
  After A = Result Over A × Session P

  -- The operations that want a policy.
  unfoldable pub serve_policy : Message → P → Session P → After Unit
  unfolding op_reset op_prompt op_act
  serve_policy m p s =
      if m.op ==s "reset"
      then op_reset v t p m.fields s
      else if m.op ==s "prompt"
      then op_prompt v t p m.fields m.arrays s
      else op_act v t p m.arrays s

  -- `_dispatch`
  unfoldable pub dispatch : Message → Session P → After Unit
  unfolding one_of separated error op_hello op_close serve_policy
  dispatch m s =
      if one_of m.op client_ops
      then (if m.op ==s "hello"
          then op_hello v t s
          else if m.op ==s "close"
          then op_close v t s
          else elim s.policy [
            | none ↦ error v t "WireError" (concat (m.op ∷ " before hello" ∷ [])) s
            | some p ↦ serve_policy m p s
          ])
      else error v t "WireError"
          (concat (
            "unknown op "
            ∷ v.texts.repr_text m.op
            ∷ "; a client sends "
            ∷ separated ", " client_ops
            ∷ []))
          s

  -- A malformed message is answered and ends the session.
  unfoldable pub refuse_message : WireError → Session P → After Unit
  unfolding error and_then
  refuse_message closed s = (err (ended 0), s)
  refuse_message e s =
      and_then (error v t "WireError" (v.texts.why e) s) (λ _ s'. (err (ended 1), s'))

  -- One round of `run`.
  unfoldable pub round : Session P → After Unit
  unfolding recv refuse_message dispatch
  round s =
      let conn = s.unread ++ t.arrived in
      if t.silent && length conn == 0
      then (err (ended 0), s)
      else elim (recv v.format.itemsize v.format.loads max_message_bytes conn) [
        | err e ↦ refuse_message e s
        | ok (m, left) ↦ dispatch m (record s { unread = left })
      ]

-- `run`: the exit status, or `none` while the server waits for more.
unfoldable pub run : {P : Type 0} → Serving P → List Turn → Session P → Option ℕ × Session P
unfolding round exit_status
run v [] s = (none, s)
run v (t ∷ ts) s =
    let (over, s') = round v t s in
    elim over [ ok _ ↦ run v ts s' | err why ↦ (some (exit_status why), s') ]
