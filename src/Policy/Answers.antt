-- ===== src/Policy/Answers.antt =====
-- packages/icil-policy/src/icil_policy/client.py and serve.py: an observation and the action that answers it.
use icil_competition_orchest.Prelude.{
  ℕ, ◌≤◌, ◌≡◌, refl, ap, ◌∙◌, String, true, false, List, [], ◌++◌, none, some, All, Result, ok,
}
use icil_competition_orchest.Wire.{Json, Members, no_member, bad_arrays, Message, Received}
use icil_competition_orchest.Wire.Encode.{
  NdArray, Given, given, absent, Arrays, given_or, value_of, sent_as, one_of, encode,
}
use icil_competition_orchest.Wire.Sorting.{AreDistinct, sum}
use icil_competition_orchest.Wire.Described.{weight, Fits, array_of, sent_under}
use icil_competition_orchest.Policy.{returned, mapping, Texts, Serving, checked_action, is_action}
use icil_competition_orchest.Policy.Serve.{
  Over, Session, Turn, max_message_bytes, and_then, send_frames, answered, act_frames, framed,
  send_action, op_act,
}
use icil_competition_orchest.Policy.Loop.{serve_policy, dispatch}
use icil_competition_orchest.Policy.Call.{
  Remote, Answer, Failure, judge, receive, call, max_reply_bytes,
}
use icil_competition_orchest.Policy.Client.{has_action, act}
use icil_competition_orchest.Policy.Replies.{Takes}
use icil_competition_orchest.Policy.Talk.{
  turn_of, exchange, calling, framed-recv, hears-dispatch, read_reply-sent, call-open,
}

module _ {P : Type 0} (v : Serving P) where
  -- An action that the server lets through: a usable array under `action`, in a reply that can be sent.
  pub record IsUsable (answer : Arrays) (a : NdArray) (reply : List (List ℕ)) : Type 0 where
    pub there : value_of "action" answer ≡ some (some a)
    pub shaped : v.texts.np_shape (some a) ≡ returned a.shape
    pub usable : is_action a.shape ≡ true
    pub framed_lem :
        encode v.format.itemsize v.format.dumps "action" absent (given answer) ≡ ok reply

  act_frames-IsUsable :
      (t : Turn) (answer : Arrays) (a : NdArray) (reply : List (List ℕ))
      → IsUsable answer a reply
      → act_frames v t (returned (mapping answer)) ≡ returned reply
  unfolding act_frames
  act_frames-IsUsable t answer a reply usable =
      let passed : checked_action v.texts (mapping answer) ≡ returned answer =
        unfold checked_action in
        (rw (usable.there, usable.shaped, usable.usable, checked_action) refl) in
      rw (passed, usable.framed_lem, framed) refl

  op_act-IsUsable :
      (t : Turn) (arrays : List Received) (s : Session P) (p : P) (answer : Arrays) (a : NdArray)
      (reply : List (List ℕ))
      → t.deaf ≡ false
      → (v.code.act p arrays).0 ≡ returned (mapping answer)
      → IsUsable answer a reply
      → op_act v t p arrays s
        ≡ (ok tt, record s { policy = some (v.code.act p arrays).1; sent = s.sent ++ reply })
  unfolding op_act answered and_then send_action send_frames
  op_act-IsUsable t arrays s p answer a reply listens answers usable =
      rw (answers, act_frames-IsUsable t answer a reply usable, listens) refl

  -- The session after the policy's answer.
  dispatch-act :
      (t : Turn) (fields : Members) (arrays : List Received) (s : Session P) (p : P)
      → s.policy ≡ some p
      → dispatch v t (record { op = "act"; fields = fields; arrays = arrays }) s
        ≡ op_act v t p arrays s
  unfolding dispatch serve_policy one_of
  dispatch-act t fields arrays s p built = simp built refl

  has_action-sent :
      (rs : List Received) (a : NdArray)
      → array_of "action" rs ≡ some (sent_as "action" a)
      → is_action a.shape ≡ true
      → has_action rs ≡ true
  unfolding has_action sent_as
  has_action-sent rs a shown usable = rw (shown, has_action) usable

  module _ (texts : Texts) (own_tail tail : String) (unnamed_dtype : v.format.itemsize "" ≡ none)
      (reads : (j : Json) (b : List ℕ)
        → v.format.dumps j ≡ some b
        → v.format.loads b ≡ some j) where
    receive-IsUsable :
        (r : Remote) {answer : Arrays} {a : NdArray} {reply : List (List ℕ)}
        → IsUsable answer a reply
        → Takes v unnamed_dtype answer
        → (rs : List Received) × (receive
              (calling v texts own_tail)
              "act"
              "action"
              r
              (record { lost = none; replies = reply; expired = false })
            ≡ (ok (record { op = "action"; fields = no_member; arrays = rs }), r))
          × ((n : String) → array_of n rs ≡ sent_under n (value_of n answer))
    unfolding receive given_or judge
    receive-IsUsable r {answer} {a} {reply} usable takes =
        let (rs, arrived, found) =
          framed-recv v texts own_tail "" unnamed_dtype reads max_reply_bytes "action" absent
            (given answer) no_member answer reply refl refl takes.0 takes.1 takes.2
            usable.framed_lem in
        (
          rs,
          rw (read_reply-sent v texts own_tail "" unnamed_dtype reads r reply arrived, receive)
              refl,
          found,
        )

    act-called :
        (observation : Given Arrays) (r : Remote) (ask : List (List ℕ) → Answer) (m : Message)
        → call (calling v texts own_tail) ask "act" (given no_member) observation "action" r
          ≡ (ok m, r)
        → has_action m.arrays ≡ true
        → act (calling v texts own_tail) ask observation r ≡ (ok m.arrays, r)
    unfolding act
    act-called observation r ask m called usable =
        rw (called, usable, act)
          (ap (λ (x : Result Failure Message × Remote). (ok m.arrays, x.1)) called)

    -- A client that shows an observation gets just what the policy answers to it, array by array, and goes
    -- on as it was. The policy is built; it answers so to every observation that holds the arrays that
    -- were given under their names; its action is usable and not too much for a reply, and the observation
    -- is not too much for the server.
    pub act-answers :
        (observation : Given Arrays) (l : Arrays) (frames : List (List ℕ)) (r : Remote)
        (s : Session P) (p : P) (answer : Arrays) (a : NdArray) (reply : List (List ℕ))
        → r.is_open ≡ true
        → s.policy ≡ some p
        → given_or [] bad_arrays observation ≡ ok l
        → All (Fits v.format.itemsize unnamed_dtype max_message_bytes) l
        → AreDistinct l
        → sum weight l ≤ max_message_bytes
        → encode v.format.itemsize v.format.dumps "act" (given no_member) observation ≡ ok frames
        → ((heard : List Received)
            → ((n : String) → array_of n heard ≡ sent_under n (value_of n l))
            → (v.code.act p heard).0 ≡ returned (mapping answer))
        → IsUsable answer a reply
        → Takes v unnamed_dtype answer
        → (rs : List Received) × (act (calling v texts own_tail) (exchange v tail s) observation r
            ≡ (ok rs, r))
          × ((n : String) → array_of n rs ≡ sent_under n (value_of n answer))
    unfolding given_or act
    act-answers observation l frames r s p answer a reply is_open built is_l fits distinct within
          sent answers usable takes =
        let (heard, arrived, found) =
          framed-recv v texts own_tail tail unnamed_dtype reads max_message_bytes "act"
            (given no_member) observation no_member l frames refl is_l fits distinct within sent in
        let t = turn_of tail frames in
        let s0 = record s { unread = []; sent = [] } in
        let heard_so =
          hears-dispatch v texts own_tail tail unnamed_dtype reads s frames
            (record { op = "act"; fields = no_member; arrays = heard }) arrived
          ∙ dispatch-act t no_member heard s0 p built
          ∙ op_act-IsUsable t heard s0 p answer a reply refl (answers heard found) usable in
        let (rs, received, same) = receive-IsUsable r usable takes in
        let opened =
          call-open v texts own_tail tail unnamed_dtype reads "act" "action" (given no_member)
            observation r (exchange v tail s) is_open sent in
        let replies_are : exchange v tail s frames
            ≡ record { lost = none; replies = reply; expired = false } =
          ap
            (λ (x : Result Over Unit × Session P). record {
              lost = none;
              replies = x.1.sent;
              expired = false;
            })
            heard_so in
        let called =
          opened
          ∙ ap (receive (calling v texts own_tail) "act" "action" r) replies_are
          ∙ received in
        let shown : array_of "action" rs ≡ some (sent_as "action" a) =
          same "action" ∙ ap (sent_under "action") usable.there in
        (
          rs,
          act-called observation r (exchange v tail s) _ called
              (has_action-sent rs a shown usable.usable),
          same,
        )
