-- ===== src/Policy/Talk.antt =====
-- packages/icil-policy/src/icil_policy/client.py and serve.py: a client's call on a session that listens.
use icil_competition_orchest.Prelude.{
  ℕ, ◌≤◌, ◌≡◌, refl, ap, sym, ◌∙◌, ◌⊎◌, String, true, false, List, [], ◌∷◌, ◌++◌, none, some, All,
  Result, ok, err, arith, eq_iff,
}
use icil_competition_orchest.Wire.{
  Json, Members, no_member, bad_fields, bad_arrays, Message, Received, frame, recv,
}
use icil_competition_orchest.Wire.Encode.{Given, Arrays, given_or, value_of, encode}
use icil_competition_orchest.Wire.Sorting.{AreDistinct, sum}
use icil_competition_orchest.Wire.Described.{weight, Fits, array_of, sent_under}
use icil_competition_orchest.Wire.RoundTrip.{encode-recv}
use icil_competition_orchest.Policy.{Texts, Serving}
use icil_competition_orchest.Policy.Serve.{Over, Session, Turn, max_message_bytes}
use icil_competition_orchest.Policy.Loop.{dispatch, round}
use icil_competition_orchest.Policy.Call.{
  Remote, Answer, Calling, abandon, read_reply, judge, receive, call, max_reply_bytes,
}
use icil_competition_orchest.Policy.Replies.{Replied, went_on, stopped}
use icil_competition_orchest.Policy.Acts.{Moderate, expected, dispatch-Replied}

append_nil : {A : Type 0} (xs : List A) → xs ++ [] ≡ xs
append_nil [] = refl
append_nil (x ∷ xs) = ap (λ ys. x ∷ ys) (append_nil xs)

-- A round in which frames arrive from a client that listens.
abbrev pub turn_of : String → List (List ℕ) → Turn
turn_of tail frames = record { silent = false; arrived = frames; deaf = false; log_tail = tail }

-- What a session with nothing to read makes of frames, its replies gathered from none.
abbrev pub hears :
    {P : Type 0} → Serving P → String → Session P → List (List ℕ) → Result Over Unit × Session P
hears v tail s frames = round v (turn_of tail frames) (record s { unread = []; sent = [] })

-- The exchange of a client with that session, in time.
abbrev pub exchange : {P : Type 0} → Serving P → String → Session P → List (List ℕ) → Answer
exchange v tail s frames = record {
  lost = none;
  replies = (hears v tail s frames).1.sent;
  expired = false;
}

-- The client's side, with the same format.
abbrev pub calling : {P : Type 0} → Serving P → Texts → String → Calling
calling v texts own_tail = record { format = v.format; texts = texts; own_tail = own_tail }

module _ {P : Type 0} (v : Serving P) (texts : Texts) (own_tail tail : String)
    (unnamed_dtype : v.format.itemsize "" ≡ none)
    (reads : (j : Json) (b : List ℕ) → v.format.dumps j ≡ some b → v.format.loads b ≡ some j) where
  -- A message that one side frames is what the other reads.
  pub framed-recv :
      (max_bytes : ℕ) (op : String) (fields : Given Members) (arrays : Given Arrays)
      (members : Members) (l : Arrays) (frames : List (List ℕ))
      → given_or no_member bad_fields fields ≡ ok members
      → given_or [] bad_arrays arrays ≡ ok l
      → All (Fits v.format.itemsize unnamed_dtype max_bytes) l
      → AreDistinct l
      → sum weight l ≤ max_bytes
      → encode v.format.itemsize v.format.dumps op fields arrays ≡ ok frames
      → (rs : List Received) × (recv v.format.itemsize v.format.loads max_bytes frames
          ≡ ok (record { op = op; fields = members; arrays = rs }, []))
        × ((n : String) → array_of n rs ≡ sent_under n (value_of n l))
  framed-recv max_bytes op fields arrays members l frames is_members is_l fits distinct within
        sent =
      let (rs, arrived, many, found) =
        encode-recv v.format.itemsize v.format.dumps v.format.loads unnamed_dtype reads max_bytes op
          fields arrays members l frames [] is_members is_l fits distinct within sent in
      (
        rs,
        ap (recv v.format.itemsize v.format.loads max_bytes) (sym (append_nil frames)) ∙ arrived,
        found,
      )

  pub hears-dispatch :
      (s : Session P) (frames : List (List ℕ)) (m : Message)
      → recv v.format.itemsize v.format.loads max_message_bytes frames ≡ ok (m, [])
      → hears v tail s frames
        ≡ dispatch v (turn_of tail frames) m (record s { unread = []; sent = [] })
  unfolding round
  hears-dispatch s frames m arrived = rw arrived refl

  pub read_reply-sent :
      (r : Remote) (replies : List (List ℕ)) {m : Message} {left : List (List ℕ)}
      → recv v.format.itemsize v.format.loads max_reply_bytes replies ≡ ok (m, left)
      → read_reply
          (calling v texts own_tail)
          r
          (record { lost = none; replies = replies; expired = false })
        ≡ ok m
  unfolding read_reply
  read_reply-sent r replies arrived = rw arrived refl

  judge-fits :
      (op expect : String) (m : Message) (r : Remote)
      → (m.op ≡ expect) ⊎ (m.op ≡ "error")
      → (judge (calling v texts own_tail) op expect m r).1 ≡ r
  unfolding judge
  judge-fits op expect m r fits = ground (arith, eq_iff m.op "error", eq_iff m.op expect)

  read_reply-none :
      (r : Remote)
      → read_reply
          (calling v texts own_tail)
          r
          (record { lost = none; replies = []; expired = false })
        ≡ err "the policy went away: EOFError"
  unfolding read_reply recv frame
  read_reply-none r = refl

  -- What a client is left with, by what its session has sent.
  receive-Replied :
      (op expect : String) (r : Remote) (s : Session P) {after : Result Over Unit × Session P}
      → Replied v unnamed_dtype expect (record s { unread = []; sent = [] }) after
      → (receive
          (calling v texts own_tail)
          op
          expect
          r
          (record { lost = none; replies = after.1.sent; expired = false })).1
        ≡ (elim after.0 [ ok _ ↦ r | err _ ↦ abandon r ])
  unfolding receive
  receive-Replied op expect r s (stopped over s' kept) = rw kept refl
  receive-Replied op expect r s (went_on u s' frames reply grew) =
      let (rs, arrived, found) =
        framed-recv max_reply_bytes reply.op reply.fields reply.arrays reply.members
          reply.named_arrays frames reply.is_members reply.is_arrays reply.taken.0 reply.taken.1
          reply.taken.2 reply.framed in
      let grew' : s'.sent ≡ frames = grew in
      rw (grew', read_reply-sent r frames arrived, receive)
        (judge-fits op expect (record { op = reply.op; fields = reply.members; arrays = rs }) r
          reply.op_lem)

  pub call-open :
      (op expect : String) (fields : Given Members) (arrays : Given Arrays) (r : Remote)
      (ask : List (List ℕ) → Answer) {frames : List (List ℕ)}
      → r.is_open ≡ true
      → encode v.format.itemsize v.format.dumps op fields arrays ≡ ok frames
      → call (calling v texts own_tail) ask op fields arrays expect r
        ≡ receive (calling v texts own_tail) op expect r (ask frames)
  unfolding call
  call-open op expect fields arrays r ask is_open sent = simp (is_open, sent) refl

  -- As long as whatever the policy's `act` returns as a mapping is numpy's and not too much for a reply,
  -- a client's reset, prompt or observation, which the format can send and the server reads, leaves the
  -- client as it was if the session goes on, and without a connection if the session is over: whatever
  -- else the competitor's code does, whether or not a policy is built, both ends agree on whether they
  -- go on talking. The session has nothing else to read and its replies come in time.
  pub call-agrees :
      (op : String) (fields : Given Members) (arrays : Given Arrays) (members : Members)
      (l : Arrays) (frames : List (List ℕ)) (r : Remote) (s : Session P)
      → Moderate v unnamed_dtype
      → (op ≡ "reset") ⊎ ((op ≡ "prompt") ⊎ (op ≡ "act"))
      → r.is_open ≡ true
      → given_or no_member bad_fields fields ≡ ok members
      → given_or [] bad_arrays arrays ≡ ok l
      → All (Fits v.format.itemsize unnamed_dtype max_message_bytes) l
      → AreDistinct l
      → sum weight l ≤ max_message_bytes
      → encode v.format.itemsize v.format.dumps op fields arrays ≡ ok frames
      → (call (calling v texts own_tail) (exchange v tail s) op fields arrays (expected op) r).1
        ≡ (elim (hears v tail s frames).0 [ ok _ ↦ r | err _ ↦ abandon r ])
  call-agrees op fields arrays members l frames r s moderate which is_open is_members is_l fits
        distinct within sent =
      let (rs, arrived, found) =
        framed-recv max_message_bytes op fields arrays members l frames is_members is_l fits
          distinct within sent in
      let heard =
        hears-dispatch s frames (record { op = op; fields = members; arrays = rs }) arrived in
      let replied =
        dispatch-Replied v unnamed_dtype (turn_of tail frames) refl moderate op members rs
          (record s { unread = []; sent = [] }) which in
      let opened = call-open op (expected op) fields arrays r (exchange v tail s) is_open sent in
      ap (λ x. x.1) opened ∙ rw heard (receive-Replied op (expected op) r s replied)
