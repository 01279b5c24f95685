-- ===== src/Policy/Acts.antt =====
-- packages/icil-policy/src/icil_policy/serve.py: what an action and a round send to a client that listens.
use icil_competition_orchest.Prelude.{
  ℕ, ◌≡◌, refl, ap, ◌⊎◌, inl, inr, String, false, List, [], ◌∷◌, none, some, Result, ok, arith,
  Result-cases, Option-cases, ◌==s◌, true, if◌then◌else◌, concat,
}
use icil_competition_orchest.Wire.{Members, no_member, Message, Received}
use icil_competition_orchest.Wire.Encode.{
  client_ops, one_of, given, absent, Arrays, given_or, encode,
}
use icil_competition_orchest.Policy.{
  Called, returned, raised, interrupted, deserted, Acted, mapping, other_type, Serving,
  checked_action,
}
use icil_competition_orchest.Policy.Serve.{
  Over, Session, Turn, and_then, error, answered, act_frames, framed, send_action, op_act,
}
use icil_competition_orchest.Policy.Loop.{serve_policy, dispatch}
use icil_competition_orchest.Policy.Replies.{
  Takes, IsReply, Replied, went_on, stopped, send_frames-Replied, error-Replied, Replied-same_sent,
  op_reset-Replied, op_prompt-Replied,
}

-- The reply to each operation of a policy is `ok`, or `action` to `act`.
abbrev pub expected : String → String
expected op = if op ==s "act" then "action" else "ok"

module _ {P : Type 0} (v : Serving P) (unnamed_dtype : v.format.itemsize "" ≡ none) where
  checked_action-mapping :
      (r : Acted) {l : Arrays} → checked_action v.texts r ≡ returned l → r ≡ mapping l
  unfolding checked_action
  checked_action-mapping (mapping a) passed = ground arith
  checked_action-mapping (other_type name) passed = cc

  framed-returned :
      (c : Called Arrays) (t : Turn) {frames : List (List ℕ)}
      → framed v t c ≡ returned frames
      → (l : Arrays) × (c ≡ returned l)
        × (encode v.format.itemsize v.format.dumps "action" absent (given l) ≡ ok frames)
  unfolding framed
  framed-returned (raised kind why) t made = cc
  framed-returned interrupted t made = cc
  framed-returned deserted t made = cc
  framed-returned (returned l) t made =
      elim (Result-cases (encode v.format.itemsize v.format.dumps "action" absent (given l))) [
        | inl (e, refused) ↦ ground arith
        | inr (frames, sent) ↦ (l, refl, ground arith)
      ]

  pub act_frames-returned :
      (called : Called Acted) (t : Turn) {frames : List (List ℕ)}
      → act_frames v t called ≡ returned frames
      → (l : Arrays) × (called ≡ returned (mapping l))
        × (encode v.format.itemsize v.format.dumps "action" absent (given l) ≡ ok frames)
  unfolding act_frames
  act_frames-returned (raised kind why) t made = cc
  act_frames-returned interrupted t made = cc
  act_frames-returned deserted t made = cc
  act_frames-returned (returned r) t made =
      let (l, checked, sent) = framed-returned (checked_action v.texts r) t made in
      (l, ap returned (checked_action-mapping r checked), sent)

  -- What `act` returns is numpy's and not too much for a reply.
  abbrev pub Moderate : Type 0
  Moderate =
      (p : P) (observation : List Received) (l : Arrays)
      → (v.code.act p observation).0 ≡ returned (mapping l)
      → Takes v unnamed_dtype l

  module _ (t : Turn) (listens : t.deaf ≡ false) (moderate : Moderate) where
    send_action-Replied_after :
        (s : Session P) (first : Result Over Unit × Session P)
        → Replied v unnamed_dtype "action" s first
        → Replied v unnamed_dtype "action" s
            (and_then (and_then first (λ _ s'. (ok none, s'))) (send_action v t))
    unfolding and_then send_action
    send_action-Replied_after s _ (stopped over s' kept) = stopped over s' kept
    send_action-Replied_after s _ (went_on u s' frames reply grew) = went_on tt s' frames reply grew

    send_action-Replied :
        (c : Called (List (List ℕ))) (s : Session P)
        → ((frames : List (List ℕ)) → c ≡ returned frames → IsReply v unnamed_dtype "action" frames)
        → Replied v unnamed_dtype "action" s (and_then (answered v t "act" c s) (send_action v t))
    unfolding answered and_then send_action
    send_action-Replied (returned frames) s sound =
        send_frames-Replied v unnamed_dtype t listens "action" frames s (sound frames refl)
    send_action-Replied (raised kind why) s sound =
        send_action-Replied_after s (error v t kind (concat ("act" ∷ ": " ∷ why ∷ [])) s) (
          error-Replied v unnamed_dtype t listens "action" kind (concat ("act" ∷ ": " ∷ why ∷ []))
            s)
    send_action-Replied interrupted s sound = stopped _ s refl
    send_action-Replied deserted s sound = stopped _ s refl

    op_act-Replied :
        (p : P) (arrays : List Received) (s : Session P)
        → Replied v unnamed_dtype "action" s (op_act v t p arrays s)
    unfolding op_act given_or
    op_act-Replied p arrays s =
        let (called, p') = v.code.act p arrays in
        Replied-same_sent v unnamed_dtype s (record s { policy = some p' }) refl
          (send_action-Replied (act_frames v t called) (record s { policy = some p' })
            (λ frames made.
              let (l, was, sent) = act_frames-returned called t made in
              record {
                op = "action";
                fields = absent;
                arrays = given l;
                members = no_member;
                named_arrays = l;
                is_members = refl;
                is_arrays = refl;
                framed = sent;
                taken = moderate p arrays l was;
                op_lem = inl refl;
              }))

    served-Replied :
        (m : Message) (expect : String) (s : Session P)
        → one_of m.op client_ops ≡ true
        → (m.op ==s "hello") ≡ false
        → (m.op ==s "close") ≡ false
        → ((p : P) → Replied v unnamed_dtype expect s (serve_policy v t m p s))
        → Replied v unnamed_dtype expect s (dispatch v t m s)
    unfolding dispatch
    served-Replied m expect s known greets parts served = elim (Option-cases s.policy) [
      | inl unbuilt ↦
          rw (known, greets, parts, unbuilt)
            (Replied-same_sent v unnamed_dtype _ s refl (
              error-Replied v unnamed_dtype t listens expect "WireError"
                (concat (m.op ∷ " before hello" ∷ [])) s))
      | inr (p, built) ↦
          rw (known, greets, parts, built) (Replied-same_sent v unnamed_dtype _ s refl (served p))
    ]

    -- What a client that listens hears after a reset, a prompt or an observation.
    pub dispatch-Replied :
        (op : String) (fields : Members) (arrays : List Received) (s : Session P)
        → (op ≡ "reset") ⊎ ((op ≡ "prompt") ⊎ (op ≡ "act"))
        → Replied v unnamed_dtype
            (expected op)
            s
            (dispatch v t (record { op = op; fields = fields; arrays = arrays }) s)
    unfolding serve_policy one_of
    dispatch-Replied op fields arrays s (inl reset) = rw reset (
        served-Replied _ "ok" s refl refl refl
          (λ p. op_reset-Replied v unnamed_dtype t listens "ok" p fields s refl))
    dispatch-Replied op fields arrays s (inr (inl prompt)) = rw prompt (
        served-Replied _ "ok" s refl refl refl
          (λ p. op_prompt-Replied v unnamed_dtype t listens "ok" p fields arrays s refl))
    dispatch-Replied op fields arrays s (inr (inr act)) =
        rw act (served-Replied _ "action" s refl refl refl (λ p. op_act-Replied p arrays s))
