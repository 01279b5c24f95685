-- ===== src/Policy/Replies.antt =====
-- packages/icil-policy/src/icil_policy/serve.py: what a round sends to a client that listens.
use icil_competition_orchest.Prelude.{
  ℕ, ◌≤◌, ◌≡◌, refl, ap, sym, ◌∙◌, ◌⊎◌, inl, inr, String, false, List, [], ◌∷◌, ◌++◌, Option, none,
  some, All, Result, ok, err, arith, Result-cases, Option-cases, Bool-cases, concat,
}
use icil_competition_orchest.Wire.{Json, Members, no_member, bad_fields, bad_arrays, get, Received}
use icil_competition_orchest.Wire.Encode.{Given, given, absent, Arrays, given_or, encode}
use icil_competition_orchest.Wire.Sorting.{AreDistinct, sum}
use icil_competition_orchest.Wire.Described.{weight, Fits}
use icil_competition_orchest.Policy.{Called, returned, raised, interrupted, deserted, Serving}
use icil_competition_orchest.Policy.Serve.{
  Over, Session, Turn, is_int, and_then, send_frames, send, error, answered, ok_if, op_reset,
  op_prompt, set_prompt, refuse_seed, info_of, refuse_info,
}
use icil_competition_orchest.Policy.Call.{max_reply_bytes}

module _ {P : Type 0} (v : Serving P) (unnamed_dtype : v.format.itemsize "" ≡ none) where
  -- Arrays that a client takes: numpy's, under distinct names, and not too many bytes for a reply.
  abbrev pub Takes : Arrays → Type 0
  Takes l =
      All (Fits v.format.itemsize unnamed_dtype max_reply_bytes) l
      × AreDistinct l
      × (sum weight l ≤ max_reply_bytes)

  -- The frames of a message with the operation that is expected or an error.
  pub record IsReply (expect : String) (frames : List (List ℕ)) : Type 0 where
    pub op : String
    pub fields : Given Members
    pub arrays : Given Arrays
    pub members : Members
    pub named_arrays : Arrays
    pub is_members : given_or no_member bad_fields fields ≡ ok members
    pub is_arrays : given_or [] bad_arrays arrays ≡ ok named_arrays
    pub framed : encode v.format.itemsize v.format.dumps op fields arrays ≡ ok frames
    pub taken : Takes named_arrays
    pub op_lem : (op ≡ expect) ⊎ (op ≡ "error")

  -- A session that goes on has sent one reply, and one that is over none.
  pub data Replied (expect : String) (s : Session P) : Result Over Unit × Session P → Type 0 where
    went_on :
        (u : Unit) (s' : Session P) (frames : List (List ℕ))
        → IsReply expect frames
        → s'.sent ≡ s.sent ++ frames
        → Replied expect s (ok u, s')
    stopped : (over : Over) (s' : Session P) → s'.sent ≡ s.sent → Replied expect s (err over, s')

  -- Only what was sent before counts.
  pub Replied-same_sent :
      {expect : String} (s r : Session P) {after : Result Over Unit × Session P}
      → r.sent ≡ s.sent
      → Replied expect r after
      → Replied expect s after
  Replied-same_sent s r same (stopped over s' kept) = stopped over s' (kept ∙ same)
  Replied-same_sent s r same (went_on u s' frames reply grew) =
      went_on u s' frames reply (grew ∙ ap (λ x. x ++ frames) same)

  module _ (t : Turn) (listens : t.deaf ≡ false) (expect : String) where
    pub send_frames-Replied :
        (frames : List (List ℕ)) (s : Session P)
        → IsReply expect frames
        → Replied expect s (send_frames v t frames s)
    unfolding send_frames
    send_frames-Replied frames s reply = rw (listens, send_frames) (went_on tt _ frames reply refl)

    send-Replied :
        (op : String) (fields : Members) (s : Session P)
        → (op ≡ expect) ⊎ (op ≡ "error")
        → Replied expect s (send v t op fields s)
    unfolding send given_or
    send-Replied op fields s fit =
        elim (Result-cases (encode v.format.itemsize v.format.dumps op (given fields) absent)) [
          | inl (e, refused) ↦ rw (refused, send) (stopped _ _ refl)
          | inr (frames, sent) ↦
              rw (sent, send)
                (send_frames-Replied frames s (record {
                  op = op;
                  fields = given fields;
                  arrays = absent;
                  members = fields;
                  named_arrays = [];
                  is_members = refl;
                  is_arrays = refl;
                  framed = sent;
                  taken = (tt, tt, omega arith);
                  op_lem = fit;
                }))
        ]

    pub error-Replied :
        (kind message : String) (s : Session P) → Replied expect s (error v t kind message s)
    unfolding error
    error-Replied kind message s = send-Replied "error" _ s (inr refl)

    -- After an exception that was answered, nothing more is sent.
    ok_if-Replied_after :
        (s : Session P) (first : Result Over Unit × Session P)
        → Replied expect s first
        → Replied expect s (ok_if v t (and_then first (λ _ s'. (ok none, s'))))
    unfolding ok_if and_then
    ok_if-Replied_after s _ (stopped over s' kept) = stopped over s' kept
    ok_if-Replied_after s _ (went_on u s' frames reply grew) = went_on tt s' frames reply grew

    ok_if-Replied :
        (op : String) (called : Called Unit) (s' : Session P)
        → expect ≡ "ok"
        → Replied expect s' (ok_if v t (answered v t op called s'))
    unfolding ok_if answered and_then
    ok_if-Replied op (returned _) s' plain = send-Replied "ok" no_member s' (inl (sym plain))
    ok_if-Replied op (raised kind why) s' plain =
        ok_if-Replied_after s' (error v t kind (concat (op ∷ ": " ∷ why ∷ [])) s')
          (error-Replied kind (concat (op ∷ ": " ∷ why ∷ [])) s')
    ok_if-Replied op interrupted s' plain = stopped _ s' refl
    ok_if-Replied op deserted s' plain = stopped _ s' refl

    refuse_seed-Replied :
        (seed : Option Json) (s : Session P) → Replied expect s (refuse_seed v t seed s)
    unfolding refuse_seed
    refuse_seed-Replied seed s =
        error-Replied "WireError"
          (concat ("reset: seed must be an integer, not " ∷ v.texts.repr seed ∷ [])) s

    pub op_reset-Replied :
        (p : P) (fields : Members) (s : Session P)
        → expect ≡ "ok"
        → Replied expect s (op_reset v t p fields s)
    unfolding op_reset
    op_reset-Replied p fields s plain = elim (Option-cases (get "seed" fields)) [
      | inl missing ↦ rw (missing, op_reset) (refuse_seed-Replied none s)
      | inr (seed, there) ↦ elim (Bool-cases (is_int seed)) [
        | inl whole ↦
            let (called, p') = v.code.reset p seed in
            rw (there, whole, op_reset)
              (Replied-same_sent s (record s { policy = some p' }) refl
                (ok_if-Replied "reset" called (record s { policy = some p' }) plain))
        | inr other ↦ rw (there, other, op_reset) (refuse_seed-Replied (some seed) s)
      ]
    ]

    set_prompt-Replied :
        (p : P) (arrays : List Received) (info : Members) (s : Session P)
        → expect ≡ "ok"
        → Replied expect s (set_prompt v t p arrays info s)
    unfolding set_prompt
    set_prompt-Replied p arrays info s plain =
        let (called, p') = v.code.set_demonstration p arrays info in
        Replied-same_sent s (record s { policy = some p' }) refl
          (ok_if-Replied "prompt" called (record s { policy = some p' }) plain)

    refuse_info-Replied :
        (value : Json) (s : Session P) → Replied expect s (refuse_info v t value s)
    unfolding refuse_info
    refuse_info-Replied value s =
        error-Replied "WireError"
          (concat ("prompt: info must be an object, not " ∷ v.texts.type_name value ∷ [])) s

    pub op_prompt-Replied :
        (p : P) (fields : Members) (arrays : List Received) (s : Session P)
        → expect ≡ "ok"
        → Replied expect s (op_prompt v t p fields arrays s)
    unfolding op_prompt
    op_prompt-Replied p fields arrays s plain = elim (Option-cases (get "info" fields)) [
      | inl missing ↦ rw (missing, op_prompt) (set_prompt-Replied p arrays no_member s plain)
      | inr (value, there) ↦ elim (Option-cases (info_of value)) [
        | inl other ↦ rw (there, other, op_prompt) (refuse_info-Replied value s)
        | inr (info, object_there) ↦
            rw (there, object_there, op_prompt) (set_prompt-Replied p arrays info s plain)
      ]
    ]
