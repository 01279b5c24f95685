-- ===== src/Daemon/Steps.antt =====
-- daemon.py: what a step opens.
use icil_competition_orchest.Prelude.{
  ℕ, ◌<◌, String, ◌≡◌, refl, ◌⊎◌, inl, inr, Bool, false, Option, none, some, ◌==s◌, arith, Result,
  ok, err, Option-cases, Bool-cases, find_first,
}
use icil_competition_orchest.Ids.{SubmissionRef}
use icil_competition_orchest.Queue.{
  QueueEntry, InProgress, QueueState, ref, peek, take, mark, has_key, stamp,
}
use icil_competition_orchest.Store.{Head}
use icil_competition_orchest.Daemon.{
  Spec, Request, Meets, Daemon, Stepped, current_king, next_block, run_duel, give_up,
  baseline_genesis, serve, holds_crown, next_entry, open_next, step,
}

-- The block that the track's head is at, 0 without one.
unfoldable pub head_block : Option Head → ℕ
head_block none = 0
head_block (some h) = h.block

next_block-above :
    (d : Daemon) → (d.queue.block < next_block d) × (head_block d.head < next_block d)
unfolding next_block head_block
next_block-above d = (ground arith, ground arith)

-- Whether the challenger is the king.
unfoldable pub duels_itself : Request → Bool
duels_itself req = elim req.king [ none ↦ false | some k ↦ k.key ==s req.challenger.key ]

pub take-marks :
    (key : String) (block : ℕ) (id : String) (now : Option String) (clock : String) (q : QueueState)
    (e : QueueEntry)
    → (take key block id now clock q).0 ≡ some e
    → (ip : InProgress) × ((take key block id now clock q).1.in_progress ≡ some ip)
      × (ip.event_id ≡ id)
unfolding take mark
take-marks key block id now clock q e h = elim (Option-cases (find_first (has_key key) q.entries)) [
  | inl z ↦ ground (arith, z, h)
  | inr (x, z) ↦ (
    record { event_id = id; challenger = ref x; started_at = stamp now clock; entry = some x },
    ground (arith, z),
    refl,
  )
]

pub result-cases :
    {E A : Type 0} (r : Result E A) → ((e : E) × (r ≡ err e)) ⊎ ((a : A) × (r ≡ ok a))
result-cases (ok a) = inr (a, refl)
result-cases (err e) = inl (e, refl)

pub give_up-idle : (spec : Spec) (s : Stepped) → s.had ≡ false → give_up spec s ≡ s
unfolding give_up
give_up-idle spec s h = ground (arith, h)

module _ (spec : Spec) where
  pub ran-serve :
      (m : Meets) (king : Option SubmissionRef) (e : QueueEntry) (d : Daemon) (req : Request)
      → (serve spec m king e d).ran ≡ some req
      → req ≡ record { challenger = ref e; king = king; size = e.duel_size; block = next_block d }
  unfolding serve run_duel
  ran-serve m king e d req h = ground arith

  pub ran-baseline :
      (m : Meets) (base : String × String) (d : Daemon) (req : Request)
      → (baseline_genesis spec m base d).ran ≡ some req
      → (req.king ≡ none) × (req.block ≡ next_block d)
  unfolding baseline_genesis run_duel give_up
  ran-baseline m base d req h = ground arith

  pub ran-next :
      (m : Meets) (d : Daemon) (req : Request)
      → (next_entry spec m d).ran ≡ some req
      → (req.king ≡ current_king d.head) × (req.block ≡ next_block d) × (duels_itself req ≡ false)
  unfolding next_entry duels_itself holds_crown ref
  ran-next m d req h = elim (Option-cases (peek d.queue)) [
    | inl z ↦ ground (arith, z, h)
    | inr (e, z) ↦ ground (arith, z, h, ran-serve m (current_king d.head) e d req)
  ]

  pub next-serves :
      (m : Meets) (d : Daemon) (req : Request)
      → (next_entry spec m d).ran ≡ some req
      → (e : QueueEntry) × (next_entry spec m d ≡ serve spec m (current_king d.head) e d)
  unfolding next_entry
  next-serves m d req h = elim (Option-cases (peek d.queue)) [
    | inl z ↦ ground (arith, z, h)
    | inr (e, z) ↦ (e, ground (arith, z, h))
  ]

  -- A step of an idle track that runs a duel is its next entry's, or its baseline's.
  pub step-idle :
      (m : Meets) (d : Daemon) (req : Request)
      → d.queue.in_progress ≡ none
      → (step spec m d).ran ≡ some req
      → (step spec m d ≡ next_entry spec m d)
        ⊎ ((base : String × String) × (step spec m d ≡ baseline_genesis spec m base d)
            × (current_king d.head ≡ none))
  unfolding step open_next
  step-idle m d req idle ran = elim (Bool-cases d.stalled) [
    | inl z ↦ ground (arith, idle, z, ran)
    | inr z ↦ elim (Option-cases (current_king d.head)) [
      | inl k ↦ elim (Option-cases spec.baseline) [
        | inl b ↦ inl (ground (arith, idle, z, k, b))
        | inr (base, b) ↦ inr (base, ground (arith, idle, z, k, b), k)
      ]
      | inr (king, k) ↦ inl (ground (arith, idle, z, k))
    ]
  ]

  -- A duel that a step opens is fought by another submission than the king of the head, for his crown, in a
  -- block past the queue's and the head's.
  pub step-opens :
      (m : Meets) (d : Daemon) (req : Request)
      → d.queue.in_progress ≡ none
      → (step spec m d).ran ≡ some req
      → (req.king ≡ current_king d.head)
        × (duels_itself req ≡ false)
        × (d.queue.block < req.block)
        × (head_block d.head < req.block)
  unfolding duels_itself
  step-opens m d req idle ran = elim (step-idle m d req idle ran) [
    | inl same ↦ ground (arith, ran-next m d req (rw (← same) ran), next_block-above d)
    | inr (base, same, k) ↦
        ground (arith, k, ran-baseline m base d req (rw (← same) ran), next_block-above d)
  ]
