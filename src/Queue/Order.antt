-- ===== src/Queue/Order.antt =====
-- queue.py: the place of an entry, as `add`, `offer` and the published snapshot give it.
use icil_competition_orchest.Prelude.{
  ℕ, zero, suc, ◌+◌, ◌-◌, String, ◌≡◌, refl, false, List, [], ◌∷◌, ◌++◌, Option, some, arith,
  eq_iff, Option-cases, length, get_elem?, length-append, inl, inr,
}
use icil_competition_orchest.Ids.{SubmissionRef}
use icil_competition_orchest.Queue.{QueueEntry, QueueState, without, waiting, add, offer}
use icil_competition_orchest.Queue.Invariant.{IsAbsent, IsAbsent-without, waiting-none}
use icil_competition_orchest.Queue.File.{rows, snapshot}

waiting-snoc :
    (e : QueueEntry) (key : String) (es : List QueueEntry)
    → key ≡ e.key
    → IsAbsent key es
    → waiting key (es ++ e ∷ []) ≡ some (e, length es)
unfolding waiting
waiting-snoc e key [] h a = ground (arith, eq_iff e.key key)
waiting-snoc e key (x ∷ es) h a = ground (arith, waiting-snoc e key es h)

add-last :
    (e : QueueEntry) (key : String) (s : QueueState)
    → key ≡ e.key
    → waiting key (add e s).1.entries ≡ some (e, length (without e.key s.entries))
unfolding add
add-last e key s h =
    waiting-snoc e key (without e.key s.entries) h (rw h (IsAbsent-without e.key s.entries))

-- A submission offered again after `add` queued it keeps the entry and the place that `add` gave it,
-- and changes nothing.
pub offer-add :
    (e again : QueueEntry) (s : QueueState)
    → again.key ≡ e.key
    → offer again (add e s).1 ≡ (((add e s).0.0, (add e s).0.1, false), (add e s).1)
unfolding add offer
offer-add e again s h =
    ground (arith, add-last e again.key s h, length-append (without e.key s.entries) (e ∷ []))

-- A submission offered twice, whether or not it waited before, is told the same entry and the same
-- place the second time, that nothing was queued, and nothing changes.
pub offer-offer :
    (e again : QueueEntry) (s : QueueState)
    → again.key ≡ e.key
    → offer again (offer e s).1 ≡ (((offer e s).0.0, (offer e s).0.1, false), (offer e s).1)
unfolding offer
offer-offer e again s h = elim (Option-cases (waiting e.key s.entries)) [
  | inl absent ↦ ground (
    arith,
    waiting-snoc e again.key s.entries h (rw h (waiting-none e.key s.entries absent)),
    length-append s.entries (e ∷ []),
  )
  | inr (w, waits) ↦ ground arith
]

row_at :
    (key : String) (n : ℕ) (es : List QueueEntry) (e : QueueEntry) (i : ℕ)
    → waiting key es ≡ some (e, i)
    → get_elem? (rows n es) i
      ≡ some (record { position = n + i + 1; row = e; skip_model_config_check = false })
unfolding waiting rows
row_at key n [] e i h = cc
row_at key n (x ∷ es) e zero h = ground arith
row_at key n (x ∷ es) e (suc i) h = ground (arith, row_at key (suc n) es e i)

position_from_zero : (i : ℕ) → 0 + i + 1 ≡ i + 1
position_from_zero i = omega arith

waiting-offer :
    (e : QueueEntry) (s : QueueState)
    → (i : ℕ) × ((offer e s).0.1 ≡ i + 1)
      × (waiting e.key (offer e s).1.entries ≡ some ((offer e s).0.0, i))
unfolding offer
waiting-offer e s = elim (Option-cases (waiting e.key s.entries)) [
  | inl absent ↦
      rw (absent, offer)
        (
          length s.entries,
          omega (arith, length-append s.entries (e ∷ [])),
          waiting-snoc e e.key s.entries refl (waiting-none e.key s.entries absent),
        )
  | inr ((w, i), waits) ↦ rw (waits, offer) (i, refl, waits)
]

-- The position that `offer` answers is the one that the next published snapshot shows for the same
-- entry: row `position - 1` of the snapshot is that entry, and its `position` is the answer.
pub snapshot-offer :
    (e : QueueEntry) (s : QueueState) (track : String) (king : Option SubmissionRef) (schema : ℕ)
    (now : Option String) (clock : String)
    → get_elem? (snapshot track king schema now clock (offer e s).1).entries ((offer e s).0.1 - 1)
      ≡ some (record {
        position = (offer e s).0.1;
        row = (offer e s).0.0;
        skip_model_config_check = false;
      })
unfolding snapshot
snapshot-offer e s track king schema now clock =
    let (i, at, waits) = waiting-offer e s in
    let index : (offer e s).0.1 - 1 ≡ i = omega (arith, at) in
    rw index
      (cc (row_at e.key 0 (offer e s).1.entries (offer e s).0.0 i waits, at, position_from_zero i))
