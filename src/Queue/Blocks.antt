-- ===== src/Queue/Blocks.antt =====
-- queue.py: the block counter. Only `set_block` can move it back.
use icil_competition_orchest.Prelude.{
  ℕ, ◌≤◌, ◌<◌, String, ◌≡◌, refl, List, [], ◌∷◌, arith, Result, ok, err,
}
use icil_competition_orchest.Ids.{SubmissionRef}
use icil_competition_orchest.Queue.{QueueState, empty}
use icil_competition_orchest.Queue.File.{
  Disk, missing, unreadable, holds, load, QueueError, Call, claims, sets, at_block, change, checked,
  World, locked, call, run,
}

abbrev pub disk_block : Disk → ℕ
disk_block missing = 0
disk_block unreadable = 0
disk_block (holds s) = s.block

abbrev pub NotSets : Call → Type 0
NotSets (sets b) = ⊥
NotSets c = Unit

abbrev pub NeverSet : List (ℕ × Call) → Type 0
NeverSet [] = Unit
NeverSet ((i, c) ∷ cs) = NotSets c × NeverSet cs

change-block-le :
    (c : Call) (r : SubmissionRef) (s : QueueState) → NotSets c → s.block ≤ (change r c s).1.block
unfolding change
change-block-le (sets b) r s h = absurd h
change-block-le _ r s h = ground arith

locked-block-le :
    (c : Call) (r : SubmissionRef) (i : ℕ) (d : Disk) (states : ℕ → QueueState)
    → NotSets c
    → disk_block d
      ≤ disk_block (locked i (change r c) (record { disk = d; states = states })).1.disk
unfolding locked load
locked-block-le c r i missing states h = change-block-le c r empty h
locked-block-le c r i unreadable states h = omega arith
locked-block-le c r i (holds s) states h = change-block-le c r s h

module _ (sha : String → String) where
  call_cases :
      (i : ℕ) (c : Call) (w : World) (m : Result QueueError SubmissionRef)
      → checked sha c ≡ m
      → NotSets c
      → disk_block w.disk ≤ disk_block (call sha i c w).1.disk
  unfolding call
  call_cases i c w (err e) h n = rw (h, call) (omega arith)
  call_cases i c w (ok r) h n = rw (h, call) (locked-block-le c r i w.disk w.states n)

  run-block-le :
      (w : World) (cs : List (ℕ × Call))
      → NeverSet cs
      → disk_block w.disk ≤ disk_block (run sha w cs).disk
  unfolding run
  run-block-le w [] h = omega arith
  run-block-le w ((i, c) ∷ cs) h =
      omega
        (arith, call_cases i c w (checked sha c) refl h.0, run-block-le (call sha i c w).1 cs h.1)

  claim_block_lem :
      (i floor b : ℕ) (w : World)
      → (call sha i (claims floor) w).0 ≡ ok (at_block b)
      → (disk_block w.disk < b)
        × (floor < b)
        × (disk_block (call sha i (claims floor) w).1.disk ≡ b)
  unfolding call locked load change checked
  claim_block_lem i floor b w h = ground arith

  -- No two duels run on the command line get one block: whatever was called in between, other than
  -- `set_block`, by whichever objects, the later `claim_block` answers a block past the earlier one
  -- and past its own floor.
  pub claims_rise :
      (i j floor later a b : ℕ) (w : World) (cs : List (ℕ × Call))
      → NeverSet cs
      → (call sha i (claims floor) w).0 ≡ ok (at_block a)
      → (call sha j (claims later) (run sha (call sha i (claims floor) w).1 cs)).0 ≡ ok (at_block b)
      → (a < b) × (later < b)
  claims_rise i j floor later a b w cs n first second = omega (
    arith,
    claim_block_lem i floor a w first,
    run-block-le (call sha i (claims floor) w).1 cs n,
    claim_block_lem j later b (run sha (call sha i (claims floor) w).1 cs) second,
  )
