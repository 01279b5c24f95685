-- ===== src/Queue/Handles.antt =====
-- queue.py: several objects hold one file. What each loaded before never reaches the file.
use icil_competition_orchest.Prelude.{ℕ, String, ◌≡◌, ap, List, [], ◌∷◌, arith, Result}
use icil_competition_orchest.Queue.File.{
  Disk, unreadable, load, QueueError, Call, Reply, World, locked, call, run,
}

-- What one object after another is told, and the file that is left.
abbrev pub Told : Type 0
Told = List (Result QueueError Reply) × Disk

module _ (sha : String → String) where
  pub told : World → List (ℕ × Call) → Told
  told w [] = ([], w.disk)
  told w ((i, c) ∷ cs) = let (r, w') = call sha i c w in let (rs, d) = told w' cs in (r ∷ rs, d)

  -- The same calls made by one object, which has loaded nothing.
  abbrev pub alone : List (ℕ × Call) → List (ℕ × Call)
  alone [] = []
  alone ((i, c) ∷ cs) = (0, c) ∷ alone cs

  call-reply :
      (i j : ℕ) (c : Call) (v w : World) → v.disk ≡ w.disk → (call sha i c v).0 ≡ (call sha j c w).0
  unfolding call locked
  call-reply i j c v w h = ground arith

  call-disk :
      (i j : ℕ) (c : Call) (v w : World)
      → v.disk ≡ w.disk
      → (call sha i c v).1.disk ≡ (call sha j c w).1.disk
  unfolding call locked
  call-disk i j c v w h = ground arith

  -- Whatever the objects that hold one file have loaded before, and whichever of them makes each
  -- call: the replies and the file are those of a single object that makes the same calls in the same
  -- order. No writer saves a list that another has already changed.
  pub told-alone :
      (v w : World) (cs : List (ℕ × Call)) → v.disk ≡ w.disk → told v cs ≡ told w (alone cs)
  unfolding told
  told-alone v w [] h = ap (λ d. ([], d)) h
  told-alone v w ((i, c) ∷ cs) h = cc (
    call-reply i 0 c v w h,
    told-alone (call sha i c v).1 (call sha 0 c w).1 cs (call-disk i 0 c v w h),
  )

  -- A queue file that cannot be read is never replaced: after any calls it still stands there, and so
  -- no waiting entry and no block is lost by taking it for an empty queue.
  pub run-unreadable :
      (w : World) (cs : List (ℕ × Call)) → w.disk ≡ unreadable → (run sha w cs).disk ≡ unreadable
  unfolding run call locked load
  run-unreadable w [] h = h
  run-unreadable w ((i, c) ∷ cs) h = run-unreadable (call sha i c w).1 cs (ground arith)
