-- ===== src/Queue/Validity.antt =====
-- queue.py: calls of the methods keep the file valid.
use icil_competition_orchest.Prelude.{
  ℕ, ◌+◌, ◌≤◌, max, String, ◌≡◌, refl, Option, arith, Result, ok, err,
}
use icil_competition_orchest.Ids.{SubmissionRef, RefError, submission_key, resolved}
use icil_competition_orchest.Queue.{QueueState, empty, new_entry, start, finish}
use icil_competition_orchest.Queue.File.{
  Disk, missing, unreadable, holds, load, QueueError, Call, adds, offers, removes, pops, takes,
  puts_back, starts, finishes, advances, claims, sets, change, lift_ref, checked, World, call,
  locked,
}
use icil_competition_orchest.Queue.Invariant.{
  EntryOk, OptionOk, IsKeyed, IsValid, add-IsValid, offer-IsValid, remove-IsValid, pop-IsValid,
  take-IsValid, put_back-IsValid, at_later_block,
}

-- What a caller answers for: a fallback that is an entry of this queue's, a challenger under its
-- submission's key, and a counter that is not set back.
abbrev pub Allowed : (String → String) → QueueState → Call → Type 0
Allowed sha s (puts_back fallback) = OptionOk sha s.block fallback
Allowed sha s (starts event_id challenger now clock) = IsKeyed sha challenger
Allowed sha s (sets block) = s.block ≤ block
Allowed sha s _ = Unit

module _ (sha : String → String) where
  new_entry_ok :
      (repo revision : String) (r : SubmissionRef) (s : QueueState) (size : Option String)
      (source : String) (now : Option String) (clock : String)
      → resolved sha repo revision ≡ ok r
      → EntryOk sha s.block (new_entry s r size source now clock)
  unfolding new_entry resolved submission_key
  new_entry_ok repo revision r s size source now clock h = ground arith

  lift_ref-eq-ok :
      (m : Result RefError SubmissionRef) (r : SubmissionRef) → lift_ref m ≡ ok r → m ≡ ok r
  lift_ref-eq-ok (ok x) r h = ground arith
  lift_ref-eq-ok (err e) r h = cc

  change-IsValid :
      (c : Call) (r : SubmissionRef) (s : QueueState)
      → checked sha c ≡ ok r
      → Allowed sha s c
      → IsValid sha s
      → IsValid sha (change r c s).1
  unfolding change checked start finish
  change-IsValid (adds repo revision size source now clock) r s h a v =
      add-IsValid sha (new_entry s r size source now clock) s
        (new_entry_ok repo revision r s size source now clock
          (lift_ref-eq-ok (resolved sha repo revision) r h))
        v
  change-IsValid (offers repo revision size source now clock) r s h a v =
      offer-IsValid sha (new_entry s r size source now clock) s
        (new_entry_ok repo revision r s size source now clock
          (lift_ref-eq-ok (resolved sha repo revision) r h))
        v
  change-IsValid (removes key) r s h a v = remove-IsValid sha key s v
  change-IsValid pops r s h a v = pop-IsValid sha s v
  change-IsValid (takes key block eid now clock) r s h a v =
      take-IsValid sha key block eid now clock s v
  change-IsValid (puts_back fallback) r s h a v = put_back-IsValid sha fallback s a v
  change-IsValid (starts eid c now clock) r s h a v = record {
    unique = v.unique;
    entries_ok = v.entries_ok;
    running_ok = (a, tt);
  }
  change-IsValid finishes r s h a v = record {
    unique = v.unique;
    entries_ok = v.entries_ok;
    running_ok = tt;
  }
  change-IsValid advances r s h a v = at_later_block sha s (s.block + 1) (omega arith) v
  change-IsValid (claims floor) r s h a v =
      at_later_block sha s (max s.block floor + 1) (omega arith) v
  change-IsValid (sets block) r s h a v = at_later_block sha s block a v

  abbrev pub DiskValid : Disk → Type 0
  DiskValid missing = Unit
  DiskValid unreadable = Unit
  DiskValid (holds s) = IsValid sha s

  abbrev pub DiskAllowed : Disk → Call → Type 0
  DiskAllowed missing c = Allowed sha empty c
  DiskAllowed unreadable c = Unit
  DiskAllowed (holds s) c = Allowed sha s c

  empty-IsValid : IsValid sha empty
  empty-IsValid = record { unique = tt; entries_ok = tt; running_ok = tt }

  locked-IsValid :
      (c : Call) (r : SubmissionRef) (d : Disk) (i : ℕ) (states : ℕ → QueueState)
      → checked sha c ≡ ok r
      → DiskAllowed d c
      → DiskValid d
      → DiskValid (locked i (change r c) (record { disk = d; states = states })).1.disk
  unfolding locked load
  locked-IsValid c r missing i states h a v = change-IsValid c r empty h a empty-IsValid
  locked-IsValid c r unreadable i states h a v = tt
  locked-IsValid c r (holds s) i states h a v = change-IsValid c r s h a v

  call_cases :
      (i : ℕ) (c : Call) (w : World) (m : Result QueueError SubmissionRef)
      → checked sha c ≡ m
      → DiskAllowed w.disk c
      → DiskValid w.disk
      → DiskValid (call sha i c w).1.disk
  unfolding call
  call_cases i c w (err e) h a v = rw (h, call) v
  call_cases i c w (ok r) h a v = rw (h, call) (locked-IsValid c r w.disk i w.states h a v)

  -- A call of any method, by any of the objects that hold the file, keeps the file valid: one entry
  -- for each key, every entry under the key of its own repository and revision, the duel in progress
  -- under its challenger's, and where it recorded the entry that it was taken from, that entry the
  -- challenger's and valid too, and no entry stamped past the block counter. The conditions are on
  -- three calls: the fallback of a `put_back` is such an entry, the challenger of a `start` is under
  -- its submission's key, and a `set_block` does not set the counter back.
  pub call-DiskValid :
      (i : ℕ) (c : Call) (w : World)
      → DiskAllowed w.disk c
      → DiskValid w.disk
      → DiskValid (call sha i c w).1.disk
  call-DiskValid i c w a v = call_cases i c w (checked sha c) refl a v
