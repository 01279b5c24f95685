-- ===== src/Queue/Invariant.antt =====
-- queue.py: what every method keeps. One entry waits per key, each entry's key is its submission's, the
-- duel in progress is its recorded entry's, and no entry is stamped with a block past the counter.
mod Keys
pub use Keys.*
use icil_competition_orchest.Prelude.{
  ℕ, zero, suc, ◌≤◌, max, String, ◌≡◌, refl, true, false, not, List, [], ◌∷◌, ◌++◌, Option, none,
  some, All, All-append, All-keep, arith, eq_iff, Option-cases, find_first, length, inl, inr, ◌==s◌,
  ok, err,
}
use icil_competition_orchest.Ids.{SubmissionRef, submission_key}
use icil_competition_orchest.Queue.{
  QueueEntry, InProgress, QueueState, ref, has_key, without, add, offer, remove, pop, take, mark,
  put_back, recorded, kept_entry, start, finish, advance_block, claim_block, set_block, waiting,
}

-- What holds of every entry, waiting or in progress, under the counter `block`.
abbrev pub EntryOk : (String → String) → ℕ → QueueEntry → Type 0
EntryOk sha block e = (e.key ≡ submission_key sha e.repo e.revision) × (e.commit_block ≤ block)

abbrev pub OptionOk : (String → String) → ℕ → Option QueueEntry → Type 0
OptionOk sha block none = Unit
OptionOk sha block (some e) = EntryOk sha block e

-- A reference whose key is its submission's.
abbrev pub IsKeyed : (String → String) → SubmissionRef → Type 0
IsKeyed sha r = r.key ≡ submission_key sha r.repo r.revision

-- The entry that a duel of challenger `c` was taken from, if it recorded one, is that challenger's.
abbrev HeldOk : (String → String) → ℕ → SubmissionRef → Option QueueEntry → Type 0
HeldOk sha block c none = Unit
HeldOk sha block c (some e) = (c ≡ ref e) × EntryOk sha block e

-- What holds of the duel in progress.
abbrev pub ProgressOk : (String → String) → ℕ → Option InProgress → Type 0
ProgressOk sha block none = Unit
ProgressOk sha block (some ip) = IsKeyed sha ip.challenger × HeldOk sha block ip.challenger ip.entry

pub record IsValid (sha : String → String) (s : QueueState) : Type 0 where
  pub unique : UniqueKeys s.entries
  pub entries_ok : All (EntryOk sha s.block) s.entries
  pub running_ok : ProgressOk sha s.block s.in_progress

EntryOk-mono :
    (sha : String → String) (m n : ℕ) (es : List QueueEntry)
    → m ≤ n
    → All (EntryOk sha m) es
    → All (EntryOk sha n) es
EntryOk-mono sha m n [] h a = tt
EntryOk-mono sha m n (e ∷ es) h a = ((a.0.0, omega arith), EntryOk-mono sha m n es h a.1)

HeldOk-mono :
    (sha : String → String) (m n : ℕ) (c : SubmissionRef) (o : Option QueueEntry)
    → m ≤ n
    → HeldOk sha m c o
    → HeldOk sha n c o
HeldOk-mono sha m n c none h a = tt
HeldOk-mono sha m n c (some e) h a = (a.0, (a.1.0, omega arith))

ProgressOk-mono :
    (sha : String → String) (m n : ℕ) (o : Option InProgress)
    → m ≤ n
    → ProgressOk sha m o
    → ProgressOk sha n o
ProgressOk-mono sha m n none h a = tt
ProgressOk-mono sha m n (some ip) h a = (a.0, HeldOk-mono sha m n ip.challenger ip.entry h a.1)

module _ (sha : String → String) where
  pub add-IsValid :
      (e : QueueEntry) (s : QueueState)
      → EntryOk sha s.block e
      → IsValid sha s
      → IsValid sha (add e s).1
  unfolding add
  add-IsValid e s fits v = record {
    unique =
        UniqueKeys-snoc e (without e.key s.entries) (IsAbsent-without e.key s.entries)
          (UniqueKeys-without e.key s.entries v.unique);
    entries_ok =
        All-append (EntryOk sha s.block) (without e.key s.entries) (e ∷ [])
          (All-keep (EntryOk sha s.block) _ s.entries v.entries_ok) (fits, tt);
    running_ok = v.running_ok;
  }

  pub offer-IsValid :
      (e : QueueEntry) (s : QueueState)
      → EntryOk sha s.block e
      → IsValid sha s
      → IsValid sha (offer e s).1
  unfolding offer
  offer-IsValid e s fits v = elim (Option-cases (waiting e.key s.entries)) [
    | inl none_waits ↦
        rw (none_waits, offer)
          (record {
            unique = UniqueKeys-snoc e s.entries (waiting-none e.key s.entries none_waits) v.unique;
            entries_ok =
                All-append (EntryOk sha s.block) s.entries (e ∷ []) v.entries_ok (fits, tt);
            running_ok = v.running_ok;
          })
    | inr (w, waits) ↦ rw (waits, offer) v
  ]

  pub remove-IsValid :
      (key : String) (s : QueueState) → IsValid sha s → IsValid sha (remove key s).1
  unfolding remove
  remove-IsValid key s v = record {
    unique = UniqueKeys-without key s.entries v.unique;
    entries_ok = All-keep (EntryOk sha s.block) _ s.entries v.entries_ok;
    running_ok = v.running_ok;
  }

  pub at_later_block :
      (s : QueueState) (block : ℕ)
      → s.block ≤ block
      → IsValid sha s
      → IsValid sha (record s { block = block })
  at_later_block s block h v = record {
    unique = v.unique;
    entries_ok = EntryOk-mono sha s.block block s.entries h v.entries_ok;
    running_ok = ProgressOk-mono sha s.block block s.in_progress h v.running_ok;
  }

  pop_tail :
      (es : List QueueEntry) (s : QueueState)
      → s.entries ≡ es
      → IsValid sha s
      → IsValid sha (pop s).1
  unfolding pop
  pop_tail [] s h v = rw (h, pop) v
  pop_tail (e ∷ es) s h v =
      let unique : UniqueKeys (e ∷ es) = rw h at v.unique in
      let entries_ok : All (EntryOk sha s.block) (e ∷ es) = rw h at v.entries_ok in
      rw (h, pop)
        (record { unique = unique.1; entries_ok = entries_ok.1; running_ok = v.running_ok })

  pub pop-IsValid : (s : QueueState) → IsValid sha s → IsValid sha (pop s).1
  pop-IsValid s v = pop_tail s.entries s refl v

  find_ok :
      (key : String) (block : ℕ) (es : List QueueEntry) (e : QueueEntry)
      → All (EntryOk sha block) es
      → find_first (has_key key) es ≡ some e
      → EntryOk sha block e
  find_ok key block [] e a h = cc
  find_ok key block (x ∷ es) e a h = ground (arith, find_ok key block es e a.1)

  pub take-IsValid :
      (key : String) (block : ℕ) (event_id : String) (now : Option String) (clock : String)
      (s : QueueState)
      → IsValid sha s
      → IsValid sha (take key block event_id now clock s).1
  unfolding take mark ref
  take-IsValid key block event_id now clock s v =
      elim (Option-cases (find_first (has_key key) s.entries)) [
        | inl gone ↦ rw (gone, take) v
        | inr (e, found) ↦
            let held = find_ok key s.block s.entries e v.entries_ok found in
            rw (found, take)
              (record {
                unique = UniqueKeys-without e.key s.entries v.unique;
                entries_ok =
                    EntryOk-mono sha s.block (max s.block block) (without e.key s.entries)
                      (omega arith) (All-keep (EntryOk sha s.block) _ s.entries v.entries_ok);
                running_ok = (held.0, (refl, (held.0, omega arith)));
              })
      ]

  held_ok :
      (fallback : Option QueueEntry) (c : SubmissionRef) (o : Option QueueEntry) (block : ℕ)
      (e : QueueEntry)
      → OptionOk sha block fallback
      → HeldOk sha block c o
      → kept_entry o fallback ≡ some e
      → EntryOk sha block e
  unfolding kept_entry
  held_ok none c none block e fits v h = cc
  held_ok (some f) c none block e fits v h = ground arith
  held_ok fallback c (some f) block e fits v h = let own = v.1 in ground arith

  recorded_ok :
      (fallback : Option QueueEntry) (ip : Option InProgress) (block : ℕ) (e : QueueEntry)
      → OptionOk sha block fallback
      → ProgressOk sha block ip
      → recorded ip fallback ≡ some e
      → EntryOk sha block e
  unfolding recorded
  recorded_ok fallback none block e fits v h = cc
  recorded_ok fallback (some ip) block e fits v h =
      held_ok fallback ip.challenger ip.entry block e fits v.1 h

  pub put_back-IsValid :
      (fallback : Option QueueEntry) (s : QueueState)
      → OptionOk sha s.block fallback
      → IsValid sha s
      → IsValid sha (put_back fallback s).1
  unfolding put_back
  put_back-IsValid fallback s fits v = elim (Option-cases (recorded s.in_progress fallback)) [
    | inl nothing ↦
        rw (nothing, put_back)
          (record { unique = v.unique; entries_ok = v.entries_ok; running_ok = tt })
    | inr (e, back) ↦
        rw (back, put_back)
          (record {
            unique =
                (IsAbsent-without e.key s.entries, UniqueKeys-without e.key s.entries v.unique);
            entries_ok = (
              recorded_ok fallback s.in_progress s.block e fits v.running_ok back,
              All-keep (EntryOk sha s.block) _ s.entries v.entries_ok,
            );
            running_ok = tt;
          })
  ]
