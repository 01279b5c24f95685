-- ===== src/Queue/Lineage.antt =====
-- queue.py: `put_back` after `take`.
use mathlib.Core.List.{Perm}
use mathlib.Core.List.Perm
use icil_competition_orchest.Prelude.{
  ℕ, String, ◌≡◌, refl, List, [], ◌∷◌, Option, none, some, arith, eq_iff, eq_refl, inl, inr,
  find_first, Bool-cases,
}
use icil_competition_orchest.Queue.{QueueEntry, QueueState, has_key, without, take, put_back}
use icil_competition_orchest.Queue.Invariant.{UniqueKeys, without_absent, IsAbsent-without}

find_key :
    (key : String) (es : List QueueEntry) (e : QueueEntry)
    → find_first (has_key key) es ≡ some e
    → e.key ≡ key
find_key key [] e h = cc
find_key key (x ∷ es) e h = ground (arith, find_key key es e, eq_iff x.key key)

take_perm :
    (key : String) (es : List QueueEntry) (e : QueueEntry)
    → UniqueKeys es
    → find_first (has_key key) es ≡ some e
    → Perm (e ∷ without e.key es) es
take_perm key [] e u h = cc
take_perm key (x ∷ es) e u h = elim (Bool-cases (has_key key x)) [
  | inl hit ↦
      let same : e ∷ without e.key (x ∷ es) ≡ x ∷ es =
        ground (arith, eq_refl x.key, without_absent x.key es u.0) in
      rw same (Perm.refl (x ∷ es))
  | inr miss ↦
      let rest = take_perm key es e u.1 (ground arith) in
      let other : without e.key (x ∷ es) ≡ x ∷ without e.key es =
        ground (arith, find_key key es e, eq_iff x.key e.key, eq_iff x.key key) in
      rw other (Perm.trans (Perm.swap x e (without e.key es)) (Perm.cons x rest))
]

take_found :
    (key : String) (block : ℕ) (event_id : String) (now : Option String) (clock : String)
    (s : QueueState) (e : QueueEntry)
    → (take key block event_id now clock s).0 ≡ some e
    → find_first (has_key key) s.entries ≡ some e
unfolding take
take_found key block event_id now clock s e h = ground arith

-- An entry that was taken for a duel and put back after the duel went stale is the entry that waited
-- before, whatever fallback is offered: nothing is in progress then, and the queue holds what it held
-- before the duel, with that entry first.
pub put_back-take :
    (key : String) (block : ℕ) (event_id : String) (now : Option String) (clock : String)
    (fallback : Option QueueEntry) (s : QueueState) (e : QueueEntry)
    → UniqueKeys s.entries
    → (take key block event_id now clock s).0 ≡ some e
    → let (back, s') = put_back fallback (take key block event_id now clock s).1 in
      (e.key ≡ key)
      × (back ≡ some e)
      × (s'.in_progress ≡ none)
      × (s'.entries ≡ e ∷ without key s.entries)
      × Perm s'.entries s.entries
unfolding take put_back
put_back-take key block event_id now clock fallback s e u h =
    let found = take_found key block event_id now clock s e h in
    let own = find_key key s.entries e found in
    let once : without e.key (without e.key s.entries) ≡ without e.key s.entries =
      without_absent e.key (without e.key s.entries) (IsAbsent-without e.key s.entries) in
    let entries : e ∷ without e.key (without e.key s.entries) ≡ e ∷ without key s.entries =
      cc (once, own) in
    rw (found, take) (own, refl, refl, entries, rw once (take_perm key s.entries e u found))
