-- ===== src/Queue/Invariant/Keys.antt =====
-- Lists of entries in which no key stands twice.
use icil_competition_orchest.Prelude.{
  String, ◌≡◌, refl, false, List, [], ◌∷◌, ◌++◌, none, any, arith, eq_iff, ◌==s◌,
}
use icil_competition_orchest.Queue.{QueueEntry, has_key, without, waiting}

abbrev pub IsAbsent : String → List QueueEntry → Type 0
IsAbsent key es = any (has_key key) es ≡ false

abbrev pub UniqueKeys : List QueueEntry → Type 0
UniqueKeys [] = Unit
UniqueKeys (e ∷ es) = IsAbsent e.key es × UniqueKeys es

pub IsAbsent-without : (key : String) (es : List QueueEntry) → IsAbsent key (without key es)
IsAbsent-without key [] = refl
IsAbsent-without key (e ∷ es) = ground (arith, IsAbsent-without key es)

without_keeps_IsAbsent :
    (key other : String) (es : List QueueEntry) → IsAbsent key es → IsAbsent key (without other es)
without_keeps_IsAbsent key other [] h = refl
without_keeps_IsAbsent key other (e ∷ es) h = ground (arith, without_keeps_IsAbsent key other es)

pub UniqueKeys-without :
    (key : String) (es : List QueueEntry) → UniqueKeys es → UniqueKeys (without key es)
UniqueKeys-without key [] u = tt
UniqueKeys-without key (e ∷ es) u =
    ground (arith, without_keeps_IsAbsent e.key key es u.0, UniqueKeys-without key es u.1)

IsAbsent-snoc :
    (key : String) (e : QueueEntry) (es : List QueueEntry)
    → IsAbsent key es
    → (key ==s e.key) ≡ false
    → IsAbsent key (es ++ e ∷ [])
IsAbsent-snoc key e [] h d = ground (arith, eq_iff key e.key, eq_iff e.key key)
IsAbsent-snoc key e (x ∷ es) h d = ground (arith, IsAbsent-snoc key e es)

pub UniqueKeys-snoc :
    (e : QueueEntry) (es : List QueueEntry)
    → IsAbsent e.key es
    → UniqueKeys es
    → UniqueKeys (es ++ e ∷ [])
UniqueKeys-snoc e [] h u = (refl, tt)
UniqueKeys-snoc e (x ∷ es) h u =
    (IsAbsent-snoc x.key e es u.0 (ground arith), UniqueKeys-snoc e es (ground arith) u.1)

pub waiting-none : (key : String) (es : List QueueEntry) → waiting key es ≡ none → IsAbsent key es
unfolding waiting
waiting-none key [] h = refl
waiting-none key (e ∷ es) h = ground (arith, waiting-none key es)

pub without_absent : (key : String) (es : List QueueEntry) → IsAbsent key es → without key es ≡ es
without_absent key [] h = refl
without_absent key (e ∷ es) h = ground (arith, without_absent key es)
