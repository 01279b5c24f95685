-- ===== src/Duel/Orphans/Reaped.antt =====
-- duel/orphans.py: what a reaping kills, and what it leaves alone.
use icil_competition_orchest.Prelude.{
  ℕ, ◌≡◌, ◌⊎◌, refl, ap, ◌∙◌, String, Bool, true, false, not, ◌&&◌, List, [], ◌∷◌, ◌++◌, none, some,
  ltb, ◌==◌, keep, any, All, All-keep, All-append, Bool-cases, Option-cases, inl, inr, arith,
}
use icil_competition_orchest.Duel.Orphans.{
  Process, Group, LedgerFile, missing, int_of, read, stat, is_member, same_boot, same_start,
  leader_fits, still_recorded, kill, reversed, reap_one, reap_all, reap_ledger,
}

-- The ledger names a group for this boot.
abbrev pub names : String → ℕ → Group → Bool
names boot n g = elim (int_of g.pgid) [
  | none ↦ false
  | some pgid ↦ (pgid == n) && (ltb 1 pgid && same_boot boot g.boot)
]

-- No process with the group's id started at another time than the ledger says.
abbrev pub Unreused : Group → ℕ → List Process → Type 0
Unreused g n procs = All (λ (p : Process). p.pid ≡ n → same_start p g.start ≡ true) procs

any-keep :
    (q p : Process → Bool) (procs : List Process)
    → any q procs ≡ false
    → any q (keep p procs) ≡ false
any-keep q p [] nowhere = refl
any-keep q p (x ∷ xs) nowhere =
    let here : any q xs ≡ false = ground arith in let ih = any-keep q p xs here in ground arith

kill-clears : (n : ℕ) (procs : List Process) → any (is_member n) (kill n procs) ≡ false
unfolding kill is_member
kill-clears n [] = refl
kill-clears n (p ∷ ps) = let ih = kill-clears n ps in ground arith

leader_fits-Unreused :
    (g : Group) (n : ℕ) (procs : List Process) → Unreused g n procs → leader_fits g n procs ≡ true
unfolding leader_fits stat
leader_fits-Unreused g n [] fits = refl
leader_fits-Unreused g n (p ∷ ps) fits = elim (Bool-cases (p.pid == n)) [
  | inl leads ↦ rw (leads, leader_fits) (fits.0 (ground arith))
  | inr another ↦ rw (another, leader_fits) (leader_fits-Unreused g n ps fits.1)
]

keep-kill :
    (q : Process → Bool) (n : ℕ) (procs : List Process)
    → ((p : Process) → p.group ≡ n → q p ≡ false)
    → keep q (kill n procs) ≡ keep q procs
unfolding kill
keep-kill q n [] others = refl
keep-kill q n (p ∷ ps) others =
    let ih = keep-kill q n ps others in
    elim (Bool-cases (p.group == n)) [
      | inl member ↦ let dropped = others p (ground arith) in ground arith
      | inr outside ↦ ground arith
    ]

module _ (boot : String) (may_kill : ℕ → Bool) where
  still_recorded-names :
      (g : Group) (procs : List Process) (n : ℕ)
      → still_recorded boot g procs ≡ some n
      → names boot n g ≡ true
  unfolding still_recorded
  still_recorded-names g procs n same = elim (Option-cases (int_of g.pgid)) [
    | inl none_there ↦ ground arith
    | inr (m, there) ↦ ground arith
  ]

  -- A reaping of one group leaves the table, or what is left of it by a kill of a group that is named.
  reap_one-cases :
      (g : Group) (procs : List Process)
      → ((reap_one boot may_kill g procs).1 ≡ procs)
        ⊎ ((n : ℕ) × (names boot n g ≡ true) × ((reap_one boot may_kill g procs).1 ≡ kill n procs))
  unfolding reap_one
  reap_one-cases g procs = elim (Option-cases (still_recorded boot g procs)) [
    | inl other ↦ inl (rw (other, reap_one) refl)
    | inr (n, same) ↦ elim (Bool-cases (may_kill n)) [
      | inl able ↦ inr (n, still_recorded-names g procs n same, rw (same, able, reap_one) refl)
      | inr unable ↦ inl (rw (same, unable, reap_one) refl)
    ]
  ]

  still_recorded-alive :
      (g : Group) (n : ℕ) (procs : List Process)
      → names boot n g ≡ true
      → leader_fits g n procs ≡ true
      → any (is_member n) procs ≡ true
      → still_recorded boot g procs ≡ some n
  unfolding still_recorded
  still_recorded-alive g n procs named fits alive = elim (Option-cases (int_of g.pgid)) [
    | inl none_there ↦ ground arith
    | inr (m, there) ↦
        let same : m ≡ n = ground arith in
        let there' : int_of g.pgid ≡ some n = there ∙ ap some same in
        rw (there', fits, alive, still_recorded) (ground arith)
  ]

  reap_one-keeps :
      (q : Process → Bool) (g : Group) (procs : List Process)
      → any q procs ≡ false
      → any q (reap_one boot may_kill g procs).1 ≡ false
  reap_one-keeps q g procs nowhere = elim (reap_one-cases g procs) [
    | inl same ↦ rw same nowhere
    | inr (n, named, killed) ↦ rw killed (unfold kill in (any-keep q _ procs nowhere))
  ]

  reap_one-clears :
      (g : Group) (n : ℕ) (procs : List Process)
      → names boot n g ≡ true
      → may_kill n ≡ true
      → Unreused g n procs
      → any (is_member n) (reap_one boot may_kill g procs).1 ≡ false
  unfolding reap_one
  reap_one-clears g n procs named able unreused = elim (Bool-cases (any (is_member n) procs)) [
    | inl alive ↦
        let recorded =
          still_recorded-alive g n procs named (leader_fits-Unreused g n procs unreused) alive in
        rw (recorded, able, reap_one) (kill-clears n procs)
    | inr gone ↦ reap_one-keeps (is_member n) g procs gone
  ]

  reap_all-keeps :
      (q : Process → Bool) (gs : List Group) (procs : List Process)
      → any q procs ≡ false
      → any q (reap_all boot may_kill gs procs).1 ≡ false
  unfolding reap_all
  reap_all-keeps q [] procs nowhere = nowhere
  reap_all-keeps q (g ∷ gs) procs nowhere =
      reap_all-keeps q gs (reap_one boot may_kill g procs).1 (reap_one-keeps q g procs nowhere)

  reap_one-Unreused :
      (h g : Group) (n : ℕ) (procs : List Process)
      → Unreused g n procs
      → Unreused g n (reap_one boot may_kill h procs).1
  reap_one-Unreused h g n procs unreused = elim (reap_one-cases h procs) [
    | inl same ↦ rw same unreused
    | inr (m, named, killed) ↦ rw killed (unfold kill in (All-keep _ _ procs unreused))
  ]

  reap_all-clears :
      (before after : List Group) (g : Group) (n : ℕ) (procs : List Process)
      → names boot n g ≡ true
      → may_kill n ≡ true
      → Unreused g n procs
      → any (is_member n) (reap_all boot may_kill (before ++ (g ∷ after)) procs).1 ≡ false
  unfolding reap_all
  reap_all-clears [] after g n procs named able unreused =
      reap_all-keeps (is_member n) after (reap_one boot may_kill g procs).1
        (reap_one-clears g n procs named able unreused)
  reap_all-clears (h ∷ before) after g n procs named able unreused =
      reap_all-clears before after g n (reap_one boot may_kill h procs).1 named able
        (reap_one-Unreused h g n procs unreused)

  reap_all-spares :
      (q : Process → Bool) (gs : List Group) (procs : List Process)
      → All (λ (g : Group). (p : Process) → names boot p.group g ≡ true → q p ≡ false) gs
      → keep q (reap_all boot may_kill gs procs).1 ≡ keep q procs
  unfolding reap_all
  reap_all-spares q [] procs others = refl
  reap_all-spares q (g ∷ gs) procs others =
      reap_all-spares q gs (reap_one boot may_kill g procs).1 others.1
      ∙ (elim (reap_one-cases g procs) [
        | inl same ↦ ap (keep q) same
        | inr (n, named, killed) ↦
            ap (keep q) killed ∙ keep-kill q n procs (λ p member. others.0 p (rw member named))
      ])

append_assoc : (xs ys zs : List Group) → (xs ++ ys) ++ zs ≡ xs ++ (ys ++ zs)
append_assoc [] ys zs = refl
append_assoc (x ∷ xs) ys zs = ap (λ l. x ∷ l) (append_assoc xs ys zs)

reversed-split :
    (older newer : List Group) (g : Group)
    → reversed (older ++ (g ∷ newer)) ≡ reversed newer ++ (g ∷ reversed older)
unfolding reversed
reversed-split [] newer g = refl
reversed-split (o ∷ older) newer g =
    ap (λ l. l ++ (o ∷ [])) (reversed-split older newer g)
    ∙ append_assoc (reversed newer) (g ∷ reversed older) (o ∷ [])

All-reversed : (Q : Group → Type 0) (gs : List Group) → All Q gs → All Q (reversed gs)
unfolding reversed
All-reversed Q [] there = tt
All-reversed Q (g ∷ gs) there =
    All-append Q (reversed gs) (g ∷ []) (All-reversed Q gs there.1) (there.0, tt)

-- A process group that stands anywhere in the ledger, for this boot, has no live process left once the
-- ledger is reaped, and the ledger is gone: its leader, if a process has its id, started when the ledger
-- says, and it may be killed.
pub reap_ledger-clears :
    (boot : String) (may_kill : ℕ → Bool) (file : LedgerFile) (older newer : List Group) (g : Group)
    (n : ℕ) (procs : List Process)
    → read file ≡ older ++ (g ∷ newer)
    → names boot n g ≡ true
    → may_kill n ≡ true
    → Unreused g n procs
    → (any (is_member n) (reap_ledger boot may_kill file procs).1 ≡ false)
      × ((reap_ledger boot may_kill file procs).2 ≡ missing)
unfolding reap_ledger
reap_ledger-clears boot may_kill file older newer g n procs there named able unreused =
    let order = ap reversed there ∙ reversed-split older newer g in
    (
      rw order (
          reap_all-clears boot may_kill (reversed newer) (reversed older) g n procs named able
            unreused),
      refl,
    )

All-map : (Q R : Group → Type 0) (gs : List Group) → ((g : Group) → Q g → R g) → All Q gs → All R gs
All-map Q R [] onto there = tt
All-map Q R (g ∷ gs) onto there = (onto g there.0, All-map Q R gs onto there.1)

any-names :
    (boot : String) (gs : List Group)
    → All
        (λ (g : Group).
          (p : Process) → names boot p.group g ≡ true → not (any (names boot p.group) gs) ≡ false)
        gs
any-names boot [] = tt
any-names boot (g ∷ gs) = (
  λ p named. rw named refl,
  All-map _ _ gs (λ h further p named. let there = further p named in ground arith)
      (any-names boot gs),
)

-- The processes of groups that the ledger does not name for this boot are left, all of them and in their
-- order, whatever the ledger holds and whatever can be killed.
pub reap_ledger-spares :
    (boot : String) (may_kill : ℕ → Bool) (file : LedgerFile) (procs : List Process)
    → keep
        (λ (p : Process). not (any (names boot p.group) (read file)))
        (reap_ledger boot may_kill file procs).1
      ≡ keep (λ (p : Process). not (any (names boot p.group) (read file))) procs
unfolding reap_ledger
reap_ledger-spares boot may_kill file procs =
    reap_all-spares boot may_kill _ (reversed (read file)) procs
      (All-reversed _ (read file) (any-names boot (read file)))
