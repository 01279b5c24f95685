-- ===== src/Manifest/Names.antt =====
-- packages/icil-policy/src/icil_policy/manifest.py: `_POLICY`, character by character, against identifiers
-- that are joined by dots and a colon.
use icil_competition_orchest.Prelude.{
  ℕ, ◌≡◌, refl, ap, String, Bool, true, false, ◌&&◌, ◌||◌, leb, List, [], ◌∷◌, ◌++◌, some, ◌==◌,
  all, codes, Bool-cases, Option-cases, inl, inr, arith,
}
use icil_competition_orchest.Manifest.{
  is_first, is_further, policy_step, policy_from, is_policy, before_colon, after_colon,
}

-- A letter or `_`, and that or a digit, of ASCII.
abbrev is_start : ℕ → Bool
is_start c = (c == b'_') || ((leb b'A' c && leb c b'Z') || (leb b'a' c && leb c b'z'))

abbrev is_part : ℕ → Bool
is_part c = is_start c || (leb b'0' c && leb c b'9')

-- An identifier of ASCII letters, digits and `_`, which begins with no digit.
abbrev pub is_ident : List ℕ → Bool
is_ident [] = false
is_ident (c ∷ cs) = is_start c && all is_part cs

-- Identifiers, each after a dot, and the name of a module: an identifier and any more after dots.
abbrev after_dots : List (List ℕ) → List ℕ
after_dots [] = []
after_dots (m ∷ ms) = 46 ∷ m ++ after_dots ms

abbrev pub IsModule : List ℕ → Type 0
IsModule l =
    (n : List ℕ) × (ms : List (List ℕ)) × (is_ident n ≡ true)
    × (all is_ident ms ≡ true)
    × (l ≡ n ++ after_dots ms)

policy_from-step :
    (colon fresh : Bool) (c : ℕ) (cs : List ℕ)
    → policy_from colon fresh (c ∷ cs) ≡ true
    → (colon' : Bool) × (fresh' : Bool) × (policy_step colon fresh c ≡ some (colon', fresh'))
      × (policy_from colon' fresh' cs ≡ true)
unfolding policy_from
policy_from-step colon fresh c cs through = elim (Option-cases (policy_step colon fresh c)) [
  | inl stuck ↦ ground arith
  | inr ((colon', fresh'), on) ↦ (colon', fresh', on, ground arith)
]

-- After the colon: the rest of an identifier, and a whole one.
policy_from-rest : (cs : List ℕ) → policy_from true false cs ≡ true → all is_part cs ≡ true
policy_from-rest [] through = refl
policy_from-rest (c ∷ cs) through =
    let (colon', fresh', on, further) = policy_from-step true false c cs through in
    let kept : (is_part c ≡ true) × ((colon' ≡ true) × (fresh' ≡ false)) =
      unfold policy_step is_first is_further in ground arith in
    let ih = policy_from-rest cs (ground arith) in ground arith

policy_from-ident : (cs : List ℕ) → policy_from true true cs ≡ true → is_ident cs ≡ true
policy_from-ident [] through = unfold policy_from in ground arith
policy_from-ident (c ∷ cs) through =
    let (colon', fresh', on, further) = policy_from-step true true c cs through in
    let kept : (is_start c ≡ true) × ((colon' ≡ true) × (fresh' ≡ false)) =
      unfold policy_step is_first is_further in ground arith in
    let ih = policy_from-rest cs (ground arith) in ground arith

-- Before it, where an identifier is to begin: the name of a module; and inside an identifier: the rest of
-- it, and any more after dots.
abbrev Front : Bool → List ℕ → Type 0
Front true l = IsModule l
Front false l =
    (rest : List ℕ) × (ms : List (List ℕ)) × (all is_part rest ≡ true)
    × (all is_ident ms ≡ true)
    × (l ≡ rest ++ after_dots ms)

abbrev Splits : Bool → List ℕ → Type 0
Splits fresh l =
    (l ≡ before_colon l ++ (58 ∷ after_colon l))
    × Front fresh (before_colon l)
    × (policy_from true true (after_colon l) ≡ true)

is_part-apart : (c : ℕ) → is_part c ≡ true → (c == 58) ≡ false
is_part-apart c further = ground arith

is_start-part : (c : ℕ) → is_start c ≡ true → is_part c ≡ true
is_start-part c first = ground arith

-- A character before the colon stays before it.
before_colon-cons :
    (c : ℕ) (cs : List ℕ)
    → (c == 58) ≡ false
    → (before_colon (c ∷ cs) ≡ c ∷ before_colon cs) × (after_colon (c ∷ cs) ≡ after_colon cs)
unfolding before_colon after_colon
before_colon-cons c cs apart = rw (apart, before_colon, after_colon) (refl, refl)

Splits-cons :
    (fresh fresh' : Bool) (c : ℕ) (cs : List ℕ)
    → (c == 58) ≡ false
    → (Front fresh' (before_colon cs) → Front fresh (c ∷ before_colon cs))
    → Splits fresh' cs
    → Splits fresh (c ∷ cs)
Splits-cons fresh fresh' c cs apart grow (whole, front, back) =
    let (before, after) = before_colon-cons c cs apart in
    rw (before, after) (ap (λ l. c ∷ l) whole, grow front, back)

policy_from-Splits :
    (fresh : Bool) (cs : List ℕ) → policy_from false fresh cs ≡ true → Splits fresh cs
unfolding before_colon after_colon
policy_from-Splits fresh [] through = unfold policy_from in ground arith
policy_from-Splits true (c ∷ cs) through =
    let (colon', fresh', on, further) = policy_from-step false true c cs through in
    let kept : (is_start c ≡ true) × ((colon' ≡ false) × (fresh' ≡ false)) =
      unfold policy_step is_first is_further in ground arith in
    let apart = is_part-apart c (is_start-part c kept.0) in
    Splits-cons true false c cs apart
      (λ (rest, ms, inside, names, same).
        (c ∷ rest, ms, ground (arith, kept.0, inside), names, ap (λ l. c ∷ l) same))
      (policy_from-Splits false cs (ground arith))
policy_from-Splits false (c ∷ cs) through =
    let (colon', fresh', on, further) = policy_from-step false false c cs through in
    elim (Bool-cases (is_part c)) [
      | inl inside ↦
          let kept : (colon' ≡ false) × (fresh' ≡ false) =
            unfold policy_step is_first is_further in ground arith in
          Splits-cons false false c cs (is_part-apart c inside)
            (λ (rest, ms, more, names, same).
              (c ∷ rest, ms, ground (arith, inside, more), names, ap (λ l. c ∷ l) same))
            (policy_from-Splits false cs (ground arith))
      | inr other ↦ elim (Bool-cases (c == 46)) [
        | inl dot ↦
            let kept : (colon' ≡ false) × (fresh' ≡ true) =
              unfold policy_step is_first is_further in ground arith in
            let is_dot : c ≡ 46 = ground arith in
            Splits-cons false true c cs (ground arith)
              (λ (n, ms, name, names, same).
                ([], n ∷ ms, refl, ground (arith, name, names), rw (is_dot, same) refl))
              (policy_from-Splits true cs (ground arith))
        | inr plain ↦
            let kept : (c ≡ 58) × ((colon' ≡ true) × (fresh' ≡ true)) =
              unfold policy_step is_first is_further in ground arith in
            let ended : policy_from true true cs ≡ true = ground arith in
            rw kept.0 (refl, ([], [], refl, refl, refl), ended)
      ]
    ]

-- The module's name and the class's.
abbrev pub IsSplit : String → Type 0
IsSplit s =
    (codes s ≡ before_colon (codes s) ++ (58 ∷ after_colon (codes s)))
    × IsModule (before_colon (codes s))
    × (is_ident (after_colon (codes s)) ≡ true)

pub is_policy-IsSplit : (s : String) → is_policy s ≡ true → IsSplit s
unfolding is_policy
is_policy-IsSplit s through =
    let (whole, front, back) = policy_from-Splits true (codes s) through in
    (whole, front, policy_from-ident (after_colon (codes s)) back)
