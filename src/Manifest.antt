-- ===== src/Manifest.antt =====
-- packages/icil-policy/src/icil_policy/manifest.py: `validate` and `_requirements_problems`, of a document as
-- the YAML loader gives it. Where a path of the repository leads, and which texts are identifiers of
-- Python, are parameters. A problem is named, not worded.
mod Names
mod Parts
mod Examples
use icil_competition_orchest.Prelude.{
  ℕ, String, Bool, true, false, not, ◌&&◌, ◌||◌, List, [], ◌∷◌, ◌++◌, Option, none, some, leb, ◌==◌,
  ◌==s◌, if◌then◌else◌, any, codes, Result, ok, err,
}

-- A key that is a text or another value, and a document: `scalar` is a number that is no natural one, a date
-- or another value of one piece.
pub data YamlKey : Type 0 where
  text_key : String → YamlKey
  other_key : YamlKey

mutual
  pub data Yaml : Type 0 where
    null scalar : Yaml
    bool : Bool → Yaml
    int : ℕ → Yaml
    text : String → Yaml
    sequence : Yamls → Yaml
    mapping : Pairs → Yaml

  pub data Yamls : Type 0 where
    no_item : Yamls
    item : Yaml → Yamls → Yamls

  pub data Pairs : Type 0 where
    no_pair : Pairs
    pair : YamlKey → Yaml → Pairs → Pairs

pub data Problem : Type 0 where
  no_mapping unknown_keys api_required api_other policy_required policy_other : Problem
  kwargs_no_mapping kwargs_keys benchmarks_no_names : Problem
  requirements_no_path requirements_nul requirements_absolute requirements_outside : Problem
  requirements_no_file requirements_unresolved : Problem

-- Where a path below the repository's root leads.
pub data Target : Type 0 where
  outside no_file a_file unresolved : Target

pub record Manifest : Type 0 where
  pub api : ℕ
  pub policy : String
  pub kwargs : Pairs
  pub requirements : Option String
  pub benchmarks : List String

abbrev pub api_version : ℕ
api_version = 1

abbrev pub keys : List String
keys = "api" ∷ "policy" ∷ "kwargs" ∷ "requirements" ∷ "benchmarks" ∷ []

unfoldable pub get : String → Pairs → Option Yaml
get key no_pair = none
get key (pair (text_key k) value rest) = if k ==s key then some value else get key rest
get key (pair other_key value rest) = get key rest

unfoldable pub has_unknown : Pairs → Bool
has_unknown no_pair = false
has_unknown (pair (text_key k) value rest) = not (any (λ s. s ==s k) keys) || has_unknown rest
has_unknown (pair other_key value rest) = true

unfoldable pub is_first : ℕ → Bool
is_first c = (c == 95) || ((leb 65 c && leb c 90) || (leb 97 c && leb c 122))

unfoldable pub is_further : ℕ → Bool
unfolding is_first
is_further c = is_first c || (leb 48 c && leb c 57)

-- `_POLICY`, character by character: whether the colon is past, and whether an identifier is to begin.
unfoldable pub policy_step : Bool → Bool → ℕ → Option (Bool × Bool)
policy_step colon true c = if is_first c then some (colon, false) else none
policy_step colon false c =
    if is_further c
    then some (colon, false)
    else if colon
    then none
    else if c == 46
    then some (false, true)
    else if c == 58
    then some (true, true)
    else none

unfoldable pub policy_from : Bool → Bool → List ℕ → Bool
policy_from colon fresh [] = colon && not fresh
policy_from colon fresh (c ∷ cs) = elim (policy_step colon fresh c) [
  | none ↦ false
  | some (colon', fresh') ↦ policy_from colon' fresh' cs
]

-- `_POLICY.fullmatch(policy)`
unfoldable pub is_policy : String → Bool
unfolding policy_from
is_policy s = policy_from false true (codes s)

-- A check's value, or a default with the problem that it has.
unfoldable pub api_of : Option Yaml → List Problem × ℕ
api_of none = (api_required ∷ [], 0)
api_of (some (int n)) = if n == api_version then ([], n) else (api_other ∷ [], n)
api_of (some other) = (api_other ∷ [], 0)

unfoldable pub policy_of : Option Yaml → List Problem × String
policy_of none = (policy_required ∷ [], "")
policy_of (some (text s)) = if is_policy s then ([], s) else (policy_other ∷ [], s)
policy_of (some other) = (policy_other ∷ [], "")

-- A list of texts that are not empty.
unfoldable pub names_of : Yamls → Option (List String)
names_of no_item = some []
names_of (item (text s) rest) =
    let names = names_of rest in
    if s ==s "" then none else elim names [ none ↦ none | some ss ↦ some (s ∷ ss) ]
names_of (item other rest) = none

unfoldable pub benchmarks_of : Option Yaml → List Problem × List String
unfolding names_of
benchmarks_of none = ([], [])
benchmarks_of (some null) = ([], [])
benchmarks_of (some (sequence items)) = elim (names_of items) [
  | none ↦ (benchmarks_no_names ∷ [], [])
  | some names ↦ ([], names)
]
benchmarks_of (some other) = (benchmarks_no_names ∷ [], [])

module _ (is_identifier : String → Bool) (target_of : String → Target) where
  unfoldable pub has_bad_key : Pairs → Bool
  has_bad_key no_pair = false
  has_bad_key (pair (text_key k) value rest) = not (is_identifier k) || has_bad_key rest
  has_bad_key (pair other_key value rest) = true

  unfoldable pub kwargs_of : Option Yaml → List Problem × Pairs
  unfolding has_bad_key
  kwargs_of none = ([], no_pair)
  kwargs_of (some null) = ([], no_pair)
  kwargs_of (some (mapping kwargs)) = (if has_bad_key kwargs then kwargs_keys ∷ [] else [], kwargs)
  kwargs_of (some other) = (kwargs_no_mapping ∷ [], no_pair)

  unfoldable pub starts_outside : List ℕ → Bool
  starts_outside [] = false
  starts_outside (c ∷ cs) = (c == 47) || (c == 126)

  -- `_requirements_problems` of a text.
  unfoldable pub requirements_problems : String → List Problem
  unfolding starts_outside
  requirements_problems s =
      if s ==s ""
      then requirements_no_path ∷ []
      else if any (λ c. c == 0) (codes s)
      then requirements_nul ∷ []
      else if starts_outside (codes s)
      then requirements_absolute ∷ []
      else elim (target_of s) [
        | outside ↦ requirements_outside ∷ []
        | no_file ↦ requirements_no_file ∷ []
        | unresolved ↦ requirements_unresolved ∷ []
        | a_file ↦ []
      ]

  unfoldable pub requirements_of : Option Yaml → List Problem × Option String
  unfolding requirements_problems
  requirements_of none = ([], none)
  requirements_of (some null) = ([], none)
  requirements_of (some (text s)) = (requirements_problems s, some s)
  requirements_of (some other) = (requirements_no_path ∷ [], none)

  unfoldable pub problems : Pairs → List Problem
  problems doc =
      (if has_unknown doc then unknown_keys ∷ [] else [])
      ++ ((api_of (get "api" doc)).0
          ++ ((policy_of (get "policy" doc)).0
              ++ ((kwargs_of (get "kwargs" doc)).0
                  ++ ((requirements_of (get "requirements" doc)).0
                      ++ (benchmarks_of (get "benchmarks" doc)).0))))

  -- `validate`: every problem, or the manifest.
  unfoldable pub validate : Yaml → Result (List Problem) Manifest
  validate (mapping doc) = elim (problems doc) [
    | [] ↦ ok (record {
      api = (api_of (get "api" doc)).1;
      policy = (policy_of (get "policy" doc)).1;
      kwargs = (kwargs_of (get "kwargs" doc)).1;
      requirements = (requirements_of (get "requirements" doc)).1;
      benchmarks = (benchmarks_of (get "benchmarks" doc)).1;
    })
    | p ∷ ps ↦ err (p ∷ ps)
  ]
  validate other = err (no_mapping ∷ [])

-- `module` and `attribute`: what stands before the first colon, and after it.
unfoldable pub before_colon : List ℕ → List ℕ
before_colon [] = []
before_colon (c ∷ cs) = if c == 58 then [] else c ∷ before_colon cs

unfoldable pub after_colon : List ℕ → List ℕ
after_colon [] = []
after_colon (c ∷ cs) = if c == 58 then cs else after_colon cs
