-- ===== src/Manifest/Parts.antt =====
-- packages/icil-policy/src/icil_policy/manifest.py: what an accepted manifest has.
use icil_competition_orchest.Prelude.{
  ◌≡◌, ◌≢◌, ◌⊎◌, refl, String, Bool, false, List, [], ◌∷◌, ◌++◌, Option, none, some, if◌then◌else◌,
  ok, err, Bool-cases, inl, inr, arith,
}
use icil_competition_orchest.Manifest.{
  Yaml, null, int, text, mapping, Pairs, Target, a_file, unknown_keys, Manifest, api_version, get,
  has_unknown, is_policy, api_of, policy_of, kwargs_of, requirements_problems, requirements_of,
  benchmarks_of, problems, validate,
}
use icil_competition_orchest.Manifest.Names.{IsSplit, is_policy-IsSplit}

policy_of-IsSplit :
    (y : Option Yaml)
    → (policy_of y).0 ≡ []
    → (y ≡ some (text (policy_of y).1)) × IsSplit (policy_of y).1
unfolding policy_of
policy_of-IsSplit none clean = ground arith
policy_of-IsSplit (some (text s)) clean = elim (Bool-cases (is_policy s)) [
  | inl fine ↦ rw (fine, policy_of) (refl, is_policy-IsSplit s fine)
  | inr bad ↦ ground arith
]
policy_of-IsSplit (some _) clean = ground arith

api_of-version :
    (y : Option Yaml)
    → (api_of y).0 ≡ []
    → (y ≡ some (int api_version)) × ((api_of y).1 ≡ api_version)
unfolding api_of
api_of-version none clean = ground arith
api_of-version (some (int n)) clean = ground arith
api_of-version (some _) clean = ground arith

append-empty : {A : Type 0} (xs ys : List A) → xs ++ ys ≡ [] → (xs ≡ []) × (ys ≡ [])
append-empty [] ys empty = (refl, empty)
append-empty (x ∷ xs) ys empty = cc

List-cases : {A : Type 0} (l : List A) → (l ≡ []) ⊎ ((a : A) × (rest : List A) × (l ≡ a ∷ rest))
List-cases [] = inl refl
List-cases (a ∷ rest) = inr (a, rest, refl)

known_keys :
    (doc : Pairs)
    → (if has_unknown doc then unknown_keys ∷ [] else []) ≡ []
    → has_unknown doc ≡ false
known_keys doc clean = ground arith

requirements_problems-a_file :
    (is_identifier : String → Bool) (target_of : String → Target) (s : String)
    → requirements_problems is_identifier target_of s ≡ []
    → target_of s ≡ a_file
unfolding requirements_problems
requirements_problems-a_file is_identifier target_of s clean = ground arith

module _ (is_identifier : String → Bool) (target_of : String → Target) where
  -- What a served manifest has: the version, a module and a class, no key that is not known, and
  -- requirements that are a file of the repository.
  abbrev pub IsServed : Pairs → Manifest → Type 0
  IsServed doc m =
      (get "api" doc ≡ some (int api_version))
      × (m.api ≡ api_version)
      × (get "policy" doc ≡ some (text m.policy))
      × IsSplit m.policy
      × (has_unknown doc ≡ false)
      × ((s : String) → m.requirements ≡ some s → target_of s ≡ a_file)

  requirements_of-a_file :
      (y : Option Yaml) (s : String)
      → (requirements_of is_identifier target_of y).0 ≡ []
      → (requirements_of is_identifier target_of y).1 ≡ some s
      → target_of s ≡ a_file
  unfolding requirements_of
  requirements_of-a_file none s clean named = cc
  requirements_of-a_file (some null) s clean named = cc
  requirements_of-a_file (some (text t)) s clean named =
      let file = requirements_problems-a_file is_identifier target_of t clean in
      let same : t ≡ s = cc in cc
  requirements_of-a_file (some _) s clean named = ground arith

  abbrev checked : Pairs → Manifest
  checked doc = record {
    api = (api_of (get "api" doc)).1;
    policy = (policy_of (get "policy" doc)).1;
    kwargs = (kwargs_of is_identifier target_of (get "kwargs" doc)).1;
    requirements = (requirements_of is_identifier target_of (get "requirements" doc)).1;
    benchmarks = (benchmarks_of (get "benchmarks" doc)).1;
  }

  checked-IsServed :
      (doc : Pairs) → problems is_identifier target_of doc ≡ [] → IsServed doc (checked doc)
  unfolding problems
  checked-IsServed doc clean =
      let (known, r1) = append-empty _ _ clean in
      let (of_api, r2) = append-empty _ _ r1 in
      let (of_policy, r3) = append-empty _ _ r2 in
      let (of_kwargs, r4) = append-empty _ _ r3 in
      let (of_requirements, of_benchmarks) = append-empty _ _ r4 in
      let (version, api) = api_of-version (get "api" doc) of_api in
      let (policy, parts) = policy_of-IsSplit (get "policy" doc) of_policy in
      (
        version,
        api,
        policy,
        parts,
        known_keys doc known,
        λ s named. requirements_of-a_file (get "requirements" doc) s of_requirements named,
      )

  -- A manifest that is accepted asks for this version, and its policy is the name of a module, its one
  -- colon and the name of a class: the module's is one identifier or several with dots between them, the
  -- class's is one, each of ASCII letters, digits and `_` and beginning with no digit. It has no unknown
  -- key, and its requirements, if it has any, are a file of the repository. A mapping that is refused is
  -- refused with at least one problem.
  pub validate-IsServed :
      (doc : Pairs)
      → ((m : Manifest) → validate is_identifier target_of (mapping doc) ≡ ok m → IsServed doc m)
        × (validate is_identifier target_of (mapping doc) ≢ err [])
  unfolding validate
  validate-IsServed doc = elim (List-cases (problems is_identifier target_of doc)) [
    | inl clean ↦
        let accepted : validate is_identifier target_of (mapping doc) ≡ ok (checked doc) =
          rw (clean, validate) refl in
        (
          λ m through. let same : m ≡ checked doc = cc in rw same (checked-IsServed doc clean),
          λ empty. cc,
        )
    | inr (p, ps, found) ↦ (λ m through. ground arith, λ empty. ground arith)
  ]
