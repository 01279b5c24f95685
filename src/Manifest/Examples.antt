-- ===== src/Manifest/Examples.antt =====
-- packages/icil-policy/src/icil_policy/manifest.py: manifests that are accepted and refused.
use icil_competition_orchest.Prelude.{
  String, true, [], ◌∷◌, some, ◌≡◌, ◌≢◌, refl, ok, err, if◌then◌else◌, ◌==s◌,
}
use icil_competition_orchest.Manifest.{
  null, int, text, scalar, mapping, text_key, other_key, no_pair, pair, Pairs, Target, a_file,
  outside, Manifest, problems, validate, get, has_unknown, api_of, policy_of, is_policy,
  policy_from, policy_step, is_first, is_further, kwargs_of, requirements_of, benchmarks_of,
  api_other, policy_other, unknown_keys, requirements_outside, no_mapping,
}
use icil_competition_orchest.Manifest.Parts.{IsServed, validate-IsServed}

abbrev leads : String → Target
leads s = if s ==s "requirements.txt" then a_file else outside

abbrev good : Pairs
good = pair (text_key "api") (int 1) (
    pair (text_key "policy") (text "my_pkg.policy:P2") (
      pair (text_key "kwargs") null
        (pair (text_key "requirements") (text "requirements.txt") no_pair)))

abbrev served : Manifest
served = record {
  api = 1;
  policy = "my_pkg.policy:P2";
  kwargs = no_pair;
  requirements = some "requirements.txt";
  benchmarks = [];
}

validate-good : validate (λ s. true) leads (mapping good) ≡ ok served
unfolding validate problems get has_unknown api_of policy_of is_policy policy_from policy_step
    is_first is_further kwargs_of requirements_of benchmarks_of
validate-good = refl

-- Every problem at once.
validate-bad :
    validate
      (λ s. true)
      leads
      (mapping (
        pair other_key null (
          pair (text_key "api") (text "1") (
            pair
              (text_key "policy")
              (text "pkg.:P")
              (pair (text_key "requirements") (text "../r.txt") no_pair)))))
    ≡ err (unknown_keys ∷ api_other ∷ policy_other ∷ requirements_outside ∷ [])
unfolding validate problems get has_unknown api_of policy_of is_policy policy_from policy_step
    is_first is_further kwargs_of requirements_of benchmarks_of
validate-bad = refl

validate-scalar : validate (λ s. true) leads scalar ≡ err (no_mapping ∷ [])
unfolding validate
validate-scalar = refl

validate-IsServed_example :
    ((m : Manifest)
      → validate (λ s. true) leads (mapping good) ≡ ok m
      → IsServed (λ s. true) leads good m)
    × (validate (λ s. true) leads (mapping good) ≢ err [])
validate-IsServed_example = validate-IsServed (λ s. true) leads good
