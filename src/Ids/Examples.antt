-- ===== src/Ids/Examples.antt =====
-- Tests of the patterns of repository names and commits.
use icil_competition_orchest.Prelude.{◌≡◌, refl, true, false}
use icil_competition_orchest.Ids.{is_repo}

repo_accepts : is_repo "owner/policy-1.x" ≡ true
unfolding is_repo
repo_accepts = refl

repo_refuses : is_repo "owner/a/b" ≡ false
unfolding is_repo
repo_refuses = refl
