-- ===== src/Ids.antt =====
-- ids.py: the identifiers derived from the contract. The hash is canon.py's `sha256_hex`, a
-- parameter: hashlib computes it.
mod Examples
use icil_competition_orchest.Prelude.{
  ℕ, String, ◌≡◌, refl, Bool, true, false, ◌&&◌, ◌||◌, List, [], ◌∷◌, length, all, leb, ◌==◌, codes,
  join, prefix, if◌then◌else◌, Result, ok, err,
}

pub record SubmissionRef : Type 0 where
  pub key : String
  pub repo : String
  pub revision : String

pub data RefError : Type 0 where
  not_a_repo not_a_commit : RefError

-- `[A-Za-z0-9]`
is_alnum : ℕ → Bool
is_alnum c = (leb b'A' c && leb c b'Z') || (leb b'a' c && leb c b'z') || (leb b'0' c && leb c b'9')

-- `[A-Za-z0-9._-]`
is_name_char : ℕ → Bool
unfolding is_alnum
is_name_char c = is_alnum c || c == b'.' || c == b'_' || c == b'-'

-- The name after the slash: `[A-Za-z0-9][A-Za-z0-9._-]*` to the end.
is_name : List ℕ → Bool
unfolding is_alnum is_name_char
is_name [] = false
is_name (c ∷ cs) = is_alnum c && all is_name_char cs

-- The owner's further characters, the slash and the name. A slash is no name character, so the
-- expression can match in one way only.
owner_rest : List ℕ → Bool
unfolding is_name is_name_char
owner_rest [] = false
owner_rest (c ∷ cs) = if c == b'/' then is_name cs else is_name_char c && owner_rest cs

-- `REPO_RE.fullmatch`
matches_repo : List ℕ → Bool
unfolding owner_rest is_alnum
matches_repo [] = false
matches_repo (c ∷ cs) = is_alnum c && owner_rest cs

unfoldable pub is_repo : String → Bool
unfolding matches_repo
is_repo value = matches_repo (codes value) && leb (length (codes value)) 200

-- `[0-9a-f]`
is_hex : ℕ → Bool
is_hex c = (leb b'0' c && leb c b'9') || (leb b'a' c && leb c b'f')

unfoldable pub is_commit_sha : String → Bool
unfolding is_hex
is_commit_sha value = length (codes value) == 40 && all is_hex (codes value)

module _ (sha256_hex : String → String) where
  unfoldable pub submission_key : String → String → String
  submission_key repo revision = prefix 16 (sha256_hex (join repo (join "@" revision)))

  unfoldable pub make : String → String → SubmissionRef
  unfolding submission_key
  make repo revision = record {
    key = submission_key repo revision;
    repo = repo;
    revision = revision;
  }

  unfoldable pub resolved : String → String → Result RefError SubmissionRef
  unfolding make
  resolved repo revision =
      if is_repo repo
      then (if is_commit_sha revision then ok (make repo revision) else err not_a_commit)
      else err not_a_repo
