-- ===== src/Duel/Prompts/Verified.antt =====
-- duel/materialize.py: what is known of a prompt that `materialize_unit` does not void.
use icil_competition_orchest.Prelude.{
  ℕ, String, ◌≡◌, refl, true, false, Option, none, some, ◌⊎◌, inl, inr, Result, ok, err, ◌>>=◌,
  Result-cases, ◌≢◌, >>=-eq-ok, arith, eq_iff,
}
use icil_competition_orchest.Duel.Side.{Reported, silent, text}
use icil_competition_orchest.Duel.Prompts.{
  Made, Making, Demonstrated, Verdict, Completed, not_started, timed_out, exited, demonstration,
  checked, verified, is_hash, names_other, seeds_differ, no_prompt, materialize_unit,
}

abbrev ExitedZero : Completed → Type 0
ExitedZero (not_started why) = ⊥
ExitedZero timed_out = ⊥
ExitedZero (exited code tail) = code ≡ 0

-- The seed that is kept of the one that the result names and the one that the prompt holds.
abbrev SeedOf : Option ℕ → Option ℕ → Option ℕ → Type 0
SeedOf reported read seed =
    (reported ≡ none) × (seed ≡ read) ⊎ (seed ≡ reported) × ((read ≡ none) ⊎ (read ≡ reported))

-- The command ended well and its demonstration succeeded; the verifier accepted the file that is there and
-- hashed it to the hash of its bytes, as did the result where it names one; and the two seeds agree.
pub record IsVerified {F : Type 0} (k : Making F) (m : Made F) : Type 0 where
  pub shown : Demonstrated
  pub verdict : Verdict
  pub sha : String
  pub ran : ExitedZero k.ran
  pub read : k.outcome ≡ ok shown
  pub succeeded : (shown.void ≡ false) × (shown.success ≡ some true)
  pub file : k.file ≡ some sha
  pub judged : k.verdict ≡ ok (some verdict)
  pub accepted : verdict.is_ok ≡ true
  pub hashed : verdict.hashed ≡ text sha
  pub written : (shown.written ≡ silent) ⊎ (shown.written ≡ text sha)
  pub seeds : SeedOf shown.reported_seed verdict.read_seed m.prompt.scene_seed
  pub recorded : m.prompt.sha256 ≡ some sha

checked-ok :
    (a : Result String (Option Verdict)) {v : Verdict}
    → checked a ≡ ok v
    → (a ≡ ok (some v)) × (v.is_ok ≡ true)
unfolding checked
checked-ok (err e) h = cc
checked-ok (ok none) h = cc
checked-ok (ok (some v)) h = ground arith

is_hash-text : (sha : String) (r : Reported) → is_hash sha r ≡ true → r ≡ text sha
unfolding is_hash
is_hash-text sha silent h = cc
is_hash-text sha (text s) h = ground (arith, eq_iff s sha)
is_hash-text sha _ h = cc

names_other-false :
    (sha : String) (r : Reported) → names_other sha r ≡ false → (r ≡ silent) ⊎ (r ≡ text sha)
unfolding names_other is_hash
names_other-false sha silent h = inl refl
names_other-false sha (text s) h = inr (ground (arith, eq_iff s sha))
names_other-false sha _ h = cc

seeds_differ-false :
    (a b : Option ℕ) → seeds_differ a b ≡ false → SeedOf a b (elim a [ none ↦ b | some s ↦ some s ])
unfolding seeds_differ
seeds_differ-false none b h = inl (refl, refl)
seeds_differ-false (some a) none h = inr (refl, inl refl)
seeds_differ-false (some a) (some b) h = inr (refl, inr (ground arith))

module _ (str : ℕ → String) where
  verified-ok :
      (file : Option String) (verdict : Result String (Option Verdict)) (o : Demonstrated)
      {sha : String} {seed : Option ℕ}
      → verified str file verdict o ≡ ok (sha, seed)
      → (v : Verdict) × (verdict ≡ ok (some v))
        × (file ≡ some sha)
        × (v.is_ok ≡ true)
        × (v.hashed ≡ text sha)
        × ((o.written ≡ silent) ⊎ (o.written ≡ text sha))
        × SeedOf o.reported_seed v.read_seed seed
  unfolding verified checked
  verified-ok none verdict o h = cc
  verified-ok (some sha) (err e) o h = cc
  verified-ok (some sha) (ok none) o h = cc
  verified-ok (some sha) (ok (some v)) o h = (
    v,
    refl,
    ground arith,
    ground arith,
    ground (arith, is_hash-text sha v.hashed),
    ground (arith, names_other-false sha o.written),
    ground (arith, seeds_differ-false o.reported_seed v.read_seed),
  )

module _ {F : Type 0} (str : ℕ → String) where
  demonstration-ok :
      (k : Making F) {o : Demonstrated}
      → demonstration str k ≡ ok o
      → ExitedZero k.ran × (k.outcome ≡ ok o) × (o.void ≡ false) × (o.success ≡ some true)
  unfolding demonstration
  demonstration-ok k h = ground arith

  void_of_failed :
      (id : String) (k : Making F) {reason : String}
      → (demonstration str k >>= λ o. verified str k.file k.verdict o) ≡ err reason
      → (materialize_unit str id k).prompt.void ≢ false
  unfolding materialize_unit no_prompt
  void_of_failed id k failed = rw (failed, materialize_unit) (λ h. cc)

  kept_of_made :
      (id : String) (k : Making F) {sha : String} {seed : Option ℕ}
      → (demonstration str k >>= λ o. verified str k.file k.verdict o) ≡ ok (sha, seed)
      → ((materialize_unit str id k).prompt.sha256 ≡ some sha)
        × ((materialize_unit str id k).prompt.scene_seed ≡ seed)
  unfolding materialize_unit
  kept_of_made id k made = rw (made, materialize_unit) (refl, refl)

  -- A prompt that is not void was made by a command that ended well and whose demonstration succeeded; its
  -- hash is that of the bytes of the file, which the verifier accepted and hashed to the same, as does
  -- the result where it says anything; and its seed is the one that the result names or else the one
  -- that the verifier read, which agree where both are given.
  pub materialize_unit-IsVerified :
      (id : String) (k : Making F)
      → (materialize_unit str id k).prompt.void ≡ false
      → IsVerified k (materialize_unit str id k)
  unfolding materialize_unit
  materialize_unit-IsVerified id k h =
      elim (Result-cases (demonstration str k >>= λ o. verified str k.file k.verdict o)) [
        | inl (reason, failed) ↦ absurd (void_of_failed id k failed h)
        | inr ((sha, seed), made) ↦
            let (o, shown, through) = >>=-eq-ok (demonstration str k) _ made in
            let (ran, read, clean, success) = demonstration-ok k shown in
            let (v, judged, file, accepted, hashed, written, seeds) =
              verified-ok str k.file k.verdict o through in
            let (recorded, seeded) = kept_of_made id k made in
            record {
              shown = o;
              verdict = v;
              sha = sha;
              ran = ran;
              read = read;
              succeeded = (clean, success);
              file = file;
              judged = judged;
              accepted = accepted;
              hashed = hashed;
              written = written;
              seeds = rw seeded seeds;
              recorded = recorded;
            }
      ]
