-- ===== src/Duel/Side/Attribution.antt =====
-- duel/side.py: whose a unit's end is.
use icil_competition_orchest.Prelude.{
  String, ◌≡◌, refl, Bool, true, false, Option, none, some, ◌⊎◌, ◌↔◌, inl, inr, arith, eq_iff,
  ◌==s◌, Bool-cases, if◌then◌else◌,
}
use icil_competition_orchest.Floats.{Floats, FloatLaws, lt_f, min_f, min_f-le}
use icil_competition_orchest.Records.{Side}
use icil_competition_orchest.Duel.Side.{
  Cause, policy, harness, PolicyEnd, Outcome, known_cause, cause_of, attribute, unit_limits,
  Session, Served, died, unavailable, listening, Budgets, play,
}

-- The rule, on its own: a unit's end is the submission's doing when the policy was not ended from
-- outside, and the benchmark names the policy, or names neither and the policy ended badly.
pub data IsPolicys : Option String → Option PolicyEnd → Type 0 where
  named_alone : (s : String) → s ≡ "policy" → IsPolicys (some s) none
  named :
      (s : String) (e : PolicyEnd) → s ≡ "policy" → e.cause ≡ policy → IsPolicys (some s) (some e)
  unnamed :
      (said : Option String) (e : PolicyEnd)
      → known_cause said ≡ none
      → e.cause ≡ policy
      → IsPolicys said (some e)

cause_of-IsPolicys :
    (said : Option String) (end : Option PolicyEnd)
    → cause_of said end ≡ policy
    → IsPolicys said end
unfolding cause_of known_cause
cause_of-IsPolicys none none h = cc
cause_of-IsPolicys none (some e) h = unnamed none e refl (ground arith)
cause_of-IsPolicys (some s) none h =
    named_alone s (ground (arith, eq_iff s "policy", eq_iff s "harness"))
cause_of-IsPolicys (some s) (some e) h = elim (Bool-cases (s ==s "policy")) [
  | inl yes_policy ↦ named s e ((eq_iff s "policy").0 yes_policy) (ground arith)
  | inr other ↦ unnamed (some s) e (ground arith) (ground arith)
]

IsPolicys-cause_of :
    (said : Option String) (end : Option PolicyEnd)
    → IsPolicys said end
    → cause_of said end ≡ policy
unfolding cause_of known_cause
IsPolicys-cause_of said end (named_alone s p) = ground (arith, eq_iff s "policy")
IsPolicys-cause_of said end (named s e p c) = ground (arith, eq_iff s "policy")
IsPolicys-cause_of said end (unnamed s e p c) = ground arith

Cause-cases : (c : Cause) → (c ≡ policy) ⊎ (c ≡ harness)
Cause-cases policy = inl refl
Cause-cases harness = inr refl

-- What holds of the value, where there is one.
abbrev pub OnSome : {A : Type 0} → (A → Type 0) → Option A → Type 0
OnSome P none = Unit
OnSome P (some a) = P a

OnSome-if :
    {A : Type 0} (P : A → Type 0) (b : Bool) (x : A)
    → (b ≡ true → P x)
    → OnSome P (if b then some x else none)
OnSome-if P true x h = h refl
OnSome-if P false x h = tt

module _ {F : Type 0} where
  stays_void :
      (o : Outcome F) (end : Option PolicyEnd)
      → (attribute o end).void ≡ true
      → (o.void ≡ true) × ¬ IsPolicys o.void_cause end
  unfolding attribute
  stays_void o end v = (ground arith, λ p. ground (arith, IsPolicys-cause_of o.void_cause end p))

  keeps_void :
      (o : Outcome F) (end : Option PolicyEnd)
      → (o.void ≡ true) × ¬ IsPolicys o.void_cause end
      → (attribute o end).void ≡ true
  unfolding attribute
  keeps_void o end (v, n) = elim (Cause-cases (cause_of o.void_cause end)) [
    | inl p ↦ absurd (n (cause_of-IsPolicys o.void_cause end p))
    | inr h ↦ ground arith
  ]

  -- Whose a unit is. Its attributed outcome is void exactly when the benchmark's was and its end was
  -- not the submission's own doing. Its success is the benchmark's or a failure, so nothing is turned
  -- into a success; and what the benchmark reported (steps, progress, metric, clip, time) is kept.
  pub attribute_lem :
      (o : Outcome F) (end : Option PolicyEnd)
      → (((attribute o end).void ≡ true) ↔ ((o.void ≡ true) × ¬ IsPolicys o.void_cause end))
        × (((attribute o end).success ≡ o.success) ⊎ ((attribute o end).success ≡ some false))
        × ((attribute o end).steps ≡ o.steps)
        × ((attribute o end).progress ≡ o.progress)
        × ((attribute o end).metric ≡ o.metric)
        × ((attribute o end).clip ≡ o.clip)
        × ((attribute o end).wall_s ≡ o.wall_s)
  unfolding attribute
  attribute_lem o end = (
    (stays_void o end, keeps_void o end),
    ground arith,
    ground arith,
    ground arith,
    ground arith,
    ground arith,
    ground arith,
  )

  -- A void unit whose end was the submission's own doing is that side's failure on it, whatever success
  -- the benchmark wrote down.
  pub attribute_failure :
      (o : Outcome F) (end : Option PolicyEnd)
      → o.void ≡ true
      → IsPolicys o.void_cause end
      → ((attribute o end).void ≡ false) × ((attribute o end).success ≡ some false)
  unfolding attribute
  attribute_failure o end v p = ground (arith, IsPolicys-cause_of o.void_cause end p)

  -- A scored outcome stands, however the policy ended afterwards.
  pub attribute_scored :
      (o : Outcome F) (end : Option PolicyEnd) → o.void ≡ false → attribute o end ≡ o
  unfolding attribute
  attribute_scored o end s = ground arith

module _ {F : Type 0} (fl : Floats F) (laws : FloatLaws fl) where
  abbrev pub TimeoutOk : F → F → Type 0
  TimeoutOk timeout t = (lt_f fl fl.zero_f t ≡ true) × (t ≡ timeout)

  abbrev pub BudgetOk : F → F → F → Type 0
  BudgetOk budget most b =
      (lt_f fl fl.zero_f b ≡ true) × (fl.le b budget ≡ true) × (fl.le b most ≡ true)

  -- The limits that a benchmark is given are ones that it can keep. Each limit passed is positive; the
  -- unit's timeout is the subprocess's own; and the policy's budget is no more than what is left of the
  -- policy's budget, and no more than the timeout less what the benchmark keeps to write its result.
  pub unit_limits_lem :
      (act timeout budget reserve : F)
      → OnSome (TimeoutOk timeout) (unit_limits fl act timeout budget reserve).unit_timeout_s
        × OnSome
            (BudgetOk budget (fl.minus timeout reserve))
            (unit_limits fl act timeout budget reserve).policy_budget_s
  unfolding unit_limits
  unit_limits_lem act timeout budget reserve =
      let most = fl.minus timeout reserve in
      let small = min_f-le fl laws budget most in
      (
        OnSome-if (TimeoutOk timeout) (lt_f fl fl.zero_f timeout) timeout
            (λ positive. (positive, refl)),
        OnSome-if (BudgetOk budget most) (lt_f fl fl.zero_f (min_f fl budget most))
            (min_f fl budget most) (λ positive. (positive, small.0, small.1)),
      )

module _ {F : Type 0} (fl : Floats F) where
  play-wall :
      (side : Side) (b : Budgets F) (wall : F) (v : Served F)
      → (play fl side b wall v).wall_s ≡ wall
  unfolding play
  play-wall side b wall (died reason) = refl
  play-wall side b wall (unavailable reason) = refl
  play-wall side b wall (listening s) = refl

  -- A policy that did not listen, or that took its whole budget to start, has failed its unit, whatever
  -- the benchmark would have said and however the policy ended; a runtime that could not serve it voids
  -- the unit; and the time recorded is the whole of it on every path.
  pub play_lem :
      (side : Side) (b : Budgets F) (wall : F) (reason : String) (s : Session F) (v : Served F)
      → fl.le b.policy_budget_s s.start_s ≡ true
      → ((play fl side b wall (died reason)).success ≡ some false)
        × ((play fl side b wall (died reason)).void ≡ false)
        × ((play fl side b wall (unavailable reason)).void ≡ true)
        × ((play fl side b wall (listening s)).success ≡ some false)
        × ((play fl side b wall (listening s)).void ≡ false)
        × ((play fl side b wall v).wall_s ≡ wall)
  unfolding play
  play_lem side b wall reason s v slow =
      (refl, refl, refl, ground arith, ground arith, play-wall side b wall v)
