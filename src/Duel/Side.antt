-- ===== src/Duel/Side.antt =====
-- duel/side.py: what one unit of a side comes to, and whose doing it was. The loop over the units is
-- Duel/Side/Run.antt.
pub mod Run
pub mod Attribution
pub mod Resume
pub mod Journal
pub mod Bytes
mod Examples
use icil_competition_orchest.Prelude.{
  ℕ, String, Bool, true, false, not, List, [], ◌∷◌, Option, none, some, ◌==s◌, concat, join,
  text_or, if◌then◌else◌,
}
use icil_competition_orchest.Floats.{Floats, lt_f, min_f, max_f}
use icil_competition_orchest.Records.{UnitDef, Side, challenger, king}
use icil_competition_orchest.Duel.Merge.{UnitRecord}

-- `runtime.CAUSES`: who brought a unit's end about.
pub data Cause : Type 0 where
  policy harness : Cause

-- How a unit's policy ended underneath it, when it did not end cleanly.
pub record PolicyEnd : Type 0 where
  pub reason : String
  pub cause : Cause

-- What the benchmark says it read, by hash: nothing, a text, or a value that is no text.
pub data Reported : Type 0 where
  silent : Reported
  text : String → Reported
  other_value : Reported

pub record Outcome (F : Type 0) : Type 0 where
  pub success : Option Bool
  pub void : Bool
  pub steps : Option ℕ
  pub error : Option String
  pub progress : Option F
  pub metric : Option F
  pub clip : Option String
  pub wall_s : F
  -- `extra["void_cause"]` and `extra["prompt_sha256"]`
  pub void_cause : Option String
  pub reported : Reported

-- The cause that the benchmark gave, where it is one of the two.
unfoldable pub known_cause : Option String → Option Cause
known_cause none = none
known_cause (some s) =
    if s ==s "policy" then some policy else if s ==s "harness" then some harness else none

-- The cause of a void outcome: a policy ended from outside is the harness's whatever the benchmark
-- says; otherwise the benchmark's word counts, and after it how the policy ended.
unfoldable pub end_cause : Option PolicyEnd → Cause
end_cause none = harness
end_cause (some e) = e.cause

unfoldable pub said_or : Option Cause → Cause → Cause
said_or none d = d
said_or (some c) d = c

unfoldable pub is_policy : Cause → Bool
is_policy policy = true
is_policy harness = false

unfoldable pub ended_outside : Option PolicyEnd → Bool
unfolding is_policy
ended_outside none = false
ended_outside (some e) = not (is_policy e.cause)

unfoldable pub cause_of : Option String → Option PolicyEnd → Cause
unfolding known_cause end_cause said_or ended_outside
cause_of said end =
    if ended_outside end then harness else said_or (known_cause said) (end_cause end)

unfoldable pub same_cause : Cause → Cause → Bool
same_cause policy policy = true
same_cause harness harness = true
same_cause policy harness = false
same_cause harness policy = false

unfoldable pub reason_of : Option String → Cause → Option PolicyEnd → String
unfolding same_cause is_policy
reason_of error cause none = text_or error (if is_policy cause then "the policy failed" else "void")
reason_of error cause (some e) =
    let reason = text_or error (if is_policy cause then "the policy failed" else "void") in
    if same_cause e.cause cause then join reason (join "\n" e.reason) else reason

module _ {F : Type 0} where
  -- A unit that the side lost by its own doing.
  unfoldable pub failed : String → F → Outcome F
  failed reason wall_s = record {
    success = some false;
    void = false;
    steps = none;
    error = some reason;
    progress = none;
    metric = none;
    clip = none;
    wall_s = wall_s;
    void_cause = none;
    reported = silent;
  }

  -- `subprocess_runner.voided`
  unfoldable pub voided : String → F → Outcome F
  voided reason wall_s = record {
    success = none;
    void = true;
    steps = none;
    error = some reason;
    progress = none;
    metric = none;
    clip = none;
    wall_s = wall_s;
    void_cause = none;
    reported = silent;
  }

  unfoldable pub attribute : Outcome F → Option PolicyEnd → Outcome F
  unfolding cause_of reason_of is_policy
  attribute o end =
      if not o.void
      then o
      else let cause = cause_of o.void_cause end in
        let reason = reason_of o.error cause end in
        if is_policy cause
        then record o { success = some false; void = false; error = some reason }
        else record o { error = some reason }

-- The time limits that `run_command` is given for one unit.
pub record Limits (F : Type 0) : Type 0 where
  pub act_timeout_s : F
  pub unit_timeout_s : Option F
  pub policy_budget_s : Option F

unfoldable pub side_name : Side → String
side_name challenger = "challenger"
side_name king = "king"

module _ {F : Type 0} (fl : Floats F) where
  unfoldable pub unit_limits : F → F → F → F → Limits F
  unfolding min_f
  unit_limits act_timeout_s timeout_s budget_s reserve_s =
      let budget = min_f fl budget_s (fl.minus timeout_s reserve_s) in
      record {
        act_timeout_s = act_timeout_s;
        unit_timeout_s = if lt_f fl fl.zero_f timeout_s then some timeout_s else none;
        policy_budget_s = if lt_f fl fl.zero_f budget then some budget else none;
      }

-- A policy that listened after `start_s`, when `left_s` of the unit's time was left for the benchmark,
-- which runs under the limits that it is given; `ended` is how the policy ended.
pub record Session (F : Type 0) : Type 0 where
  pub start_s : F
  pub left_s : F
  pub run_unit : Limits F → Outcome F
  pub ended : Option PolicyEnd

-- What `runtime.serve` came to: `PolicyDied`, `RuntimeUnavailable`, or a policy that listened.
pub data Served (F : Type 0) : Type 0 where
  died unavailable : String → Served F
  listening : Session F → Served F

pub record Budgets (F : Type 0) : Type 0 where
  pub act_timeout_s : F
  pub policy_budget_s : F
  pub result_reserve_s : F

module _ {F : Type 0} (fl : Floats F) where
  -- The outcome of a session before it is attributed.
  unfoldable pub session_outcome : Side → Budgets F → Session F → Outcome F
  unfolding failed unit_limits max_f side_name
  session_outcome side b s =
      if fl.le b.policy_budget_s s.start_s
      then failed
          (concat (
            "the "
            ∷ side_name side
            ∷ "'s policy took "
            ∷ fl.fixed s.start_s
            ∷ "s to start, its whole budget of "
            ∷ fl.general b.policy_budget_s
            ∷ "s for the unit"
            ∷ []))
          fl.zero_f
      else s.run_unit (
          unit_limits fl b.act_timeout_s (max_f fl fl.zero_f s.left_s)
            (fl.minus b.policy_budget_s s.start_s) b.result_reserve_s)

  -- `_play`: `wall_s` is the whole of it, starting the policy and waiting for it to end included.
  unfoldable pub play : Side → Budgets F → F → Served F → Outcome F
  unfolding failed voided session_outcome attribute side_name
  play side b wall_s (died reason) =
      failed (concat ("the " ∷ side_name side ∷ "'s policy did not start: " ∷ reason ∷ [])) wall_s
  play side b wall_s (unavailable reason) =
      voided (concat ("the " ∷ side_name side ∷ "'s policy could not be served: " ∷ reason ∷ []))
        wall_s
  play side b wall_s (listening s) = record (attribute (session_outcome side b s) s.ended) {
    wall_s = wall_s;
  }
