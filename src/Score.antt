-- ===== src/Score.antt =====
-- duel/score.py: scoring and the crown rule, over published unit rows.
pub mod Voids
pub mod Tallies
pub mod Crown
pub mod Rising
mod Examples
use icil_competition_orchest.Prelude.{
  ℕ, zero, suc, ◌+◌, String, Bool, true, false, not, ◌&&◌, List, [], ◌∷◌, Option, none, some,
  length, keep, ◌==s◌, ◌==◌, if◌then◌else◌,
}
use icil_competition_orchest.Floats.{Floats}
use icil_competition_orchest.Records.{
  UnitRow, SideRow, Winner, challenger_wins, king_wins, tie, Side, challenger, king, Counts,
}

-- `king_success` and `challenger_success` are the two arguments.
unfoldable pub paired_outcome : Option Bool → Option Bool → Winner
paired_outcome none c = tie
paired_outcome (some k) none = tie
paired_outcome (some true) (some true) = tie
paired_outcome (some false) (some false) = tie
paired_outcome (some false) (some true) = challenger_wins
paired_outcome (some true) (some false) = king_wins

-- The counters `scored` and `successes` of `skill_rate`.
pub record Rate : Type 0 where
  pub scored : ℕ
  pub successes : ℕ

abbrev pub no_rate : Rate
no_rate = record { scored = 0; successes = 0 }

unfoldable pub count_success : Option Bool → Rate → Rate
count_success none r = r
count_success (some true) r = record { scored = r.scored + 1; successes = r.successes + 1 }
count_success (some false) r = record { scored = r.scored + 1; successes = r.successes }

-- `Tally`, without `decided`, which is set at the end.
pub record Tally : Type 0 where
  pub units : ℕ
  pub wins : ℕ
  pub losses : ℕ
  pub ties : ℕ
  pub decided : ℕ
  pub void : ℕ

abbrev pub no_tally : Tally
no_tally = record { units = 0; wins = 0; losses = 0; ties = 0; decided = 0; void = 0 }

unfoldable pub tally_outcome : Winner → Tally → Tally
tally_outcome challenger_wins t = record t { wins = t.wins + 1 }
tally_outcome king_wins t = record t { losses = t.losses + 1 }
tally_outcome tie t = record t { ties = t.ties + 1 }

pub data Reason : Type 0 where
  no_units unscored margin_met short_of_margin : Reason

module _ {F : Type 0} where
  unfoldable pub side_success : UnitRow F → Side → Option Bool
  side_success u challenger = u.challenger_row.success
  side_success u king = u.king_row.success

  -- One turn of the loop of `skill_rate`.
  unfoldable pub count_row : Side → String → Rate → UnitRow F → Rate
  unfolding side_success count_success
  count_row side skill r u =
      if not (u.skill ==s skill)
      then r
      else if u.void
      then r
      else count_success (side_success u side) r

  unfoldable pub count_rate : Side → String → Rate → List (UnitRow F) → Rate
  unfolding count_row
  count_rate side skill r [] = r
  count_rate side skill r (u ∷ us) = count_rate side skill (count_row side skill r u) us

  unfoldable pub void_count : List (UnitRow F) → ℕ
  void_count [] = 0
  void_count (u ∷ us) = if u.void then void_count us + 1 else void_count us

  -- One turn of the loop of `tally`.
  unfoldable pub tally_unit : Tally → UnitRow F → Tally
  unfolding side_success paired_outcome tally_outcome
  tally_unit t u =
      let t' = record t { units = t.units + 1 } in
      if u.void
      then record t' { void = t'.void + 1 }
      else tally_outcome (paired_outcome (side_success u king) (side_success u challenger)) t'

  unfoldable pub tally_units : Tally → List (UnitRow F) → Tally
  unfolding tally_unit
  tally_units t [] = t
  tally_units t (u ∷ us) = tally_units (tally_unit t u) us

  unfoldable pub tally : List (UnitRow F) → Tally
  unfolding tally_units
  tally us = let t = tally_units no_tally us in record t { decided = t.wins + t.losses }

-- A side's rates by skill, in the order of the spec's skills, and their mean.
pub record Scores (F : Type 0) : Type 0 where
  pub per_skill : List (String × Option F)
  pub average : Option F

pub record Verdict (F : Type 0) : Type 0 where
  pub king_scores : Scores F
  pub challenger_scores : Scores F
  pub score_margin : F
  pub dethroned : Bool
  pub reason : Reason
  pub void_fraction : F
  pub counts : Tally

module _ {F : Type 0} (fl : Floats F) where
  open fl use {zero_f, ratio, over, times, plus, minus, le, epsilon}

  -- `successes / scored if scored else None`
  unfoldable pub rate_of : Rate → Option F
  rate_of r = if r.scored == 0 then none else some (ratio r.successes r.scored)

  unfoldable pub skill_rate : List (UnitRow F) → Side → String → Option F
  unfolding count_rate rate_of
  skill_rate us side skill = rate_of (count_rate side skill no_rate us)

  unfoldable pub rates : List (UnitRow F) → Side → List String → List (String × Option F)
  unfolding skill_rate
  rates us side [] = []
  rates us side (s ∷ ss) = (s, skill_rate us side s) ∷ rates us side ss

  unfoldable pub present : List (String × Option F) → List F
  present [] = []
  present ((s, none) ∷ ps) = present ps
  present ((s, some x) ∷ ps) = x ∷ present ps

  -- `sum`, added from left to right, which is how Python adds floats before 3.12: later versions carry a
  -- correction along.
  unfoldable pub total : F → List F → F
  total acc [] = acc
  total acc (x ∷ xs) = total (plus acc x) xs

  unfoldable pub mean : List F → Option F
  unfolding total
  mean [] = none
  mean (x ∷ xs) = some (over (total zero_f (x ∷ xs)) (length (x ∷ xs)))

  unfoldable pub average : List (String × Option F) → Option F
  unfolding present mean
  average ps = mean (present ps)

  unfoldable pub skill_scores : List (UnitRow F) → Side → List String → Scores F
  unfolding rates average
  skill_scores us side skills =
      let per = rates us side skills in record { per_skill = per; average = average per }

  unfoldable pub crown_moves : Option F → Option F → F → Bool
  crown_moves none c margin = false
  crown_moves (some k) none margin = false
  crown_moves (some k) (some c) margin = le (minus (plus k (over margin 100)) epsilon) c

  unfoldable pub void_fraction : List (UnitRow F) → F
  unfolding void_count
  void_fraction [] = zero_f
  void_fraction (u ∷ us) = ratio (void_count (u ∷ us)) (length (u ∷ us))

  unfoldable pub too_void : List (UnitRow F) → F → Bool
  unfolding void_fraction
  too_void us max_void_fraction = not (le (void_fraction us) max_void_fraction)

  unfoldable pub delta_points : Option F → Option F → Option F
  delta_points none c = none
  delta_points (some k) none = none
  delta_points (some k) (some c) = some (times (minus c k) 100)

  unfoldable pub scored_reason : Option F → Option F → Bool → Reason
  scored_reason none c moves = unscored
  scored_reason (some k) none moves = unscored
  scored_reason (some k) (some c) moves = if moves then margin_met else short_of_margin

  unfoldable pub reason_of : List (UnitRow F) → Option F → Option F → Bool → Reason
  unfolding scored_reason
  reason_of [] k c moves = no_units
  reason_of (u ∷ us) k c moves = scored_reason k c moves

  unfoldable pub verdict : List (UnitRow F) → F → List String → Verdict F
  unfolding skill_scores crown_moves reason_of void_fraction tally
  verdict us score_margin skills =
      let k = skill_scores us king skills in
      let c = skill_scores us challenger skills in
      let moves = crown_moves k.average c.average score_margin in
      record {
        king_scores = k;
        challenger_scores = c;
        score_margin = score_margin;
        dethroned = moves;
        reason = reason_of us k.average c.average moves;
        void_fraction = void_fraction us;
        counts = tally us;
      }
