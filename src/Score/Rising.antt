-- ===== src/Score/Rising.antt =====
-- duel/score.py: a success more never costs the challenger the crown.
use icil_competition_orchest.Prelude.{
  suc, ◌≤◌, String, ◌≡◌, refl, ap, Bool, true, false, List, [], ◌∷◌, Option, none, some, arith,
  length, Bool-cases, inl, inr, ◌⊎◌, ◌==◌,
}
use icil_competition_orchest.Floats.{Floats, FloatLaws}
use icil_competition_orchest.Records.{UnitRow, challenger, king}
use icil_competition_orchest.Score.{
  Rate, no_rate, count_rate, count_row, skill_rate, rate_of, rates, present, total, mean, average,
  crown_moves, verdict,
}

-- One side's result on a unit is as it was, or a failure has become a success.
abbrev pub Better : Option Bool → Option Bool → Type 0
Better a b = (a ≡ b) ⊎ ((a ≡ some false) × (b ≡ some true))

-- `vs` is `us` with some of the challenger's failures turned into successes.
abbrev pub BetterRows : {F : Type 0} → List (UnitRow F) → List (UnitRow F) → Type 0
BetterRows [] [] = Unit
BetterRows [] (v ∷ vs) = ⊥
BetterRows (u ∷ us) [] = ⊥
BetterRows (u ∷ us) (v ∷ vs) =
    ((u.void ≡ v.void)
      × (u.skill ≡ v.skill)
      × (u.king_row.success ≡ v.king_row.success)
      × Better u.challenger_row.success v.challenger_row.success)
    × BetterRows us vs

module _ {F : Type 0} where
  count_row-king :
      (skill : String) (r : Rate) (u v : UnitRow F)
      → u.void ≡ v.void
      → u.skill ≡ v.skill
      → u.king_row.success ≡ v.king_row.success
      → count_row king skill r u ≡ count_row king skill r v
  unfolding count_row
  count_row-king skill r u v a b c = cc

  count_row-Better :
      (skill : String) (r t : Rate) (u v : UnitRow F)
      → u.void ≡ v.void
      → u.skill ≡ v.skill
      → Better u.challenger_row.success v.challenger_row.success
      → r.scored ≡ t.scored
      → r.successes ≤ t.successes
      → ((count_row challenger skill r u).scored ≡ (count_row challenger skill t v).scored)
        × ((count_row challenger skill r u).successes ≤ (count_row challenger skill t v).successes)
  unfolding count_row
  count_row-Better skill r t u v a b c e h = ground arith

  count_rate-king :
      (skill : String) (r : Rate) (us vs : List (UnitRow F))
      → BetterRows us vs
      → count_rate king skill r us ≡ count_rate king skill r vs
  unfolding count_rate
  count_rate-king skill r [] [] b = refl
  count_rate-king skill r [] (v ∷ vs) b = absurd b
  count_rate-king skill r (u ∷ us) [] b = absurd b
  count_rate-king skill r (u ∷ us) (v ∷ vs) b =
      rw (count_row-king skill r u v b.0.0 b.0.1 b.0.2, count_rate)
        (count_rate-king skill (count_row king skill r v) us vs b.1)

  count_rate-better :
      (skill : String) (r t : Rate) (us vs : List (UnitRow F))
      → BetterRows us vs
      → r.scored ≡ t.scored
      → r.successes ≤ t.successes
      → ((count_rate challenger skill r us).scored ≡ (count_rate challenger skill t vs).scored)
        × ((count_rate challenger skill r us).successes
            ≤ (count_rate challenger skill t vs).successes)
  unfolding count_rate
  count_rate-better skill r t [] [] b e h = (e, h)
  count_rate-better skill r t [] (v ∷ vs) b e h = absurd b
  count_rate-better skill r t (u ∷ us) [] b e h = absurd b
  count_rate-better skill r t (u ∷ us) (v ∷ vs) b e h =
      let row = count_row-Better skill r t u v b.0.0 b.0.1 b.0.3 e h in
      count_rate-better skill (count_row challenger skill r u) (count_row challenger skill t v) us
        vs b.1 row.0 row.1

abbrev LessRate : {F : Type 0} → Floats F → Option F → Option F → Type 0
LessRate fl none none = Unit
LessRate fl none (some y) = ⊥
LessRate fl (some x) none = ⊥
LessRate fl (some x) (some y) = fl.le x y ≡ true

-- One average lists as many rates as the other, none of them higher.
abbrev LessRates : {F : Type 0} → Floats F → List F → List F → Type 0
LessRates fl [] [] = Unit
LessRates fl [] (y ∷ ys) = ⊥
LessRates fl (x ∷ xs) [] = ⊥
LessRates fl (x ∷ xs) (y ∷ ys) = (fl.le x y ≡ true) × LessRates fl xs ys

module _ {F : Type 0} (fl : Floats F) (laws : FloatLaws fl) where
  rates-king :
      (us vs : List (UnitRow F)) (skills : List String)
      → BetterRows us vs
      → rates fl us king skills ≡ rates fl vs king skills
  unfolding rates
  rates-king us vs [] b = refl
  rates-king us vs (s ∷ ss) b = cc (count_rate-king s no_rate us vs b, rates-king us vs ss b)

  rate_of-better :
      (r t : Rate)
      → r.scored ≡ t.scored
      → r.successes ≤ t.successes
      → LessRate fl (rate_of fl r) (rate_of fl t)
  unfolding rate_of
  rate_of-better r t e h = elim (Bool-cases (t.scored == 0)) [
    | inl none_scored ↦ rw (e, none_scored) tt
    | inr scored ↦ rw (e, scored) (laws.ratio_mono r.successes t.successes t.scored h)
  ]

  present-cons :
      (s : String) (o p : Option F) (os ps : List (String × Option F))
      → LessRate fl o p
      → LessRates fl (present fl os) (present fl ps)
      → LessRates fl (present fl ((s, o) ∷ os)) (present fl ((s, p) ∷ ps))
  unfolding present
  present-cons s none none os ps h l = l
  present-cons s none (some y) os ps h l = absurd h
  present-cons s (some x) none os ps h l = absurd h
  present-cons s (some x) (some y) os ps h l = (h, l)

  present-better :
      (us vs : List (UnitRow F)) (skills : List String)
      → BetterRows us vs
      → LessRates fl
          (present fl (rates fl us challenger skills))
          (present fl (rates fl vs challenger skills))
  unfolding rates skill_rate
  present-better us vs [] b = unfold present in tt
  present-better us vs (s ∷ ss) b =
      let row = count_rate-better s no_rate no_rate us vs b refl (omega arith) in
      present-cons s (skill_rate fl us challenger s) (skill_rate fl vs challenger s)
        (rates fl us challenger ss) (rates fl vs challenger ss)
        (rate_of-better (count_rate challenger s no_rate us) (count_rate challenger s no_rate vs)
          row.0 row.1)
        (present-better us vs ss b)

  total_mono :
      (x y : F) (xs ys : List F)
      → fl.le x y ≡ true
      → LessRates fl xs ys
      → fl.le (total fl x xs) (total fl y ys) ≡ true
  unfolding total
  total_mono x y [] [] h l = h
  total_mono x y [] (v ∷ vs) h l = absurd l
  total_mono x y (u ∷ us) [] h l = absurd l
  total_mono x y (u ∷ us) (v ∷ vs) h l =
      total_mono (fl.plus x u) (fl.plus y v) us vs (laws.plus_mono x y u v h l.0) l.1

  length-LessRates : (xs ys : List F) → LessRates fl xs ys → length xs ≡ length ys
  length-LessRates [] [] l = refl
  length-LessRates [] (v ∷ vs) l = absurd l
  length-LessRates (u ∷ us) [] l = absurd l
  length-LessRates (u ∷ us) (v ∷ vs) l = ap suc (length-LessRates us vs l.1)

  crown_mono :
      (k : Option F) (margin : F) (xs ys : List F)
      → LessRates fl xs ys
      → crown_moves fl k (mean fl xs) margin ≡ true
      → crown_moves fl k (mean fl ys) margin ≡ true
  unfolding mean crown_moves
  crown_mono none margin xs ys l h = cc
  crown_mono (some k) margin [] ys l h = cc
  crown_mono (some k) margin (x ∷ xs) [] l h = absurd l
  crown_mono (some k) margin (x ∷ xs) (y ∷ ys) l h = laws.le_trans _ _ _ h (
      rw (length-LessRates (x ∷ xs) (y ∷ ys) l) (
        laws.over_mono _ _ (length (y ∷ ys))
          (total_mono fl.zero_f fl.zero_f (x ∷ xs) (y ∷ ys) (laws.le_refl fl.zero_f) l)))

  -- The challenger is never punished for a success: in a duel that moves the crown, the crown moves
  -- too when some of the challenger's failures are successes instead, with the same units void.
  pub verdict_mono :
      (us vs : List (UnitRow F)) (margin : F) (skills : List String)
      → BetterRows us vs
      → (verdict fl us margin skills).dethroned ≡ true
      → (verdict fl vs margin skills).dethroned ≡ true
  unfolding verdict
  verdict_mono us vs margin skills b h =
      crown_mono (average fl (rates fl vs king skills)) margin
        (present fl (rates fl us challenger skills)) (present fl (rates fl vs challenger skills))
        (present-better us vs skills b) (rw (rates-king us vs skills b) at h)
