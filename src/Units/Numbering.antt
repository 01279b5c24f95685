-- ===== src/Units/Numbering.antt =====
-- benchmarks/units.py: how many units a duel has, and how they are numbered.
use mathlib.Core.Path.{subst}
use icil_competition_orchest.Prelude.{
  ℕ, suc, ◌+◌, ◌*◌, String, ◌≡◌, refl, sym, ◌∙◌, List, [], ◌∷◌, ◌++◌, Option, length, length-append,
  arith, Result, ok, >>=-eq-ok, Option-cases, inl, inr, ap,
}
use icil_competition_orchest.Units.{
  PluginUnit, Derived, DerivationError, seed_material, Deriving, check_unit, unit_of, skill_units,
  derived_units, units_from, plugin_units,
}

ok_inj :
    (us vs : List PluginUnit)
    → ok us ≡ (let r : Result DerivationError (List PluginUnit) = ok vs in r)
    → us ≡ vs
ok_inj us vs h = ground arith

module _ (g : Deriving) (duel_id : String) where
  -- Units of one skill, its `index`-th and the duel's `number`-th first, one after another: each has the
  -- seed of its place in the skill, the id of its place in the duel, its own demonstration and the one
  -- instance 0.
  unfoldable pub AreOfSkill : String → ℕ → ℕ → List PluginUnit → Type 0
  AreOfSkill skill index number [] = Unit
  AreOfSkill skill index number (u ∷ us) =
      ((u.skill ≡ skill)
        × (u.index ≡ index)
        × (u.seed ≡ g.unit_seed duel_id skill index)
        × (u.benchmark ≡ g.benchmark_of skill)
        × (u.unit_id ≡ g.unit_id (g.skill_code skill) number)
        × (u.demo ≡ u.unit_id)
        × (u.instance_no ≡ 0))
      × AreOfSkill skill (suc index) (suc number) us

  -- A duel's units, skill by skill: `count` of the first, from its index 0 on, and then those of the others.
  unfoldable pub AreNumbered : ℕ → ℕ → List String → List PluginUnit → Type 0
  unfolding AreOfSkill
  AreNumbered count number [] us = us ≡ []
  AreNumbered count number (s ∷ ss) us =
      (vs : List PluginUnit) × (ws : List PluginUnit) × (us ≡ vs ++ ws)
      × (length vs ≡ count)
      × AreOfSkill s 0 number vs
      × AreNumbered count (number + count) ss ws

  skill_units-AreOfSkill :
      (skill : String) (index number : ℕ) (ds : List (Option Derived)) (us : List PluginUnit)
      → skill_units g duel_id skill index number ds ≡ ok us
      → AreOfSkill skill index number us × (length us ≡ length ds)
  unfolding skill_units AreOfSkill unit_of check_unit
  skill_units-AreOfSkill skill index number [] us h =
      let same : [] ≡ us = ok_inj [] us h in
      subst (λ us. AreOfSkill skill index number us × (length us ≡ 0)) same (tt, refl)
  skill_units-AreOfSkill skill index number (d ∷ ds) us h =
      let (parts, p, h1) = >>=-eq-ok (check_unit d) _ h in
      let (rest, q, h2) =
        >>=-eq-ok (skill_units g duel_id skill (suc index) (suc number) ds) _ h1 in
      let ih = skill_units-AreOfSkill skill (suc index) (suc number) ds rest q in
      let same : unit_of g duel_id skill index number d parts ∷ rest ≡ us =
        ok_inj (unit_of g duel_id skill index number d parts ∷ rest) us h2 in
      subst (λ us. AreOfSkill skill index number us × (length us ≡ suc (length ds))) same
        (((refl, refl, refl, refl, refl, refl, refl), ih.0), ap suc ih.1)

  derived_units-length :
      (count : ℕ) (skill : String) (ds : List (Option Derived))
      → derived_units g duel_id count skill ≡ ok ds
      → length ds ≡ count
  unfolding derived_units
  derived_units-length count skill ds h =
      elim (Option-cases
        (g.derive_units (g.benchmark_of skill) (seed_material duel_id skill) count skill)) [
          | inl z ↦ ground (arith, z, h)
          | inr (xs, z) ↦ ground (arith, z, h)
        ]

  units_from-AreNumbered :
      (count number : ℕ) (skills : List String) (us : List PluginUnit)
      → units_from g duel_id count number skills ≡ ok us
      → AreNumbered count number skills us
  unfolding units_from AreNumbered
  units_from-AreNumbered count number [] us h = let same : [] ≡ us = ok_inj [] us h in sym same
  units_from-AreNumbered count number (s ∷ ss) us h =
      let (ds, p, h1) = >>=-eq-ok (derived_units g duel_id count s) _ h in
      let (vs, q, h2) = >>=-eq-ok (skill_units g duel_id s 0 number ds) _ h1 in
      let (ws, r, h3) = >>=-eq-ok (units_from g duel_id count (number + count) ss) _ h2 in
      let (of_skill, long) = skill_units-AreOfSkill s 0 number ds vs q in
      (
        vs,
        ws,
        sym (ok_inj (vs ++ ws) us h3),
        long ∙ derived_units-length count s ds p,
        of_skill,
        units_from-AreNumbered count (number + count) ss ws r,
      )

  AreNumbered-length :
      (count number : ℕ) (skills : List String) (us : List PluginUnit)
      → AreNumbered count number skills us
      → length us ≡ length skills * count
  unfolding AreNumbered
  AreNumbered-length count number [] us none_left = rw none_left (omega arith)
  AreNumbered-length count number (s ∷ ss) us (vs, ws, split, long, of_skill, rest) =
      let ih = AreNumbered-length count (number + count) ss ws rest in
      rw split (omega (arith, length-append vs ws, long, ih))

  -- A duel whose units are derived has, for each skill in the spec's order, the size's number of units,
  -- which are that skill's first, second and so on, each with the seed of that place. Over the whole
  -- duel they are numbered from 0: whatever the benchmarks return, each unit's id is its skill's code at
  -- its own place in the duel, its demonstration is its own, and its benchmark is its skill's.
  pub plugin_units-AreNumbered :
      (count : ℕ) (skills : List String) (us : List PluginUnit)
      → plugin_units g duel_id count skills ≡ ok us
      → AreNumbered count 0 skills us × (length us ≡ length skills * count)
  unfolding plugin_units
  plugin_units-AreNumbered count skills us h =
      let numbered = units_from-AreNumbered count 0 skills us h in
      (numbered, AreNumbered-length count 0 skills us numbered)
