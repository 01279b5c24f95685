-- ===== src/Units.antt =====
-- benchmarks/units.py: a duel's unit list. The benchmarks' `derive_units`, the spec's tables, the hash
-- behind a seed and the printed form of an id are parameters.
pub mod Numbering
mod Examples
use icil_competition_orchest.Prelude.{
  ℕ, suc, ◌+◌, String, Bool, true, false, not, List, [], ◌∷◌, ◌++◌, Option, none, some, length,
  keep, any, all, ◌==◌, ◌==s◌, join, if◌then◌else◌, Result, ok, err, ◌>>=◌,
}

-- `INSTANCE_PARAM_KEYS` and `RESERVED`
abbrev pub param_keys : List String
param_keys = "scene_seed" ∷ "embodiment" ∷ []

abbrev pub reserved : List String
reserved = "unit_id" ∷ "skill" ∷ "index" ∷ "seed" ∷ "benchmark" ∷ "instance" ∷ "demo" ∷ []

-- What a benchmark returned for a unit that is a mapping: its task and label where they are texts, its
-- `instance_params` where that is a mapping, and its further keys.
pub record Derived : Type 0 where
  pub task : Option String
  pub task_label : Option String
  pub params : Option (List (String × String))
  pub further : List (String × String)

-- A unit of the duel; `passed` is what the benchmark returned beyond.
pub record PluginUnit : Type 0 where
  pub unit_id : String
  pub skill : String
  pub benchmark : String
  pub index : ℕ
  pub seed : ℕ
  pub task : String
  pub task_label : String
  pub instance_no : ℕ
  pub demo : String
  pub params : List (String × String)
  pub passed : List (String × String)

pub data DerivationError : Type 0 where
  could_not_derive wrong_count not_a_mapping no_task no_task_label no_params lacks_params :
      DerivationError

-- The spec's answers about skills, what each benchmark derives from its seed material, for how many units
-- of which skill (`none` where it raises), and the forms of ids and seeds.
pub record Deriving : Type 0 where
  pub benchmark_of : String → String
  pub skill_code : String → String
  pub derive_units : String → String → ℕ → String → Option (List (Option Derived))
  pub unit_id : String → ℕ → String
  pub unit_seed : String → String → ℕ → ℕ

unfoldable pub seed_material : String → String → String
seed_material duel_id skill = join duel_id (join "|" skill)

unfoldable pub has_key : String → List (String × String) → Bool
has_key key = any (λ p. p.0 ==s key)

-- A text that is not empty.
unfoldable pub needed : DerivationError → Option String → Result DerivationError String
needed e none = err e
needed e (some s) = if s ==s "" then err e else ok s

unfoldable pub checked_params :
    Option (List (String × String)) → Result DerivationError (List (String × String))
unfolding has_key
checked_params none = err no_params
checked_params (some ps) =
    if all (λ key. has_key key ps) param_keys then ok ps else err lacks_params

-- `check_unit`, with the fields that it has made sure of.
unfoldable pub check_unit :
    Option Derived → Result DerivationError (String × String × List (String × String))
unfolding needed checked_params
check_unit none = err not_a_mapping
check_unit (some d) = needed no_task d.task >>= λ task.
    needed no_task_label d.task_label >>= λ label.
    checked_params d.params >>= λ params. ok (task, label, params)

unfoldable pub further_of : Option Derived → List (String × String)
further_of none = []
further_of (some d) = keep (λ p. not (any (λ key. key ==s p.0) reserved)) d.further

module _ (g : Deriving) (duel_id : String) where
  unfoldable pub unit_of :
      String → ℕ → ℕ → Option Derived → String × String × List (String × String) → PluginUnit
  unfolding further_of
  unit_of skill index number d (task, label, params) = record {
    unit_id = g.unit_id (g.skill_code skill) number;
    skill = skill;
    benchmark = g.benchmark_of skill;
    index = index;
    seed = g.unit_seed duel_id skill index;
    task = task;
    task_label = label;
    instance_no = 0;
    demo = g.unit_id (g.skill_code skill) number;
    params = params;
    passed = further_of d;
  }

  -- The units of one skill, from its `index`-th and the duel's `number`-th on.
  unfoldable pub skill_units :
      String → ℕ → ℕ → List (Option Derived) → Result DerivationError (List PluginUnit)
  unfolding check_unit unit_of
  skill_units skill index number [] = ok []
  skill_units skill index number (d ∷ ds) =
      let rest = skill_units skill (suc index) (suc number) ds in
      check_unit d >>= λ parts. rest >>= λ us. ok (unit_of skill index number d parts ∷ us)

  unfoldable pub derived_units : ℕ → String → Result DerivationError (List (Option Derived))
  unfolding seed_material
  derived_units count skill =
      elim (g.derive_units (g.benchmark_of skill) (seed_material duel_id skill) count skill) [
        | none ↦ err could_not_derive
        | some ds ↦ if length ds == count then ok ds else err wrong_count
      ]

  -- The loop over the skills, `number` units being there already.
  unfoldable pub units_from : ℕ → ℕ → List String → Result DerivationError (List PluginUnit)
  unfolding derived_units skill_units
  units_from count number [] = ok []
  units_from count number (s ∷ ss) =
      let rest = units_from count (number + count) ss in
      derived_units count s >>= λ ds.
      skill_units s 0 number ds >>= λ us. rest >>= λ vs. ok (us ++ vs)

  unfoldable pub plugin_units : ℕ → List String → Result DerivationError (List PluginUnit)
  unfolding units_from
  plugin_units count skills = units_from count 0 skills
