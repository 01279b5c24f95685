-- ===== src/Duel/Prompts.antt =====
-- duel/materialize.py: every unit's prompt, made once before either side runs. What the benchmark's
-- command, its reader and its verifier answer, the clock and the files' hashes are a parameter.
pub mod Loop
pub mod Verified
pub mod Tracked
pub mod Reused
mod Examples
use icil_competition_orchest.Prelude.{
  ℕ, ◌+◌, String, Bool, true, false, not, ◌&&◌, ◌||◌, List, [], ◌∷◌, ◌++◌, Option, none, some, ◌==◌,
  ◌==s◌, concat, prefix, text_or, or_else, find_first, if◌then◌else◌, Result, ok, err, ◌>>=◌,
}
use icil_competition_orchest.Floats.{Floats}
use icil_competition_orchest.Records.{UnitDef, UnitRow}
use icil_competition_orchest.Duel.Merge.{Prompt, on_prompt, certainly_void}
use icil_competition_orchest.Duel.Side.{Reported, silent, text, other_value}

-- A prompt as the manifest has it: with its clip's hash and the time that it took.
pub record Made (F : Type 0) : Type 0 where
  pub prompt : Prompt
  pub path : Option String
  pub demo_sha256 : Option String
  pub wall_s : F

-- `Completed`: how the materialize command ended.
pub data Completed : Type 0 where
  not_started : String → Completed
  timed_out : Completed
  exited : ℕ → String → Completed

-- The outcome that the benchmark reads back, with its `prompt_sha256` and `scene_seed`.
pub record Demonstrated : Type 0 where
  pub success : Option Bool
  pub void : Bool
  pub error : Option String
  pub written : Reported
  pub reported_seed : Option ℕ

-- What `verify_prompt` returned, where that is a mapping.
pub record Verdict : Type 0 where
  pub is_ok : Bool
  pub problems : List String
  pub hashed : Reported
  pub read_seed : Option ℕ

-- What making one unit's prompt meets, from the command on.
pub record Making (F : Type 0) : Type 0 where
  pub name : String
  -- the command, or what it raised
  pub argv : Result String (List String)
  -- why an earlier attempt's files could not be removed
  pub stale : Option String
  pub ran : Completed
  pub has_result : Bool
  pub outcome : Result String Demonstrated
  -- the sha256 of the bytes of the file at a path, if there is one
  pub path : String
  pub file : Option String
  -- `none` where it is no mapping
  pub verdict : Result String (Option Verdict)
  pub clip : Option (String × String)
  pub wall_s : F
  pub timeout : String

unfoldable pub shown : Reported → String
shown silent = "None"
shown (text s) = prefix 12 s
shown other_value = "another value"

-- `"; ".join(texts)`
unfoldable pub semicolons : List String → String
semicolons [] = ""
semicolons (s ∷ []) = s
semicolons (s ∷ t ∷ ts) = concat (s ∷ "; " ∷ semicolons (t ∷ ts) ∷ [])

unfoldable pub listed : List String → String
unfolding semicolons
listed [] = "no reason given"
listed (s ∷ ss) = semicolons (s ∷ ss)

-- A hash that is no text is never the file's.
unfoldable pub is_hash : String → Reported → Bool
is_hash sha silent = false
is_hash sha other_value = false
is_hash sha (text s) = s ==s sha

unfoldable pub no_argv : List String → Bool
no_argv [] = true
no_argv (a ∷ more) = false

abbrev pub refuse_if : Bool → String → Result String Unit
refuse_if true e = err e
refuse_if false e = ok tt

-- `verify_prompt` finds the prompt in order.
unfoldable pub checked : Result String (Option Verdict) → Result String Verdict
unfolding listed
checked (err raised) = err (concat ("verify_prompt failed: " ∷ raised ∷ []))
checked (ok none) = err "the prompt is not the one the unit asked for: no reason given"
checked (ok (some v)) =
    refuse_if (not v.is_ok)
      (concat ("the prompt is not the one the unit asked for: " ∷ listed v.problems ∷ []))
    >>= λ _. ok v

-- Both seeds are given and they differ.
unfoldable pub seeds_differ : Option ℕ → Option ℕ → Bool
seeds_differ none b = false
seeds_differ (some a) none = false
seeds_differ (some a) (some b) = not (a == b)

unfoldable pub seed_text : (ℕ → String) → Option ℕ → String
seed_text str none = "None"
seed_text str (some n) = str n

unfoldable pub names_other : String → Reported → Bool
unfolding is_hash
names_other sha silent = false
names_other sha (text s) = not (is_hash sha (text s))
names_other sha other_value = true

-- The file's hash and the seed that the prompt was built on.
unfoldable pub verified :
    (ℕ → String)
    → Option String
    → Result String (Option Verdict)
    → Demonstrated
    → Result String (String × Option ℕ)
unfolding checked is_hash names_other shown seeds_differ seed_text
verified str file verdict o = elim file [
  | none ↦ err "wrote no prompt.npz"
  | some sha ↦ checked verdict >>= λ v.
      refuse_if (not (is_hash sha v.hashed)) (
        concat (
          "verify_prompt hashed the prompt to "
          ∷ shown v.hashed
          ∷ "..., not the sha256 of its bytes "
          ∷ prefix 12 sha
          ∷ "..."
          ∷ []))
      >>= λ _.
          refuse_if (names_other sha o.written) (
            concat (
              "its result says it wrote a prompt hashing to "
              ∷ shown o.written
              ∷ "..., not the sha256 of the file's bytes "
              ∷ prefix 12 sha
              ∷ "..."
              ∷ []))
          >>= λ _.
              refuse_if (seeds_differ o.reported_seed v.read_seed) (
                concat (
                  "its result says the prompt was built on scene seed "
                  ∷ seed_text str o.reported_seed
                  ∷ ", but the prompt's own is "
                  ∷ seed_text str v.read_seed
                  ∷ []))
              >>= λ _. ok (sha, elim o.reported_seed [ none ↦ v.read_seed | some s ↦ some s ])
]

module _ {F : Type 0} (str : ℕ → String) where
  -- Up to the result that the command wrote.
  unfoldable pub demonstration : Making F → Result String Demonstrated
  unfolding no_argv
  demonstration k = elim k.argv [
    | err raised ↦ err (concat ("materialize_command failed: " ∷ raised ∷ []))
    | ok argv ↦ refuse_if (no_argv argv) "materialize_command returned an empty argv" >>= λ _.
        elim k.stale [
          | some why ↦ err (concat ("could not clear a stale " ∷ why ∷ []))
          | none ↦ elim k.ran [
            | not_started why ↦ err (concat ("could not start: " ∷ why ∷ []))
            | timed_out ↦ err (concat ("exceeded its " ∷ k.timeout ∷ "s budget" ∷ []))
            | exited code tail ↦
                refuse_if (not (code == 0)) (concat ("exited " ∷ str code ∷ ": " ∷ tail ∷ []))
                >>= λ _.
                    refuse_if (not k.has_result)
                      (concat ("exited 0 but wrote no result.json: " ∷ tail ∷ []))
                    >>= λ _. elim k.outcome [
                      | err raised ↦ err (concat ("its result could not be read: " ∷ raised ∷ []))
                      | ok o ↦
                          refuse_if (o.void || not (or_else o.success false)) (
                            concat (
                              "the demonstration did not succeed: "
                              ∷ text_or o.error "no reason given"
                              ∷ []))
                          >>= λ _. ok o
                    ]
          ]
        ]
  ]

-- A unit that has no prompt, with the reason.
unfoldable pub no_prompt : {F : Type 0} → String → String → F → Made F
no_prompt unit_id reason wall_s = record {
  prompt = record {
    unit_id = unit_id;
    void = true;
    error = some reason;
    sha256 = none;
    scene_seed = none;
    demo_clip = none;
  };
  path = none;
  demo_sha256 = none;
  wall_s = wall_s;
}

module _ {F : Type 0} (str : ℕ → String) where
  -- `materialize_unit`
  unfoldable pub materialize_unit : String → Making F → Made F
  unfolding demonstration verified no_prompt
  materialize_unit unit_id k = elim (demonstration str k >>= λ o. verified str k.file k.verdict o) [
    | err reason ↦ no_prompt unit_id (concat (k.name ∷ ": materialize: " ∷ reason ∷ [])) k.wall_s
    | ok (sha, seed) ↦ record {
      prompt = record {
        unit_id = unit_id;
        void = false;
        error = none;
        sha256 = some sha;
        scene_seed = seed;
        demo_clip = elim k.clip [ none ↦ none | some c ↦ some c.0 ];
      };
      path = some k.path;
      demo_sha256 = elim k.clip [ none ↦ none | some c ↦ some c.1 ];
      wall_s = k.wall_s;
    }
  ]
