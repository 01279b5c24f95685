-- ===== src/Duel/Prompts/Loop.antt =====
-- duel/materialize.py: `materialize_units`, `read_manifest` and `Prompt.changed`. A line of the manifest
-- that is no prompt is `none`; what follows the last newline is the tail that a killed write left.
use mathlib.Core.List.{append-nil}
use icil_competition_orchest.Prelude.{
  ℕ, String, ◌≡◌, ◌≢◌, refl, sym, Bool, true, false, List, [], ◌∷◌, ◌++◌, Option, none, some, ◌==s◌,
  concat, prefix, find_first, if◌then◌else◌,
}
use icil_competition_orchest.Floats.{Floats}
use icil_competition_orchest.Records.{UnitDef, UnitRow}
use icil_competition_orchest.Duel.Merge.{on_prompt, certainly_void}
use icil_competition_orchest.Duel.Side.Journal.{Tail, clean, torn, whole}
use icil_competition_orchest.Duel.Prompts.{Made, Making, materialize_unit, no_prompt}

-- What a file is found to be: its hash, or why it cannot be read.
pub data Found : Type 0 where
  hashes : String → Found
  unreadable : String → Found

-- What the loop meets: the file of a recorded prompt, whether the duel's time is up, and making a unit's
-- prompt; and the store's clips and the threshold that rows are judged by.
pub record Workshop (F : Type 0) : Type 0 where
  pub fl : Floats F
  pub str : ℕ → String
  pub file_of : String → Found
  pub late : String → Bool
  pub making : String → Making F
  pub put_media : String → String
  pub demo_video : Bool
  pub max_void_fraction : F

abbrev pub is_of : {F : Type 0} → String → Made F → Bool
is_of id m = m.prompt.unit_id ==s id

unfoldable pub put_made : {F : Type 0} → Made F → List (Made F) → List (Made F)
put_made m [] = m ∷ []
put_made m (x ∷ xs) = if is_of m.prompt.unit_id x then m ∷ xs else x ∷ put_made m xs

-- `prompts/manifest.jsonl`
pub record PromptManifest (F : Type 0) : Type 0 where
  pub lines : List (Option (Made F))
  pub tail : Tail (Made F)

abbrev pub no_manifest : {F : Type 0} → PromptManifest F
no_manifest = record { lines = []; tail = clean }

-- The last line for a unit wins.
unfoldable pub read_entries : {F : Type 0} → List (Made F) → List (Option (Made F)) → List (Made F)
unfolding put_made
read_entries out [] = out
read_entries out (none ∷ ls) = read_entries out ls
read_entries out (some m ∷ ls) = read_entries (put_made m out) ls

read_last : {F : Type 0} → Tail (Made F) → List (Made F) → List (Made F)
unfolding put_made
read_last clean out = out
read_last torn out = out
read_last (whole m) out = put_made m out

unfoldable pub read_manifest : {F : Type 0} → PromptManifest F → List (Made F)
unfolding read_entries read_last
read_manifest f = read_last f.tail (read_entries [] f.lines)

-- `_append` opens the file for appending: after a tail with no newline, the line that it writes becomes
-- one line with that tail, which is no JSON.
glued : {F : Type 0} → Tail (Made F) → Option (Made F) → Option (Made F)
glued clean line = line
glued torn line = none
glued (whole m) line = none

-- `_append`, for each line of what a unit gets.
unfoldable pub append_lines :
    {F : Type 0} → List (Option (Made F)) → PromptManifest F → PromptManifest F
unfolding glued
append_lines [] f = f
append_lines (line ∷ ls) f = record { lines = f.lines ++ glued f.tail line ∷ ls; tail = clean }

unfoldable pub is_hash : Option String → String → Bool
is_hash none sha = false
is_hash (some s) sha = s ==s sha

-- `Prompt.changed`, for what is found at the prompt's path.
unfoldable pub changed : {F : Type 0} → Made F → Found → Option String
unfolding is_hash
changed m (unreadable why) = if m.prompt.void then none else elim m.path [
  | none ↦ none
  | some path ↦ some (concat ("the prompt file cannot be read any more: " ∷ why ∷ []))
]
changed m (hashes sha) = if m.prompt.void then none else elim m.path [
  | none ↦ none
  | some path ↦
      if is_hash m.prompt.sha256 sha
      then none
      else some (
          concat
            ("the prompt file changed after it was materialized (" ∷ prefix 12 sha ∷ "...)" ∷ []))
]

-- The manifest, the prompts that the run has so far, and the published rows.
pub record Bench (F : Type 0) : Type 0 where
  pub manifest : PromptManifest F
  pub prompts : List (Made F)
  pub rows : List (UnitRow F)

module _ {F : Type 0} (w : Workshop F) where
  -- The prompt of a unit, and the line that the manifest gets for it, if it gets one.
  unfoldable pub prompt_for : List (Made F) → String → Made F × List (Option (Made F))
  unfolding changed no_prompt
  prompt_for done id = elim (find_first (is_of id) done) [
    | some m ↦ elim (changed m (w.file_of id)) [
      | none ↦ (m, [])
      | some reason ↦
          let v = no_prompt id (concat ("materialize: " ∷ reason ∷ [])) w.fl.zero_f in
          (v, some v ∷ [])
    ]
    | none ↦
        if w.late id
        then (let v =
              no_prompt id "materialize: the duel ran out of its wall-clock budget" w.fl.zero_f in
            (v, some v ∷ []))
        else (let m = materialize_unit w.str id (w.making id) in (m, some m ∷ []))
  ]

  -- One unit: its prompt into the manifest, and `_on_prompt` into the rows.
  unfoldable pub make_one : List (Made F) → UnitDef → Bench F → Option (Bench F)
  unfolding prompt_for append_lines
  make_one done u b =
      let (m, lines) = prompt_for done u.unit_id in
      elim (on_prompt w.put_media w.demo_video m.prompt b.rows) [
        | none ↦ none
        | some rows ↦ some (record {
          manifest = append_lines lines b.manifest;
          prompts = put_made m b.prompts;
          rows = rows;
        })
      ]

  -- The loop: it ends early once the duel is certain to be void; `none` is the `StopIteration` of a unit
  -- with no row.
  unfoldable pub make_all : List (Made F) → List UnitDef → Bench F → Option (Bench F)
  unfolding make_one
  make_all done [] b = some b
  make_all done (u ∷ us) b = elim (certainly_void w.fl w.max_void_fraction b.rows) [
    | true ↦ some b
    | false ↦ elim (make_one done u b) [ none ↦ none | some b' ↦ make_all done us b' ]
  ]

  unfoldable pub materialize_units :
      List UnitDef → PromptManifest F → List (UnitRow F) → Option (Bench F)
  unfolding read_manifest make_all
  materialize_units us manifest rows =
      make_all (read_manifest manifest) us
        (record { manifest = manifest; prompts = []; rows = rows })

-- A manifest that ends in a newline is its lines.
pub read_manifest-clean :
    {F : Type 0} (f : PromptManifest F) → f.tail ≡ clean → read_manifest f ≡ read_entries [] f.lines
unfolding read_manifest
read_manifest-clean f c = rw (c, read_last) refl

-- It grows by what is appended, and ends in a newline again.
pub append_lines-clean :
    {F : Type 0} (ls : List (Option (Made F))) (f : PromptManifest F)
    → f.tail ≡ clean
    → ((append_lines ls f).lines ≡ f.lines ++ ls) × ((append_lines ls f).tail ≡ clean)
unfolding append_lines
append_lines-clean [] f c = (sym (append-nil f.lines), c)
append_lines-clean (line ∷ ls) f c = (rw (c, glued) refl, refl)

glued-none :
    {F : Type 0} (t : Tail (Made F)) (line : Option (Made F)) → t ≢ clean → glued t line ≡ none
unfolding glued
glued-none clean line c = absurd (c refl)
glued-none torn line c = refl
glued-none (whole m) line c = refl

read_entries-none :
    {F : Type 0} (out : List (Made F)) (ls : List (Option (Made F)))
    → read_entries out (ls ++ none ∷ []) ≡ read_entries out ls
unfolding read_entries
read_entries-none out [] = refl
read_entries-none out (none ∷ ls) = read_entries-none out ls
read_entries-none out (some m ∷ ls) = read_entries-none (put_made m out) ls

-- What is appended first to one that does not is lost.
pub append_lines-torn :
    {F : Type 0} (line : Option (Made F)) (f : PromptManifest F)
    → f.tail ≢ clean
    → read_manifest (append_lines (line ∷ []) f) ≡ read_entries [] f.lines
unfolding read_manifest append_lines
append_lines-torn line f c = rw (glued-none f.tail line c, read_last) (read_entries-none [] f.lines)
