-- ===== src/Duel/Prompts/Reused.antt =====
-- duel/materialize.py: a duel that is run again uses the prompts that its manifest holds.
use mathlib.Core.Path.{subst}
use icil_competition_orchest.Prelude.{
  String, ◌≡◌, refl, sym, ap, Bool, true, false, List, [], ◌∷◌, ◌++◌, Option, none, some, ◌⊎◌,
  find_first, ◌∙◌, inl, inr, arith, Option-cases, Bool-cases,
}
use icil_competition_orchest.Records.{UnitDef, UnitRow}
use icil_competition_orchest.Duel.Merge.{on_prompt, certainly_void}
use icil_competition_orchest.Duel.Side.Journal.{clean}
use icil_competition_orchest.Duel.Prompts.{Made, Making}
use icil_competition_orchest.Duel.Prompts.Loop.{
  Found, Workshop, is_of, Bench, PromptManifest, put_made, read_entries, read_manifest,
  append_lines, changed, prompt_for, make_one, make_all, read_manifest-clean, append_lines-clean,
  materialize_units,
}
use icil_competition_orchest.Duel.Prompts.Tracked.{
  recorded, IsKnown, IsTracked, prompt_for-IsKnown, prompt_for-IsTracked, prompt_for-own_IsKnown,
}

module _ {F : Type 0} where
  module _ (w : Workshop F) (done : List (Made F)) where
    -- One unit's step, in its parts.
    make_one-some :
        (u : UnitDef) (b c : Bench F)
        → make_one w done u b ≡ some c
        → (rows : List (UnitRow F)) × (on_prompt w.put_media w.demo_video
              (prompt_for w done u.unit_id).0.prompt
              b.rows
            ≡ some rows)
          × (c ≡ record {
            manifest = append_lines (prompt_for w done u.unit_id).1 b.manifest;
            prompts = put_made (prompt_for w done u.unit_id).0 b.prompts;
            rows = rows;
          })
    unfolding make_one
    make_one-some u b c h =
        elim (Option-cases
          (on_prompt w.put_media w.demo_video (prompt_for w done u.unit_id).0.prompt b.rows)) [
            | inl no_row ↦ ground arith
            | inr (rows, shown) ↦ (rows, shown, ground arith)
          ]

    make_one-manifest :
        (u : UnitDef) (b c : Bench F)
        → make_one w done u b ≡ some c
        → b.manifest.tail ≡ clean
        → (c.manifest.lines ≡ b.manifest.lines ++ (prompt_for w done u.unit_id).1)
          × (c.manifest.tail ≡ clean)
    make_one-manifest u b c h whole_lines =
        let (rows, shown, e) = make_one-some u b c h in
        let same = ap (λ x. x.manifest) e in
        let (grown, ends) =
          append_lines-clean (prompt_for w done u.unit_id).1 b.manifest whole_lines in
        (ap (λ f. f.lines) same ∙ grown, ap (λ f. f.tail) same ∙ ends)

    make_all-cons :
        (u : UnitDef) (us : List UnitDef) (b c : Bench F)
        → make_all w done (u ∷ us) b ≡ some c
        → (certainly_void w.fl w.max_void_fraction b.rows ≡ true) × (b ≡ c)
          ⊎ (certainly_void w.fl w.max_void_fraction b.rows ≡ false)
            × (d : Bench F) × (make_one w done u b ≡ some d)
            × (make_all w done us d ≡ some c)
    unfolding make_all
    make_all-cons u us b c run =
        elim (Bool-cases (certainly_void w.fl w.max_void_fraction b.rows)) [
          | inl over ↦ inl (over, ground arith)
          | inr on ↦ elim (Option-cases (make_one w done u b)) [
            | inl lost ↦ ground arith
            | inr (d, one) ↦ inr (on, d, one, ground arith)
          ]
        ]

    -- A manifest that ends in a newline still does after the loop.
    make_all-clean :
        (us : List UnitDef) (b c : Bench F)
        → make_all w done us b ≡ some c
        → b.manifest.tail ≡ clean
        → c.manifest.tail ≡ clean
    unfolding make_all
    make_all-clean [] b c run ends = ground arith
    make_all-clean (u ∷ us) b c run ends = elim (make_all-cons u us b c run) [
      | inl (over, same) ↦ subst (λ x. x.manifest.tail ≡ clean) same ends
      | inr (on, d, one, rest) ↦ make_all-clean us d c rest (make_one-manifest u b d one ends).1
    ]

    -- What is in the manifest stays there to the end of the loop.
    make_all-IsKnown :
        (us : List UnitDef) (b c : Bench F) (id : String)
        → make_all w done us b ≡ some c
        → b.manifest.tail ≡ clean
        → IsKnown w done id b.manifest.lines
        → IsKnown w done id c.manifest.lines
    unfolding make_all
    make_all-IsKnown [] b c id run ends known = ground arith
    make_all-IsKnown (u ∷ us) b c id run ends known = elim (make_all-cons u us b c run) [
      | inl (over, same) ↦ subst (λ x. IsKnown w done id x.manifest.lines) same known
      | inr (on, d, one, rest) ↦
          let (grown, ends') = make_one-manifest u b d one ends in
          make_all-IsKnown us d c id rest ends' (
            subst (IsKnown w done id) (sym grown)
              (prompt_for-IsKnown w done id u.unit_id b.manifest.lines known))
    ]

    -- The loop of a later run, over the manifest that this one leaves.
    module _ (file_of : String → Found) (late : String → Bool) (making : String → Making F) where
      abbrev later : Workshop F
      later = record w { file_of = file_of; late = late; making = making }

      prompt_for-later :
          (ls : List (Option (Made F))) (id : String)
          → IsKnown w done id ls
          → changed (prompt_for w done id).0 (file_of id) ≡ none
          → prompt_for later (read_entries [] ls) id ≡ ((prompt_for w done id).0, [])
      unfolding prompt_for
      prompt_for-later ls id known same = rw (known, same, prompt_for) refl

      make_one-later :
          (u : UnitDef) (b d : Bench F) (f : PromptManifest F)
          → make_one w done u b ≡ some d
          → IsKnown w done u.unit_id f.lines
          → changed (prompt_for w done u.unit_id).0 (file_of u.unit_id) ≡ none
          → make_one later (read_entries [] f.lines) u (record b { manifest = f })
            ≡ some (record d { manifest = f })
      unfolding make_one append_lines
      make_one-later u b d f one known same =
          let (rows, shown, e) = make_one-some u b d one in
          rw (prompt_for-later f.lines u.unit_id known same, make_one) (ground (arith, shown, e))

      make_all-later :
          (us : List UnitDef) (b c : Bench F)
          → ((id : String) → IsTracked w done id b.manifest.lines)
          → make_all w done us b ≡ some c
          → b.manifest.tail ≡ clean
          → ((id : String) (m : Made F)
              → recorded id c.manifest.lines ≡ some m
              → changed m (file_of id) ≡ none)
          → make_all later
              (read_entries [] c.manifest.lines)
              us
              (record b { manifest = c.manifest })
            ≡ some c
      unfolding make_all
      make_all-later [] b c tracked run ends same = ground arith
      make_all-later (u ∷ us) b c tracked run ends same = elim (make_all-cons u us b c run) [
        | inl (over, e) ↦
            rw (over, make_all)
              (ap {A = Bench F} (λ x. some (record x { manifest = c.manifest })) e)
        | inr (on, d, one, rest) ↦
            let (grown, ends') = make_one-manifest u b d one ends in
            let tracked' : (id : String) → IsTracked w done id d.manifest.lines = λ id.
              subst (IsTracked w done id) (sym grown)
                (prompt_for-IsTracked w done id u.unit_id b.manifest.lines (tracked id)) in
            let known = make_all-IsKnown us d c u.unit_id rest ends' (
              subst (IsKnown w done u.unit_id) (sym grown)
                (prompt_for-own_IsKnown w done u.unit_id b.manifest.lines (tracked u.unit_id))) in
            let made = make_one-later u b d c.manifest one known (same u.unit_id _ known) in
            rw (on, made, make_all) (make_all-later us d c tracked' rest ends' same)
      ]

  -- Where the manifest ended in a newline, a duel that is run again after its prompts were made, or were
  -- found to make it void, has the same prompts and the same rows as before and adds nothing to the
  -- manifest, which still ends in a newline, whatever the benchmark would make now and whether or not
  -- its time is up, as long as no file of a prompt in the manifest has changed.
  pub materialize_units-again :
      (w : Workshop F) (us : List UnitDef) (manifest : PromptManifest F) (rows : List (UnitRow F))
      (b : Bench F) (file_of : String → Found) (late : String → Bool) (making : String → Making F)
      → manifest.tail ≡ clean
      → materialize_units w us manifest rows ≡ some b
      → ((id : String) (m : Made F)
          → find_first (is_of id) (read_manifest b.manifest) ≡ some m
          → changed m (file_of id) ≡ none)
      → (b.manifest.tail ≡ clean)
        × (materialize_units
              (record w { file_of = file_of; late = late; making = making })
              us
              b.manifest
              rows
            ≡ some b)
  unfolding materialize_units
  materialize_units-again w us manifest rows b file_of late making ends run same =
      let start : Bench F = record { manifest = manifest; prompts = []; rows = rows } in
      let done = read_manifest manifest in
      let ends' = make_all-clean w done us start b run ends in
      let same' : (id : String) (m : Made F)
          → recorded id b.manifest.lines ≡ some m
          → changed m (file_of id) ≡ none =
        rw (read_manifest-clean b.manifest ends') at same in
      let begins : (id : String) → IsTracked w done id manifest.lines =
        λ id. inl (ap (find_first (is_of id)) (sym (read_manifest-clean manifest ends))) in
      (
        ends',
        rw (read_manifest-clean b.manifest ends')
            (make_all-later w done file_of late making us start b begins run ends same'),
      )
