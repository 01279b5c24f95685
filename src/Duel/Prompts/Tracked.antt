-- ===== src/Duel/Prompts/Tracked.antt =====
-- duel/materialize.py: what the manifest says of a unit while the prompts are made.
use mathlib.Core.List.{append-nil}
use icil_competition_orchest.Prelude.{
  ℕ, String, ◌≡◌, refl, ap, ◌∙◌, List, [], ◌∷◌, ◌++◌, Option, none, some, ◌⊎◌, inl, inr, arith,
  eq_iff, eq_refl, find_first, Option-cases, Bool-cases, ◌==s◌, if◌then◌else◌,
}
use icil_competition_orchest.Duel.Prompts.{Made, Making, materialize_unit, no_prompt}
use icil_competition_orchest.Duel.Prompts.Loop.{
  Workshop, is_of, put_made, read_entries, changed, prompt_for,
}

module _ {F : Type 0} where
  find_first-put_made :
      (id : String) (m : Made F) (ms : List (Made F))
      → find_first (is_of id) (put_made m ms)
        ≡ (if m.prompt.unit_id ==s id then some m else find_first (is_of id) ms)
  unfolding put_made
  find_first-put_made id m [] = refl
  find_first-put_made id m (x ∷ xs) = ground (
    arith,
    eq_iff x.prompt.unit_id m.prompt.unit_id,
    eq_iff x.prompt.unit_id id,
    eq_iff m.prompt.unit_id id,
    find_first-put_made id m xs,
  )

  read_entries-append :
      (out : List (Made F)) (ls ks : List (Option (Made F)))
      → read_entries out (ls ++ ks) ≡ read_entries (read_entries out ls) ks
  unfolding read_entries
  read_entries-append out [] ks = refl
  read_entries-append out (none ∷ ls) ks = read_entries-append out ls ks
  read_entries-append out (some m ∷ ls) ks = read_entries-append (put_made m out) ls ks

  found_of :
      (id : String) (ms : List (Made F)) (m : Made F)
      → find_first (is_of id) ms ≡ some m
      → m.prompt.unit_id ≡ id
  found_of id [] m h = cc
  found_of id (x ∷ xs) m h = ground (arith, eq_iff x.prompt.unit_id id, found_of id xs m)

  materialize_unit-unit_id :
      (str : ℕ → String) (id : String) (k : Making F)
      → (materialize_unit str id k).prompt.unit_id ≡ id
  unfolding materialize_unit no_prompt
  materialize_unit-unit_id str id k = ground arith

  -- What the manifest says of a unit.
  abbrev pub recorded : String → List (Option (Made F)) → Option (Made F)
  recorded id ls = find_first (is_of id) (read_entries [] ls)

  recorded-snoc :
      (id : String) (ls : List (Option (Made F))) (m : Made F)
      → recorded id (ls ++ some m ∷ [])
        ≡ (if m.prompt.unit_id ==s id then some m else recorded id ls)
  unfolding read_entries
  recorded-snoc id ls m =
      ap (find_first (is_of id)) (read_entries-append [] ls (some m ∷ []))
      ∙ find_first-put_made id m (read_entries [] ls)

  module _ (w : Workshop F) (done : List (Made F)) where
    prompt_for-unit_id : (id : String) → (prompt_for w done id).0.prompt.unit_id ≡ id
    unfolding prompt_for no_prompt
    prompt_for-unit_id id = elim (Option-cases (find_first (is_of id) done)) [
      | inl new ↦
          rw (new, prompt_for) (ground (arith, materialize_unit-unit_id w.str id (w.making id)))
      | inr (m, old) ↦ rw (old, prompt_for) (ground (arith, found_of id done m))
    ]

    prompt_for-lines :
        (id : String)
        → ((prompt_for w done id).1 ≡ [])
            × (find_first (is_of id) done ≡ some (prompt_for w done id).0)
          ⊎ ((prompt_for w done id).1 ≡ some (prompt_for w done id).0 ∷ [])
    unfolding prompt_for
    prompt_for-lines id = elim (Option-cases (find_first (is_of id) done)) [
      | inl new ↦ inr (rw (new, prompt_for) (ground arith))
      | inr (m, old) ↦ elim (Option-cases (changed m (w.file_of id))) [
        | inl same ↦ inl (rw (old, same, prompt_for) (refl, refl))
        | inr (reason, other) ↦ inr (rw (old, other, prompt_for) refl)
      ]
    ]

    -- The unit's prompt is in the manifest, or the manifest says what it said when the loop began.
    abbrev pub IsKnown : String → List (Option (Made F)) → Type 0
    IsKnown id ls = recorded id ls ≡ some (prompt_for w done id).0

    abbrev pub IsTracked : String → List (Option (Made F)) → Type 0
    IsTracked id ls = (recorded id ls ≡ find_first (is_of id) done) ⊎ IsKnown id ls

    module _ (id j : String) (ls : List (Option (Made F))) where
      pub recorded-lines :
          (recorded id (ls ++ (prompt_for w done j).1) ≡ recorded id ls)
          ⊎ IsKnown id (ls ++ (prompt_for w done j).1)
      recorded-lines = elim (prompt_for-lines j) [
        | inl (none_new, old) ↦ inl (rw none_new (ap (recorded id) (append-nil ls)))
        | inr new ↦
            let m = (prompt_for w done j).0 in
            let there = ap (λ ks. recorded id (ls ++ ks)) new ∙ recorded-snoc id ls m in
            let uid = prompt_for-unit_id j in
            elim (Bool-cases (j ==s id)) [
              | inl same ↦ inr (
                  rw (uid, same) at there
                  ∙ ap (λ k. some (prompt_for w done k).0) ((eq_iff j id).0 same))
              | inr other ↦ inl (rw (uid, other) at there)
            ]
      ]

      -- Nothing that the loop adds takes a unit's prompt back.
      pub prompt_for-IsKnown : IsKnown id ls → IsKnown id (ls ++ (prompt_for w done j).1)
      prompt_for-IsKnown h = elim recorded-lines [ inl same ↦ same ∙ h | inr known ↦ known ]

      pub prompt_for-IsTracked : IsTracked id ls → IsTracked id (ls ++ (prompt_for w done j).1)
      prompt_for-IsTracked (inl old) = elim recorded-lines [
        | inl same ↦ inl (same ∙ old)
        | inr known ↦ inr known
      ]
      prompt_for-IsTracked (inr known) = inr (prompt_for-IsKnown known)

    pub prompt_for-own_IsKnown :
        (id : String) (ls : List (Option (Made F)))
        → IsTracked id ls
        → IsKnown id (ls ++ (prompt_for w done id).1)
    prompt_for-own_IsKnown id ls (inr known) = prompt_for-IsKnown id id ls known
    prompt_for-own_IsKnown id ls (inl old) = elim (prompt_for-lines id) [
      | inl (none_new, found) ↦ rw none_new (ap (recorded id) (append-nil ls) ∙ old ∙ found)
      | inr new ↦
          let m = (prompt_for w done id).0 in
          let there = ap (λ ks. recorded id (ls ++ ks)) new ∙ recorded-snoc id ls m in
          rw (prompt_for-unit_id id, eq_refl) at there
    ]
