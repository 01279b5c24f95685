-- ===== src/Duel/Side/Resume.antt =====
-- duel/side.py: a side that was killed and is run again ends where it would have ended.
use icil_competition_orchest.Prelude.{
  String, ◌≡◌, refl, sym, ap, ◌∙◌, true, false, List, [], ◌∷◌, ◌++◌, some, find_first, ◌⊎◌, inl,
  inr, arith, eq_iff, eq_refl, Bool-cases,
}
use icil_competition_orchest.Records.{UnitDef}
use icil_competition_orchest.Duel.Merge.{UnitRecord}
use icil_competition_orchest.Duel.Side.Journal.{
  Journal, clean, put_result, read_results, append, is_unit, read_results-append,
}
use icil_competition_orchest.Duel.Side.Run.{
  Harness, SideState, is_done, finish_unit, loop, restart, run_side, unit_record,
}

module _ {F : Type 0} where
  -- The results in memory are those of the file, which ends in a newline.
  pub record IsSaved (st : SideState F) : Type 0 where
    pub ends : st.journal.tail ≡ clean
    pub same : read_results st.journal ≡ st.done

  append-clean : (r : UnitRecord F) (j : Journal F) → (append r j).tail ≡ clean
  unfolding append
  append-clean r j = refl

  finish_unit-IsSaved :
      (h : Harness F) (u : UnitDef) (st : SideState F) → IsSaved st → IsSaved (finish_unit h u st)
  unfolding finish_unit
  finish_unit-IsSaved h u st s = record {
    ends = append-clean _ st.journal;
    same = read_results-append _ st.journal s.ends ∙ ap (put_result _) s.same;
  }

  loop-IsSaved :
      (h : Harness F) (us : List UnitDef) (st : SideState F) → IsSaved st → IsSaved (loop h us st)
  unfolding loop
  loop-IsSaved h [] st s = s
  loop-IsSaved h (u ∷ us) st s = elim (Bool-cases (is_done u.unit_id st.done)) [
    | inl old ↦ rw (old, loop) (loop-IsSaved h us st s)
    | inr new ↦ elim (Bool-cases (h.stop st.done)) [
      | inl over ↦ rw (new, over, loop) s
      | inr on ↦
          rw (new, on, loop) (loop-IsSaved h us (finish_unit h u st) (finish_unit-IsSaved h u st s))
    ]
  ]

  -- Nothing more happens to the unit: it has a result, or the side has ended.
  abbrev Settled : Harness F → String → SideState F → Type 0
  Settled h id st = (is_done id st.done ≡ true) ⊎ (h.stop st.done ≡ true)

  is_done-put_result :
      (id : String) (r : UnitRecord F) (done : List (UnitRecord F))
      → is_done id done ≡ true
      → is_done id (put_result r done) ≡ true
  unfolding is_done put_result
  is_done-put_result id r [] d = cc
  is_done-put_result id r (x ∷ xs) d = ground (
    arith,
    is_done-put_result id r xs,
    eq_iff x.unit_id r.unit_id,
    eq_iff r.unit_id id,
    eq_iff x.unit_id id,
  )

  is_done-put_self :
      (r : UnitRecord F) (done : List (UnitRecord F)) → is_done r.unit_id (put_result r done) ≡ true
  unfolding is_done put_result
  is_done-put_self r [] = ground (arith, eq_refl r.unit_id)
  is_done-put_self r (x ∷ xs) = ground (arith, is_done-put_self r xs, eq_refl r.unit_id)

  loop-stopped :
      (h : Harness F) (us : List UnitDef) (st : SideState F)
      → h.stop st.done ≡ true
      → loop h us st ≡ st
  unfolding loop
  loop-stopped h [] st over = refl
  loop-stopped h (u ∷ us) st over = ground (arith, loop-stopped h us st over)

  loop-append :
      (h : Harness F) (us vs : List UnitDef) (st : SideState F)
      → loop h (us ++ vs) st ≡ loop h vs (loop h us st)
  unfolding loop
  loop-append h [] vs st = refl
  loop-append h (u ∷ us) vs st = ground (
    arith,
    loop-append h us vs st,
    loop-append h us vs (finish_unit h u st),
    loop-stopped h vs st,
  )

  finish_unit-is_done :
      (h : Harness F) (u : UnitDef) (st : SideState F)
      → is_done u.unit_id (finish_unit h u st).done ≡ true
  unfolding finish_unit unit_record
  finish_unit-is_done h u st = is_done-put_self _ st.done

  finish_unit-keeps_done :
      (h : Harness F) (u : UnitDef) (st : SideState F) (id : String)
      → is_done id st.done ≡ true
      → is_done id (finish_unit h u st).done ≡ true
  unfolding finish_unit
  finish_unit-keeps_done h u st id d = is_done-put_result id _ st.done d

  loop-keeps_done :
      (h : Harness F) (us : List UnitDef) (st : SideState F) (id : String)
      → is_done id st.done ≡ true
      → is_done id (loop h us st).done ≡ true
  unfolding loop
  loop-keeps_done h [] st id d = d
  loop-keeps_done h (u ∷ us) st id d = ground (
    arith,
    loop-keeps_done h us st id d,
    finish_unit-keeps_done h u st id d,
    loop-keeps_done h us (finish_unit h u st) id,
  )

  -- A pass over units that are settled goes straight to what follows them.
  abbrev AllSettled : Harness F → List UnitDef → SideState F → Type 0
  AllSettled h [] st = Unit
  AllSettled h (u ∷ us) st = Settled h u.unit_id st × AllSettled h us st

  AllSettled-stopped :
      (h : Harness F) (us : List UnitDef) (st : SideState F)
      → h.stop st.done ≡ true
      → AllSettled h us st
  AllSettled-stopped h [] st over = tt
  AllSettled-stopped h (u ∷ us) st over = (inr over, AllSettled-stopped h us st over)

  loop-settled :
      (h : Harness F) (us vs : List UnitDef) (st : SideState F)
      → AllSettled h us st
      → loop h (us ++ vs) st ≡ loop h vs st
  unfolding loop
  loop-settled h [] vs st a = refl
  loop-settled h (u ∷ us) vs st a =
      ground (arith, loop-settled h us vs st a.1, loop-stopped h vs st, a.0)

  loop-AllSettled :
      (h : Harness F) (us : List UnitDef) (st : SideState F) → AllSettled h us (loop h us st)
  unfolding loop
  loop-AllSettled h [] st = tt
  loop-AllSettled h (u ∷ us) st = elim (Bool-cases (is_done u.unit_id st.done)) [
    | inl old ↦
        rw (old, loop) (inl (loop-keeps_done h us st u.unit_id old), loop-AllSettled h us st)
    | inr new ↦ elim (Bool-cases (h.stop st.done)) [
      | inl over ↦ rw (new, over, loop) (inr over, AllSettled-stopped h us st over)
      | inr on ↦
          rw (new, on, loop)
            (
              inl (
                  loop-keeps_done h us (finish_unit h u st) u.unit_id (finish_unit-is_done h u st)),
              loop-AllSettled h us (finish_unit h u st),
            )
    ]
  ]

  restart-IsSaved : (st : SideState F) → IsSaved st → restart st ≡ st
  unfolding restart
  restart-IsSaved st s = ap (λ (d : List (UnitRecord F)). record st { done = d }) s.same

  -- A side that was stopped after any number of its units, its results file ending in a newline, and is
  -- run again from what the file holds, ends in the state of a side that was never stopped: with the
  -- same results file, the same results, and the policy served for the same units in the same order.
  pub run_side-resumes :
      (h : Harness F) (us vs : List UnitDef) (st : SideState F)
      → st.journal.tail ≡ clean
      → run_side h (us ++ vs) (run_side h us st) ≡ run_side h (us ++ vs) st
  unfolding run_side
  run_side-resumes h us vs st c =
      let first = loop h us (restart st) in
      let saved = loop-IsSaved h us (restart st) (record { ends = c; same = refl }) in
      ap (loop h (us ++ vs)) (restart-IsSaved first saved)
      ∙ loop-settled h us vs first (loop-AllSettled h us (restart st))
      ∙ sym (loop-append h us vs (restart st))

  find_first-put_result :
      (id : String) (r x : UnitRecord F) (done : List (UnitRecord F))
      → is_done x.unit_id done ≡ false
      → find_first (is_unit id) done ≡ some r
      → find_first (is_unit id) (put_result x done) ≡ some r
  unfolding is_done put_result
  find_first-put_result id r x [] new k = cc
  find_first-put_result id r x (y ∷ ys) new k = ground (arith, find_first-put_result id r x ys)

  finish_unit-keeps :
      (h : Harness F) (u : UnitDef) (st : SideState F) (id : String) (r : UnitRecord F)
      → is_done u.unit_id st.done ≡ false
      → find_first (is_unit id) st.done ≡ some r
      → find_first (is_unit id) (finish_unit h u st).done ≡ some r
  unfolding finish_unit unit_record
  finish_unit-keeps h u st id r new k = find_first-put_result id r _ st.done new k

  -- What a unit came to is never changed: the result that a side holds for a unit is the one that it
  -- holds after any further units, whichever they are.
  pub loop-keeps :
      (h : Harness F) (us : List UnitDef) (st : SideState F) (id : String) (r : UnitRecord F)
      → find_first (is_unit id) st.done ≡ some r
      → find_first (is_unit id) (loop h us st).done ≡ some r
  unfolding loop
  loop-keeps h [] st id r k = k
  loop-keeps h (u ∷ us) st id r k = elim (Bool-cases (is_done u.unit_id st.done)) [
    | inl old ↦ rw (old, loop) (loop-keeps h us st id r k)
    | inr new ↦ elim (Bool-cases (h.stop st.done)) [
      | inl over ↦ rw (new, over, loop) k
      | inr on ↦
          rw (new, on, loop)
            (loop-keeps h us (finish_unit h u st) id r (finish_unit-keeps h u st id r new k))
    ]
  ]
