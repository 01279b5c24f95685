-- ===== src/Daemon/Loop.antt =====
-- daemon.py: `step_all`, the waits of the loop in `run`, and `backoff_s`.
use native.Mathlib.Nat.{pow-le-pow_right}
use icil_competition_orchest.Prelude.{
  ℕ, suc, ◌-◌, ◌^◌, ◌≤◌, min, max, ◌≡◌, Bool, true, false, ◌||◌, List, [], ◌∷◌, arith,
}
use icil_competition_orchest.Floats.{Floats, FloatLaws, min_f, min_f-le}
use icil_competition_orchest.Daemon.{Spec, Meets, Daemon, step}

-- One step for every track in turn, each with what it meets; whether any track had something to do.
unfoldable pub step_all : List (Spec × Meets × Daemon) → Bool × List Daemon
unfolding step
step_all [] = (false, [])
step_all ((spec, m, d) ∷ ts) =
    let s = step spec m d in let (ran, ds) = step_all ts in (s.had || ran, s.daemon ∷ ds)

-- How one round of the loop went: a step raised, some track had something to do, or none had.
pub data Round : Type 0 where
  crashed served idle : Round

module _ {F : Type 0} (fl : Floats F) where
  -- `BACKOFF_START_S` is one second, and a power of two is a float exactly.
  unfoldable pub backoff_s : F → ℕ → F
  unfolding min_f
  backoff_s max_backoff crashes = min_f fl max_backoff (fl.ratio (2 ^ min (max crashes 1 - 1) 60) 1)

  -- The waits of the rounds, `crashes` rounds in a row having crashed before them.
  unfoldable pub sleeps : F → F → ℕ → List Round → List F
  unfolding backoff_s
  sleeps max_backoff idle_sleep crashes [] = []
  sleeps max_backoff idle_sleep crashes (crashed ∷ rs) =
      backoff_s max_backoff (suc crashes) ∷ sleeps max_backoff idle_sleep (suc crashes) rs
  sleeps max_backoff idle_sleep crashes (served ∷ rs) = sleeps max_backoff idle_sleep 0 rs
  sleeps max_backoff idle_sleep crashes (idle ∷ rs) =
      idle_sleep ∷ sleeps max_backoff idle_sleep 0 rs

pow_mono : (a b : ℕ) → a ≤ b → 2 ^ a ≤ 2 ^ b
pow_mono a b h = pow-le-pow_right {n = 2} (omega arith) h

module _ {F : Type 0} (fl : Floats F) (laws : FloatLaws fl) where
  min_f_mono : (m x y : F) → fl.le x y ≡ true → fl.le (min_f fl m x) (min_f fl m y) ≡ true
  unfolding min_f
  min_f_mono m x y h = ground (
    arith,
    laws.le_refl m,
    laws.le_total m x,
    laws.le_total m y,
    laws.le_trans m x y,
    laws.le_total x m,
    laws.le_total y m,
  )

  -- The daemon never waits longer than its longest wait after a crash, and never less than after fewer
  -- crashes in a row.
  pub backoff_s_lem :
      (max_backoff : F) (few many : ℕ)
      → few ≤ many
      → (fl.le (backoff_s fl max_backoff many) max_backoff ≡ true)
        × (fl.le (backoff_s fl max_backoff few) (backoff_s fl max_backoff many) ≡ true)
  unfolding backoff_s
  backoff_s_lem m few many h =
      let exponent =
        pow_mono (min (max few 1 - 1) 60) (min (max many 1 - 1) 60) (omega (arith, h)) in
      (
        (min_f-le fl laws m (fl.ratio (2 ^ min (max many 1 - 1) 60) 1)).0,
        min_f_mono m _ _
            (laws.ratio_mono (2 ^ min (max few 1 - 1) 60) (2 ^ min (max many 1 - 1) 60) 1 exponent),
      )
