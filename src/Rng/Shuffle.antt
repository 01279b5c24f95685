-- ===== src/Rng/Shuffle.antt =====
-- rng.py: `shuffled` keeps every element.
use mathlib.Core.List.{Perm}
use mathlib.Core.List.Perm
use icil_competition_orchest.Prelude.{List}
