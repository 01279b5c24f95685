-- ===== src/Prelude/Text.antt =====
-- Texts: equality as a Boolean test, joining, and the code points that a pattern is matched on.
use Prim.Native.Nat.{ℕ, zero, suc}
use Prim.Native.Char.{code}
use Prim.Native.String.{String}
use mathlib.Core.Bool.{Bool}
use mathlib.Core.List.{List, [], ◌∷◌}
use mathlib.Core.Option.{Option, none, some}
use icil_competition_orchest.Prelude.Tests.{if◌then◌else◌}
use text.Mathlib.Text.{◌==◌}

infix 50 ◌==s◌
abbrev pub ◌==s◌ : String → String → Bool
a ==s b = a == b

abbrev pub codes : String → List ℕ
codes String.[] = []
codes (String.◌∷◌ c s) = code c ∷ codes s

-- `a + b`
abbrev pub join : String → String → String
join String.[] t = t
join (String.◌∷◌ c s) t = String.◌∷◌ c (join s t)

-- `s[:n]`
abbrev pub prefix : ℕ → String → String
prefix zero s = String.[]
prefix (suc n) String.[] = String.[]
prefix (suc n) (String.◌∷◌ c s) = String.◌∷◌ c (prefix n s)

abbrev pub concat : List String → String
concat [] = ""
concat (s ∷ ss) = join s (concat ss)

-- `text or default`: an absent or empty text gives way to the default.
abbrev pub text_or : Option String → String → String
text_or none d = d
text_or (some s) d = if s ==s "" then d else s
