-- ===== src/Duel/Side/Journal.antt =====
-- duel/side.py: `results.jsonl`, read by `read_results` and written by `_append`. A line that is no
-- record of a unit is `none`; what follows the last newline is the tail that a killed write left.
use icil_competition_orchest.Prelude.{
  String, ◌≡◌, ◌≢◌, refl, Bool, List, [], ◌∷◌, ◌++◌, Option, none, some, ◌==s◌, if◌then◌else◌,
}
use icil_competition_orchest.Duel.Merge.{UnitRecord}

-- What follows the last newline of a file of such lines: `whole` is a record that lost only its newline,
-- `torn` a part of one.
pub data Tail (A : Type 0) : Type 0 where
  clean torn : Tail A
  whole : A → Tail A

pub record Journal (F : Type 0) : Type 0 where
  pub lines : List (Option (UnitRecord F))
  pub tail : Tail (UnitRecord F)

abbrev pub no_journal : {F : Type 0} → Journal F
no_journal = record { lines = []; tail = clean }

module _ {F : Type 0} where
  abbrev pub is_unit : String → UnitRecord F → Bool
  is_unit id r = r.unit_id ==s id

  -- `out[unit_id] = record`: a key that is there keeps its place and gets the new value.
  unfoldable pub put_result : UnitRecord F → List (UnitRecord F) → List (UnitRecord F)
  put_result r [] = r ∷ []
  put_result r (x ∷ xs) = if is_unit r.unit_id x then r ∷ xs else x ∷ put_result r xs

  unfoldable pub read_lines :
      List (UnitRecord F) → List (Option (UnitRecord F)) → List (UnitRecord F)
  unfolding put_result
  read_lines out [] = out
  read_lines out (none ∷ ls) = read_lines out ls
  read_lines out (some r ∷ ls) = read_lines (put_result r out) ls

  read_tail : Tail (UnitRecord F) → List (UnitRecord F) → List (UnitRecord F)
  unfolding put_result
  read_tail clean out = out
  read_tail torn out = out
  read_tail (whole r) out = put_result r out

  unfoldable pub read_results : Journal F → List (UnitRecord F)
  unfolding read_lines read_tail
  read_results j = read_tail j.tail (read_lines [] j.lines)

  -- `_append` opens the file for appending: after a tail with no newline, the record it writes becomes
  -- one line with that tail, which is no JSON.
  ended_line : Tail (UnitRecord F) → UnitRecord F → Option (UnitRecord F)
  ended_line clean r = some r
  ended_line torn r = none
  ended_line (whole w) r = none

  unfoldable pub append : UnitRecord F → Journal F → Journal F
  unfolding ended_line
  append r j = record { lines = j.lines ++ ended_line j.tail r ∷ []; tail = clean }

  read_lines-snoc :
      (out : List (UnitRecord F)) (ls : List (Option (UnitRecord F))) (l : Option (UnitRecord F))
      → read_lines out (ls ++ l ∷ []) ≡ read_lines (read_lines out ls) (l ∷ [])
  unfolding read_lines
  read_lines-snoc out [] l = refl
  read_lines-snoc out (none ∷ ls) l = read_lines-snoc out ls l
  read_lines-snoc out (some r ∷ ls) l = read_lines-snoc (put_result r out) ls l

  -- What is appended to a journal that ends in a newline is read back: the results are those before,
  -- with this unit's.
  pub read_results-append :
      (r : UnitRecord F) (j : Journal F)
      → j.tail ≡ clean
      → read_results (append r j) ≡ put_result r (read_results j)
  unfolding read_results append
  read_results-append r j c = rw (c, read_tail, ended_line) (read_lines-snoc [] j.lines (some r))

  ended_line-none : (t : Tail (UnitRecord F)) (r : UnitRecord F) → t ≢ clean → ended_line t r ≡ none
  unfolding ended_line
  ended_line-none clean r c = absurd (c refl)
  ended_line-none torn r c = refl
  ended_line-none (whole w) r c = refl

  -- The first result appended after a torn or unterminated line is lost: what is read back is what the
  -- complete lines hold, without the appended unit and without the unterminated one, so a duel resumed
  -- again plays them again.
  pub append_after_torn :
      (r : UnitRecord F) (j : Journal F)
      → j.tail ≢ clean
      → read_results (append r j) ≡ read_lines [] j.lines
  unfolding read_results append
  append_after_torn r j c = rw (ended_line-none j.tail r c) (read_lines-snoc [] j.lines none)
