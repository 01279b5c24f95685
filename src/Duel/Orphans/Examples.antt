-- ===== src/Duel/Orphans/Examples.antt =====
-- duel/orphans.py: a benchmark and a policy server that a killed orchestrator left.
use icil_competition_orchest.Prelude.{
  ◌≡◌, refl, true, false, not, List, [], ◌∷◌, some, none, keep, any, arith,
}
use icil_competition_orchest.Duel.Orphans.{
  Process, whole, Group, LedgerFile, missing, holds, read, started, ended, is_member, same_boot,
  same_start, reap_ledger, int_of,
}
use icil_competition_orchest.Duel.Orphans.Reaped.{names, reap_ledger-clears, reap_ledger-spares}

abbrev server : Process
server = record { pid = 40; state = "S"; group = 40; session = 40; start = "100" }

abbrev child : Process
child = record { pid = 41; state = "R"; group = 40; session = 40; start = "120" }

-- A later process under the id that the benchmark had.
abbrev later : Process
later = record { pid = 50; state = "S"; group = 50; session = 50; start = "900" }

abbrev shell : Process
shell = record { pid = 7; state = "S"; group = 7; session = 7; start = "3" }

abbrev table : List Process
table = shell ∷ server ∷ child ∷ later ∷ []

abbrev of_server : Group
of_server = record { pgid = whole 40; start = some "100"; boot = some "b1" }

abbrev of_benchmark : Group
of_benchmark = record { pgid = whole 50; start = some "200"; boot = some "b1" }

abbrev ledger : LedgerFile
ledger = holds (some of_server ∷ none ∷ some of_benchmark ∷ [])

-- The ledger as the two starts left it.
started-ledger :
    started true "b1"
      (record later { start = "200" } ∷ table)
      50
      (started true "b1" table 40 missing)
    ≡ holds (some of_server ∷ some of_benchmark ∷ [])
unfolding started
started-ledger = refl

ended-last : ended true 40 (started true "b1" table 40 missing) ≡ missing
unfolding ended started
ended-last = refl

-- The server and its child are killed; the process that has the benchmark's id now is not.
reap_ledger-table :
    reap_ledger "b1" (λ n. true) ledger table ≡ (40 ∷ [], shell ∷ later ∷ [], missing)
unfolding reap_ledger
reap_ledger-table = refl

reap_ledger-rebooted : reap_ledger "b2" (λ n. true) ledger table ≡ ([], table, missing)
unfolding reap_ledger
reap_ledger-rebooted = refl

reap_ledger-clears_example :
    (any (is_member 40) (reap_ledger "b1" (λ n. true) ledger table).1 ≡ false)
    × ((reap_ledger "b1" (λ n. true) ledger table).2 ≡ missing)
unfolding read same_boot same_start int_of
reap_ledger-clears_example =
    reap_ledger-clears "b1" (λ n. true) ledger [] (of_benchmark ∷ []) of_server 40 table refl refl
      refl
      (
        (λ same. ground arith),
        ((λ same. refl), ((λ same. ground arith), ((λ same. ground arith), tt))),
      )

reap_ledger-spares_example :
    keep
      (λ (p : Process). not (any (names "b1" p.group) (read ledger)))
      (reap_ledger "b1" (λ n. true) ledger table).1
    ≡ keep (λ (p : Process). not (any (names "b1" p.group) (read ledger))) table
reap_ledger-spares_example = reap_ledger-spares "b1" (λ n. true) ledger table
