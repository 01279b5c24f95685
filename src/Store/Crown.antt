-- ===== src/Store/Crown.antt =====
-- store/writer.py: who `king_after` lets move the crown.
use icil_competition_orchest.Prelude.{
  Bool, true, false, List, [], ◌∷◌, Option, keep, ◌≡◌, refl, arith,
}
use icil_competition_orchest.Ids.{SubmissionRef}
use icil_competition_orchest.Store.{Kind, IndexRecord, king_after, kept_king, is_crowning, king_of}
use icil_competition_orchest.Store.{duel, genesis, succession, vacancy, other_kind}

-- `kind in CROWNING or kind == "vacancy"`: the allow-list of the crown.
unfoldable pub may_crown : Kind → Bool
may_crown duel = true
may_crown genesis = true
may_crown succession = true
may_crown vacancy = true
may_crown (other_kind k) = false

king_after-other :
    (r : IndexRecord) (k : Option SubmissionRef) → may_crown r.kind ≡ false → king_after r k ≡ k
unfolding king_after kept_king is_crowning may_crown
king_after-other r k h = ground arith

-- Events of the kinds that the crown rule does not name have no part in who holds the crown: the king
-- after a log is the king after the log without them.
pub king_of-keep :
    (k : Option SubmissionRef) (rs : List IndexRecord)
    → king_of k rs ≡ king_of k (keep (λ r. may_crown r.kind) rs)
unfolding king_of
king_of-keep k [] = refl
king_of-keep k (r ∷ rs) =
    ground (arith, king_after-other r k, king_of-keep k rs, king_of-keep (king_after r k) rs)
