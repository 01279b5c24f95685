-- ===== src/Store.antt =====
-- store/writer.py: the signed, append-only index of one track, its head, and who holds the crown.
pub mod Index
pub mod Filed
pub mod Tails
pub mod Crashes
pub mod Rebuild
pub mod Verify
pub mod Crown
pub mod Cut
pub mod Coded
mod Examples
use icil_competition_orchest.Prelude.{
  ℕ, String, Bool, true, false, List, [], ◌∷◌, Option, none, some, if◌then◌else◌,
}
use icil_competition_orchest.Ids.{SubmissionRef}

-- An event's kind; a kind that the crown rule does not name is `other_kind`.
pub data Kind : Type 0 where
  duel genesis succession vacancy : Kind
  other_kind : String → Kind

-- The fields of an index record that the store and its verifier read.
pub record IndexRecord : Type 0 where
  pub seq : ℕ
  pub event_id : String
  pub kind : Kind
  pub track : String
  pub block : ℕ
  pub finished_at : String
  pub king : Option SubmissionRef
  pub challenger : Option SubmissionRef
  pub new_king : Option SubmissionRef
  pub dethroned : Bool
  pub event_sha256 : Option String

-- `kind in CROWNING`
unfoldable pub is_crowning : Kind → Bool
is_crowning duel = true
is_crowning genesis = true
is_crowning succession = true
is_crowning vacancy = false
is_crowning (other_kind k) = false

-- `king_after` where no new king is named by a crowning kind.
unfoldable pub kept_king : IndexRecord → Kind → Option SubmissionRef → Option SubmissionRef
kept_king r genesis previous = r.king
kept_king r succession previous = r.king
kept_king r vacancy previous = none
kept_king r duel previous = if r.dethroned then r.new_king else r.king
kept_king r (other_kind k) previous = previous

unfoldable pub king_after : IndexRecord → Option SubmissionRef → Option SubmissionRef
unfolding is_crowning kept_king
king_after r previous = elim r.new_king [
  | none ↦ kept_king r r.kind previous
  | some k ↦ if is_crowning r.kind then some k else kept_king r r.kind previous
]

pub record Head : Type 0 where
  pub seq : ℕ
  pub event_id : String
  pub block : ℕ
  pub finished_at : String
  pub king : Option SubmissionRef

-- The head of a track that holds no record, as `init` writes it.
abbrev pub empty_head : Head
empty_head = record { seq = 0; event_id = ""; block = 0; finished_at = ""; king = none }

-- The king that the records crown, one after another.
unfoldable pub king_of : Option SubmissionRef → List IndexRecord → Option SubmissionRef
king_of k [] = k
king_of k (r ∷ rs) = king_of (king_after r k) rs
