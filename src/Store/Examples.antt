-- ===== src/Store/Examples.antt =====
-- Appends to concrete tracks, with an encoding and a signature that can be computed: tests, and each
-- theorem at a concrete input.
use icil_competition_orchest.Prelude.{
  ◌+◌, ◌≡◌, refl, false, List, [], ◌∷◌, ◌++◌, some, none, length, ok,
}
use icil_competition_orchest.Ids.{SubmissionRef}
use icil_competition_orchest.Store.{genesis, other_kind, IndexRecord, empty_head, king_of}
use icil_competition_orchest.Store.Index.{
  Track, no_tab, event_of, repair_parts, read_parts, numbered, append_line, append, iter_index,
  rebuild_head, head_king, is_signed_line,
}
use icil_competition_orchest.Store.Coded.{coded, coded_laws}
use icil_competition_orchest.Store.Crashes.{
  Reached, fresh, follows, appends, torn, writes, Holds, Reached-Holds, cut_write,
}
use icil_competition_orchest.Store.Rebuild.{append-Reached, rebuild_head-append}
use icil_competition_orchest.Store.Verify.{verify_track}
use icil_competition_orchest.Store.Verify.Published.{opens, publishes, verify_track-Published}

abbrev alice : SubmissionRef
alice = record { key = "a"; repo = "o/a"; revision = "r1" }

abbrev genesis_1 : IndexRecord
genesis_1 = record {
  seq = 0;
  event_id = "e1";
  kind = genesis;
  track = "t";
  block = 1;
  finished_at = "now";
  king = some alice;
  challenger = none;
  new_king = none;
  dethroned = false;
  event_sha256 = none;
}

abbrev note_1 : IndexRecord
note_1 = record genesis_1 { kind = other_kind "note"; king = none }

-- A track with an event and no record.
abbrev opened : Track
opened = record {
  parts = [];
  beyond = [];
  head = some empty_head;
  events = ("e1", "event one") ∷ [];
}

opened-Reached : Reached coded 2 opened
opened-Reached =
    follows (record opened { events = [] }) opened (fresh (some empty_head))
      (writes (("e1", "event one") ∷ []) (record opened { events = [] }))

-- The same, after a write of its first line that was cut short.
abbrev cut : Track
cut = cut_write coded 2 (no_tab "{") opened

cut-Reached : Reached coded 2 cut
unfolding is_signed_line
cut-Reached = follows opened cut opened-Reached (torn (no_tab "{") opened refl)

cut-event : event_of "e1" cut.events ≡ some "event one"
unfolding event_of cut_write
cut-event = refl

Reached-Holds_example : (rs : List IndexRecord) × Holds coded 2 (append coded 2 genesis_1 cut).1 rs
Reached-Holds_example =
    Reached-Holds coded coded_laws 2 (append coded 2 genesis_1 cut).1
      (follows cut (append coded 2 genesis_1 cut).1 cut-Reached (appends genesis_1 cut))

append-Reached_example :
    (rs : List IndexRecord) × (iter_index coded
        (record cut { parts = repair_parts coded cut.parts })
      ≡ some rs)
    × ((append coded 2 genesis_1 cut).0 ≡ ok (length rs + 1))
    × (iter_index coded (append coded 2 genesis_1 cut).1
        ≡ some (rs ++ numbered coded 2 genesis_1 "event one" (repair_parts coded cut.parts) ∷ []))
append-Reached_example =
    append-Reached coded coded_laws 2 cut genesis_1 "event one" cut-Reached cut-event

opened-event : event_of "e1" opened.events ≡ some "event one"
unfolding event_of
opened-event = refl

opened-index :
    iter_index coded (record opened { parts = repair_parts coded opened.parts }) ≡ some []
unfolding iter_index repair_parts read_parts
opened-index = refl

opened-king : head_king opened.head ≡ king_of none []
unfolding head_king king_of
opened-king = refl

rebuild_head-append_example :
    rebuild_head coded (append_line coded 2 genesis_1 "event one" opened).1
    ≡ some (append coded 2 genesis_1 opened).1
rebuild_head-append_example =
    rebuild_head-append coded coded_laws 2 opened genesis_1 "event one" [] opened-Reached
      opened-event opened-index opened-king

verify_track-Published_example :
    verify_track coded 2 "t" (append coded 2 genesis_1 opened).1 ≡ ([], [])
verify_track-Published_example =
    verify_track-Published coded coded_laws 2 "t" (append coded 2 genesis_1 opened).1
      (publishes opened genesis_1 "event one" (opens (("e1", "event one") ∷ [])) opened-event refl)
