-- ===== src/Duel/Run/KilledExamples.antt =====
-- Duels that are killed while they are published, at a concrete track.
use icil_competition_orchest.Prelude.{
  ℕ, ◌≡◌, refl, true, false, [], some, none, ok, ◌==s◌, if◌then◌else◌,
}
use icil_competition_orchest.Store.{IndexRecord, king_of}
use icil_competition_orchest.Store.Index.{
  tabbed, parse, is_signed_line, numbered, repair_parts, iter_index, head_king, append_line,
}
use icil_competition_orchest.Store.Crashes.{Reached, fresh, cut_write}
use icil_competition_orchest.Store.Coded.{coded, coded_laws}
use icil_competition_orchest.Daemon.{event_id}
use icil_competition_orchest.Duel.Run.{
  DuelResult, published, Event, Host, Conf, fresh_dir, record_request, holds_request,
}
use icil_competition_orchest.Duel.Run.Publish.{event_for, publish_event, write_event}
use icil_competition_orchest.Duel.Run.Whole.{run}
use icil_competition_orchest.Duel.Run.Killed.{run-loses}
use icil_competition_orchest.Duel.Run.Healed.{run-heals}
use icil_competition_orchest.Duel.Run.Scenes.{first, conf, asks, gone, opened, rows}

-- The run directory of the first duel, whose event was written and whose index line was being written.
abbrev asked_first : Host ℕ
asked_first = record_request conf first "t1" opened

held_there : holds_request conf first asked_first.dir ≡ true
unfolding record_request holds_request fresh_dir
held_there = refl

undecided_there : asked_first.dir.outcome ≡ none
unfolding record_request fresh_dir
undecided_there = refl

nothing_Reached : Reached coded 100 asked_first.track
unfolding record_request fresh_dir
nothing_Reached = fresh none

empty_there :
    iter_index coded
      (record asked_first.track { parts = repair_parts coded asked_first.track.parts })
    ≡ some []
unfolding record_request fresh_dir iter_index repair_parts
empty_there = refl

no_king_there : head_king asked_first.track.head ≡ king_of none []
unfolding record_request fresh_dir head_king king_of
no_king_there = refl

abbrev genesis_event : Event ℕ
genesis_event = event_for conf asks first none rows

abbrev reading : Conf ℕ
reading = record conf { load = λ bytes. if bytes ==s "t1" then some genesis_event else none }

held_reading : holds_request reading first asked_first.dir ≡ true
unfolding record_request holds_request fresh_dir
held_reading = refl

back_there :
    reading.load (reading.dump (event_for reading asks first none rows))
    ≡ some (event_for reading asks first none rows)
unfolding event_for
back_there = refl

run-heals_example :
    (let e = event_for reading asks first none rows in
      (result : DuelResult ℕ) × (h' : Host ℕ) × (run reading gone first (record asked_first {
        track =
            (append_line coded 100 e.index
              (reading.dump e)
              (write_event reading asks e asked_first.track)).1;
      })
        ≡ (ok result, h'))
      × (h'.track ≡ (publish_event reading asks first e asked_first).1.track)
      × (result.status ≡ published)
      × (result.units ≡ e.units)
      × (result.reason ≡ e.reason))
run-heals_example =
    run-heals reading first asks coded_laws gone asked_first none rows [] nothing_Reached
      empty_there no_king_there back_there held_reading undecided_there

abbrev signed : IndexRecord
signed = numbered coded 100 genesis_event.index "t1" (repair_parts coded asked_first.track.parts)

-- The line was cut after the first character of its signature.
spelt_there : parse coded (tabbed (coded.encode signed) "x") ≡ some signed
unfolding parse
spelt_there = coded_laws.decode_encode signed

torn_there : is_signed_line coded (tabbed (coded.encode signed) "x") ≡ false
unfolding is_signed_line coded numbered repair_parts record_request event_for event_id
torn_there = refl

named_there : genesis_event.index.event_id ≡ event_id conf.spec first
unfolding event_for
named_there = refl

run-loses_example :
    (result : DuelResult ℕ) × (h' : Host ℕ) × (run conf asks first (record asked_first {
      track = cut_write coded 100 (tabbed (coded.encode signed) "x") asked_first.track;
    })
      ≡ (ok result, h'))
    × (result.status ≡ published)
    × (result.record_of ≡ some signed)
    × (iter_index coded h'.track ≡ some [])
run-loses_example =
    run-loses conf first coded_laws asks asked_first genesis_event.index "t1"
      (tabbed (coded.encode signed) "x") [] nothing_Reached empty_there named_there spelt_there
      torn_there held_there undecided_there
