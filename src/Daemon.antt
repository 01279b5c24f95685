-- ===== src/Daemon.antt =====
-- daemon.py: what one step does for one track, and the requests and ids of duel/orchestrate.py and ids.py
-- that it works with. How a run ends, and what other threads do to the queue, are inputs of the step.
pub mod Steps
pub mod Retries
pub mod Loop
mod Examples
use icil_competition_orchest.Prelude.{
  ℕ, ◌+◌, max, String, Bool, true, false, List, [], ◌∷◌, Option, none, some, keep, not, ◌&&◌, ◌==s◌,
  prefix, join, or_else, if◌then◌else◌, ok, err,
}
use icil_competition_orchest.Ids.{SubmissionRef, resolved}
use icil_competition_orchest.Queue.{
  QueueEntry, InProgress, QueueState, ref, peek, remove, take, put_back, finish, set_block, start,
}
use icil_competition_orchest.Store.{Head}

-- A track's part of the spec, and the hash and the decimal form that the ids are made with.
pub record Spec : Type 0 where
  pub version : ℕ
  pub track : String
  pub sha256_hex : String → String
  pub str : ℕ → String
  pub size_of : Option String → String
  pub baseline : Option (String × String)

pub record Request : Type 0 where
  pub challenger : SubmissionRef
  pub king : Option SubmissionRef
  pub size : Option String
  pub block : ℕ

-- `"|".join(parts)`
unfoldable pub bars : List String → String
bars [] = ""
bars (s ∷ []) = s
bars (s ∷ t ∷ ts) = join s (join "|" (bars (t ∷ ts)))

unfoldable pub kind_of : Request → String
kind_of req = elim req.king [ none ↦ "genesis" | some k ↦ "duel" ]

unfoldable pub king_key : Option SubmissionRef → String
king_key none = "none"
king_key (some k) = k.key

unfoldable pub king_rev : Option SubmissionRef → String
king_rev none = "none"
king_rev (some k) = k.revision

-- How `Orchestrator.run` came back.
pub data RunEnd : Type 0 where
  unavailable crown_moved duel_failed returned : RunEnd

-- What a step meets: whether the benchmarks are ready, how the run ends and what head it leaves, and what
-- others make of the queue before the entry is taken and while the duel runs.
pub record Meets : Type 0 where
  pub ready : Bool
  pub ended : RunEnd
  pub head_after : Option Head
  pub before_take : QueueState → QueueState
  pub during : QueueState → QueueState
  pub now : String

-- One track as the daemon works on it: the queue's file, the head, whether its baseline is given up, and
-- the request that each run directory holds.
pub record Daemon : Type 0 where
  pub queue : QueueState
  pub head : Option Head
  pub stalled : Bool
  pub requests : List (String × Request)

-- Whether there was a duel, the request that was run, and the daemon after it.
pub record Stepped : Type 0 where
  pub had : Bool
  pub ran : Option Request
  pub daemon : Daemon

unfoldable pub current_king : Option Head → Option SubmissionRef
current_king none = none
current_king (some h) = h.king

unfoldable pub next_block : Daemon → ℕ
next_block d = max d.queue.block (elim d.head [ none ↦ 0 | some h ↦ h.block ]) + 1

unfoldable pub request_at : String → List (String × Request) → Option Request
request_at dir [] = none
request_at dir ((d, req) ∷ rs) = if d ==s dir then some req else request_at dir rs

module _ (spec : Spec) where
  unfoldable pub duel_id : Request → String
  unfolding bars king_key king_rev
  duel_id req = spec.sha256_hex (
      bars (
        spec.str spec.version
        ∷ spec.track
        ∷ req.challenger.key
        ∷ req.challenger.revision
        ∷ king_key req.king
        ∷ king_rev req.king
        ∷ []))

  unfoldable pub event_id : Request → String
  unfolding duel_id bars kind_of
  event_id req =
      spec.sha256_hex
        (bars ("event" ∷ kind_of req ∷ spec.track ∷ spec.str req.block ∷ duel_id req ∷ []))

  -- The request as its run directory holds it from then on: another duel's run of the same id is moved
  -- aside.
  unfoldable pub record_request : Request → Daemon → Daemon
  unfolding event_id
  record_request req d = record d {
    requests =
        (prefix 16 (event_id req), record req { size = some (spec.size_of req.size) }) ∷ d.requests;
  }

  -- `_entry_of`
  unfoldable pub entry_of : String → Request → Option QueueEntry
  entry_of now req =
      let entry = some (record {
        key = req.challenger.key;
        repo = req.challenger.repo;
        revision = req.challenger.revision;
        commit_block = req.block;
        duel_size = req.size;
        accepted_at = now;
        source = "requeued";
      }) in
      elim req.king [
        | some k ↦ entry
        | none ↦ elim spec.baseline [
          | none ↦ entry
          | some (repo, revision) ↦
              if repo ==s req.challenger.repo && revision ==s req.challenger.revision
              then none
              else entry
        ]
      ]

  unfoldable pub settled : Meets → Request → QueueState → QueueState
  unfolding entry_of finish put_back
  settled m req q = elim m.ended [
    | unavailable ↦ q
    | crown_moved ↦ (put_back (entry_of m.now req) q).1
    | duel_failed ↦ finish q
    | returned ↦ finish q
  ]

  unfoldable pub is_there : RunEnd → Bool
  is_there unavailable = false
  is_there crown_moved = true
  is_there duel_failed = true
  is_there returned = true

  -- A duel whose king lost the crown has its run directory moved aside.
  unfoldable pub kept_requests :
      RunEnd → Request → List (String × Request) → List (String × Request)
  unfolding event_id
  kept_requests unavailable req rs = rs
  kept_requests duel_failed req rs = rs
  kept_requests returned req rs = rs
  kept_requests crown_moved req rs = keep (λ r. not (r.0 ==s prefix 16 (event_id req))) rs

  -- `_run`
  unfoldable pub run_duel : Meets → Request → Daemon → Stepped
  unfolding settled is_there kept_requests
  run_duel m req d = record {
    had = is_there m.ended;
    ran = some req;
    daemon = record d {
      queue = settled m req (m.during d.queue);
      head = m.head_after;
      requests = kept_requests m.ended req d.requests;
    };
  }

  -- `_resume`
  unfoldable pub resume : Meets → InProgress → Daemon → Stepped
  unfolding request_at event_id finish run_duel
  resume m ip d = elim (request_at (prefix 16 ip.event_id) d.requests) [
    | none ↦ record { had = true; ran = none; daemon = record d { queue = finish d.queue } }
    | some req ↦
        if event_id req ==s ip.event_id
        then run_duel m req d
        else record { had = true; ran = none; daemon = record d { queue = finish d.queue } }
  ]

  -- `_baseline_genesis` up to its run, and what follows it.
  unfoldable pub give_up : Stepped → Stepped
  unfolding current_king
  give_up s =
      if s.had
      then (elim (current_king s.daemon.head) [
        | none ↦ record s { daemon = record s.daemon { stalled = true } }
        | some k ↦ s
      ])
      else s

  unfoldable pub baseline_genesis : Meets → String × String → Daemon → Stepped
  unfolding resolved next_block record_request set_block start event_id run_duel give_up
  baseline_genesis m base d = elim (resolved spec.sha256_hex base.0 base.1) [
    | err e ↦ record { had = false; ran = none; daemon = record d { stalled = true } }
    | ok challenger ↦
        if m.ready
        then (let req : Request = record {
          challenger = challenger;
          king = none;
          size = none;
          block = next_block d;
        } in
            let d' = record_request req d in
            let q = start (event_id req) challenger none m.now (set_block req.block d'.queue).1 in
            give_up (run_duel m req (record d' { queue = q })))
        else record { had = false; ran = none; daemon = d }
  ]

  -- `step` for the entry at the head of the queue.
  unfoldable pub serve : Meets → Option SubmissionRef → QueueEntry → Daemon → Stepped
  unfolding ref next_block record_request take event_id run_duel
  serve m king entry d =
      let req : Request = record {
        challenger = ref entry;
        king = king;
        size = entry.duel_size;
        block = next_block d;
      } in
      let d' = record_request req d in
      let (taken, q) =
        take entry.key req.block (event_id req) none m.now (m.before_take d'.queue) in
      elim taken [
        | none ↦ record { had = true; ran = none; daemon = record d' { queue = q } }
        | some e ↦ run_duel m req (record d' { queue = q })
      ]

  unfoldable pub holds_crown : Option SubmissionRef → QueueEntry → Bool
  holds_crown none entry = false
  holds_crown (some k) entry = k.key ==s entry.key

  unfoldable pub next_entry : Meets → Daemon → Stepped
  unfolding peek remove current_king holds_crown serve
  next_entry m d = elim (peek d.queue) [
    | none ↦ record { had = false; ran = none; daemon = d }
    | some entry ↦
        if m.ready
        then (if holds_crown (current_king d.head) entry
            then record {
              had = true;
              ran = none;
              daemon = record d { queue = (remove entry.key d.queue).1 };
            }
            else serve m (current_king d.head) entry d)
        else record { had = false; ran = none; daemon = d }
  ]

  unfoldable pub open_next : Meets → Daemon → Stepped
  unfolding current_king baseline_genesis next_entry
  open_next m d = elim (current_king d.head) [
    | some k ↦ next_entry m d
    | none ↦ elim spec.baseline [ none ↦ next_entry m d | some base ↦ baseline_genesis m base d ]
  ]

  unfoldable pub step : Meets → Daemon → Stepped
  unfolding resume open_next
  step m d = elim d.queue.in_progress [
    | some ip ↦ if m.ready then resume m ip d else record { had = false; ran = none; daemon = d }
    | none ↦ if d.stalled then record { had = false; ran = none; daemon = d } else open_next m d
  ]
