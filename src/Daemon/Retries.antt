-- ===== src/Daemon/Retries.antt =====
-- daemon.py: a duel that could not run is kept, and run again.
use icil_competition_orchest.Prelude.{
  String, ◌≡◌, refl, ◌∙◌, inl, inr, true, false, Option, none, some, arith, eq_refl, Option-cases,
  prefix,
}
use icil_competition_orchest.Ids.{SubmissionRef, resolved}
use icil_competition_orchest.Queue.{
  QueueEntry, InProgress, QueueState, ref, take, stamp, start, set_block,
}
use icil_competition_orchest.Daemon.{
  Spec, Request, unavailable, Meets, Daemon, current_king, next_block, request_at, event_id,
  record_request, settled, is_there, kept_requests, run_duel, resume, give_up, baseline_genesis,
  serve, next_entry, step,
}
use icil_competition_orchest.Daemon.Steps.{
  take-marks, result-cases, give_up-idle, ran-serve, next-serves, step-idle,
}

module _ (spec : Spec) where
  -- What a daemon holds of a duel that it has begun and not settled.
  record Waits (d : Daemon) (req : Request) : Type 0 where
    mark : InProgress
    running : d.queue.in_progress ≡ some mark
    named : mark.event_id ≡ event_id spec req
    kept :
        request_at (prefix 16 (event_id spec req)) d.requests
        ≡ some (record req { size = some (spec.size_of req.size) })

  run_duel-unavailable :
      (m : Meets) (req : Request) (d : Daemon)
      → m.ended ≡ unavailable
      → ((q : QueueState) → (m.during q).in_progress ≡ q.in_progress)
      → Waits d req
      → ((run_duel spec m req d).had ≡ false) × Waits (run_duel spec m req d).daemon req
  unfolding run_duel settled kept_requests is_there
  run_duel-unavailable m req d u during w = (
    rw u refl,
    record {
      mark = w.mark;
      running = rw u (during d.queue ∙ w.running);
      named = w.named;
      kept = rw u w.kept;
    },
  )

  request_at-recorded :
      (req : Request) (d : Daemon)
      → request_at (prefix 16 (event_id spec req)) (record_request spec req d).requests
        ≡ some (record req { size = some (spec.size_of req.size) })
  unfolding request_at record_request
  request_at-recorded req d = rw (eq_refl (prefix 16 (event_id spec req))) refl

  asked : Option SubmissionRef → QueueEntry → Daemon → Request
  asked king e d = record {
    challenger = ref e;
    king = king;
    size = e.duel_size;
    block = next_block d;
  }

  took : Meets → Option SubmissionRef → QueueEntry → Daemon → Option QueueEntry × QueueState
  unfolding asked
  took m king e d =
      take e.key (next_block d) (event_id spec (asked king e d)) none m.now
        (m.before_take (record_request spec (asked king e d) d).queue)

  serve-took :
      (m : Meets) (king : Option SubmissionRef) (e x : QueueEntry) (d : Daemon)
      → (took m king e d).0 ≡ some x
      → serve spec m king e d
        ≡ run_duel spec m
            (asked king e d)
            (record (record_request spec (asked king e d) d) { queue = (took m king e d).1 })
  unfolding serve took asked
  serve-took m king e x d h = ground (arith, h)

  serve-refused :
      (m : Meets) (king : Option SubmissionRef) (e : QueueEntry) (d : Daemon)
      → (took m king e d).0 ≡ none
      → (serve spec m king e d).ran ≡ none
  unfolding serve took asked
  serve-refused m king e d h = ground (arith, h)

  serve-unavailable :
      (m : Meets) (king : Option SubmissionRef) (e : QueueEntry) (d : Daemon) (req : Request)
      → (serve spec m king e d).ran ≡ some req
      → m.ended ≡ unavailable
      → ((q : QueueState) → (m.during q).in_progress ≡ q.in_progress)
      → ((serve spec m king e d).had ≡ false) × Waits (serve spec m king e d).daemon req
  unfolding took asked
  serve-unavailable m king e d req h u during = elim (Option-cases (took m king e d).0) [
    | inl z ↦ ground (arith, h, serve-refused m king e d z)
    | inr (x, z) ↦
        let (ip, p, q) =
          take-marks e.key (next_block d) (event_id spec (asked king e d)) none m.now
            (m.before_take (record_request spec (asked king e d) d).queue) x z in
        let same = ran-serve spec m king e d req h in
        rw (serve-took m king e x d z, same)
          (run_duel-unavailable m (asked king e d) _ u during (record {
            mark = ip;
            running = p;
            named = q;
            kept = request_at-recorded (asked king e d) d;
          }))
  ]

  -- The baseline's request, and the daemon that runs it.
  crowns : SubmissionRef → Daemon → Request
  crowns challenger d = record {
    challenger = challenger;
    king = none;
    size = none;
    block = next_block d;
  }

  begun : Meets → SubmissionRef → Daemon → Daemon
  unfolding crowns
  begun m challenger d =
      let d' = record_request spec (crowns challenger d) d in
      record d' {
        queue =
            start (event_id spec (crowns challenger d)) challenger none m.now
              (set_block (next_block d) d'.queue).1;
      }

  baseline-ran :
      (m : Meets) (base : String × String) (d : Daemon) (req : Request)
      → (baseline_genesis spec m base d).ran ≡ some req
      → (challenger : SubmissionRef) × (baseline_genesis spec m base d)
          ≡ give_up spec (run_duel spec m (crowns challenger d) (begun m challenger d))
        × (req ≡ crowns challenger d)
  unfolding baseline_genesis begun crowns give_up run_duel
  baseline-ran m base d req h = elim (result-cases (resolved spec.sha256_hex base.0 base.1)) [
    | inl (x, z) ↦ ground (arith, z, h)
    | inr (challenger, z) ↦ (challenger, ground (arith, z, h), ground (arith, z, h))
  ]

  baseline-unavailable :
      (m : Meets) (base : String × String) (d : Daemon) (req : Request)
      → (baseline_genesis spec m base d).ran ≡ some req
      → m.ended ≡ unavailable
      → ((q : QueueState) → (m.during q).in_progress ≡ q.in_progress)
      → ((baseline_genesis spec m base d).had ≡ false)
        × Waits (baseline_genesis spec m base d).daemon req
  unfolding begun start crowns set_block
  baseline-unavailable m base d req h u during =
      let (challenger, e, same) = baseline-ran m base d req h in
      let run =
        run_duel-unavailable m (crowns challenger d) (begun m challenger d) u during (record {
          mark = record {
            event_id = event_id spec (crowns challenger d);
            challenger = challenger;
            started_at = stamp none m.now;
            entry = none;
          };
          running = refl;
          named = refl;
          kept = request_at-recorded (crowns challenger d) d;
        }) in
      rw
        (
          e,
          give_up-idle spec (run_duel spec m (crowns challenger d) (begun m challenger d)) run.0,
          same,
        )
        run

  next-unavailable :
      (m : Meets) (d : Daemon) (req : Request)
      → (next_entry spec m d).ran ≡ some req
      → m.ended ≡ unavailable
      → ((q : QueueState) → (m.during q).in_progress ≡ q.in_progress)
      → ((next_entry spec m d).had ≡ false) × Waits (next_entry spec m d).daemon req
  next-unavailable m d req h u during =
      let (e, same) = next-serves spec m d req h in
      let served = serve-unavailable m (current_king d.head) e d req (rw (← same) h) u during in
      rw same served

  step-unavailable :
      (m : Meets) (d : Daemon) (req : Request)
      → d.queue.in_progress ≡ none
      → (step spec m d).ran ≡ some req
      → m.ended ≡ unavailable
      → ((q : QueueState) → (m.during q).in_progress ≡ q.in_progress)
      → ((step spec m d).had ≡ false) × Waits (step spec m d).daemon req
  step-unavailable m d req idle ran u during = elim (step-idle spec m d req idle ran) [
    | inl same ↦ rw same (next-unavailable m d req (rw (← same) ran) u during)
    | inr (base, same, k) ↦ rw same (baseline-unavailable m base d req (rw (← same) ran) u during)
  ]

  resume-Waits :
      (n : Meets) (d : Daemon) (req : Request)
      → n.ready ≡ true
      → Waits d req
      → (step spec n d).ran ≡ some (record req { size = some (spec.size_of req.size) })
  unfolding step resume run_duel
  resume-Waits n d req r w =
      ground (arith, r, w.running, w.named, w.kept, eq_refl (event_id spec req))

  -- A duel that a step opens and cannot run, its harness being away, is no duel had; it stays in progress,
  -- where the queue's other users leave the mark alone, and a later step whose benchmarks are ready runs
  -- the same duel again: the same pair in the same block, at the size it was recorded with.
  pub step-retries :
      (m n : Meets) (d : Daemon) (req : Request)
      → d.queue.in_progress ≡ none
      → (step spec m d).ran ≡ some req
      → m.ended ≡ unavailable
      → ((q : QueueState) → (m.during q).in_progress ≡ q.in_progress)
      → n.ready ≡ true
      → ((step spec m d).had ≡ false)
        × ((step spec n (step spec m d).daemon).ran
            ≡ some (record req { size = some (spec.size_of req.size) }))
  step-retries m n d req idle ran u during r =
      let (had, waits) = step-unavailable m d req idle ran u during in
      (had, resume-Waits n (step spec m d).daemon req r waits)
