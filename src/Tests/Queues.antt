-- ===== src/Tests/Queues.antt =====
-- The event queue on concrete inputs.
use wyreplumber.Prelude.{
  inl, pos, String, Bool, true, false, none, List, [], ◌∷◌, ◌++◌, ◌≡◌, ◌↔◌, refl, ok, err, length,
  ◌+◌, continuity_error, arith,
}
use wyreplumber.Value.{int}
use wyreplumber.Value.Checks.{identifier, integer}
use wyreplumber.Event.{RuntimeEvent, require_event_continuity}
use wyreplumber.Event.Continuity.{
  Follows, require_event_continuity_iff, require_event_continuity_refuses,
}
use wyreplumber.Queue.{Queue, init, publish, reset}
use wyreplumber.Queue.Get.{done, poll, get_nowait}
use wyreplumber.Queue.Invariant.{IsValid, init-IsValid, publish-IsValid, poll-IsValid}
use wyreplumber.Queue.History.{Action, publishes, reads, run, step, begin, project}
use wyreplumber.Queue.Delivery.{delivery_lossless, delivery_announced}
use wyreplumber.Queue.Monitor.{Monitor, Turn, turn, turns}
use wyreplumber.Queue.Waiting.{IsAttended, turns-IsAttended}
use wyreplumber.Queue.Refinement.{view, accept, Delivers, publish-accept, poll-Delivers}
use wyreplumber.Tests.Fixtures.{python, delta, resnapshot, tally}

-- A queue of two events at generation 1.
abbrev start : Queue
start = record {
  capacity = 2;
  events = [];
  generation = 1;
  sequence = 0;
  closed = false;
  resnapshot_required = false;
  discontinuity_reason = none;
}

start_made : init (int (pos 2)) (int (pos 1)) (int (pos 0)) ≡ ok start
unfolding init integer identifier
start_made = refl

-- Two deltas, one of them read; then a delta too many for the capacity.
abbrev quiet : List Action
quiet = publishes 5 (delta 1) ∷ publishes 6 (delta 2) ∷ reads ∷ []

abbrev overflowing : List Action
overflowing =
    publishes 5 (delta 1)
    ∷ reads
    ∷ publishes 6 (delta 2)
    ∷ publishes 7 (delta 3)
    ∷ publishes 8 (delta 4)
    ∷ []

quiet_streams : (run python (begin start) quiet).queue.resnapshot_required ≡ false
unfolding run step get_nowait publish
quiet_streams = refl

overflow_asks : (run python (begin start) overflowing).queue.resnapshot_required ≡ true
unfolding run step get_nowait publish tally
overflow_asks = refl

quiet_received : (run python (begin start) quiet).received ≡ delta 1 ∷ []
unfolding run step get_nowait publish
quiet_received = refl

delivery_lossless_example :
    let h = run python (begin start) quiet in
    (h.received ++ h.queue.events ≡ h.accepted)
    × (project h.generation h.sequence h.accepted ≡ ok h.queue.sequence)
delivery_lossless_example =
    delivery_lossless python (int (pos 2)) (int (pos 1)) (int (pos 0)) start quiet start_made
      quiet_streams

delivery_announced_example :
    let h = run python (begin start) overflowing in
    (clean missed : List RuntimeEvent) × (notice : RuntimeEvent) × (code : String) × (h.received
        ++ h.queue.events
      ≡ clean ++ notice ∷ [])
    × (clean ++ missed ≡ h.accepted)
    × (project h.generation h.sequence clean ≡ ok (h.sequence + length clean))
    × (project h.generation h.sequence (clean ++ notice ∷ [])
        ≡ err (continuity_error code h.generation (h.sequence + length clean + 1)))
delivery_announced_example =
    delivery_announced python (int (pos 2)) (int (pos 1)) (int (pos 0)) start overflowing start_made
      overflow_asks

start-IsValid : IsValid start
start-IsValid = init-IsValid (int (pos 2)) (int (pos 1)) (int (pos 0)) start start_made

publish-IsValid_example :
    (r : Queue × Bool) × (publish python 5 start (delta 1) ≡ ok r) × IsValid r.0
publish-IsValid_example = publish-IsValid python 5 start (delta 1) start-IsValid

-- With one delta pending.
abbrev holding : Queue
holding = record start { events = delta 1 ∷ []; sequence = 1 }

holding-IsValid : IsValid holding
holding-IsValid = record {
  positive = omega arith;
  bounded = omega arith;
  pending = (0, ((refl, refl, refl), tt), refl);
}

taken : poll true false holding ≡ done (delta 1) (record start { sequence = 1 })
unfolding poll
taken = refl

poll-IsValid_example : IsValid (record start { sequence = 1 })
poll-IsValid_example =
    poll-IsValid true false holding (record start { sequence = 1 }) (delta 1) holding-IsValid taken

reset_made :
    reset holding (int (pos 2)) (int (pos 9)) ≡ ok (record start { generation = 2; sequence = 9 })
unfolding reset identifier
reset_made = refl

-- Two consumers wait; two deltas arrive, one of the consumers takes one, and the queue is closed.
abbrev crowded : List Turn
crowded =
    Turn.arrives true false
    ∷ Turn.arrives true false
    ∷ Turn.publishes 5 (delta 1)
    ∷ Turn.publishes 6 (delta 2)
    ∷ Turn.resumes false
    ∷ []

abbrev unwatched : Monitor
unwatched = record { queue = start; asleep = 0; woken = 0 }

crowd_woken : (turns python unwatched crowded).woken ≡ 1
unfolding turns turn publish poll
crowd_woken = refl

crowd_released : (turns python unwatched (Turn.arrives true false ∷ Turn.closes ∷ [])).asleep ≡ 0
unfolding turns turn poll
crowd_released = refl

turns-IsAttended_example : IsAttended (turns python unwatched crowded)
turns-IsAttended_example = turns-IsAttended python unwatched crowded (inl refl)

require_event_continuity_iff_example :
    (require_event_continuity (delta 3) (int (pos 1)) (int (pos 2)) ≡ ok (delta 3))
    ↔ Follows 1 2 (delta 3)
require_event_continuity_iff_example = require_event_continuity_iff (delta 3) 1 2

require_event_continuity_refuses_example :
    (code : String) × (require_event_continuity resnapshot (int (pos 1)) (int (pos 2))
      ≡ err (continuity_error code 1 (2 + 1)))
require_event_continuity_refuses_example = require_event_continuity_refuses resnapshot 1 2 refl

publish-accept_example :
    (r : Queue × Bool) × (publish python 5 start (delta 1) ≡ ok r)
    × ((view r.0, r.1) ≡ accept 2 (view start) (delta 1))
publish-accept_example = publish-accept python 5 start (delta 1) refl

holding_polled : poll false false holding ≡ done (delta 1) (record holding { events = [] })
unfolding poll
holding_polled = refl

poll-Delivers_example : Delivers (view holding) (delta 1) (view (record holding { events = [] }))
poll-Delivers_example =
    poll-Delivers false false holding (record holding { events = [] }) (delta 1) holding-IsValid
      holding_polled
