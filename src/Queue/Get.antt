-- ===== src/Queue/Get.antt =====
-- `RuntimeEventQueue.get`: its arguments, one pass of its loop, and the loop over a schedule of
-- what other threads do while it waits.
use wyreplumber.Prelude.{
  ℤ, pos, negsuc, Bool, true, false, not, ◌&&◌, ◌||◌, List, [], ◌∷◌, Result, ok, err, type_error,
  value_error, queue_closed, queue_empty, queue_resnapshot, ◌>>=◌, ◌>>◌, require, Error,
  if◌then◌else◌,
}
use wyreplumber.Value.Floats.{is_negative}
use wyreplumber.Value.{Value, null, bool, int, int_member, float}
use wyreplumber.Value.Checks.{boolean}
use wyreplumber.Event.{RuntimeEvent}
use package.wyreplumber.Queue.{Queue, text_or}

abbrev negative_int : ℤ → Bool
negative_int (pos n) = false
negative_int (negsuc n) = true

-- The checks of `timeout`; the result says whether there is a deadline.
unfoldable pub check_timeout : Value → Result Bool
unfolding is_negative
check_timeout null = ok false
check_timeout (int n) = if negative_int n then err value_error else ok true
check_timeout (int_member n) = if negative_int n then err value_error else ok true
check_timeout (float x) = if is_negative x then err value_error else ok true
check_timeout _ = err type_error

abbrev is_none : Value → Bool
is_none null = true
is_none _ = false

-- What one pass of the loop ends in; a pass that waits has changed nothing.
pub data Poll : Type 0 where
  done : RuntimeEvent → Queue → Poll
  raises : Error → Poll
  waits : Poll

abbrev empty_poll : (block expired : Bool) → Queue → Poll
empty_poll block expired q =
    if q.closed
    then raises queue_closed
    else if q.resnapshot_required
    then raises (
        queue_resnapshot q.generation q.sequence
          (text_or q.discontinuity_reason "incremental continuity was lost"))
    else if not block
    then raises queue_empty
    else if expired
    then raises queue_empty
    else waits

-- One pass; `expired` says that there is a deadline and that it has passed.
unfoldable pub poll : (block expired : Bool) → Queue → Poll
poll block expired q = elim q.events [
  | [] ↦ empty_poll block expired q
  | e ∷ rest ↦ done e (record q { events = rest })
]

-- While the consumer waits: how other threads change the queue, and whether the deadline has
-- passed when it wakes.
pub record Wake : Type 0 where
  pub meanwhile : Queue → Queue
  pub late : Bool

abbrev pub settle : Poll → Queue → Poll × Queue
settle (done e r) q = (done e r, r)
settle (raises e) q = (raises e, q)
settle waits q = (waits, q)

-- A pass that waits goes on with the rest of the loop.
abbrev pub resume : Poll → Poll × Queue → Queue → Poll × Queue
resume (done e r) again q = (done e r, r)
resume (raises e) again q = (raises e, q)
resume waits again q = again

-- The loop, with the queue that it leaves. `waits` at the end of the schedule: the consumer is
-- still waiting.
unfoldable pub get_loop : (block deadline late : Bool) → List Wake → Queue → Poll × Queue
unfolding poll
get_loop block deadline late [] q = settle (poll block (deadline && late) q) q
get_loop block deadline late (w ∷ ws) q =
    let again = get_loop block deadline w.late ws (w.meanwhile q) in
    resume (poll block (deadline && late) q) again q

-- `get`; `late` is the first reading of the deadline, which a timeout of zero has reached.
unfoldable pub get :
    (block timeout : Value) → (late : Bool) → List Wake → Queue → Result (Poll × Queue)
unfolding boolean check_timeout get_loop
get block timeout late ws q = do
  b ← boolean block
  require (b || is_none timeout) value_error
  deadline ← check_timeout timeout
  ok (get_loop b deadline late ws q)

-- `get_nowait`
unfoldable pub get_nowait : Queue → Result (Poll × Queue)
unfolding get
get_nowait q = get (bool false) null false [] q
