-- ===== src/Queue/Exec.antt =====
-- The Queue application once the caller is in the line: `queue_exec` from `join_queue` on, as a state
-- machine that takes a round of either loop at a time.
-- `try_calling` and `update_realtime_members` are arguments. The options, priorities and penalties
-- that are read from the channel, and music, logs and channel variables, are outside.
pub mod Abandons
pub mod Expires
use vx_pbx.Base.{ℕ, ◌+◌, ◌-◌, Bool, true, false, not, ◌&&◌, ◌||◌, List, [], ◌∷◌, Option, none, some}
use vx_pbx.Base.Tests.{ltb, leb, ◌==◌, if◌then◌else◌, bit}
use vx_pbx.Base.Lists.{length}
use vx_pbx.Base.Int.{ℤ, pos, negsuc, sub_ℕ, ltb_ℤ, eqb_ℤ, ◌+ℤ◌}
use vx_pbx.Queue.Types.{Text, QueueResult, QueueEnt, CallQueue}
use vx_pbx.Queue.Line.{leave_queue}
use vx_pbx.Queue.Turn.{is_our_turn}
use vx_pbx.Queue.Penalty.{apply_due}
use vx_pbx.Queue.Stats.{record_abandoned}
use vx_pbx.Queue.Wait.{
  Round, Waits, stays, ends, WaitEnd, expired, refreshed, announce_position, announce_periodic,
  is_empty_for, exit_digit, wait_round,
}

-- What `try_calling` does: its result, the queue and the caller behind it, and what it writes to
-- `handled`, `tries` and `noption`. `dropped` tells that a member answered but the caller had hung up
-- before it was connected, or that the channels are not compatible: there `try_calling` calls
-- `record_abandoned` itself and returns -1, before it sets `handled`.
pub record Called : Type 0 where
  pub res : ℤ
  pub queue : CallQueue
  pub entry : QueueEnt
  pub handled : Bool
  pub tries : ℕ
  pub noption : Bool
  pub dropped : Bool

-- A round of either loop. `update_realtime_members` also does what the other threads do to the queue
-- until the end of the wait for a digit.
pub record Turn : Type 0 where
  pub round : Round
  pub try_calling : CallQueue → QueueEnt → Called
  pub update_realtime_members : CallQueue → CallQueue

-- Where the caller is: at `check_turns`, or in the loop of the head caller, with `makeannouncement`.
pub data Phase : Type 0 where
  check_turns : Phase
  calling : Bool → Phase

-- The variables of `queue_exec`; `abandons` counts the calls of `record_abandoned`, also those that
-- `try_calling` makes, and `dropped` tells that it has made one.
pub record Exec : Type 0 where
  pub phase : Phase
  pub queue : CallQueue
  pub entry : QueueEnt
  pub reason : QueueResult
  pub handled : Bool
  pub abandons : ℕ
  pub dropped : Bool

-- The caller behind `join_queue`, with its place among the periodic announcements.
unfoldable pub entered : CallQueue → ℕ → QueueEnt → QueueEnt
entered q shiftannounce qe =
    let sound = if leb q.numperiodicannounce shiftannounce then 0 else shiftannounce in
    let left = sub_ℕ 0 sound +ℤ qe.periodicannouncelimit in
    record qe {
      nomoh = q.mohsupress;
      last_periodic_announce_sound = sound;
      periodicannouncelimit =
          if ltb_ℤ (pos 0) qe.periodicannouncelimit
          then (if ltb_ℤ left (pos 0) then pos 0 else left)
          else qe.periodicannouncelimit;
    }

-- How `queue_exec` returns: the result and the final queue, and what QUEUESTATUS is set to.
pub record Returned : Type 0 where
  pub res : ℤ
  pub queue : CallQueue
  pub entry : QueueEnt
  pub reason : QueueResult
  pub abandons : ℕ
  pub dropped : Bool

unfoldable pub abandon : Exec → Exec
unfolding record_abandoned
abandon x = record x { queue = record_abandoned x.queue; abandons = x.abandons + 1 }

-- From the label `stop` on.
unfoldable pub stop : Bool → ℤ → Exec → Returned
unfolding abandon
stop qcontinue res x =
    let given_up = ltb_ℤ res (pos 0) && not x.handled in
    let goes_on = ltb_ℤ res (pos 0) && x.handled && qcontinue in
    let x' = if given_up then abandon x else x in
    record {
      res =
          if given_up then negsuc 0 else if goes_on || not (ltb_ℤ res (pos 0)) then pos 0 else res;
      queue = leave_queue x'.queue x'.entry.address;
      entry = x'.entry;
      reason = if goes_on then QueueResult.continue else x'.reason;
      abandons = x'.abandons;
      dropped = x'.dropped;
    }

pub data Executes : Type 0 where
  goes : Exec → Executes
  returns : Returned → Executes

-- A `break` of the loop of the head caller, behind `record_abandoned`.
unfoldable pub leave_for : Bool → QueueResult → Exec → Executes
leave_for qcontinue reason x =
    returns (stop qcontinue (pos 0) (abandon (record x { reason = reason })))

abbrev pub reason_or : QueueResult → Option QueueResult → QueueResult
reason_or old none = old
reason_or old (some new) = new

-- Behind `wait_our_turn`.
unfoldable pub after_wait : Bool → Exec → Waits → Executes
after_wait qcontinue x (stays q qe) = goes (record x { queue = q; entry = qe })
after_wait qcontinue x (ends r) =
    let x' = record x { queue = r.queue; entry = r.entry; reason = reason_or x.reason r.reason } in
    if not (eqb_ℤ r.res (pos 0))
    then returns (stop qcontinue r.res x')
    else goes (record x' { phase = calling false })

-- Behind `try_calling`, where it has returned 0.
unfoldable pub after_try : Bool → Turn → Called → Exec → Executes
after_try qcontinue tn c x =
    let rd = tn.round in
    let t = rd.clock in
    let q' = tn.update_realtime_members x.queue in
    let qe' = refreshed q' x.entry in
    if is_empty_for rd (t 6) x.queue x.entry
    then leave_for qcontinue QueueResult.leaveempty x
    else if c.noption && leb (length x.queue.members) c.tries
    then leave_for qcontinue QueueResult.timeout x
    else if expired (t 7) x.entry
    then leave_for qcontinue QueueResult.timeout x
    else if not (eqb_ℤ (exit_digit rd) (pos 0))
    then returns (stop qcontinue (exit_digit rd) (record x { queue = q' }))
    else if is_our_turn (t 8) q' qe'
    then goes (record x { queue = q'; entry = qe'; phase = calling true })
    else goes (record x { queue = q'; entry = qe'; phase = check_turns })

-- The two places where `try_calling` calls `record_abandoned`.
unfoldable pub drop_caller : Called → Exec → Exec
unfolding abandon
drop_caller c x = abandon (record x { queue = c.queue; entry = c.entry; dropped = true })

-- Behind `try_calling`, whatever it has returned.
unfoldable pub after_call : Bool → Turn → Called → Exec → Executes
unfolding drop_caller
after_call qcontinue tn c x =
    let z = record x { queue = c.queue; entry = c.entry; handled = x.handled || c.handled } in
    if c.dropped
    then returns (stop qcontinue (negsuc 0) (drop_caller c x))
    else if not (eqb_ℤ c.res (pos 0))
    then returns (stop qcontinue c.res z)
    else after_try qcontinue tn c z

-- From the periodic announcement on.
unfoldable pub try_round : Bool → Turn → Exec → Executes
try_round qcontinue tn x =
    let rd = tn.round in
    let t = rd.clock in
    let p = announce_periodic rd (t 2) (t 3) x.queue x.entry in
    let y = record x { entry = p.entry } in
    let ruled = apply_due true (sub_ℕ (t 5) y.entry.start) y.entry in
    if not (eqb_ℤ p.res (pos 0))
    then returns (stop qcontinue p.res y)
    else if expired (t 4) y.entry
    then leave_for qcontinue QueueResult.timeout y
    else after_call qcontinue tn (tn.try_calling x.queue ruled) y

-- A round of the loop of the head caller.
unfoldable pub call_round : Bool → Turn → Bool → Exec → Executes
call_round qcontinue tn makeannouncement x =
    let rd = tn.round in
    let t = rd.clock in
    let s = announce_position rd (t 1) x.queue x.entry in
    let y = record x { queue = s.queue; entry = s.entry } in
    if expired (t 0) x.entry
    then leave_for qcontinue QueueResult.timeout x
    else if not makeannouncement
    then try_round qcontinue tn x
    else if not (eqb_ℤ s.res (pos 0))
    then returns (stop qcontinue s.res y)
    else try_round qcontinue tn y

unfoldable pub dispatch : Bool → Turn → Phase → Exec → Executes
dispatch qcontinue tn check_turns x = after_wait qcontinue x (wait_round tn.round x.queue x.entry)
dispatch qcontinue tn (calling makeannouncement) x =
    let q = tn.round.others x.queue in
    call_round qcontinue tn makeannouncement (record x { queue = q; entry = refreshed q x.entry })

unfoldable pub step : Bool → Turn → Exec → Executes
unfolding dispatch
step qcontinue tn x = dispatch qcontinue tn x.phase x

abbrev pub go_on : Executes → (Exec → Executes) → Executes
go_on (goes x) more = more x
go_on (returns r) more = returns r

unfoldable pub run : Bool → List Turn → Exec → Executes
unfolding step
run qcontinue [] x = goes x
run qcontinue (tn ∷ tns) x = go_on (step qcontinue tn x) (run qcontinue tns)

-- `queue_exec` for a caller who has joined.
unfoldable pub queue_exec : Bool → ℕ → List Turn → CallQueue → QueueEnt → Executes
unfolding run entered
queue_exec qcontinue shiftannounce turns q qe = run qcontinue turns record {
  phase = check_turns;
  queue = q;
  entry = entered q shiftannounce qe;
  reason = QueueResult.unknown;
  handled = false;
  abandons = 0;
  dropped = false;
}
