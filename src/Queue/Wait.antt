-- ===== src/Queue/Wait.antt =====
-- Waiting for one's turn: `wait_our_turn`, a round of its loop at a time.
-- A `Round` holds what the round meets: what the other threads do to the queue before it, the
-- readings of the clock in order, the answers of the caller and of the devices, and the results of
-- `valid_exit`. The place of the caller is the one that the others have left it in the line.
pub mod Sound
use vx_pbx.Base.{ℕ, ◌-◌, Bool, true, false, not, ◌&&◌, ◌||◌, List, [], ◌∷◌, Option, none, some}
use vx_pbx.Base.Tests.{ltb, leb, ◌==◌, if◌then◌else◌}
use vx_pbx.Base.Int.{ℤ, pos, sub_ℕ, ltb_ℤ, eqb_ℤ}
use vx_pbx.Queue.Types.{Text, DeviceState, QueueResult, QueueEnt, CallQueue, Announce, Periodic}
use vx_pbx.Queue.Members.{get_member_status}
use vx_pbx.Queue.Line.{is_set, leave_queue}
use vx_pbx.Queue.Turn.{is_our_turn}
use vx_pbx.Queue.Penalty.{apply_due}
use vx_pbx.Queue.Say.{Prompt, Said, say_position}
use vx_pbx.Queue.Periodic.{Announced, silent, say_periodic_announcement}

pub record Round : Type 0 where
  pub others : CallQueue → CallQueue
  pub clock : ℕ → ℕ
  pub device : Text → DeviceState
  pub answer : Prompt → ℤ
  pub answer_periodic : ℕ → ℤ
  pub draw : ℕ × ℕ
  pub exits : ℤ → Bool
  pub digit : ℤ

-- `qe->expire && (time(NULL) >= qe->expire)`
abbrev pub expired : ℕ → QueueEnt → Bool
expired now qe = not (qe.expire == 0) && leb qe.expire now

-- The caller's place in the line.
unfoldable pub place_in : ℕ → ℕ → List QueueEnt → ℕ
place_in address at [] = at
place_in address at (e ∷ es) = if e.address == address then e.position else place_in address at es

unfoldable pub refreshed : CallQueue → QueueEnt → QueueEnt
unfolding place_in
refreshed q qe = record qe { position = place_in qe.address qe.position q.head }

unfoldable pub announce_position : Round → ℕ → CallQueue → QueueEnt → Said
announce_position rd now q qe =
    if q.announcing.announcefrequency == 0
    then record { queue = q; entry = qe; heard = []; res = pos 0 }
    else say_position rd.answer rd.exits now q qe

unfoldable pub announce_periodic : Round → ℕ → ℕ → CallQueue → QueueEnt → Announced
announce_periodic rd now later q qe =
    if q.periodic.periodicannouncefrequency == 0
    then silent qe
    else say_periodic_announcement rd.answer_periodic rd.exits now later rd.draw q qe

-- No member serves the caller, for a queue that is to be left then.
abbrev pub is_empty_for : Round → ℕ → CallQueue → QueueEnt → Bool
is_empty_for rd now q qe =
    is_set q.leavewhenempty
    && get_member_status rd.device now q qe.max_penalty qe.min_penalty q.leavewhenempty

-- A digit that leads nowhere counts as none.
abbrev pub exit_digit : Round → ℤ
exit_digit rd = if ltb_ℤ (pos 0) rd.digit && not (rd.exits rd.digit) then pos 0 else rd.digit

-- The end of the wait: the result, what is written to `*reason`, if anything, and the last reading of
-- the clock.
pub record WaitEnd : Type 0 where
  pub res : ℤ
  pub reason : Option QueueResult
  pub at : ℕ
  pub queue : CallQueue
  pub entry : QueueEnt

pub data Waits : Type 0 where
  stays : CallQueue → QueueEnt → Waits
  ends : WaitEnd → Waits

abbrev pub end_wait : ℤ → Option QueueResult → ℕ → CallQueue → QueueEnt → Waits
end_wait res reason at q qe =
    ends record { res = res; reason = reason; at = at; queue = q; entry = qe }

-- From the periodic announcement on.
unfoldable pub wait_rest : Round → CallQueue → QueueEnt → Waits
wait_rest rd q qe =
    let t = rd.clock in
    let p = announce_periodic rd (t 5) (t 6) q qe in
    let qe' = apply_due false (sub_ℕ (t 7) p.entry.start) p.entry in
    if not (eqb_ℤ p.res (pos 0))
    then end_wait p.res none (t 6) q p.entry
    else if expired (t 8) qe'
    then end_wait (pos 0) (some QueueResult.timeout) (t 8) q qe'
    else if not (eqb_ℤ (exit_digit rd) (pos 0))
    then end_wait (exit_digit rd) none (t 8) q qe'
    else if expired (t 9) qe'
    then end_wait (pos 0) (some QueueResult.timeout) (t 9) q qe'
    else stays q qe'

-- One round, on the queue as the others have left it.
unfoldable pub wait_in : Round → CallQueue → QueueEnt → Waits
wait_in rd q qe =
    let t = rd.clock in
    let s = announce_position rd (t 3) q qe in
    let rest = wait_rest rd s.queue s.entry in
    if is_our_turn (t 0) q qe
    then end_wait (pos 0) none (t 0) q qe
    else if expired (t 1) qe
    then end_wait (pos 0) (some QueueResult.timeout) (t 1) q qe
    else if is_empty_for rd (t 2) q qe
    then end_wait (pos 0) (some QueueResult.leaveempty) (t 2) (leave_queue q qe.address) qe
    else if not (eqb_ℤ s.res (pos 0))
    then end_wait s.res none (t 3) s.queue s.entry
    else if expired (t 4) s.entry
    then end_wait (pos 0) (some QueueResult.timeout) (t 4) s.queue s.entry
    else rest

unfoldable pub wait_round : Round → CallQueue → QueueEnt → Waits
unfolding wait_in refreshed
wait_round rd q qe = let q' = rd.others q in wait_in rd q' (refreshed q' qe)

abbrev pub wait_more : Waits → (CallQueue → QueueEnt → Waits) → Waits
wait_more (stays q qe) more = more q qe
wait_more (ends r) more = ends r

-- The loop through the given rounds.
unfoldable pub wait_our_turn : List Round → CallQueue → QueueEnt → Waits
unfolding wait_round
wait_our_turn [] q qe = stays q qe
wait_our_turn (rd ∷ rds) q qe = wait_more (wait_round rd q qe) (wait_our_turn rds)
