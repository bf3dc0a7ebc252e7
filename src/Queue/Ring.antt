-- ===== src/Queue/Ring.antt =====
-- Calling members: `can_ring_entry`, `ring_entry` and `ring_one`.
-- What telephony answers is an argument (`Phones`): `ring_one` asks for each member once at most,
-- so an answer is a function of the attempt. Channel variables, caller identity and the events for
-- the manager, which decide nothing, are left out.
pub mod Progress
pub mod Each
pub mod Ringers
pub mod Keeps
use vx_pbx.Base.{
  ℕ, zero, suc, ◌+◌, Bool, true, false, not, ◌&&◌, ◌||◌, List, [], ◌∷◌, Option, none, some,
}
use vx_pbx.Base.Tests.{ltb, leb, ◌==◌, if◌then◌else◌}
use vx_pbx.Base.Lists.{set}
use vx_pbx.Base.Int.{ℤ, pos, leb_ℤ, ◌+ℤ◌}
use vx_pbx.Queue.Types.{Text, DeviceState, CallQueue, QueueEnt}
use vx_pbx.Queue.Members.{compare_weight, is_ringall}
use vx_pbx.Queue.Metric.{CallAttempt, is_open, find_best}

-- What is outside this file: the state of a member's device now, whether a channel can be had
-- for it, whether the call can be placed, and the clock at each round of `ring_one`.
pub record Phones : Type 0 where
  pub device : Text → DeviceState
  pub request : CallAttempt → Bool
  pub call : CallAttempt → Bool
  pub clock : ℕ → ℕ

-- `member_status_available`
unfoldable pub member_status_available : DeviceState → Bool
member_status_available DeviceState.not_inuse = true
member_status_available DeviceState.unknown = true
member_status_available _ = false

-- The heap of queues: `lastqueue` points into it, and the container lists those in use.
pub record Queues : Type 0 where
  pub at : ℕ → CallQueue
  pub all : List CallQueue
  pub use_weight : Bool

-- The wrap-up time that binds a member: of the queue of the last call, or else of this one.
unfoldable pub wrapup_of : Queues → CallQueue → Option ℕ → ℕ
wrapup_of queues parent none = parent.wrapuptime
wrapup_of queues parent (some last) = (queues.at last).wrapuptime

abbrev pub wraps_up : ℕ → Queues → CallQueue → CallAttempt → Bool
wraps_up now queues parent call =
    let wrapup = wrapup_of queues parent call.lastqueue in
    not (wrapup == 0) && ltb now (call.lastcall + wrapup)

abbrev pub set_pending : CallAttempt → Bool → CallAttempt
set_pending call b = record call { member = record (call.member) { call_pending = b } }

-- The answer, and the attempt with the pending flag of its member.
unfoldable pub can_ring_entry : Phones → Queues → ℕ → CallQueue → CallAttempt → Bool × CallAttempt
unfolding member_status_available
can_ring_entry phones queues now parent call =
    if call.member.paused
    then (false, call)
    else if not call.member.ringinuse && not (member_status_available call.member.status)
    then (false, call)
    else if wraps_up now queues parent call
    then (false, call)
    else if queues.use_weight && compare_weight now queues.all parent call.member
    then (false, call)
    else if call.member.ringinuse
    then (true, call)
    else if call.member.call_pending
    then (false, call)
    else if not (member_status_available (phones.device call.member.state_interface))
    then (false, set_pending call false)
    else (true, set_pending call true)

-- What the calls of `ring_entry` share.
pub record Ringing : Type 0 where
  pub parent : CallQueue
  pub entry : QueueEnt
  pub busies : ℕ

pub record Tried : Type 0 where
  pub rings : Bool
  pub attempt : CallAttempt
  pub state : Ringing

abbrev pub give_up : Ringing → CallAttempt → Tried
give_up s call = record {
  rings = false;
  attempt = record call { stillgoing = false; called = false };
  state = record s { busies = s.busies + 1 };
}

abbrev pub next_position : Ringing → Ringing
next_position s = record s {
  parent = record (s.parent) { rrpos = s.parent.rrpos +ℤ pos 1 };
  entry = record (s.entry) { linpos = s.entry.linpos +ℤ pos 1 };
}

unfoldable pub ring_entry : Phones → Queues → ℕ → Ringing → CallAttempt → Tried
ring_entry phones queues now s tmp =
    let (can, call) = can_ring_entry phones queues now s.parent tmp in
    if not can
    then give_up s call
    else if not (phones.request call)
    then give_up (next_position s) (set_pending call false)
    else if not (phones.call call)
    then give_up s (set_pending call false)
    else record {
      rings = true;
      attempt = set_pending (record call { called = true }) false;
      state = s;
    }

pub record Rung : Type 0 where
  pub ret : Bool
  pub outgoing : List CallAttempt
  pub state : Ringing

-- The inner loop for `ringall`: everyone whose metric is at most that of the best.
abbrev pub is_wanted : ℤ → CallAttempt → Bool
is_wanted metric cur = is_open cur && leb_ℤ cur.metric metric

-- An attempt is tried if it is wanted, and else left as it is.
unfoldable pub try_wanted : Phones → Queues → ℕ → ℤ → Ringing → CallAttempt → Tried
try_wanted phones queues now metric s cur =
    if is_wanted metric cur
    then ring_entry phones queues now s cur
    else record { rings = false; attempt = cur; state = s }

unfoldable pub ring_all : Phones → Queues → ℕ → ℤ → Ringing → List CallAttempt → Rung
ring_all phones queues now metric s [] = record { ret = false; outgoing = []; state = s }
ring_all phones queues now metric s (cur ∷ rest) =
    let tried = try_wanted phones queues now metric s cur in
    let more = ring_all phones queues now metric tried.state rest in
    record more { ret = tried.rings || more.ret; outgoing = tried.attempt ∷ more.outgoing }

-- One attempt, at place `i`.
unfoldable pub ring_best : Phones → Queues → ℕ → ℕ → CallAttempt → Ringing → List CallAttempt → Rung
ring_best phones queues now i best s outgoing =
    let tried = ring_entry phones queues now s best in
    record { ret = tried.rings; outgoing = set outgoing i tried.attempt; state = tried.state }

unfoldable pub ring_round :
    Phones → Queues → ℕ → ℕ → CallAttempt → Ringing → List CallAttempt → Rung
ring_round phones queues now i best s outgoing =
    if is_ringall s.parent.strategy
    then ring_all phones queues now best.metric s outgoing
    else ring_best phones queues now i best s outgoing

-- How `ring_one` ends; it returns 1 where somebody rings, and 0 otherwise.
pub data Outcome : Type 0 where
  rang nobody_left timed_out out_of_fuel : Outcome

pub record Ended : Type 0 where
  pub outcome : Outcome
  pub outgoing : List CallAttempt
  pub state : Ringing

-- The end of a round at time `now`: `more` is the rest of the loop.
unfoldable pub end_round : ℕ → Ringing → Rung → Ended → Ended
end_round now s r more =
    if not (s.entry.expire == 0) && leb s.entry.expire now
    then record { outcome = timed_out; outgoing = r.outgoing; state = r.state }
    else if r.ret
    then record { outcome = rang; outgoing = r.outgoing; state = r.state }
    else more

-- The loop, which asks the clock twice in a round: when it rings and when it looks at the expiry.
unfoldable pub ring_one : ℕ → Phones → Queues → ℕ → Ringing → List CallAttempt → Ended
ring_one zero phones queues t s outgoing = record {
  outcome = out_of_fuel;
  outgoing = outgoing;
  state = s;
}
ring_one (suc fuel) phones queues t s outgoing = elim (find_best outgoing) [
  | none ↦ record { outcome = nobody_left; outgoing = outgoing; state = s }
  | some (i, best) ↦
      let r = ring_round phones queues (phones.clock t) i best s outgoing in
      end_round (phones.clock (t + 1)) s r (ring_one fuel phones queues (t + 2) r.state r.outgoing)
]
