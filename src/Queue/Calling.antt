-- ===== src/Queue/Calling.antt =====
-- A round of calls, the first half of `try_calling`: the attempts are made, the members called, and
-- the caller waits until somebody answers, the time is up or the caller leaves. What `try_calling`
-- does with the one who answered is left out, and so is the end of the other attempts.
pub mod Rightly
use vx_pbx.Base.{ℕ, suc, Bool, true, false, ◌||◌, List, Option, none, some}
use vx_pbx.Base.Tests.{if◌then◌else◌}
use vx_pbx.Base.Lists.{length}
use vx_pbx.Base.Int.{ℤ, pos, negsuc, eqb_ℤ}
use vx_pbx.Queue.Types.{Text, QueueEnt, CallQueue, Strategy, rrmemory, rrordered, linear}
use vx_pbx.Queue.Metric.{CallAttempt, store_next_rr, store_next_lin}
use vx_pbx.Queue.Ring.{Phones, Queues, Ringing, ring_one}
use vx_pbx.Queue.Settings.{QueueConfig}
use vx_pbx.Queue.Wait.{Round, expired}
use vx_pbx.Queue.Try.{prepare, timeout_of}
use vx_pbx.Queue.Answer.{Poll, Waiting, Answered, Polled, waits, returns, wait_for_answer}

-- What the round meets: `now` is the time at its begin, `draw` gives the results of `ast_random`,
-- `phones` is asked by the first `ring_one`, and the rest by `wait_for_answer`.
pub record Meets : Type 0 where
  pub now : ℕ
  pub draw : ℕ → ℕ
  pub phones : Phones
  pub queues : Queues
  pub caller_disconnect : Bool
  pub start_time : ℕ
  pub polls : List Poll
  pub round : Round

-- The result where nobody answered, or the place of the attempt that did.
pub data CallEnd : Type 0 where
  unanswered : ℤ → CallQueue → QueueEnt → CallEnd
  answered : ℕ → CallQueue → QueueEnt → Waiting → CallEnd
  still_waiting : Waiting → CallEnd

unfoldable pub keeps_round : Strategy → Bool
keeps_round rrmemory = true
keeps_round rrordered = true
keeps_round _ = false

unfoldable pub is_linear : Strategy → Bool
is_linear linear = true
is_linear _ = false

-- The position from which the next round starts.
unfoldable pub next_queue : CallQueue → List CallAttempt → CallQueue
unfolding keeps_round
next_queue q outgoing = if keeps_round q.strategy then store_next_rr q outgoing else q

unfoldable pub next_entry : CallQueue → QueueEnt → List CallAttempt → QueueEnt
unfolding is_linear
next_entry q qe outgoing = if is_linear q.strategy then store_next_lin qe outgoing else qe

abbrev pub end_of : Option ℕ → ℤ → ℕ → CallQueue → QueueEnt → Waiting → CallEnd
end_of none to digit q qe s =
    unanswered (if eqb_ℤ to (pos 0) then pos digit else negsuc 0) q (record qe { pending = false })
end_of (some i) to digit q qe s = answered i q qe s

-- Behind `wait_for_answer`.
unfoldable pub settle : Polled → CallEnd
unfolding next_queue next_entry
settle (waits s) = still_waiting s
settle (returns r) =
    let s = r.state in
    let q = next_queue s.ringing.parent s.outgoing in
    let qe = next_entry s.ringing.parent s.ringing.entry s.outgoing in
    end_of r.peer r.to r.digit q qe s

unfoldable pub call_members : QueueConfig → Meets → List Text → CallQueue → QueueEnt → CallEnd
unfolding prepare timeout_of wait_for_answer settle
call_members config m dialed q qe =
    let p = prepare m.now m.draw dialed q qe in
    let to = timeout_of config.timeoutpriority config.timeout m.now p.entry in
    let ringing : Ringing = record {
      parent = p.queue;
      entry = record (p.entry) { pending = true };
      busies = 0;
    } in
    let rung = ring_one (suc (length p.outgoing)) m.phones m.queues 0 ringing p.outgoing in
    let w =
      wait_for_answer config m.queues m.round m.caller_disconnect to m.start_time m.polls rung.state
        rung.outgoing in
    if expired m.now qe then unanswered (pos 0) q qe else settle w
