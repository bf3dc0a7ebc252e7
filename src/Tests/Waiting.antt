-- ===== src/Tests/Waiting.antt =====
-- A caller who waits behind another one, and whose time is over.
use vx_pbx.Base.{ℕ, ◌+◌, ◌<◌, ◌≡◌, refl, true, false, [], ◌∷◌, some, arith}
use vx_pbx.Base.Int.{pos}
use vx_pbx.Queue.Types.{DeviceState, QueueResult, QueueEnt}
use vx_pbx.Queue.Periodic.{say_periodic_announcement, pick_sound, sound_at}
use vx_pbx.Queue.Periodic.Reads.{IsSwitch, say_periodic_announcement-reads}
use vx_pbx.Queue.Wait.{Round, wait_our_turn}
use vx_pbx.Queue.Wait.Sound.{IsExplained, WhenEnded, wait_our_turn-IsExplained}
use vx_pbx.Queue.Exec.{
  Turn, check_turns, Exec, Executes, Returned, goes, returns, stop, after_call, run, queue_exec,
}
use vx_pbx.Queue.Exec.Abandons.{IsSettled, WhenReturned, queue_exec-IsSettled}
use vx_pbx.Queue.Exec.Expires.{run_late}
use vx_pbx.Tests.Data.{caller, queue}

-- The second caller, whose wait expires at 50.
abbrev late_caller : QueueEnt
late_caller = record (caller 12 (pos 0) 2 0) { expire = 50 }

-- At 100 nobody has left, every device is free, and the caller presses nothing.
abbrev pub round : Round
round = record {
  others = λ q. q;
  clock = λ k. k + 100;
  device = λ _. DeviceState.not_inuse;
  answer = λ _. pos 0;
  answer_periodic = λ _. pos 0;
  draw = (0, 1);
  exits = λ _. false;
  digit = pos 0;
}

-- Nobody takes the call.
abbrev turn : Turn
turn = record {
  round = round;
  try_calling = λ q qe. record {
    res = pos 0;
    queue = q;
    entry = qe;
    handled = false;
    tries = 1;
    noption = false;
    dropped = false;
  };
  update_realtime_members = λ q. q;
}

abbrev waiting_exec : Exec
waiting_exec = record {
  phase = check_turns;
  queue = queue;
  entry = late_caller;
  reason = QueueResult.unknown;
  handled = false;
  abandons = 0;
  dropped = false;
}

wait_our_turn-IsExplained_example :
    WhenEnded
      (IsExplained (round ∷ round ∷ []))
      (wait_our_turn (round ∷ round ∷ []) queue late_caller)
wait_our_turn-IsExplained_example = wait_our_turn-IsExplained (round ∷ round ∷ []) queue late_caller

queue_exec-IsSettled_example :
    WhenReturned IsSettled (queue_exec true 0 (turn ∷ turn ∷ []) queue late_caller)
queue_exec-IsSettled_example = queue_exec-IsSettled true 0 (turn ∷ turn ∷ []) queue late_caller

-- A caller whom `try_calling` drops behind a member's answer is counted twice.
abbrev dropping : Turn
dropping = record turn { try_calling = λ q qe. record (turn.try_calling q qe) { dropped = true } }

abbrev counted : Executes → ℕ
counted (goes x) = x.abandons
counted (returns r) = r.abandons

counted_twice :
    counted (after_call false dropping (dropping.try_calling queue late_caller) waiting_exec) ≡ 2
unfolding after_call stop
counted_twice = refl

run_late_example : (r : Returned) × (run false (turn ∷ turn ∷ []) waiting_exec ≡ returns r)
run_late_example =
    run_late false turn turn [] waiting_exec (omega arith) (λ k. omega arith) (λ k. omega arith)

say_periodic_announcement-reads_example :
    (let r = say_periodic_announcement (λ _. pos 0) (λ _. false) 100 105 (0, 1) queue late_caller in
      let first = pick_sound queue 0 0 in
      ((i : ℕ) → r.played ≡ some i → i < 2)
      × (r.fault ≡ true
          → (late_caller.periodicannouncelimit ≡ pos 1)
            × IsSwitch (sound_at queue first)
            × (first + 1 ≡ 2)))
say_periodic_announcement-reads_example =
    say_periodic_announcement-reads (λ _. pos 0) (λ _. false) 100 105 (0, 1) queue late_caller
      record { configured = omega arith; not_empty = omega arith }
