-- ===== src/Tests/Answering.antt =====
-- Two members are called for a caller; the first is busy, and the second one answers.
use vx_pbx.Base.{ℕ, ◌+◌, ◌<◌, ◌≡◌, ◌≢◌, refl, true, false, List, [], ◌∷◌, Option, none, some, arith}
use vx_pbx.Base.Lists.{All}
use vx_pbx.Base.Int.{pos, negsuc, sub_ℕ, ◌≤ℤ◌}
use vx_pbx.Queue.Types.{Text, QueueEnt}
use vx_pbx.Queue.Members.{is_ringall}
use vx_pbx.Queue.Metric.{calc_metric, find_best, score}
use vx_pbx.Queue.Ring.{
  ring_one, end_round, ring_round, ring_best, ring_entry, can_ring_entry, wrapup_of,
}
use vx_pbx.Queue.Settings.{QueueConfig, app}
use vx_pbx.Queue.Try.{prepare, timeout_of, in_ms}
use vx_pbx.Queue.Try.Limit.{timeout_of_bounds}
use vx_pbx.Queue.Try.Prepared.{IsNew, Apart, prepare-Apart}
use vx_pbx.Queue.Answer.{
  leg, stays, Frame, busy, answers, other, speaks, hangs_up, Winner, Poll, Pressed, wait_for_answer,
}
use vx_pbx.Queue.Answer.{rna, is_spared}
use vx_pbx.Queue.Answer.Silent.{rna-FoundPaused}
use vx_pbx.Queue.Roster.{find_member}
use vx_pbx.Queue.Roster.Pausing.{FoundPaused}
use vx_pbx.Base.{◌&&◌, ◌⊎◌}
use vx_pbx.Base.Int.{ltb_ℤ}
use vx_pbx.Queue.Settings.{all}
use vx_pbx.Queue.Answer.Loop.{Ensures}
use vx_pbx.Queue.Answer.Hangup.{Leaves, wait_for_answer-Leaves}
use vx_pbx.Queue.Answer.Walked.{IsWalked, wait_for_answer-IsWalked}
use vx_pbx.Queue.Calling.{Meets, CallEnd, answered, unanswered, still_waiting, call_members}
use vx_pbx.Queue.Calling.Rightly.{IsRightly, call_members-IsRightly}
use vx_pbx.Tests.Data.{caller, queue, phones, queues, ringing_state, outgoing}
use vx_pbx.Tests.Settings.{allocated}
use vx_pbx.Tests.Waiting.{round}

-- Who comes with a limit of its own, 50, and without limits of penalty.
abbrev first : QueueEnt
first = record (caller 11 (pos 5) 1 0) { expire = 50; max_penalty = pos 0; min_penalty = pos 0 }

abbrev config : QueueConfig
config = record allocated { timeout = pos 15 }

abbrev poll : Winner → Frame → Pressed → Poll
poll winner frame pressed = record {
  left = λ _ orig. orig;
  left_later = λ _ orig. orig;
  now = 20;
  winner = winner;
  is_up = λ _. false;
  forwarding = stays;
  frame = frame;
  pressed = pressed;
  exits = λ _. false;
  phones = phones;
}

-- The member at place 1 is busy, so that the one at place 0 is called, who answers.
abbrev polls : List Poll
polls = poll (leg 1) busy speaks ∷ poll (leg 0) answers speaks ∷ poll (leg 0) other speaks ∷ []

-- The caller hangs up while the members ring.
abbrev given_up : List Poll
given_up = poll (leg 1) busy speaks ∷ poll Winner.caller other hangs_up ∷ []

abbrev meets : Meets
meets = record {
  now = 20;
  draw = λ _. 0;
  phones = record phones { clock = λ t. t + 20 };
  queues = record queues { use_weight = false };
  caller_disconnect = true;
  start_time = 20;
  polls = polls;
  round = round;
}

-- "b" has been dialed before.
abbrev dialed : List Text
dialed = (b'b' ∷ []) ∷ []

abbrev place_of : CallEnd → Option ℕ
place_of (unanswered r q qe) = none
place_of (answered i q qe s) = some i
place_of (still_waiting s) = none

call_members_run : place_of (call_members config meets dialed queue first) ≡ some 0
unfolding call_members calc_metric ring_one find_best score end_round ring_round is_ringall
    ring_best ring_entry can_ring_entry wrapup_of
call_members_run = refl

call_members-IsRightly_example :
    IsRightly meets dialed queue.members (call_members config meets dialed queue first)
call_members-IsRightly_example = call_members-IsRightly config meets dialed queue first

prepare-Apart_example :
    All (IsNew dialed) (prepare 20 (λ _. 0) dialed queue first).outgoing
    × Apart (prepare 20 (λ _. 0) dialed queue first).outgoing
prepare-Apart_example = prepare-Apart 20 (λ _. 0) dialed queue first

timeout_of_bounds_example :
    (let to = timeout_of app (pos 15) 20 first in
      (to ≢ negsuc 0 → pos 1 ≤ℤ to)
      × (0 < 15 → (pos 1 ≤ℤ to) × (to ≤ℤ in_ms (pos 15)))
      × (app ≡ app → 0 < 50 → (pos 1 ≤ℤ to) × (to ≤ℤ in_ms (sub_ℕ 50 20))))
timeout_of_bounds_example =
    timeout_of_bounds app 15 20 first (omega arith) (λ _. (omega arith, omega arith))

wait_for_answer-IsWalked_example :
    Ensures IsWalked
      (λ r. IsWalked r.state)
      (wait_for_answer config queues round true (pos 15000) 20 polls ringing_state outgoing)
wait_for_answer-IsWalked_example =
    wait_for_answer-IsWalked config queues round true (pos 15000) 20 polls ringing_state outgoing

wait_for_answer-Leaves_example :
    Ensures
      (λ _. Unit {0})
      (Leaves given_up)
      (wait_for_answer config queues round true (pos 15000) 20 given_up ringing_state outgoing)
wait_for_answer-Leaves_example =
    wait_for_answer-Leaves config queues round true (pos 15000) 20 given_up ringing_state outgoing

abbrev pausing : QueueConfig
pausing = record config { autopause = all; autopausedelay = pos 60 }

rna-FoundPaused_example :
    (let spared =
        ltb_ℤ (pos 0) (pos 60) && is_spared pausing 100 (find_member (b'b' ∷ []) queue.members) in
      ((spared ≡ true)
        × (rna (λ _ _. false) pausing 100 queue (b'b' ∷ []) true (queue ∷ []) ≡ queue ∷ []))
      ⊎ ((spared ≡ false)
          × All
              (FoundPaused (b'b' ∷ []) true)
              (rna (λ _ _. false) pausing 100 queue (b'b' ∷ []) true (queue ∷ []))))
rna-FoundPaused_example =
    rna-FoundPaused (λ _ _. false) pausing 100 queue (b'b' ∷ []) (queue ∷ []) refl (λ _ _. refl)
