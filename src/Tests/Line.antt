-- ===== src/Tests/Line.antt =====
-- The line of a queue, whose turn it is, and what callers are told.
use vx_pbx.Base.{◌≤◌, ◌≡◌, refl, ◌&&◌, ◌||◌, not, true, false, List, [], ◌∷◌, arith}
use vx_pbx.Base.Tests.{◌==◌}
use vx_pbx.Base.Lists.{All, count}
use vx_pbx.Base.Int.{pos}
use vx_pbx.Queue.Line.{Arrival, comes, goes, arrive_all, enter, asked_position}
use vx_pbx.Queue.Line.Arrivals.{Shows, limits, promised_all, arrive_all-Shows}
use vx_pbx.Queue.Line.Place.{line_with, rank, enter-line_with}
use vx_pbx.Queue.Line.Wellformed.{IsLine, IsWithin, arrive_all-IsLine}
use vx_pbx.Queue.Members.{num_available_members, is_ringall, is_member_available}
use vx_pbx.Queue.Stats.Average.{Averages, recalc_holdtime-arrive_all}
use vx_pbx.Queue.Turn.{is_our_turn}
use vx_pbx.Queue.Turn.Fair.{has_turn, waiting_before, is_our_turn-has_turn, count-is_our_turn}
use vx_pbx.Queue.Say.Backoff.{Visit, visits, FallsFrom, visits-FallsFrom}
use vx_pbx.Tests.Data.{caller, callers, queue, empty_queue}

abbrev history : List Arrival
history =
    comes false (caller 21 (pos 0) 0 0) 0
    ∷ comes false (caller 22 (pos 9) 0 0) 0
    ∷ goes 21
    ∷ comes false (caller 23 (pos 0) 0 2) 1
    ∷ []

arrive_all-IsLine_example :
    IsLine (arrive_all empty_queue history) × IsWithin (arrive_all empty_queue history)
arrive_all-IsLine_example =
    arrive_all-IsLine empty_queue history
      (record { numbered = tt; ordered = tt; counted = refl }, λ h. omega arith)

-- Two who ask for no place, one of whom leaves.
abbrev plain_history : List Arrival
plain_history =
    comes false (caller 21 (pos 0) 0 0) 0 ∷ comes false (caller 22 (pos 9) 0 0) 0 ∷ goes 21 ∷ []

arrive_all-Shows_example :
    Shows
      (arrive_all empty_queue plain_history)
      (promised_all (limits empty_queue) [] plain_history)
arrive_all-Shows_example =
    arrive_all-Shows empty_queue plain_history [] ((refl, refl), ((refl, refl), (tt, tt)))
      (record { line = record { numbered = tt; ordered = tt; counted = refl }; sorted = refl })

queue-IsLine : IsLine queue
queue-IsLine = record {
  numbered = (refl, (refl, (refl, tt)));
  ordered = (omega arith, (omega arith, tt));
  counted = refl;
}

enter-line_with_example :
    (enter queue (caller 30 (pos 0) 0 0) 2).head
    ≡ line_with queue
        (caller 30 (pos 0) 0 0)
        0
        (rank (pos 0) (asked_position (caller 30 (pos 0) 0 0) 2 callers) 0 callers)
        callers
enter-line_with_example =
    enter-line_with queue (caller 30 (pos 0) 0 0) 2 (omega arith, (omega arith, tt))

is_our_turn-has_turn_example :
    is_our_turn 100 queue (caller 12 (pos 0) 2 0)
    ≡ (has_turn (num_available_members 100 queue) 0 (waiting_before 12 callers) && (true || 2 == 1))
is_our_turn-has_turn_example = is_our_turn-has_turn 100 queue (caller 12 (pos 0) 2 0)

count-is_our_turn_example :
    count (λ e. is_our_turn 100 queue e && not e.pending) callers ≤ num_available_members 100 queue
count-is_our_turn_example = count-is_our_turn 100 queue (
  ((λ e. omega (arith, e)), ((λ e. omega (arith, e)), tt)),
  (((λ e. omega (arith, e)), tt), (tt, tt)),
)

some_free : num_available_members 100 queue ≡ 3
unfolding num_available_members is_ringall is_member_available
some_free = refl

recalc_holdtime-arrive_all_example :
    All (Averages (arrive_all empty_queue history) 40) (arrive_all empty_queue history).head
recalc_holdtime-arrive_all_example = recalc_holdtime-arrive_all empty_queue history 40 refl

abbrev later_calls : List Visit
later_calls =
    record { now = 60; place_now = 5; answer = λ _. pos 0; exits = λ _. false }
    ∷ record { now = 120; place_now = 2; answer = λ _. pos 0; exits = λ _. false }
    ∷ []

visits-FallsFrom_example : FallsFrom 3 (visits queue (caller 13 (pos 0) 3 3) later_calls)
visits-FallsFrom_example =
    visits-FallsFrom queue (caller 13 (pos 0) 3 3) later_calls refl (omega arith)
      (omega arith, (omega arith, tt))
