-- ===== src/Tests/Calls.antt =====
-- Which members are called, in which order.
use vx_pbx.Base.{zero, ◌<◌, ◌≡◌, ◌≢◌, ◌↔◌, ◌⊎◌, inl, refl, true, List, [], ◌∷◌, some, arith}
use mathlib.Core.Bool.{false≢true}
use vx_pbx.Base.Lists.{All}
use vx_pbx.Base.Int.{pos, ◌<ℤ◌}
use vx_pbx.Queue.Types.{CallQueue, QueueEnt}
use vx_pbx.Queue.Metric.{CallAttempt, calc_metric, score, find_best}
use vx_pbx.Queue.Metric.Rotation.{distance, calc_metric-rotation}
use vx_pbx.Queue.Ring.{ring_one, out_of_fuel}
use vx_pbx.Queue.Ring.Ringers.{RingsRightly, ring_one-RingsRightly}
use vx_pbx.Queue.Ring.Progress.{ring_one_total}
use vx_pbx.Tests.Data.{caller, queue, member, attempt, outgoing, phones, queues, ringing_state}

abbrev first : QueueEnt
first = caller 11 (pos 5) 1 0

abbrev blank : CallAttempt
blank = attempt (member b'z' 0) 0

abbrev wrapped_queue : CallQueue
wrapped_queue = record queue { wrapped = true }

-- Nobody limits the penalties of this caller.
abbrev free_caller : QueueEnt
free_caller = record first { max_penalty = pos 0; min_penalty = pos 0 }

scored_a :
    calc_metric 100 0 queue (member b'a' 0) 0 free_caller blank
    ≡ some (queue, free_caller, record blank { metric = pos 1000 })
unfolding calc_metric score
scored_a = refl

scored_c :
    calc_metric 100 0 queue (member b'c' 2) 0 free_caller blank
    ≡ some (wrapped_queue, free_caller, record blank { metric = pos 2 })
unfolding calc_metric score
scored_c = refl

calc_metric-rotation_example :
    (pos 2 <ℤ pos 1000)
    ↔ ((zero < zero) ⊎ ((zero ≡ zero) × (distance 3 (pos 1) 2 <ℤ distance 3 (pos 1) 0)))
calc_metric-rotation_example =
    calc_metric-rotation 100 0 queue 0 free_caller blank (inl refl) (member b'c' 2) (member b'a' 0)
      wrapped_queue queue free_caller free_caller (record blank { metric = pos 2 })
      (record blank { metric = pos 1000 }) (omega arith) (omega arith) (omega arith) (omega arith)
      (omega arith) scored_c scored_a

abbrev scored : List CallAttempt
scored = record blank { metric = pos 1000 } ∷ record blank { metric = pos 2 } ∷ []

best_found : find_best scored ≡ some (1, record blank { metric = pos 2 })
unfolding find_best
best_found = refl

ring_one-RingsRightly_example :
    All (RingsRightly phones) (ring_one 3 phones queues 0 ringing_state outgoing).outgoing
ring_one-RingsRightly_example =
    ring_one-RingsRightly 3 phones queues 0 ringing_state outgoing
      ((λ e. absurd (false≢true e)), ((λ e. absurd (false≢true e)), tt))

ring_one_total_example : (ring_one 3 phones queues 0 ringing_state outgoing).outcome ≢ out_of_fuel
ring_one_total_example = ring_one_total phones queues 0 ringing_state outgoing
