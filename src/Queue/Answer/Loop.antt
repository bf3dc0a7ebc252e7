-- ===== src/Queue/Answer/Loop.antt =====
-- Predicates of what a round of `wait_for_answer` leaves, and of its loop.
use vx_pbx.Base.{Bool, ◌&&◌, List, [], ◌∷◌}
use vx_pbx.Base.Tests.{if_keeps, ◌==◌}
use vx_pbx.Base.Int.{ℤ}
use vx_pbx.Queue.Ring.{Queues}
use vx_pbx.Queue.Settings.{QueueConfig}
use vx_pbx.Queue.Wait.{Round}
use vx_pbx.Queue.Answer.{
  Pressed, hangs_up, speaks, dials, Poll, Waiting, Answered, Polled, waits, returns, heed_caller,
  poll_round, poll_more, poll_all,
}

-- While it waits `I` holds, and `P` of what it returns.
pub data Ensures (I : Waiting → Type 0) (P : Answered → Type 0) : Polled → Type 0 where
  waiting : {s : Waiting} → I s → Ensures I P (waits s)
  returned : {r : Answered} → P r → Ensures I P (returns r)

-- The same of what is returned, of a loop that goes on.
pub poll_more-Ensures :
    (I : Waiting → Type 0) (P : Answered → Type 0) (I' : Waiting → Type 0) (P' : Answered → Type 0)
    (w : Polled) (more : Waiting → Polled)
    → Ensures I P w
    → ((r : Answered) → P r → P' r)
    → ((s : Waiting) → I s → Ensures I' P' (more s))
    → Ensures I' P' (poll_more w more)
poll_more-Ensures I P I' P' (waits s) more (waiting i) weaken k = k s i
poll_more-Ensures I P I' P' (returns r) more (returned h) weaken k = returned (weaken r h)

pub Ensures-mono :
    (P P' : Answered → Type 0) (w : Polled)
    → ((r : Answered) → P r → P' r)
    → Ensures (λ _. Unit {0}) P w
    → Ensures (λ _. Unit {0}) P' w
Ensures-mono P P' (waits s) weaken (waiting i) = waiting tt
Ensures-mono P P' (returns r) weaken (returned h) = returned (weaken r h)

-- An invariant of the rounds, with what it gives where one returns.
pub poll_all-Ensures :
    (I : Waiting → Type 0) (P : Answered → Type 0) (config : QueueConfig) (queues : Queues)
    (rd : Round) (b : Bool) (orig : ℤ)
    → ((p : Poll) (s : Waiting) → I s → Ensures I P (poll_round config queues rd b orig p s))
    → (ps : List Poll) (s : Waiting) → I s
    → Ensures I P (poll_all config queues rd b orig ps s)
unfolding poll_all
poll_all-Ensures I P config queues rd b orig keep [] s h = waiting h
poll_all-Ensures I P config queues rd b orig keep (p ∷ ps) s h =
    poll_more-Ensures I P I P (poll_round config queues rd b orig p s)
      (poll_all config queues rd b orig ps) (keep p s h) (λ r z. z)
      (poll_all-Ensures I P config queues rd b orig keep ps)

-- What holds of the state behind the attempts holds of it behind the caller too.
pub heed_caller-Ensures :
    (I : Waiting → Type 0) (b : Bool) (p : Poll) (d : Pressed) (s : Waiting)
    → I s
    → Ensures I (λ r. I r.state) (heed_caller b p d s)
unfolding heed_caller
heed_caller-Ensures I b p hangs_up s k = returned k
heed_caller-Ensures I b p speaks s k = waiting k
heed_caller-Ensures I b p (dials c) s k =
    if_keeps (Ensures I (λ r. I r.state)) (b && c == b'*') _ _ (returned k)
      (if_keeps (Ensures I (λ r. I r.state)) (p.exits c) _ _ (returned k) (waiting k))
