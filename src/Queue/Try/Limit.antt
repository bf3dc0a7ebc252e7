-- ===== src/Queue/Try/Limit.antt =====
-- How long members are called.
use vx_pbx.Base.{ℕ, ◌+◌, ◌-◌, ◌*◌, ◌≤◌, ◌<◌, ◌≡◌, ◌≢◌, arith, inl, inr}
use vx_pbx.Base.Tests.{◌==◌, Bool-cases}
use vx_pbx.Base.Int.{pos, negsuc, sub_ℕ, ◌≤ℤ◌, int32, int32_small}
use vx_pbx.Queue.Types.{QueueEnt}
use vx_pbx.Queue.Settings.{TimeoutPriority, app, conf}
use vx_pbx.Queue.Try.{timeout_of, in_ms}

sub_pos : (a b : ℕ) → b < a → sub_ℕ a b ≡ pos (a - b)
sub_pos a b h = ground arith

in_ms_small : (n : ℕ) → n ≤ 2147483 → int32 (in_ms (pos n)) ≡ in_ms (pos n)
in_ms_small n h = int32_small (n * 1000) (omega arith)

-- While a caller's time is not over and the queue's timeout is not negative, and these times, where they
-- are set, are at most 2147483 seconds, the members are called without a limit or for a positive time;
-- that is no longer than the queue's timeout, where it has one; and where the application's timeout goes
-- first, it ends with the caller's time at the latest.
pub timeout_of_bounds :
    (p : TimeoutPriority) (timeout now : ℕ) (qe : QueueEnt)
    → timeout ≤ 2147483
    → (0 < qe.expire → (now < qe.expire) × (qe.expire ≤ now + 2147483))
    → (let to = timeout_of p (pos timeout) now qe in
        (to ≢ negsuc 0 → pos 1 ≤ℤ to)
        × (0 < timeout → (pos 1 ≤ℤ to) × (to ≤ℤ in_ms (pos timeout)))
        × (p ≡ app → 0 < qe.expire → (pos 1 ≤ℤ to) × (to ≤ℤ in_ms (sub_ℕ qe.expire now))))
unfolding timeout_of
timeout_of_bounds app timeout now qe h k = elim (Bool-cases (qe.expire == 0)) [
  | inl never ↦ rw (in_ms_small timeout h) (ground arith)
  | inr ends ↦
      let (before, near) = k (ground arith) in
      let left : qe.expire - now ≤ 2147483 = omega arith in
      rw (sub_pos qe.expire now before, in_ms_small timeout h, in_ms_small (qe.expire - now) left)
        (ground arith)
]
timeout_of_bounds conf timeout now qe h k = rw (in_ms_small timeout h) (ground arith)
