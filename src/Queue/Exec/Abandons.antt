-- ===== src/Queue/Exec/Abandons.antt =====
-- How often a caller counts as abandoned.
use vx_pbx.Base.{
  ℕ, ◌+◌, ◌≤◌, ◌≡◌, refl, Bool, true, false, not, ◌&&◌, ◌||◌, List, [], ◌∷◌, arith, inl, inr,
}
use vx_pbx.Base.Tests.{if◌then◌else◌, Bool-cases, leb, bit, if_keeps}
use vx_pbx.Base.Lists.{length}
use vx_pbx.Base.Int.{ℤ, pos, negsuc, sub_ℕ, ltb_ℤ, eqb_ℤ, ◌≤ℤ◌}
use vx_pbx.Queue.Types.{QueueEnt, CallQueue, QueueResult}
use vx_pbx.Queue.Line.Wellformed.{IsFresh}
use vx_pbx.Queue.Turn.{is_our_turn}
use vx_pbx.Queue.Penalty.{apply_due}
use vx_pbx.Queue.Wait.{
  refreshed, Waits, stays, ends, expired, announce_position, announce_periodic, is_empty_for,
  exit_digit, wait_round,
}
use vx_pbx.Queue.Wait.Sound.{leave_queue-IsFresh}
use vx_pbx.Queue.Exec.{
  Called, Turn, Phase, check_turns, calling, Exec, Executes, Returned, goes, returns, stop,
  leave_for, drop_caller, after_call, after_wait, after_try, try_round, call_round, dispatch,
  abandon, step, go_on, run, queue_exec,
}

-- The caller is out of the line and counted as abandoned once at most, or twice where `try_calling` has
-- counted it already, and the dialplan sees no positive result.
abbrev pub IsSettled : Returned → Type 0
IsSettled r =
    IsFresh r.entry.address r.queue.head × (r.abandons ≤ 1 + bit r.dropped) × (r.res ≤ℤ pos 0)

-- A caller who goes on has not been counted.
abbrev pub IsUncounted : Exec → Type 0
IsUncounted x = (x.abandons ≡ 0) × (x.dropped ≡ false)

-- While the caller goes on it is not counted; once it has returned, `P` holds.
pub data WhenReturned (P : Returned → Type 0) : Executes → Type 0 where
  going : {x : Exec} → IsUncounted x → WhenReturned P (goes x)
  returned : {r : Returned} → P r → WhenReturned P (returns r)

abandons-if :
    (c : Bool) (x : Exec)
    → x.abandons ≤ bit x.dropped
    → (if c then abandon x else x).abandons ≤ 1 + bit (if c then abandon x else x).dropped
unfolding abandon
abandons-if true x h = ground arith
abandons-if false x h = ground arith

capped :
    (up on : Bool) (z : ℤ)
    → (if up then negsuc 0 else if on || not (ltb_ℤ z (pos 0)) then pos 0 else z) ≤ℤ pos 0
capped true on z = ground arith
capped false true z = ground arith
capped false false z = elim (Bool-cases (ltb_ℤ z (pos 0))) [
  | inl h ↦ rw h (ground arith)
  | inr h ↦ rw h (ground arith)
]

stop-IsSettled :
    (b : Bool) (res : ℤ) (x : Exec) → x.abandons ≤ bit x.dropped → IsSettled (stop b res x)
unfolding stop
stop-IsSettled b res x h =
    let up = ltb_ℤ res (pos 0) && not x.handled in
    (
      leave_queue-IsFresh _ _,
      abandons-if up x h,
      capped up (ltb_ℤ res (pos 0) && x.handled && b) res,
    )

stopped :
    (b : Bool) (res : ℤ) (x : Exec)
    → IsUncounted x
    → WhenReturned IsSettled (returns (stop b res x))
stopped b res x h = returned (stop-IsSettled b res x (ground arith))

dropped-IsSettled :
    (b : Bool) (res : ℤ) (c : Called) (x : Exec)
    → IsUncounted x
    → WhenReturned IsSettled (returns (stop b res (drop_caller c x)))
unfolding drop_caller
dropped-IsSettled b res c x h =
    returned (stop-IsSettled b res (drop_caller c x) (omega (arith, h.0)))

-- A `break` has counted the caller, and its result of 0 does not count it again.
left_for-IsSettled :
    (b : Bool) (reason : QueueResult) (x : Exec)
    → IsUncounted x
    → WhenReturned IsSettled (leave_for b reason x)
unfolding leave_for stop abandon
left_for-IsSettled b reason x h = returned (leave_queue-IsFresh _ _, ground arith, ground arith)

after_wait-IsSettled :
    (b : Bool) (x : Exec) (w : Waits) → IsUncounted x → WhenReturned IsSettled (after_wait b x w)
unfolding after_wait
after_wait-IsSettled b x (stays q qe) h = going h
after_wait-IsSettled b x (ends r) h = elim (Bool-cases (not (eqb_ℤ r.res (pos 0)))) [
  | inl k ↦ rw k (stopped b r.res _ h)
  | inr k ↦ rw k (going h)
]

after_try-IsSettled :
    (b : Bool) (tn : Turn) (c : Called) (x : Exec)
    → IsUncounted x
    → WhenReturned IsSettled (after_try b tn c x)
unfolding after_try
after_try-IsSettled b tn c x h =
    let rd = tn.round in
    let t = rd.clock in
    let q' = tn.update_realtime_members x.queue in
    elim (Bool-cases (is_empty_for rd (t 6) x.queue x.entry)) [
      | inl k ↦ rw k (left_for-IsSettled b QueueResult.leaveempty x h)
      | inr k ↦ rw k (elim (Bool-cases (c.noption && leb (length x.queue.members) c.tries)) [
        | inl l ↦ rw l (left_for-IsSettled b QueueResult.timeout x h)
        | inr l ↦ rw l (elim (Bool-cases (expired (t 7) x.entry)) [
          | inl late ↦ rw late (left_for-IsSettled b QueueResult.timeout x h)
          | inr late ↦ rw late (elim (Bool-cases (not (eqb_ℤ (exit_digit rd) (pos 0)))) [
            | inl d ↦ rw d (stopped b (exit_digit rd) _ h)
            | inr d ↦ rw d (elim (Bool-cases (is_our_turn (t 8) q' (refreshed q' x.entry))) [
              | inl turn ↦ rw turn (going h)
              | inr turn ↦ rw turn (going h)
            ])
          ])
        ])
      ])
    ]

after_call-IsSettled :
    (b : Bool) (tn : Turn) (c : Called) (x : Exec)
    → IsUncounted x
    → WhenReturned IsSettled (after_call b tn c x)
unfolding after_call
after_call-IsSettled b tn c x h =
    let z = record x { queue = c.queue; entry = c.entry; handled = x.handled || c.handled } in
    let P = WhenReturned IsSettled in
    if_keeps P c.dropped _ _ (dropped-IsSettled b (negsuc 0) c x h) (
      if_keeps P (not (eqb_ℤ c.res (pos 0))) _ _ (stopped b c.res z h)
        (after_try-IsSettled b tn c z h))

try_round-IsSettled :
    (b : Bool) (tn : Turn) (x : Exec) → IsUncounted x → WhenReturned IsSettled (try_round b tn x)
unfolding try_round
try_round-IsSettled b tn x h =
    let rd = tn.round in
    let t = rd.clock in
    let p = announce_periodic rd (t 2) (t 3) x.queue x.entry in
    let y = record x { entry = p.entry } in
    let c = tn.try_calling x.queue (apply_due true (sub_ℕ (t 5) y.entry.start) y.entry) in
    let P = WhenReturned IsSettled in
    if_keeps P (not (eqb_ℤ p.res (pos 0))) _ _ (stopped b p.res y h) (
      if_keeps P (expired (t 4) y.entry) _ _ (left_for-IsSettled b QueueResult.timeout y h)
        (after_call-IsSettled b tn c y h))

call_round-IsSettled :
    (b : Bool) (tn : Turn) (m : Bool) (x : Exec)
    → IsUncounted x
    → WhenReturned IsSettled (call_round b tn m x)
unfolding call_round
call_round-IsSettled b tn m x h =
    let s = announce_position tn.round (tn.round.clock 1) x.queue x.entry in
    let y = record x { queue = s.queue; entry = s.entry } in
    elim (Bool-cases (expired (tn.round.clock 0) x.entry)) [
      | inl late ↦ rw late (left_for-IsSettled b QueueResult.timeout x h)
      | inr late ↦ rw late (elim (Bool-cases (not m)) [
        | inl k ↦ rw k (try_round-IsSettled b tn x h)
        | inr k ↦ rw k (elim (Bool-cases (not (eqb_ℤ s.res (pos 0)))) [
          | inl d ↦ rw d (stopped b s.res y h)
          | inr d ↦ rw d (try_round-IsSettled b tn y h)
        ])
      ])
    ]

dispatch-IsSettled :
    (b : Bool) (tn : Turn) (p : Phase) (x : Exec)
    → IsUncounted x
    → WhenReturned IsSettled (dispatch b tn p x)
unfolding dispatch
dispatch-IsSettled b tn check_turns x h =
    after_wait-IsSettled b x (wait_round tn.round x.queue x.entry) h
dispatch-IsSettled b tn (calling m) x h = call_round-IsSettled b tn m _ h

go_on-IsSettled :
    (e : Executes) (more : Exec → Executes)
    → WhenReturned IsSettled e
    → ((x : Exec) → IsUncounted x → WhenReturned IsSettled (more x))
    → WhenReturned IsSettled (go_on e more)
go_on-IsSettled (goes x) more (going h) k = k x h
go_on-IsSettled (returns r) more (returned h) k = returned h

run-IsSettled :
    (b : Bool) (turns : List Turn) (x : Exec)
    → IsUncounted x
    → WhenReturned IsSettled (run b turns x)
unfolding run step
run-IsSettled b [] x h = going h
run-IsSettled b (tn ∷ tns) x h =
    go_on-IsSettled (step b tn x) (run b tns) (dispatch-IsSettled b tn x.phase x h)
      (run-IsSettled b tns)

-- Whatever the other threads, the devices, the clock and `try_calling` do, a caller whom `queue_exec`
-- lets go is in the line no more, and the dialplan never sees a positive result; `record_abandoned` is
-- called for it at most once, or at most twice where `try_calling` itself has called it for a caller whom
-- it could not connect.
pub queue_exec-IsSettled :
    (qcontinue : Bool) (shiftannounce : ℕ) (turns : List Turn) (q : CallQueue) (qe : QueueEnt)
    → WhenReturned IsSettled (queue_exec qcontinue shiftannounce turns q qe)
unfolding queue_exec
queue_exec-IsSettled qcontinue shiftannounce turns q qe =
    run-IsSettled qcontinue turns _ (refl, refl)
