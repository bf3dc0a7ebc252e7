-- ===== src/Queue/Exec/Expires.antt =====
-- A caller whose time is over leaves within two rounds.
use vx_pbx.Base.{
  ℕ, ◌≤◌, ◌<◌, ◌≡◌, refl, ap, ◌∙◌, Bool, true, false, List, ◌∷◌, Option, some, none, arith, inl,
  inr, ◌⊎◌,
}
use vx_pbx.Base.Tests.{Bool-cases}
use vx_pbx.Base.Int.{pos}
use vx_pbx.Queue.Types.{QueueEnt, CallQueue, QueueResult}
use vx_pbx.Queue.Turn.{is_our_turn}
use vx_pbx.Queue.Wait.{Round, expired, refreshed, wait_in, wait_round, end_wait}
use vx_pbx.Queue.Exec.{
  Turn, Phase, check_turns, calling, Exec, Returned, goes, returns, stop, leave_for, after_wait,
  call_round, dispatch, abandon, reason_or, step, go_on, run,
}

-- Every reading of the clock in this round is at or after the time at which the caller's wait expires.
abbrev pub IsLate : ℕ → Turn → Type 0
IsLate expire tn = (k : ℕ) → expire ≤ tn.round.clock k

expire-refreshed : (q : CallQueue) (qe : QueueEnt) → (refreshed q qe).expire ≡ qe.expire
unfolding refreshed
expire-refreshed q qe = refl

-- Nothing but the caller's turn comes before the first look at the time.
wait_in_late :
    (rd : Round) (q : CallQueue) (qe : QueueEnt)
    → expired (rd.clock 1) qe ≡ true
    → (reason : Option QueueResult) × (at : ℕ) × (wait_in rd q qe ≡ end_wait (pos 0) reason at q qe)
unfolding wait_in
wait_in_late rd q qe late = elim (Bool-cases (is_our_turn (rd.clock 0) q qe)) [
  | inl turn ↦ (none, rd.clock 0, rw turn refl)
  | inr early ↦ (some QueueResult.timeout, rd.clock 1, rw (early, late) refl)
]

call_round_late :
    (qcontinue : Bool) (tn : Turn) (m : Bool) (x : Exec)
    → expired (tn.round.clock 0) x.entry ≡ true
    → (r : Returned) × (call_round qcontinue tn m x ≡ returns r)
unfolding call_round leave_for
call_round_late qcontinue tn m x late =
    (stop qcontinue (pos 0) (abandon (record x { reason = QueueResult.timeout })), rw late refl)

expired_at : (now : ℕ) (qe : QueueEnt) → 0 < qe.expire → qe.expire ≤ now → expired now qe ≡ true
expired_at now qe h k = ground arith

dispatched :
    (qcontinue : Bool) (tn : Turn) (p : Phase) (x : Exec)
    → x.phase ≡ p
    → step qcontinue tn x ≡ dispatch qcontinue tn p x
unfolding step
dispatched qcontinue tn p x e = ap (λ p. dispatch qcontinue tn p x) e

calling_late :
    (qcontinue : Bool) (tn : Turn) (m : Bool) (x : Exec)
    → x.phase ≡ calling m
    → 0 < x.entry.expire
    → IsLate x.entry.expire tn
    → (r : Returned) × (step qcontinue tn x ≡ returns r)
unfolding dispatch
calling_late qcontinue tn m x e h late =
    let q = tn.round.others x.queue in
    let (r, out) =
      call_round_late qcontinue tn m (record x { queue = q; entry = refreshed q x.entry })
        (let same = expire-refreshed q x.entry in
          expired_at (tn.round.clock 0) (refreshed q x.entry) (rw same h) (rw same (late 0))) in
    (r, dispatched qcontinue tn (calling m) x e ∙ out)

checking_late :
    (qcontinue : Bool) (tn : Turn) (x : Exec)
    → x.phase ≡ check_turns
    → 0 < x.entry.expire
    → IsLate x.entry.expire tn
    → (y : Exec) × (step qcontinue tn x ≡ goes y)
      × (y.phase ≡ calling false)
      × (y.entry.expire ≡ x.entry.expire)
unfolding dispatch wait_round after_wait
checking_late qcontinue tn x e h late =
    let q = tn.round.others x.queue in
    let qe = refreshed q x.entry in
    let same = expire-refreshed q x.entry in
    let (reason, at, out) =
      wait_in_late tn.round q qe
        (expired_at (tn.round.clock 1) qe (rw same h) (rw same (late 1))) in
    (
      record x { phase = calling false; queue = q; entry = qe; reason = reason_or x.reason reason },
      dispatched qcontinue tn check_turns x e ∙ ap (after_wait qcontinue x) out,
      refl,
      same,
    )

Phase-cases : (p : Phase) → (p ≡ check_turns) ⊎ ((m : Bool) × (p ≡ calling m))
Phase-cases check_turns = inl refl
Phase-cases (calling m) = inr (m, refl)

-- Once the time of a caller with a timeout is over, it has left by the end of two further rounds,
-- whether it waits for its turn or for a member, and whatever the other threads do.
pub run_late :
    (qcontinue : Bool) (tn tn' : Turn) (rest : List Turn) (x : Exec)
    → 0 < x.entry.expire
    → IsLate x.entry.expire tn
    → IsLate x.entry.expire tn'
    → (r : Returned) × (run qcontinue (tn ∷ tn' ∷ rest) x ≡ returns r)
unfolding run
run_late qcontinue tn tn' rest x h late late' = elim (Phase-cases x.phase) [
  | inl e ↦
      let (y, out, phase, same) = checking_late qcontinue tn x e h late in
      let (r, done) =
        calling_late qcontinue tn' false y phase (rw same h) (λ k. rw same (late' k)) in
      (r, rw (out, go_on) (rw (done, go_on) refl))
  | inr (m, e) ↦
      let (r, done) = calling_late qcontinue tn m x e h late in (r, rw (done, go_on) refl)
]
