-- ===== src/Queue/Wait/Sound.antt =====
-- Why the wait ends.
use vx_pbx.Base.{
  ℕ, ◌+◌, ◌≤◌, ◌<◌, ◌≡◌, refl, true, false, not, List, [], ◌∷◌, none, some, arith, ◌⊎◌, inl, inr,
}
use vx_pbx.Base.Tests.{◌==◌, Bool-cases}
use vx_pbx.Base.Int.{ℤ, pos, eqb_ℤ, sub_ℕ}
use vx_pbx.Base.Lists.{All}
use vx_pbx.Queue.Types.{
  Text, DeviceState, EmptyConditions, Member, QueueResult, QueueEnt, CallQueue,
}
use vx_pbx.Queue.Members.{serves, some_serves, get_member_status}
use vx_pbx.Queue.Line.{is_set, leave_queue, leave_loop}
use vx_pbx.Queue.Line.Wellformed.{IsFresh}
use vx_pbx.Queue.Penalty.{apply_due}
use vx_pbx.Queue.Turn.{is_our_turn}
use vx_pbx.Queue.Wait.{
  Round, WaitEnd, Waits, stays, ends, expired, is_empty_for, wait_rest, wait_in, wait_round,
  wait_more, wait_our_turn, announce_position, announce_periodic, refreshed, end_wait, exit_digit,
}

pub leave_loop-IsFresh :
    (address p : ℕ) (es : List QueueEnt) → IsFresh address (leave_loop address p es)
unfolding leave_loop
leave_loop-IsFresh address p [] = tt
leave_loop-IsFresh address p (e ∷ es) = elim (Bool-cases (e.address == address)) [
  | inl here ↦ rw here (leave_loop-IsFresh address p es)
  | inr other ↦ rw other ((λ e. ground arith), leave_loop-IsFresh address (p + 1) es)
]

pub leave_queue-IsFresh :
    (q : CallQueue) (address : ℕ) → IsFresh address (leave_queue q address).head
unfolding leave_queue
leave_queue-IsFresh q address = leave_loop-IsFresh address 0 q.head

-- Asked with these states, `get_member_status` answers that no member serves the caller, in a queue that
-- is to be left then; and no member does by the state that the queue has recorded.
abbrev pub NoneServes : (Text → DeviceState) → ℕ → CallQueue → QueueEnt → Type 0
NoneServes device now q qe =
    (is_set q.leavewhenempty ≡ true)
    × (get_member_status device now q qe.max_penalty qe.min_penalty q.leavewhenempty ≡ true)
    × All (λ m. serves now q qe.max_penalty qe.min_penalty q.leavewhenempty m.status m ≡ false)
        q.members

some_serves-All :
    (now : ℕ) (q : CallQueue) (max_penalty min_penalty : ℤ) (conditions : EmptyConditions)
    (read : Member → DeviceState) (ms : List Member)
    → some_serves now q max_penalty min_penalty conditions read ms ≡ false
    → All (λ m. serves now q max_penalty min_penalty conditions (read m) m ≡ false) ms
unfolding some_serves
some_serves-All now q max_penalty min_penalty conditions read [] h = tt
some_serves-All now q max_penalty min_penalty conditions read (m ∷ ms) h =
    elim (Bool-cases (serves now q max_penalty min_penalty conditions (read m) m)) [
      | inl s ↦ cc (rw s at h)
      | inr s ↦ (s, some_serves-All now q max_penalty min_penalty conditions read ms (rw s at h))
    ]

empty_NoneServes :
    (rd : Round) (now : ℕ) (q : CallQueue) (qe : QueueEnt)
    → is_empty_for rd now q qe ≡ true
    → NoneServes rd.device now q qe
unfolding get_member_status
empty_NoneServes rd now q qe h =
    let c = q.leavewhenempty in
    let cached : some_serves now q qe.max_penalty qe.min_penalty c (λ m. m.status) q.members
        ≡ false =
      ground arith in
    (
      ground arith,
      ground arith,
      some_serves-All now q qe.max_penalty qe.min_penalty c (λ m. m.status) q.members cached,
    )

-- One of the rounds has this property.
abbrev pub InRound : (Round → Type 0) → List Round → Type 0
InRound P [] = ⊥
InRound P (rd ∷ rds) = P rd ⊎ InRound P rds

-- Before the caller left the queue, in one of the rounds, no member served it.
abbrev pub Abandoned : WaitEnd → Round → Type 0
Abandoned r rd =
    (q : CallQueue) × (r.queue ≡ leave_queue q r.entry.address)
    × NoneServes rd.device r.at q r.entry

-- A wait that returns 0 says why: the turn has come, the time is over, or no member serves the caller,
-- who is then in the line no more.
abbrev pub IsExplained : List Round → WaitEnd → Type 0
IsExplained rounds r =
    r.res ≡ pos 0
    → ((r.reason ≡ none) × (is_our_turn r.at r.queue r.entry ≡ true))
      ⊎ ((r.reason ≡ some QueueResult.timeout) × (0 < r.entry.expire) × (r.entry.expire ≤ r.at))
      ⊎ ((r.reason ≡ some QueueResult.leaveempty)
          × IsFresh r.entry.address r.queue.head
          × InRound (Abandoned r) rounds)

later_IsExplained :
    (rd : Round) (rds : List Round) (r : WaitEnd) → IsExplained rds r → IsExplained (rd ∷ rds) r
later_IsExplained rd rds r h e = elim (h e) [
  | inl turn ↦ inl turn
  | inr (inl late) ↦ inr (inl late)
  | inr (inr (reason, fresh, there)) ↦ inr (inr (reason, fresh, inr there))
]

pub data WhenEnded (P : WaitEnd → Type 0) : Waits → Type 0 where
  waiting : (q : CallQueue) (qe : QueueEnt) → WhenEnded P (stays q qe)
  ended : {r : WaitEnd} → P r → WhenEnded P (ends r)

map_ended :
    {P Q : WaitEnd → Type 0} {w : Waits}
    → ((r : WaitEnd) → P r → Q r)
    → WhenEnded P w
    → WhenEnded Q w
map_ended f (waiting q qe) = waiting q qe
map_ended f (ended {r} h) = ended (f r h)

late_IsExplained :
    (rds : List Round) (now : ℕ) (q : CallQueue) (qe : QueueEnt)
    → expired now qe ≡ true
    → WhenEnded (IsExplained rds) (end_wait (pos 0) (some QueueResult.timeout) now q qe)
late_IsExplained rds now q qe late = ended (λ e. inr (inl (refl, ground arith, ground arith)))

stopped_IsExplained :
    (rds : List Round) (res : ℤ) (now : ℕ) (q : CallQueue) (qe : QueueEnt)
    → not (eqb_ℤ res (pos 0)) ≡ true
    → WhenEnded (IsExplained rds) (end_wait res none now q qe)
stopped_IsExplained rds res now q qe h =
    ended (λ e. absurd (let z : res ≡ pos 0 = e in cc (rw z at h)))

wait_rest-IsExplained :
    (rds : List Round) (rd : Round) (q : CallQueue) (qe : QueueEnt)
    → WhenEnded (IsExplained (rd ∷ rds)) (wait_rest rd q qe)
unfolding wait_rest
wait_rest-IsExplained rds rd q qe =
    let t = rd.clock in
    let p = announce_periodic rd (t 5) (t 6) q qe in
    let qe' = apply_due false (sub_ℕ (t 7) p.entry.start) p.entry in
    elim (Bool-cases (not (eqb_ℤ p.res (pos 0)))) [
      | inl h ↦ rw h (stopped_IsExplained (rd ∷ rds) p.res (t 6) q p.entry h)
      | inr h ↦ rw h (elim (Bool-cases (expired (t 8) qe')) [
        | inl late ↦ rw late (late_IsExplained (rd ∷ rds) (t 8) q qe' late)
        | inr k ↦ rw k (elim (Bool-cases (not (eqb_ℤ (exit_digit rd) (pos 0)))) [
          | inl d ↦ rw d (stopped_IsExplained (rd ∷ rds) (exit_digit rd) (t 8) q qe' d)
          | inr d ↦ rw d (elim (Bool-cases (expired (t 9) qe')) [
            | inl late ↦ rw late (late_IsExplained (rd ∷ rds) (t 9) q qe' late)
            | inr z ↦ rw z (waiting q qe')
          ])
        ])
      ])
    ]

wait_in-IsExplained :
    (rds : List Round) (rd : Round) (q : CallQueue) (qe : QueueEnt)
    → WhenEnded (IsExplained (rd ∷ rds)) (wait_in rd q qe)
unfolding wait_in
wait_in-IsExplained rds rd q qe =
    let t = rd.clock in
    let s = announce_position rd (t 3) q qe in
    elim (Bool-cases (is_our_turn (t 0) q qe)) [
      | inl turn ↦ rw turn (ended (λ e. inl (refl, turn)))
      | inr a ↦ rw a (elim (Bool-cases (expired (t 1) qe)) [
        | inl late ↦ rw late (late_IsExplained (rd ∷ rds) (t 1) q qe late)
        | inr b ↦ rw b (elim (Bool-cases (is_empty_for rd (t 2) q qe)) [
          | inl empty ↦ rw empty (
              ended λ e. inr (
                inr (
                  refl,
                  leave_queue-IsFresh q qe.address,
                  inl (q, refl, empty_NoneServes rd (t 2) q qe empty),
                )))
          | inr c ↦ rw c (elim (Bool-cases (not (eqb_ℤ s.res (pos 0)))) [
            | inl h ↦ rw h (stopped_IsExplained (rd ∷ rds) s.res (t 3) s.queue s.entry h)
            | inr h ↦ rw h (elim (Bool-cases (expired (t 4) s.entry)) [
              | inl late ↦ rw late (late_IsExplained (rd ∷ rds) (t 4) s.queue s.entry late)
              | inr k ↦ rw k (wait_rest-IsExplained rds rd s.queue s.entry)
            ])
          ])
        ])
      ])
    ]

wait_more-IsExplained :
    (rd : Round) (rds : List Round) (w : Waits) (more : CallQueue → QueueEnt → Waits)
    → WhenEnded (IsExplained (rd ∷ rds)) w
    → ((q : CallQueue) (qe : QueueEnt) → WhenEnded (IsExplained rds) (more q qe))
    → WhenEnded (IsExplained (rd ∷ rds)) (wait_more w more)
wait_more-IsExplained rd rds (stays q qe) more (waiting _ _) k =
    map_ended (later_IsExplained rd rds) (k q qe)
wait_more-IsExplained rd rds (ends r) more (ended h) k = ended h

-- Whenever the loop of `wait_our_turn` ends with the result 0, in whatever rounds, it is because the
-- caller's turn has come at the last reading of the clock, because the caller's time is over by then,
-- or because `get_member_status` answered in one of the rounds that no member serves the caller, none
-- did by the states that the queue has recorded, and the caller has left the line.
pub wait_our_turn-IsExplained :
    (rounds : List Round) (q : CallQueue) (qe : QueueEnt)
    → WhenEnded (IsExplained rounds) (wait_our_turn rounds q qe)
unfolding wait_our_turn wait_round
wait_our_turn-IsExplained [] q qe = waiting q qe
wait_our_turn-IsExplained (rd ∷ rds) q qe =
    wait_more-IsExplained rd rds (wait_round rd q qe) (wait_our_turn rds)
      (let q' = rd.others q in wait_in-IsExplained rds rd q' (refreshed q' qe))
      (wait_our_turn-IsExplained rds)
