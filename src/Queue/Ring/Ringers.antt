-- ===== src/Queue/Ring/Ringers.antt =====
-- Who rings when `ring_one` is done.
use vx_pbx.Base.{
  ℕ, zero, suc, ◌+◌, ◌≤◌, ◌≡◌, ◌∙◌, ◌⊎◌, inl, inr, Bool, true, false, List, [], ◌∷◌, some, arith,
}
use vx_pbx.Base.Tests.{bit, Option-cases}
use vx_pbx.Base.Lists.{All, count, set, get_elem?}
use vx_pbx.Queue.Types.{Member}
use vx_pbx.Queue.Members.{is_ringall}
use vx_pbx.Queue.Ring.Each.{end_round-outgoing, ring_one-All}
use vx_pbx.Queue.Metric.{CallAttempt, is_open, find_best}
use vx_pbx.Queue.Metric.Best.{find_best-IsLeast}
use vx_pbx.Queue.Ring.{
  Phones, Queues, Ringing, member_status_available, can_ring_entry, ring_entry, ring_best,
  ring_round, ring_one,
}

-- A member who may be called: not paused, and free by the queue's record and by the device itself
-- unless it takes calls when in use.
abbrev pub MayRing : Phones → Member → Type 0
MayRing phones m =
    (m.paused ≡ false)
    × ((m.ringinuse ≡ true)
        ⊎ ((member_status_available m.status ≡ true)
            × (member_status_available (phones.device m.state_interface) ≡ true)))

abbrev pub RingsRightly : Phones → CallAttempt → Type 0
RingsRightly phones a = a.called ≡ true → MayRing phones a.member

ring_entry-RingsRightly :
    (phones : Phones) (queues : Queues) (now : ℕ) (s : Ringing) (a : CallAttempt)
    → RingsRightly phones (ring_entry phones queues now s a).attempt
unfolding ring_entry can_ring_entry
ring_entry-RingsRightly phones queues now s a = ground arith

-- Nobody is made to ring who is paused, or who is busy and does not take a second call, by the queue's
-- record or by the device itself, where nobody of that kind rings before.
pub ring_one-RingsRightly :
    (fuel : ℕ) (phones : Phones) (queues : Queues) (t : ℕ) (s : Ringing)
    (outgoing : List CallAttempt)
    → All (RingsRightly phones) outgoing
    → All (RingsRightly phones) (ring_one fuel phones queues t s outgoing).outgoing
ring_one-RingsRightly fuel phones queues t s outgoing h =
    ring_one-All (RingsRightly phones) phones queues
      (λ now s' a _. ring_entry-RingsRightly phones queues now s' a) fuel t s outgoing h

abbrev is_called : CallAttempt → Bool
is_called a = a.called

-- How many members ring.
abbrev pub ringing_count : List CallAttempt → ℕ
ringing_count = count is_called

ringing_count-set :
    (ms : List CallAttempt) (i : ℕ) (a b : CallAttempt)
    → get_elem? ms i ≡ some a
    → is_open a ≡ true
    → ringing_count (set ms i b) ≡ bit b.called + ringing_count ms
ringing_count-set [] i a b g o = cc
ringing_count-set (m ∷ ms) zero a b g o = ground arith
ringing_count-set (m ∷ ms) (suc i) a b g o = omega (arith, ringing_count-set ms i a b g o)

ring_entry_lem :
    (phones : Phones) (queues : Queues) (now : ℕ) (s : Ringing) (a : CallAttempt)
    → ((ring_entry phones queues now s a).attempt.called ≡ (ring_entry phones queues now s a).rings)
      × ((ring_entry phones queues now s a).state.parent.strategy ≡ s.parent.strategy)
unfolding ring_entry
ring_entry_lem phones queues now s a = ground arith

ring_round_best :
    (phones : Phones) (queues : Queues) (now i : ℕ) (best : CallAttempt) (s : Ringing)
    (ms : List CallAttempt)
    → is_ringall s.parent.strategy ≡ false
    → ring_round phones queues now i best s ms ≡ ring_best phones queues now i best s ms
unfolding ring_round
ring_round_best phones queues now i best s ms h = rw h

-- What one attempt adds: one ringing member if it rings, and none otherwise.
ringing_count-ring_best :
    (phones : Phones) (queues : Queues) (now i : ℕ) (best : CallAttempt) (s : Ringing)
    (ms : List CallAttempt)
    → find_best ms ≡ some (i, best)
    → let r = ring_best phones queues now i best s ms in
      (ringing_count r.outgoing ≡ bit r.ret + ringing_count ms)
      × (r.state.parent.strategy ≡ s.parent.strategy)
unfolding ring_best
ringing_count-ring_best phones queues now i best s ms e =
    let (g, o, least) = find_best-IsLeast ms i best e in
    let tried = ring_entry phones queues now s best in
    let (same, strat) = ring_entry_lem phones queues now s best in
    (ringing_count-set ms i best tried.attempt g o ∙ rw same, strat)

-- Under every strategy but `ringall` at most one more member rings.
pub ring_one_single :
    (fuel : ℕ) (phones : Phones) (queues : Queues) (t : ℕ) (s : Ringing)
    (outgoing : List CallAttempt)
    → is_ringall s.parent.strategy ≡ false
    → ringing_count (ring_one fuel phones queues t s outgoing).outgoing ≤ ringing_count outgoing + 1
unfolding ring_one
ring_one_single zero phones queues t s ms h = omega arith
ring_one_single (suc fuel) phones queues t s ms h = elim (Option-cases (find_best ms)) [
  | inl e ↦ rw (e, ring_one) (omega arith)
  | inr ((i, best), e) ↦
      let r = ring_best phones queues (phones.clock t) i best s ms in
      let (added, strat) = ringing_count-ring_best phones queues (phones.clock t) i best s ms e in
      let later = ring_one_single fuel phones queues (t + 2) r.state r.outgoing (rw strat h) in
      rw (e, ring_one)
        (rw (ring_round_best phones queues (phones.clock t) i best s ms h) (
          end_round-outgoing (λ out. ringing_count out ≤ ringing_count ms + 1)
            (phones.clock (t + 1)) s r _ (ground (arith, added))
            (λ silent. ground (arith, added, later))))
]
