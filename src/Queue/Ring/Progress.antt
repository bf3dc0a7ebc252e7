-- ===== src/Queue/Ring/Progress.antt =====
-- `ring_one` ends: each round leaves fewer attempts open, so as many rounds as attempts suffice.
use vx_pbx.Base.{
  ℕ, zero, suc, ◌+◌, ◌<◌, ◌≡◌, ◌≢◌, inl, inr, true, false, List, [], ◌∷◌, some, arith,
}
use vx_pbx.Base.Tests.{bit, Bool-cases, Option-cases}
use vx_pbx.Base.Lists.{count, length, set, get_elem?, count-le-length}
use vx_pbx.Base.Int.{ℤ}
use vx_pbx.Queue.Members.{is_ringall}
use vx_pbx.Queue.Metric.{CallAttempt, is_open, find_best}
use vx_pbx.Queue.Metric.Best.{find_best-IsLeast}
use vx_pbx.Queue.Ring.{
  Phones, Queues, Ringing, Ended, ring_entry, ring_all, ring_best, ring_round, ring_one,
  out_of_fuel, is_wanted, try_wanted, end_round, Rung,
}

-- An attempt that was tried is no longer open: it rings or is given up.
pub is_open-ring_entry :
    (phones : Phones) (queues : Queues) (now : ℕ) (s : Ringing) (a : CallAttempt)
    → is_open (ring_entry phones queues now s a).attempt ≡ false
unfolding ring_entry
is_open-ring_entry phones queues now s a = ground arith

count-set :
    (ms : List CallAttempt) (i : ℕ) (a b : CallAttempt)
    → get_elem? ms i ≡ some a
    → is_open a ≡ true
    → is_open b ≡ false
    → suc (count is_open (set ms i b)) ≡ count is_open ms
count-set [] i a b g oa ob = cc
count-set (m ∷ ms) zero a b g oa ob = ground arith
count-set (m ∷ ms) (suc i) a b g oa ob = omega (arith, count-set ms i a b g oa ob)

is_open-try_wanted :
    (phones : Phones) (queues : Queues) (now : ℕ) (metric : ℤ) (s : Ringing) (a : CallAttempt)
    → bit (is_open (try_wanted phones queues now metric s a).attempt) + bit (is_wanted metric a)
      ≡ bit (is_open a)
unfolding try_wanted
is_open-try_wanted phones queues now metric s a =
    ground (arith, is_open-ring_entry phones queues now s a)

module _ (phones : Phones) (queues : Queues) (now : ℕ) (metric : ℤ) where
  -- The loop for `ringall` closes each attempt that is wanted.
  count-ring_all :
      (s : Ringing) (ms : List CallAttempt)
      → count is_open (ring_all phones queues now metric s ms).outgoing
          + count (is_wanted metric) ms
        ≡ count is_open ms
  unfolding ring_all
  count-ring_all s [] = omega arith
  count-ring_all s (m ∷ ms) = omega (
    arith,
    is_open-try_wanted phones queues now metric s m,
    count-ring_all (try_wanted phones queues now metric s m).state ms,
  )

count_wanted_pos :
    (ms : List CallAttempt) (i : ℕ) (best : CallAttempt)
    → get_elem? ms i ≡ some best
    → is_open best ≡ true
    → 0 < count (is_wanted best.metric) ms
count_wanted_pos [] i best g o = cc
count_wanted_pos (m ∷ ms) zero best g o = ground arith
count_wanted_pos (m ∷ ms) (suc i) best g o = omega (arith, count_wanted_pos ms i best g o)

-- A round leaves fewer attempts open.
pub count-ring_round :
    (phones : Phones) (queues : Queues) (now i : ℕ) (best : CallAttempt) (s : Ringing)
    (ms : List CallAttempt)
    → get_elem? ms i ≡ some best
    → is_open best ≡ true
    → count is_open (ring_round phones queues now i best s ms).outgoing < count is_open ms
unfolding ring_round ring_best
count-ring_round phones queues now i best s ms g o =
    elim (Bool-cases (is_ringall s.parent.strategy)) [
      | inl all ↦ rw all (
          omega (
            arith,
            count-ring_all phones queues now best.metric s ms,
            count_wanted_pos ms i best g o,
          ))
      | inr one ↦ rw one (
          omega (
            arith,
            count-set ms i best (ring_entry phones queues now s best).attempt g o
                (is_open-ring_entry phones queues now s best),
          ))
    ]

end_round-fuel :
    (now : ℕ) (s : Ringing) (r : Rung) (more : Ended)
    → more.outcome ≢ out_of_fuel
    → (end_round now s r more).outcome ≢ out_of_fuel
unfolding end_round
end_round-fuel now s r more h = ground arith

ring_one-fuel :
    (fuel : ℕ) (phones : Phones) (queues : Queues) (t : ℕ) (s : Ringing) (ms : List CallAttempt)
    → count is_open ms < fuel
    → (ring_one fuel phones queues t s ms).outcome ≢ out_of_fuel
unfolding ring_one
ring_one-fuel zero phones queues t s ms h = absurd (omega arith)
ring_one-fuel (suc fuel) phones queues t s ms h = elim (Option-cases (find_best ms)) [
  | inl e ↦ rw (e, ring_one) (λ x. cc)
  | inr ((i, best), e) ↦
      let (g, o, least) = find_best-IsLeast ms i best e in
      let r = ring_round phones queues (phones.clock t) i best s ms in
      let fewer = count-ring_round phones queues (phones.clock t) i best s ms g o in
      let later = ring_one-fuel fuel phones queues (t + 2) r.state r.outgoing (omega arith) in
      rw (e, ring_one) (end_round-fuel (phones.clock (t + 1)) s r _ later)
]

-- `ring_one` ends within one more round than there are attempts.
pub ring_one_total :
    (phones : Phones) (queues : Queues) (t : ℕ) (s : Ringing) (outgoing : List CallAttempt)
    → (ring_one (length outgoing + 1) phones queues t s outgoing).outcome ≢ out_of_fuel
ring_one_total phones queues t s outgoing =
    ring_one-fuel (length outgoing + 1) phones queues t s outgoing
      (omega (arith, count-le-length is_open outgoing))
