-- ===== src/Queue/Ring/Keeps.antt =====
-- An attempt that has a channel is left alone by `ring_one`.
use vx_pbx.Base.{ℕ, zero, suc, ◌+◌, ◌≡◌, ◌≢◌, refl, ap, true, List, [], ◌∷◌, some, arith, inl, inr}
use vx_pbx.Base.Tests.{Bool-cases, Option-cases}
use vx_pbx.Base.Lists.{set, get_elem?}
use vx_pbx.Base.Int.{ℤ}
use vx_pbx.Queue.Members.{is_ringall}
use vx_pbx.Queue.Metric.{CallAttempt, is_open, find_best}
use vx_pbx.Queue.Metric.Best.{find_best-IsLeast}
use vx_pbx.Queue.Ring.{
  Phones, Queues, Ringing, ring_all, ring_best, ring_round, ring_one, try_wanted,
}
use vx_pbx.Queue.Ring.Each.{end_round-outgoing}

-- The attempt at place `i` has a channel.
abbrev pub Has : ℕ → CallAttempt → List CallAttempt → Type 0
Has i a ms = (get_elem? ms i ≡ some a) × (a.called ≡ true)

pub get_elem?-set_ne :
    (ms : List CallAttempt) (i j : ℕ) (b : CallAttempt)
    → i ≢ j
    → get_elem? (set ms j b) i ≡ get_elem? ms i
get_elem?-set_ne [] i j b n = refl
get_elem?-set_ne (m ∷ ms) zero zero b n = absurd (n refl)
get_elem?-set_ne (m ∷ ms) zero (suc j) b n = refl
get_elem?-set_ne (m ∷ ms) (suc i) zero b n = refl
get_elem?-set_ne (m ∷ ms) (suc i) (suc j) b n = get_elem?-set_ne ms i j b (λ e. n (ap suc e))

ring_all-Has :
    (phones : Phones) (queues : Queues) (now : ℕ) (metric : ℤ) (s : Ringing) (ms : List CallAttempt)
    (i : ℕ) (a : CallAttempt)
    → Has i a ms
    → get_elem? (ring_all phones queues now metric s ms).outgoing i ≡ some a
unfolding ring_all
ring_all-Has phones queues now metric s [] i a h = h.0
ring_all-Has phones queues now metric s (m ∷ ms) zero a h = unfold try_wanted in ground arith
ring_all-Has phones queues now metric s (m ∷ ms) (suc i) a h =
    ring_all-Has phones queues now metric (try_wanted phones queues now metric s m).state ms i a h

open_ne :
    (ms : List CallAttempt) (i j : ℕ) (a b : CallAttempt)
    → Has i a ms
    → get_elem? ms j ≡ some b
    → is_open b ≡ true
    → i ≢ j
open_ne ms i j a b h g o e = let same : some a ≡ some b = cc in ground arith

ring_round-Has :
    (phones : Phones) (queues : Queues) (now j : ℕ) (best : CallAttempt) (s : Ringing)
    (ms : List CallAttempt) (i : ℕ) (a : CallAttempt)
    → find_best ms ≡ some (j, best)
    → Has i a ms
    → get_elem? (ring_round phones queues now j best s ms).outgoing i ≡ some a
unfolding ring_round ring_best
ring_round-Has phones queues now j best s ms i a e h =
    let (g, o, least) = find_best-IsLeast ms j best e in
    elim (Bool-cases (is_ringall s.parent.strategy)) [
      | inl all ↦ rw all (ring_all-Has phones queues now best.metric s ms i a h)
      | inr one ↦ rw one (rw (get_elem?-set_ne ms i j _ (open_ne ms i j a best h g o)) h.0)
    ]

pub ring_one-Has :
    (fuel : ℕ) (phones : Phones) (queues : Queues) (t : ℕ) (s : Ringing) (ms : List CallAttempt)
    (i : ℕ) (a : CallAttempt)
    → Has i a ms
    → get_elem? (ring_one fuel phones queues t s ms).outgoing i ≡ some a
unfolding ring_one
ring_one-Has zero phones queues t s ms i a h = h.0
ring_one-Has (suc fuel) phones queues t s ms i a h = elim (Option-cases (find_best ms)) [
  | inl e ↦ rw (e, ring_one) (h.0)
  | inr ((j, best), e) ↦
      let r = ring_round phones queues (phones.clock t) j best s ms in
      let kept = ring_round-Has phones queues (phones.clock t) j best s ms i a e h in
      let later = ring_one-Has fuel phones queues (t + 2) r.state r.outgoing i a (kept, h.1) in
      rw (e, ring_one)
        (end_round-outgoing (λ out. get_elem? out i ≡ some a) (phones.clock (t + 1)) s r _ kept
          (λ _. later))
]
