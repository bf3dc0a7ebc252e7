-- ===== src/Queue/Ring/Each.antt =====
-- What each attempt keeps through `ring_one`.
use vx_pbx.Base.{ℕ, zero, suc, ◌+◌, ◌≡◌, inl, inr, false, not, ◌&&◌, List, [], ◌∷◌, some, subst}
use vx_pbx.Base.Tests.{Bool-cases, Option-cases, if_keeps, ◌==◌, leb}
use vx_pbx.Base.Lists.{All, set, get_elem?}
use vx_pbx.Base.Int.{ℤ}
use vx_pbx.Queue.Members.{is_ringall}
use vx_pbx.Queue.Metric.{CallAttempt, find_best}
use vx_pbx.Queue.Metric.Best.{find_best-IsLeast}
use vx_pbx.Queue.Ring.{
  Phones, Queues, Ringing, ring_entry, try_wanted, is_wanted, ring_all, ring_best, ring_round,
  ring_one, Ended, Rung, end_round, rang, timed_out,
}

pub All-set {ℓ} :
    (P : CallAttempt → Type ℓ) (ms : List CallAttempt) (i : ℕ) (a : CallAttempt)
    → All P ms
    → P a
    → All P (set ms i a)
All-set P [] i a h k = tt
All-set P (m ∷ ms) zero a h k = (k, h.1)
All-set P (m ∷ ms) (suc i) a h k = (h.0, All-set P ms i a h.1 k)

pub All-get {ℓ} :
    (P : CallAttempt → Type ℓ) (ms : List CallAttempt) (i : ℕ) (a : CallAttempt)
    → get_elem? ms i ≡ some a
    → All P ms
    → P a
All-get P [] i a e h = cc
All-get P (m ∷ ms) zero a e h = let same : m ≡ a = cc in subst P same h.0
All-get P (m ∷ ms) (suc i) a e h = All-get P ms i a e h.1

pub end_round-outgoing {ℓ} :
    (P : List CallAttempt → Type ℓ) (now : ℕ) (s : Ringing) (r : Rung) (more : Ended)
    → P r.outgoing
    → (r.ret ≡ false → P more.outgoing)
    → P (end_round now s r more).outgoing
unfolding end_round
end_round-outgoing P now s r more h k = elim (Bool-cases r.ret) [
  | inl rings ↦ rw rings (
      if_keeps (λ (e : Ended). P e.outgoing) (not (s.entry.expire == 0) && leb s.entry.expire now)
        (record { outcome = timed_out; outgoing = r.outgoing; state = r.state })
        (record { outcome = rang; outgoing = r.outgoing; state = r.state }) h h)
  | inr silent ↦ rw silent (
      if_keeps (λ (e : Ended). P e.outgoing) (not (s.entry.expire == 0) && leb s.entry.expire now)
        (record { outcome = timed_out; outgoing = r.outgoing; state = r.state }) more h (k silent))
]

-- What `ring_entry` keeps of an attempt holds of all attempts behind `ring_one`.
module _ (P : CallAttempt → Type 0) (phones : Phones) (queues : Queues)
    (keep : (now : ℕ) (s : Ringing) (a : CallAttempt)
      → P a
      → P (ring_entry phones queues now s a).attempt) where
  try_wanted-All :
      (now : ℕ) (metric : ℤ) (s : Ringing) (a : CallAttempt)
      → P a
      → P (try_wanted phones queues now metric s a).attempt
  unfolding try_wanted
  try_wanted-All now metric s a h = elim (Bool-cases (is_wanted metric a)) [
    | inl wanted ↦ rw wanted (keep now s a h)
    | inr left ↦ rw left h
  ]

  ring_all-All :
      (now : ℕ) (metric : ℤ) (s : Ringing) (ms : List CallAttempt)
      → All P ms
      → All P (ring_all phones queues now metric s ms).outgoing
  unfolding ring_all
  ring_all-All now metric s [] h = tt
  ring_all-All now metric s (m ∷ ms) h = (
    try_wanted-All now metric s m h.0,
    ring_all-All now metric (try_wanted phones queues now metric s m).state ms h.1,
  )

  ring_round-All :
      (now i : ℕ) (s : Ringing) (ms : List CallAttempt) (best : CallAttempt)
      → P best
      → All P ms
      → All P (ring_round phones queues now i best s ms).outgoing
  unfolding ring_round ring_best
  ring_round-All now i s ms best b h = elim (Bool-cases (is_ringall s.parent.strategy)) [
    | inl all ↦ rw all (ring_all-All now best.metric s ms h)
    | inr one ↦
        rw one (All-set P ms i (ring_entry phones queues now s best).attempt h (keep now s best b))
  ]

  pub ring_one-All :
      (fuel t : ℕ) (s : Ringing) (ms : List CallAttempt)
      → All P ms
      → All P (ring_one fuel phones queues t s ms).outgoing
  unfolding ring_one
  ring_one-All zero t s ms h = h
  ring_one-All (suc fuel) t s ms h = elim (Option-cases (find_best ms)) [
    | inl e ↦ rw (e, ring_one) h
    | inr ((i, best), e) ↦
        let r = ring_round phones queues (phones.clock t) i best s ms in
        let found = find_best-IsLeast ms i best e in
        let kept = ring_round-All (phones.clock t) i s ms best (All-get P ms i best found.0 h) h in
        let later = ring_one-All fuel (t + 2) r.state r.outgoing kept in
        rw (e, ring_one) (end_round-outgoing (All P) (phones.clock (t + 1)) s r _ kept (λ _. later))
  ]
