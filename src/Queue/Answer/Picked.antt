-- ===== src/Queue/Answer/Picked.antt =====
-- What serving the attempts of a round shows of the one who is picked.
use vx_pbx.Base.{
  ℕ, suc, ◌≡◌, ◌≢◌, ◌⊎◌, refl, sym, ap, subst, ◌∙◌, Bool, true, false, ◌&&◌, List, [], ◌∷◌, Option,
  none, some, arith, inl, inr,
}
use vx_pbx.Base.Tests.{Bool-cases, Option-cases, if◌then◌else◌}
use vx_pbx.Base.Lists.{length, get_elem?}
use vx_pbx.Base.Int.{ℤ, pos, ltb_ℤ}
use vx_pbx.Queue.Members.{is_ringall}
use vx_pbx.Queue.Metric.{CallAttempt}
use vx_pbx.Queue.Ring.{Phones, Queues}
use vx_pbx.Queue.Ring.Keeps.{Has, ring_one-Has, get_elem?-set_ne}
use vx_pbx.Queue.Settings.{QueueConfig}
use vx_pbx.Queue.Answer.{
  Winner, caller, nobody, leg, Forwarding, stays, prevented, no_channel, cannot_dial, forwarded,
  Frame, answers, busy, congestion, hung_up, other, Poll, Waiting, ring_more, hung, put, picked,
  call_next, refuses, read_frame, forward, is_leg, service_one, service,
}

-- In this round the channel of attempt `i` is found up, or sends that it is answered.
abbrev pub IsAnswer : Poll → ℕ → Type 0
IsAnswer p i =
    (p.is_up i ≡ true) ⊎ ((p.winner ≡ leg i) × (p.forwarding ≡ stays) × (p.frame ≡ answers))

abbrev pub AnyAnswer : List Poll → ℕ → Type 0
AnyAnswer [] i = ⊥
AnyAnswer (p ∷ ps) i = IsAnswer p i ⊎ AnyAnswer ps i

-- The attempt at place `i` has a channel.
abbrev pub HasChannel : Waiting → ℕ → Type 0
HasChannel s i = (a : CallAttempt) × Has i a s.outgoing

-- The one who is picked in this round: why, and what is left of its attempt.
abbrev pub Evidence : Poll → Waiting → ℕ → Type 0
Evidence p s i =
    ((p.is_up i ≡ true) × (a : CallAttempt) × Has i a s.outgoing × (a.stillgoing ≡ true))
    ⊎ ((p.winner ≡ leg i) × (p.forwarding ≡ stays) × (p.frame ≡ answers) × HasChannel s i)

abbrev pub IsPicked : Poll → Waiting → Type 0
IsPicked p s = (i : ℕ) → s.peer ≡ some i → Evidence p s i

-- The peer stays, and so do the attempts that have a channel.
abbrev Keeps : Waiting → Waiting → Type 0
Keeps s s' =
    (s'.peer ≡ s.peer)
    × ((i : ℕ) (a : CallAttempt) → Has i a s.outgoing → get_elem? s'.outgoing i ≡ some a)

Keeps-IsPicked : (p : Poll) (s s' : Waiting) → Keeps s s' → IsPicked p s → IsPicked p s'
Keeps-IsPicked p s s' k v i e = elim (v i (sym (k.0) ∙ e)) [
  | inl (up, a, h, g) ↦ inl (up, a, (k.1 i a h, h.1), g)
  | inr (w, f, r, (a, h)) ↦ inr (w, f, r, (a, (k.1 i a h, h.1)))
]

ring_more-Keeps :
    (phones : Phones) (queues : Queues) (s : Waiting) → Keeps s (ring_more phones queues s)
unfolding ring_more
ring_more-Keeps phones queues s = (
  refl,
  λ i a h. ring_one-Has (suc (length s.outgoing)) phones queues 0 s.ringing s.outgoing i a h,
)

call_next-Keeps :
    (config : QueueConfig) (queues : Queues) (orig : ℤ) (p : Poll) (s : Waiting)
    → Keeps s (call_next config queues orig p s)
unfolding call_next
call_next-Keeps config queues orig p s =
    let start = if config.timeoutrestart then p.now else s.start_time in
    elim (Bool-cases (is_ringall s.ringing.parent.strategy)) [
      | inl all ↦ rw all (refl, λ i a h. h.0)
      | inr one ↦ rw one (elim (Bool-cases (ltb_ℤ (pos 500) (p.left_later start orig))) [
        | inl time ↦ rw time (ring_more-Keeps p.phones queues (record s { start_time = start }))
        | inr late ↦ rw late (refl, λ i a h. h.0)
      ])
    ]

same_attempt :
    (ms : List CallAttempt) (i j : ℕ) (a o : CallAttempt)
    → i ≡ j
    → get_elem? ms i ≡ some a
    → get_elem? ms j ≡ some o
    → o ≡ a
same_attempt ms i j a o e h g = let same : some o ≡ some a = cc in cc

is_live_up :
    (a o : CallAttempt) (up : Bool)
    → o ≡ a
    → a.stillgoing ≡ true
    → a.called ≡ true
    → up ≡ true
    → o.stillgoing && o.called && up ≡ true
is_live_up a o up e g c u = rw (e, g, c, u) refl

-- Hanging up leaves the one who is picked alone.
put-IsPicked :
    (p : Poll) (s : Waiting) (j : ℕ) (o : CallAttempt)
    → get_elem? s.outgoing j ≡ some o
    → o.stillgoing && o.called && p.is_up j ≡ false
    → (p.forwarding ≡ stays → p.frame ≢ answers)
    → IsPicked p s
    → IsPicked p (put s j (hung o))
put-IsPicked p s j o g down silent v i e = elim (v i e) [
  | inl (up, a, h, going) ↦
      let ne : i ≢ j = (λ same. cc (
        is_live_up a o (p.is_up j) (same_attempt s.outgoing i j a o same h.0 g) going h.1
          (ap p.is_up (sym same) ∙ up))) in
      inl (up, a, (get_elem?-set_ne s.outgoing i j (hung o) ne ∙ h.0, h.1), going)
  | inr (w, f, r, (a, h)) ↦ absurd (silent f r)
]

picked-IsPicked :
    (p : Poll) (s : Waiting) (i : ℕ) (m : Option ℕ)
    → s.peer ≡ m
    → Evidence p s i
    → IsPicked p s
    → IsPicked p (picked s i m)
picked-IsPicked p s i none m ev v = λ k e. let same : i ≡ k = cc in subst (Evidence p s) same ev
picked-IsPicked p s i (some q) m ev v = v

-- A member who did not take the call.
refuses-IsPicked :
    (config : QueueConfig) (queues : Queues) (orig : ℤ) (p : Poll) (s : Waiting) (j : ℕ)
    (o : CallAttempt) (autopause : Bool)
    → get_elem? s.outgoing j ≡ some o
    → o.stillgoing && o.called && p.is_up j ≡ false
    → (p.forwarding ≡ stays → p.frame ≢ answers)
    → IsPicked p s
    → IsPicked p (call_next config queues orig p (refuses s j o autopause))
refuses-IsPicked config queues orig p s j o autopause g down silent v =
    Keeps-IsPicked p (refuses s j o autopause)
      (call_next config queues orig p (refuses s j o autopause))
      (call_next-Keeps config queues orig p (refuses s j o autopause))
      (put-IsPicked p s j o g down silent v)

module _ (config : QueueConfig) (queues : Queues) (orig : ℤ) (p : Poll) where
  read_frame-IsPicked :
      (i : ℕ) (o : CallAttempt) (f : Frame) (s : Waiting)
      → get_elem? s.outgoing i ≡ some o
      → o.called ≡ true
      → o.stillgoing && o.called && p.is_up i ≡ false
      → p.winner ≡ leg i
      → p.forwarding ≡ stays
      → p.frame ≡ f
      → IsPicked p s
      → IsPicked p (read_frame config queues orig p i o f s)
  unfolding read_frame
  read_frame-IsPicked i o answers s g c down w fw fr v =
      picked-IsPicked p s i s.peer refl (inr (w, fw, fr, (o, (g, c)))) v
  read_frame-IsPicked i o busy s g c down w fw fr v =
      refuses-IsPicked config queues orig p s i o config.autopausebusy g down (λ z y. cc) v
  read_frame-IsPicked i o congestion s g c down w fw fr v =
      refuses-IsPicked config queues orig p s i o config.autopauseunavail g down (λ z y. cc) v
  read_frame-IsPicked i o hung_up s g c down w fw fr v =
      refuses-IsPicked config queues orig p s i o true g down (λ z y. cc) v
  read_frame-IsPicked i o other s g c down w fw fr v = v

  forward-IsPicked :
      (i : ℕ) (o : CallAttempt) (f : Forwarding) (s : Waiting)
      → get_elem? s.outgoing i ≡ some o
      → o.called ≡ true
      → o.stillgoing && o.called && p.is_up i ≡ false
      → p.winner ≡ leg i
      → p.forwarding ≡ f
      → IsPicked p s
      → IsPicked p (forward config queues orig p i o f s)
  unfolding forward
  forward-IsPicked i o stays s g c down w fw v =
      read_frame-IsPicked i o p.frame s g c down w fw refl v
  forward-IsPicked i o prevented s g c down w fw v = put-IsPicked p s i o g down (λ z y. cc) v
  forward-IsPicked i o no_channel s g c down w fw v = put-IsPicked p s i o g down (λ z y. cc) v
  forward-IsPicked i o cannot_dial s g c down w fw v = put-IsPicked p s i o g down (λ z y. cc) v
  forward-IsPicked i o forwarded s g c down w fw v = v

  is_leg-eq : (i : ℕ) (w : Winner) → is_leg i w ≡ true → w ≡ leg i
  is_leg-eq i caller e = cc
  is_leg-eq i nobody e = cc
  is_leg-eq i (leg j) e = ap leg (ground arith)

  service_one-IsPicked :
      (i : ℕ) (o : CallAttempt) (s : Waiting)
      → get_elem? s.outgoing i ≡ some o
      → IsPicked p s
      → IsPicked p (service_one config queues orig p i o s)
  unfolding service_one
  service_one-IsPicked i o s g v = elim (Bool-cases (o.stillgoing && o.called && p.is_up i)) [
    | inl up ↦ rw up (
        picked-IsPicked p s i s.peer refl (inl (ground arith, o, (g, ground arith), ground arith))
          v)
    | inr down ↦ rw down (elim (Bool-cases (o.called && is_leg i p.winner)) [
      | inl w ↦ rw w (
          forward-IsPicked i o p.forwarding s g (ground arith) down
            (is_leg-eq i p.winner (ground arith)) refl v)
      | inr w ↦ rw w v
    ])
  ]

  pub service-IsPicked :
      (is : List ℕ) (s : Waiting) → IsPicked p s → IsPicked p (service config queues orig p is s)
  unfolding service
  service-IsPicked [] s v = v
  service-IsPicked (i ∷ is) s v = elim (Option-cases (get_elem? s.outgoing i)) [
    | inl e ↦ rw (e, service) (service-IsPicked is s v)
    | inr (o, e) ↦
        rw (e, service)
          (service-IsPicked is (service_one config queues orig p i o s)
            (service_one-IsPicked i o s e v))
  ]
