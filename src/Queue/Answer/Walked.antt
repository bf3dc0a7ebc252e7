-- ===== src/Queue/Answer/Walked.antt =====
-- The walk over the attempts of `wait_for_answer`, through all its rounds.
use vx_pbx.Base.{
  ℕ, suc, ◌+◌, ◌≡◌, refl, sym, subst, ◌∙◌, Bool, true, not, ◌&&◌, ◌||◌, List, [], ◌∷◌, map, Option,
  none, some, inl, inr,
}
use vx_pbx.Base.Tests.{Bool-cases, Option-cases, if_keeps, if◌then◌else◌}
use vx_pbx.Base.Lists.{length, get_elem?}
use vx_pbx.Base.Int.{ℤ, pos, ltb_ℤ, eqb_ℤ}
use vx_pbx.Queue.Members.{is_ringall}
use vx_pbx.Queue.Metric.{CallAttempt}
use vx_pbx.Queue.Ring.{Queues, Ringing}
use vx_pbx.Queue.Settings.{QueueConfig}
use vx_pbx.Queue.Wait.{Round}
use vx_pbx.Queue.Answer.{
  Forwarding, stays, prevented, no_channel, cannot_dial, forwarded, Frame, answers, busy,
  congestion, hung_up, other, Poll, refuses, Waiting, Polled, ring_more, gather, chain, picked,
  call_next, read_frame, forward, is_leg, service_one, service, is_caller, finish, is_set_peer,
  poll_round, wait_for_answer, waits, returns,
}
use vx_pbx.Queue.Answer.Linked.{EndsWithin, IsForwardFrom, ends, gather-IsLinked}
use vx_pbx.Queue.Answer.Loop.{heed_caller-Ensures, Ensures, waiting, returned, poll_all-Ensures}

-- Serving a chain does not change it.
abbrev Untouched : Waiting → Waiting → Type 0
Untouched s s' = (s'.links ≡ s.links) × (s'.start ≡ s.start)

module _ (config : QueueConfig) (queues : Queues) (orig : ℤ) (p : Poll) where
  call_next-Untouched : (s : Waiting) → Untouched s (call_next config queues orig p s)
  unfolding call_next ring_more
  call_next-Untouched s =
      let start = if config.timeoutrestart then p.now else s.start_time in
      elim (Bool-cases (is_ringall s.ringing.parent.strategy)) [
        | inl all ↦ rw all (refl, refl)
        | inr one ↦ rw one (elim (Bool-cases (ltb_ℤ (pos 500) (p.left_later start orig))) [
          | inl time ↦ rw time (refl, refl)
          | inr late ↦ rw late (refl, refl)
        ])
      ]

  picked-Untouched : (s : Waiting) (i : ℕ) (m : Option ℕ) → Untouched s (picked s i m)
  picked-Untouched s i none = (refl, refl)
  picked-Untouched s i (some q) = (refl, refl)

  read_frame-Untouched :
      (i : ℕ) (o : CallAttempt) (f : Frame) (s : Waiting)
      → Untouched s (read_frame config queues orig p i o f s)
  unfolding read_frame
  read_frame-Untouched i o answers s = picked-Untouched s i s.peer
  read_frame-Untouched i o busy s = call_next-Untouched (refuses s i o config.autopausebusy)
  read_frame-Untouched i o congestion s =
      call_next-Untouched (refuses s i o config.autopauseunavail)
  read_frame-Untouched i o hung_up s = call_next-Untouched (refuses s i o true)
  read_frame-Untouched i o other s = (refl, refl)

  forward-Untouched :
      (i : ℕ) (o : CallAttempt) (f : Forwarding) (s : Waiting)
      → Untouched s (forward config queues orig p i o f s)
  unfolding forward
  forward-Untouched i o stays s = read_frame-Untouched i o p.frame s
  forward-Untouched i o prevented s = (refl, refl)
  forward-Untouched i o no_channel s = (refl, refl)
  forward-Untouched i o cannot_dial s = (refl, refl)
  forward-Untouched i o forwarded s = (refl, refl)

  service_one-Untouched :
      (i : ℕ) (o : CallAttempt) (s : Waiting) → Untouched s (service_one config queues orig p i o s)
  unfolding service_one
  service_one-Untouched i o s =
      if_keeps (Untouched s) (o.stillgoing && o.called && p.is_up i) _ _
        (picked-Untouched s i s.peer)
        (if_keeps (Untouched s) (o.called && is_leg i p.winner) _ _
          (forward-Untouched i o p.forwarding s) (refl, refl))

  service-Untouched : (is : List ℕ) (s : Waiting) → Untouched s (service config queues orig p is s)
  unfolding service
  service-Untouched [] s = (refl, refl)
  service-Untouched (i ∷ is) s = elim (Option-cases (get_elem? s.outgoing i)) [
    | inl e ↦ rw (e, service) (service-Untouched is s)
    | inr (o, e) ↦
        let one = service_one-Untouched i o s in
        let rest = service-Untouched is (service_one config queues orig p i o s) in
        rw (e, service) (rest.0 ∙ one.0, rest.1 ∙ one.1)
  ]

-- The chain of a state is walked to its end with the fuel that it is given.
abbrev pub IsWalked : Waiting → Type 0
IsWalked s = EndsWithin (suc (length s.links)) s.links s.start

abbrev Walks : Waiting → Type 0
Walks s = IsForwardFrom 0 s.links

walked : (s : Waiting) → Walks s → IsWalked s
walked s v = ends s.links s.start v

module _ (config : QueueConfig) (queues : Queues) (rd : Round) (b : Bool) (orig : ℤ) where
  poll_round-Walks :
      (p : Poll) (s : Waiting)
      → Walks s
      → Ensures Walks (λ r. Walks r.state) (poll_round config queues rd b orig p s)
  unfolding poll_round finish
  poll_round-Walks p s k =
      let E = Ensures Walks (λ r. Walks r.state) in
      let g = gather 2 p.phones queues (record s { start = none }) in
      let ahead = gather-IsLinked 2 p.phones queues (record s { start = none }) refl k in
      let is = chain (suc (length g.1.links)) g.1.links g.1.start in
      let z = service config queues orig p is g.1 in
      let served : Walks z =
        subst (IsForwardFrom 0) (sym (service-Untouched config queues orig p is g.1).0) ahead in
      if_keeps E (eqb_ℤ (p.left s.start_time orig) (pos 0) || is_set_peer s.peer) _ _ (returned k) (
        if_keeps E (not g.0) _ _ (returned ahead) (
          if_keeps E (is_caller p.winner) _ _ (heed_caller-Ensures Walks b p p.pressed z served)
            (waiting served)))

Ensures-IsWalked :
    (w : Polled) → Ensures Walks (λ r. Walks r.state) w → Ensures IsWalked (λ r. IsWalked r.state) w
Ensures-IsWalked (waits s) (waiting k) = waiting (walked s k)
Ensures-IsWalked (returns r) (returned k) = returned (walked r.state k)

IsForwardFrom-none :
    (j : ℕ) (os : List CallAttempt) → IsForwardFrom j (map (λ (a : CallAttempt). none) os)
IsForwardFrom-none j [] = tt
IsForwardFrom-none j (o ∷ os) = (λ l e. cc, IsForwardFrom-none (j + 1) os)

-- After any number of rounds, and where it has returned, the chain from `start` along `call_next` comes
-- to NULL within as many attempts as there are, so that no walk over it runs in a circle.
pub wait_for_answer-IsWalked :
    (config : QueueConfig) (queues : Queues) (rd : Round) (caller_disconnect : Bool) (orig : ℤ)
    (start_time : ℕ) (polls : List Poll) (ringing : Ringing) (outgoing : List CallAttempt)
    → Ensures IsWalked
        (λ r. IsWalked r.state)
        (wait_for_answer config queues rd caller_disconnect orig start_time polls ringing outgoing)
unfolding wait_for_answer
wait_for_answer-IsWalked config queues rd b orig start_time polls ringing outgoing =
    Ensures-IsWalked _ (
      poll_all-Ensures Walks (λ r. Walks r.state) config queues rd b orig
        (poll_round-Walks config queues rd b orig) polls _ (IsForwardFrom-none 0 outgoing))
