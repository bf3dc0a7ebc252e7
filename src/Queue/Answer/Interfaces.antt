-- ===== src/Queue/Answer/Interfaces.antt =====
-- The interfaces of the attempts while `wait_for_answer` goes on.
use vx_pbx.Base.{
  ℕ, zero, suc, ◌≡◌, sym, subst, Bool, true, not, ◌&&◌, ◌||◌, List, [], ◌∷◌, Option, none, some,
  arith, inl, inr,
}
use vx_pbx.Base.Tests.{Bool-cases, Option-cases, if_keeps, if◌then◌else◌}
use vx_pbx.Base.Lists.{All, length, get_elem?}
use vx_pbx.Base.Int.{ℤ, pos, ltb_ℤ, eqb_ℤ}
use vx_pbx.Queue.Types.{Text}
use vx_pbx.Queue.Members.{is_ringall}
use vx_pbx.Queue.Metric.{CallAttempt}
use vx_pbx.Queue.Ring.{Phones, Queues, Ringing, ring_entry, can_ring_entry, ring_one}
use vx_pbx.Queue.Ring.Each.{ring_one-All, All-get, All-set}
use vx_pbx.Queue.Settings.{QueueConfig}
use vx_pbx.Queue.Wait.{Round}
use vx_pbx.Queue.Answer.{
  Forwarding, stays, prevented, no_channel, cannot_dial, forwarded, Frame, answers, busy,
  congestion, hung_up, other, Poll, Waiting, link_attempts, linked, ring_more, gather, chain, hung,
  put, picked, call_next, refuses, read_frame, forward, is_leg, service_one, service, is_caller,
  finish, is_set_peer, poll_round, wait_for_answer,
}
use vx_pbx.Queue.Answer.Loop.{heed_caller-Ensures, Ensures, waiting, returned, poll_all-Ensures}

-- What holds of the interface of every attempt.
abbrev pub OnInterfaces : (Text → Type 0) → List CallAttempt → Type 0
OnInterfaces P os = All (λ a. P a.interface) os

ring_entry-interface :
    (phones : Phones) (queues : Queues) (now : ℕ) (s : Ringing) (a : CallAttempt)
    → (ring_entry phones queues now s a).attempt.interface ≡ a.interface
unfolding ring_entry can_ring_entry
ring_entry-interface phones queues now s a = ground arith

module _ (P : Text → Type 0) where
  pub ring_one-interfaces :
      (fuel : ℕ) (phones : Phones) (queues : Queues) (t : ℕ) (s : Ringing) (os : List CallAttempt)
      → OnInterfaces P os
      → OnInterfaces P (ring_one fuel phones queues t s os).outgoing
  ring_one-interfaces fuel phones queues t s os h =
      ring_one-All (λ a. P a.interface) phones queues
        (λ now s' a h'. subst P (sym (ring_entry-interface phones queues now s' a)) h') fuel t s os
        h

  abbrev Known : Waiting → Type 0
  Known s = OnInterfaces P s.outgoing

  ring_more-Known :
      (phones : Phones) (queues : Queues) (s : Waiting)
      → Known s
      → Known (ring_more phones queues s)
  unfolding ring_more
  ring_more-Known phones queues s h =
      ring_one-interfaces (suc (length s.outgoing)) phones queues 0 s.ringing s.outgoing h

  gather-Known :
      (tries : ℕ) (phones : Phones) (queues : Queues) (s : Waiting)
      → Known s
      → Known (gather tries phones queues s).1
  unfolding gather
  gather-Known zero phones queues s h = h
  gather-Known (suc tries) phones queues s h =
      let c = link_attempts s in
      let s' = linked s c in
      let stop = c.found || not c.stillgoing || not (is_ringall s.ringing.parent.strategy) in
      elim (Bool-cases stop) [
        | inl now ↦ rw now h
        | inr later ↦ rw later (
            gather-Known tries phones queues (ring_more phones queues s')
              (ring_more-Known phones queues s' h))
      ]

  module _ (config : QueueConfig) (queues : Queues) (orig : ℤ) (p : Poll) where
    call_next-Known : (s : Waiting) → Known s → Known (call_next config queues orig p s)
    unfolding call_next
    call_next-Known s h =
        let start = if config.timeoutrestart then p.now else s.start_time in
        let s' = record s { start_time = start } in
        if_keeps Known (is_ringall s.ringing.parent.strategy) _ _ h (
          if_keeps Known (ltb_ℤ (pos 500) (p.left_later start orig)) _ _
            (ring_more-Known p.phones queues s' h) h)

    put-Known :
        (s : Waiting) (i : ℕ) (o : CallAttempt) → P o.interface → Known s → Known (put s i (hung o))
    put-Known s i o k h = All-set (λ a. P a.interface) s.outgoing i (hung o) h k

    picked-Known : (s : Waiting) (i : ℕ) (m : Option ℕ) → Known s → Known (picked s i m)
    picked-Known s i none h = h
    picked-Known s i (some q) h = h

    read_frame-Known :
        (i : ℕ) (o : CallAttempt) (f : Frame) (s : Waiting)
        → P o.interface
        → Known s
        → Known (read_frame config queues orig p i o f s)
    unfolding read_frame
    read_frame-Known i o answers s k h = picked-Known s i s.peer h
    read_frame-Known i o busy s k h =
        call_next-Known (refuses s i o config.autopausebusy) (put-Known s i o k h)
    read_frame-Known i o congestion s k h =
        call_next-Known (refuses s i o config.autopauseunavail) (put-Known s i o k h)
    read_frame-Known i o hung_up s k h = call_next-Known (refuses s i o true) (put-Known s i o k h)
    read_frame-Known i o other s k h = h

    forward-Known :
        (i : ℕ) (o : CallAttempt) (f : Forwarding) (s : Waiting)
        → P o.interface
        → Known s
        → Known (forward config queues orig p i o f s)
    unfolding forward
    forward-Known i o stays s k h = read_frame-Known i o p.frame s k h
    forward-Known i o prevented s k h = put-Known s i o k h
    forward-Known i o no_channel s k h = put-Known s i o k h
    forward-Known i o cannot_dial s k h = put-Known s i o k h
    forward-Known i o forwarded s k h = h

    service_one-Known :
        (i : ℕ) (o : CallAttempt) (s : Waiting)
        → P o.interface
        → Known s
        → Known (service_one config queues orig p i o s)
    unfolding service_one
    service_one-Known i o s k h =
        if_keeps Known (o.stillgoing && o.called && p.is_up i) _ _ (picked-Known s i s.peer h) (
          if_keeps Known (o.called && is_leg i p.winner) _ _ (forward-Known i o p.forwarding s k h)
            h)

    service-Known :
        (is : List ℕ) (s : Waiting) → Known s → Known (service config queues orig p is s)
    unfolding service
    service-Known [] s h = h
    service-Known (i ∷ is) s h = elim (Option-cases (get_elem? s.outgoing i)) [
      | inl e ↦ rw (e, service) (service-Known is s h)
      | inr (o, e) ↦
          let k = All-get (λ a. P a.interface) s.outgoing i o e h in
          rw (e, service)
            (service-Known is (service_one config queues orig p i o s)
              (service_one-Known i o s k h))
    ]

  module _ (config : QueueConfig) (queues : Queues) (rd : Round) (b : Bool) (orig : ℤ) where
    poll_round-Known :
        (p : Poll) (s : Waiting)
        → Known s
        → Ensures Known (λ r. Known r.state) (poll_round config queues rd b orig p s)
    unfolding poll_round finish
    poll_round-Known p s k =
        let E = Ensures Known (λ r. Known r.state) in
        let g = gather 2 p.phones queues (record s { start = none }) in
        let ahead = gather-Known 2 p.phones queues (record s { start = none }) k in
        let is = chain (suc (length g.1.links)) g.1.links g.1.start in
        let served = service-Known config queues orig p is g.1 ahead in
        if_keeps E (eqb_ℤ (p.left s.start_time orig) (pos 0) || is_set_peer s.peer) _ _ (returned k)
          (if_keeps E (not g.0) _ _ (returned ahead) (
            if_keeps E (is_caller p.winner) _ _
              (heed_caller-Ensures Known b p p.pressed (service config queues orig p is g.1) served)
              (waiting served)))

    pub wait_for_answer-interfaces :
        (start_time : ℕ) (polls : List Poll) (ringing : Ringing) (outgoing : List CallAttempt)
        → OnInterfaces P outgoing
        → Ensures Known
            (λ r. Known r.state)
            (wait_for_answer config queues rd b orig start_time polls ringing outgoing)
    unfolding wait_for_answer
    wait_for_answer-interfaces start_time polls ringing outgoing h =
        poll_all-Ensures Known (λ r. Known r.state) config queues rd b orig poll_round-Known polls _
          h
