-- ===== src/Queue/Answer/Picks.antt =====
-- Who is given the call.
use vx_pbx.Base.{
  ℕ, zero, suc, ◌≡◌, ◌⊎◌, refl, sym, ◌∙◌, Bool, false, not, ◌&&◌, ◌||◌, List, [], ◌∷◌, Option, none,
  some, arith, inl, inr,
}
use vx_pbx.Base.Tests.{Bool-cases, ◌==◌}
use vx_pbx.Base.Lists.{length}
use vx_pbx.Base.Int.{ℤ, pos, eqb_ℤ}
use vx_pbx.Queue.Members.{is_ringall}
use vx_pbx.Queue.Metric.{CallAttempt}
use vx_pbx.Queue.Ring.{Phones, Queues, Ringing}
use vx_pbx.Queue.Settings.{QueueConfig}
use vx_pbx.Queue.Wait.{Round}
use vx_pbx.Queue.Answer.{
  Pressed, hangs_up, speaks, dials, Poll, Waiting, Answered, link_attempts, linked, ring_more,
  gather, chain, service, heed_caller, is_caller, finish, is_set_peer, poll_round, poll_all,
  wait_for_answer,
}
use vx_pbx.Queue.Answer.Picked.{IsAnswer, AnyAnswer, HasChannel, Evidence, service-IsPicked}
use vx_pbx.Queue.Answer.Loop.{Ensures, waiting, returned, poll_more-Ensures, Ensures-mono}

gather-peer :
    (tries : ℕ) (phones : Phones) (queues : Queues) (s : Waiting)
    → (gather tries phones queues s).1.peer ≡ s.peer
unfolding gather ring_more
gather-peer zero phones queues s = refl
gather-peer (suc tries) phones queues s =
    let c = link_attempts s in
    let s' = linked s c in
    let stop = c.found || not c.stillgoing || not (is_ringall s.ringing.parent.strategy) in
    elim (Bool-cases stop) [
      | inl now ↦ rw now refl
      | inr later ↦ rw later (gather-peer tries phones queues (ring_more phones queues s'))
    ]

-- Whoever is picked answered in one of some rounds, and has a channel.
abbrev Knows : (ℕ → Type 0) → Waiting → Type 0
Knows Q s = (i : ℕ) → s.peer ≡ some i → Q i × HasChannel s i

-- The attempt that is returned is one that answered.
abbrev pub Picks : (ℕ → Type 0) → Answered → Type 0
Picks Q r = (i : ℕ) → r.peer ≡ some i → Q i × HasChannel r.state i

Evidence-IsAnswer :
    (p : Poll) (s : Waiting) (i : ℕ) → Evidence p s i → IsAnswer p i × HasChannel s i
Evidence-IsAnswer p s i (inl (up, a, h, g)) = (inl up, (a, h))
Evidence-IsAnswer p s i (inr (w, f, r, c)) = (inr (w, f, r), c)

heed_caller-Ensures :
    (b : Bool) (p : Poll) (d : Pressed) (s : Waiting) (Q R : ℕ → Type 0)
    → Knows Q s
    → Ensures (Knows Q) (Picks R) (heed_caller b p d s)
unfolding heed_caller
heed_caller-Ensures b p hangs_up s Q R k = returned (λ i e. cc)
heed_caller-Ensures b p speaks s Q R k = waiting k
heed_caller-Ensures b p (dials c) s Q R k = elim (Bool-cases (b && c == b'*')) [
  | inl ends ↦ rw ends (returned (λ i e. cc))
  | inr on ↦ rw on (elim (Bool-cases (p.exits c)) [
    | inl exit ↦ rw exit (returned (λ i e. cc))
    | inr stay ↦ rw stay (waiting k)
  ])
]

peer_none : (m : Option ℕ) → is_set_peer m ≡ false → m ≡ none
peer_none none e = refl
peer_none (some i) e = cc

module _ (config : QueueConfig) (queues : Queues) (rd : Round) (b : Bool) (orig : ℤ) where
  -- The round's attempts, served.
  abbrev served : Poll → Waiting → Waiting
  served p s =
      let g = (gather 2 p.phones queues (record s { start = none })).1 in
      service config queues orig p (chain (suc (length g.links)) g.links g.start) g

  served-Knows : (p : Poll) (s : Waiting) → s.peer ≡ none → Knows (IsAnswer p) (served p s)
  served-Knows p s e =
      let s' = record s { start = none } in
      let g = (gather 2 p.phones queues s').1 in
      let same = gather-peer 2 p.phones queues s' in
      λ i found. Evidence-IsAnswer p (served p s) i (
        service-IsPicked config queues orig p (chain (suc (length g.links)) g.links g.start) g
          (λ j z. absurd (let w : none ≡ some j = sym e ∙ sym same ∙ z in cc)) i found)

  poll_round-Ensures :
      (Q : ℕ → Type 0) (p : Poll) (s : Waiting)
      → Knows Q s
      → Ensures (Knows (IsAnswer p)) (Picks Q) (poll_round config queues rd b orig p s)
  unfolding poll_round finish
  poll_round-Ensures Q p s k =
      let to = p.left s.start_time orig in
      let found = (gather 2 p.phones queues (record s { start = none })).0 in
      elim (Bool-cases (eqb_ℤ to (pos 0) || is_set_peer s.peer)) [
        | inl stop ↦ rw stop (returned k)
        | inr on ↦
            let known = served-Knows p s (peer_none s.peer (ground arith)) in
            rw on (elim (Bool-cases (not found)) [
              | inl empty ↦ rw empty (returned (λ i e. cc))
              | inr some_called ↦ rw some_called (elim (Bool-cases (is_caller p.winner)) [
                | inl c ↦ rw c (heed_caller-Ensures b p p.pressed (served p s) (IsAnswer p) Q known)
                | inr c ↦ rw c (waiting known)
              ])
            ])
      ]

  poll_all-Picks :
      (Q : ℕ → Type 0) (ps : List Poll) (s : Waiting)
      → Knows Q s
      → Ensures
          (λ _. Unit {0})
          (Picks (λ i. Q i ⊎ AnyAnswer ps i))
          (poll_all config queues rd b orig ps s)
  unfolding poll_all
  poll_all-Picks Q [] s k = waiting tt
  poll_all-Picks Q (p ∷ ps) s k =
      let goal = Picks (λ i. Q i ⊎ (IsAnswer p i ⊎ AnyAnswer ps i)) in
      poll_more-Ensures (Knows (IsAnswer p)) (Picks Q) (λ _. Unit {0}) goal
        (poll_round config queues rd b orig p s) (poll_all config queues rd b orig ps)
        (poll_round-Ensures Q p s k) (λ r h i e. let (q, c) = h i e in (inl q, c))
        (λ s' k'.
          Ensures-mono (Picks (λ i. IsAnswer p i ⊎ AnyAnswer ps i)) goal
            (poll_all config queues rd b orig ps s') (λ r h i e. let (q, c) = h i e in (inr q, c))
            (poll_all-Picks (IsAnswer p) ps s' k'))

-- Where `wait_for_answer` returns an attempt, in whatever rounds, that attempt's channel was up or sent
-- an answer in one of them, and the attempt still has its channel.
pub wait_for_answer-Picks :
    (config : QueueConfig) (queues : Queues) (rd : Round) (caller_disconnect : Bool) (orig : ℤ)
    (start_time : ℕ) (polls : List Poll) (ringing : Ringing) (outgoing : List CallAttempt)
    → Ensures
        (λ _. Unit {0})
        (Picks (AnyAnswer polls))
        (wait_for_answer config queues rd caller_disconnect orig start_time polls ringing outgoing)
unfolding wait_for_answer
wait_for_answer-Picks config queues rd b orig start_time polls ringing outgoing =
    Ensures-mono (Picks (λ i. ⊥ ⊎ AnyAnswer polls i)) (Picks (AnyAnswer polls)) _
      (λ r h i e. let (q, c) = h i e in (elim q [ inl z ↦ absurd z | inr y ↦ y ], c))
      (poll_all-Picks config queues rd b orig (λ i. ⊥) polls _ (λ i e. cc))
