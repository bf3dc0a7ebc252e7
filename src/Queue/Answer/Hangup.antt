-- ===== src/Queue/Answer/Hangup.antt =====
-- What it means that nobody is given the call.
use vx_pbx.Base.{
  ℕ, suc, ◌≡◌, ◌≢◌, ◌⊎◌, refl, ap, Bool, true, not, ◌&&◌, ◌||◌, List, [], ◌∷◌, Option, none, some,
  arith, inl, inr,
}
use vx_pbx.Base.Tests.{Bool-cases, ◌==◌}
use vx_pbx.Base.Lists.{length}
use vx_pbx.Base.Int.{ℤ, pos, negsuc, eqb_ℤ}
use vx_pbx.Queue.Metric.{CallAttempt}
use vx_pbx.Queue.Ring.{Queues, Ringing}
use vx_pbx.Queue.Settings.{QueueConfig}
use vx_pbx.Queue.Wait.{Round}
use vx_pbx.Queue.Answer.{
  Winner, caller, nobody, leg, Pressed, hangs_up, speaks, dials, Poll, Waiting, Answered, gather,
  chain, service, heed_caller, is_caller, finish, is_set_peer, poll_round, poll_all,
  wait_for_answer,
}
use vx_pbx.Queue.Answer.Loop.{Ensures, waiting, returned, poll_more-Ensures, Ensures-mono}

-- The caller hangs up in one of the rounds.
abbrev pub IsHangup : Poll → Type 0
IsHangup p = (p.winner ≡ caller) × (p.pressed ≡ hangs_up)

-- The caller dials `c` in the round, and it is a way out.
abbrev pub IsExit : ℕ → Poll → Type 0
IsExit c p = (p.winner ≡ caller) × (p.pressed ≡ dials c) × (p.exits c ≡ true)

abbrev pub Some : (Poll → Type 0) → List Poll → Type 0
Some P [] = ⊥
Some P (p ∷ ps) = P p ⊎ Some P ps

-- Nobody is given the call as the time is up, or else as the caller hung up; and a digit is a way out
-- that the caller dialed, with nobody given the call and no time left.
abbrev pub Leaves : List Poll → Answered → Type 0
Leaves ps r =
    (r.peer ≡ none → (r.to ≡ pos 0) ⊎ (r.to ≡ negsuc 0) × Some IsHangup ps)
    × (r.digit ≢ 0 → (r.peer ≡ none) × (r.to ≡ pos 0) × Some (IsExit r.digit) ps)

is_caller-eq : (w : Winner) → is_caller w ≡ true → w ≡ caller
is_caller-eq caller e = refl
is_caller-eq nobody e = cc
is_caller-eq (leg i) e = cc

Leaves-later : (p : Poll) (ps : List Poll) (r : Answered) → Leaves ps r → Leaves (p ∷ ps) r
Leaves-later p ps r (gone, dialed) = (
  λ e. elim (gone e) [ inl z ↦ inl z | inr (z, some_) ↦ inr (z, inr some_) ],
  λ e. let (z, t, some_) = dialed e in (z, t, inr some_),
)

is_zero : (to : ℤ) → eqb_ℤ to (pos 0) ≡ true → to ≡ pos 0
is_zero (pos n) e = ap pos (ground arith)
is_zero (negsuc n) e = absurd (ground arith)

-- The round at whose head the time is up, or an attempt is picked.
stopped :
    (p : Poll) (ps : List Poll) (to : ℤ) (m : Option ℕ)
    → eqb_ℤ to (pos 0) || is_set_peer m ≡ true
    → m ≡ none
    → (to ≡ pos 0) ⊎ (to ≡ negsuc 0) × Some IsHangup (p ∷ ps)
stopped p ps to none e h = inl (is_zero to (ground arith))
stopped p ps to (some i) e h = cc

heed_caller-Leaves :
    (b : Bool) (p : Poll) (ps : List Poll) (d : Pressed) (s : Waiting)
    → p.winner ≡ caller
    → p.pressed ≡ d
    → Ensures (λ _. Unit {0}) (Leaves (p ∷ ps)) (heed_caller b p d s)
unfolding heed_caller
heed_caller-Leaves b p ps hangs_up s w e =
    returned (λ h. inr (refl, inl (w, e)), λ h. absurd (h refl))
heed_caller-Leaves b p ps speaks s w e = waiting tt
heed_caller-Leaves b p ps (dials c) s w e = elim (Bool-cases (b && c == b'*')) [
  | inl ends ↦ rw ends (returned (λ h. inl refl, λ h. absurd (h refl)))
  | inr on ↦ rw on (elim (Bool-cases (p.exits c)) [
    | inl exit ↦ rw exit (returned (λ h. inl refl, λ h. (refl, refl, inl (w, e, exit))))
    | inr stay ↦ rw stay (waiting tt)
  ])
]

module _ (config : QueueConfig) (queues : Queues) (rd : Round) (b : Bool) (orig : ℤ) where
  poll_round-Leaves :
      (p : Poll) (ps : List Poll) (s : Waiting)
      → Ensures (λ _. Unit {0}) (Leaves (p ∷ ps)) (poll_round config queues rd b orig p s)
  unfolding poll_round finish
  poll_round-Leaves p ps s =
      let to = p.left s.start_time orig in
      let g = gather 2 p.phones queues (record s { start = none }) in
      let z =
        service config queues orig p (chain (suc (length g.1.links)) g.1.links g.1.start) g.1 in
      elim (Bool-cases (eqb_ℤ to (pos 0) || is_set_peer s.peer)) [
        | inl stop ↦ rw stop (returned (stopped p ps to s.peer stop, λ h. absurd (h refl)))
        | inr on ↦ rw on (elim (Bool-cases (not g.0)) [
          | inl empty ↦ rw empty (returned (λ h. inl refl, λ h. absurd (h refl)))
          | inr some_called ↦ rw some_called (elim (Bool-cases (is_caller p.winner)) [
            | inl c ↦ rw c (heed_caller-Leaves b p ps p.pressed z (is_caller-eq p.winner c) refl)
            | inr c ↦ rw c (waiting tt)
          ])
        ])
      ]

  poll_all-Leaves :
      (ps : List Poll) (s : Waiting)
      → Ensures (λ _. Unit {0}) (Leaves ps) (poll_all config queues rd b orig ps s)
  unfolding poll_all
  poll_all-Leaves [] s = waiting tt
  poll_all-Leaves (p ∷ ps) s =
      poll_more-Ensures (λ _. Unit {0}) (Leaves (p ∷ ps)) (λ _. Unit {0}) (Leaves (p ∷ ps))
        (poll_round config queues rd b orig p s) (poll_all config queues rd b orig ps)
        (poll_round-Leaves p ps s) (λ r h. h)
        (λ s' _.
          Ensures-mono (Leaves ps) (Leaves (p ∷ ps)) (poll_all config queues rd b orig ps s')
            (Leaves-later p ps) (poll_all-Leaves ps s'))

-- Where `wait_for_answer` returns nobody, `*to` is 0, or it is -1 and the caller hung up in one of the
-- rounds. Where it returns a digit, it returns nobody, `*to` is 0, and the caller dialed that digit in a
-- round in which it was a way out.
pub wait_for_answer-Leaves :
    (config : QueueConfig) (queues : Queues) (rd : Round) (caller_disconnect : Bool) (orig : ℤ)
    (start_time : ℕ) (polls : List Poll) (ringing : Ringing) (outgoing : List CallAttempt)
    → Ensures
        (λ _. Unit {0})
        (Leaves polls)
        (wait_for_answer config queues rd caller_disconnect orig start_time polls ringing outgoing)
unfolding wait_for_answer
wait_for_answer-Leaves config queues rd b orig start_time polls ringing outgoing =
    poll_all-Leaves config queues rd b orig polls _
