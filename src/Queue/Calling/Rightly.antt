-- ===== src/Queue/Calling/Rightly.antt =====
-- Who is given the call by a round of calls.
use vx_pbx.Base.{
  ℕ, ap, suc, ◌∙◌, ◌≢◌, ◌≡◌, ◌⊎◌, refl, sym, subst, true, false, List, [], ◌∷◌, Option, none, some,
  inl, inr,
}
use vx_pbx.Base.Lists.{All, length, get_elem?}
use vx_pbx.Base.Tests.{if_keeps, if◌then◌else◌}
use vx_pbx.Base.Int.{ℤ, pos, pos_part, negsuc, eqb_ℤ}
use vx_pbx.Queue.Types.{Text, Member, QueueEnt, CallQueue}
use vx_pbx.Queue.Metric.{CallAttempt, calc_metric}
use vx_pbx.Queue.Ring.{Ringing, ring_one}
use vx_pbx.Queue.Ring.Each.{All-get}
use vx_pbx.Queue.Settings.{QueueConfig}
use vx_pbx.Queue.Wait.{expired}
use vx_pbx.Queue.Try.{
  is_dialed, new_attempt, note, Preparing, add_attempt, prepare_one, prepare_all, prepare,
  timeout_of,
}
use vx_pbx.Queue.Try.Prepared.{IsNew, prepare-Apart, calc_metric-interface}
use vx_pbx.Queue.Answer.{Poll, Polled, waits, returns, Answered}
use vx_pbx.Queue.Answer.Loop.{Ensures, returned}
use vx_pbx.Queue.Answer.Picked.{AnyAnswer}
use vx_pbx.Queue.Answer.Hangup.{IsHangup, IsExit, Some, Leaves, wait_for_answer-Leaves}
use vx_pbx.Queue.Answer.Picks.{Picks, wait_for_answer-Picks}
use vx_pbx.Queue.Answer.Interfaces.{OnInterfaces, ring_one-interfaces, wait_for_answer-interfaces}
use vx_pbx.Queue.Calling.{
  CallEnd, still_waiting, unanswered, answered, end_of, settle, call_members, Meets,
}

-- The interface is that of a member in the list.
abbrev pub IsMember : List Member → Text → Type 0
IsMember [] t = ⊥
IsMember (m ∷ ms) t = (t ≡ m.interface) ⊎ IsMember ms t

-- Whoever may be given the call: a member, at an interface that was not dialed before.
abbrev pub MayBeCalled : List Text → List Member → Text → Type 0
MayBeCalled dialed ms t = IsMember ms t × (is_dialed dialed t ≡ false)

module _ (P : Text → Type 0) where
  add_attempt-interfaces :
      (now draw : ℕ) (q : CallQueue) (m : Member) (qe : QueueEnt) (s : Preparing)
      (r : Option (CallQueue × QueueEnt × CallAttempt))
      → calc_metric now draw q m s.at qe (new_attempt m) ≡ r
      → P m.interface
      → OnInterfaces P s.outgoing
      → OnInterfaces P (add_attempt s r).outgoing
  add_attempt-interfaces now draw q m qe s none e k h = h
  add_attempt-interfaces now draw q m qe s (some (q', qe', tmp)) e k h =
      let same = calc_metric-interface now draw q m s.at qe (new_attempt m) q' qe' tmp e in
      (subst P (sym same.0) k, h)

  prepare_one-interfaces :
      (now : ℕ) (draw : ℕ → ℕ) (s : Preparing) (m : Member)
      → P m.interface
      → OnInterfaces P s.outgoing
      → OnInterfaces P (prepare_one now draw s m).outgoing
  unfolding prepare_one
  prepare_one-interfaces now draw s m k h =
      if_keeps (λ (z : Preparing). OnInterfaces P z.outgoing) (is_dialed s.dialed m.interface) _ _ h
        (add_attempt-interfaces now (draw s.at) s.queue m s.entry
          (record s { dialed = note m.interface s.dialed }) _ refl k h)

  prepare_all-interfaces :
      (now : ℕ) (draw : ℕ → ℕ) (s : Preparing) (ms : List Member)
      → All (λ m. P m.interface) ms
      → OnInterfaces P s.outgoing
      → OnInterfaces P (prepare_all now draw s ms).outgoing
  unfolding prepare_all
  prepare_all-interfaces now draw s [] k h = h
  prepare_all-interfaces now draw s (m ∷ ms) k h =
      prepare_all-interfaces now draw (prepare_one now draw s m) ms k.1
        (prepare_one-interfaces now draw s m k.0 h)

All-mono :
    (P Q : Member → Type 0) (ms : List Member) → ((m : Member) → P m → Q m) → All P ms → All Q ms
All-mono P Q [] f h = tt
All-mono P Q (m ∷ ms) f h = (f m h.0, All-mono P Q ms f h.1)

All-IsMember : (ms : List Member) → All (λ m. IsMember ms m.interface) ms
All-IsMember [] = tt
All-IsMember (m ∷ ms) = (
  inl refl,
  All-mono (λ x. IsMember ms x.interface) (λ x. IsMember (m ∷ ms) x.interface) ms (λ x h. inr h)
      (All-IsMember ms),
)

both :
    (dialed : List Text) (ms : List Member) (os : List CallAttempt)
    → OnInterfaces (IsMember ms) os
    → All (IsNew dialed) os
    → OnInterfaces (MayBeCalled dialed ms) os
both dialed ms [] h k = tt
both dialed ms (o ∷ os) h k = ((h.0, k.0.3), both dialed ms os h.1 k.1)

-- What the result of a round of calls tells: of one without an answer, -1 that the caller hung up, and a
-- digit that the caller dialed it as a way out; of an answer, that its attempt answered, for one who may
-- be called.
abbrev pub IsRightly : Meets → List Text → List Member → CallEnd → Type 0
IsRightly m dialed ms (unanswered r q qe) =
    (r ≡ negsuc 0 → Some IsHangup m.polls) × ((c : ℕ) → r ≡ pos c → c ≢ 0 → Some (IsExit c) m.polls)
IsRightly m dialed ms (answered i q qe s) =
    AnyAnswer m.polls i
    × (a : CallAttempt) × (get_elem? s.outgoing i ≡ some a)
    × (a.called ≡ true)
    × MayBeCalled dialed ms a.interface
IsRightly m dialed ms (still_waiting s) = Unit {0}

pos_eq : (a b : ℕ) → pos a ≡ pos b → a ≡ b
pos_eq a b e = ap pos_part e

-- The result without an answer.
result_of :
    (polls : List Poll) (to : ℤ) (digit : ℕ)
    → (to ≡ pos 0) ⊎ (to ≡ negsuc 0) × Some IsHangup polls
    → (digit ≢ 0 → Some (IsExit digit) polls)
    → (let r = if eqb_ℤ to (pos 0) then pos digit else negsuc 0 in
        (r ≡ negsuc 0 → Some IsHangup polls)
        × ((c : ℕ) → r ≡ pos c → c ≢ 0 → Some (IsExit c) polls))
result_of polls to digit (inl e) h = rw e (
  λ z. absurd (let w : pos digit ≡ negsuc 0 = z in cc),
  λ c z n.
      let same = pos_eq digit c z in
      subst (λ v. Some (IsExit v) polls) same (h (λ k. n (sym same ∙ k))),
)
result_of polls to digit (inr (e, hung)) h =
    rw e (λ _. hung, λ c z n. absurd (let w : negsuc 0 ≡ pos c = z in cc))

-- The result 0 tells nothing.
too_late :
    {A : Type 0} {B : ℕ → Type 0} → (pos 0 ≡ negsuc 0 → A) × ((c : ℕ) → pos 0 ≡ pos c → c ≢ 0 → B c)
too_late =
    (λ z. absurd (let w : pos 0 ≡ negsuc 0 = z in cc), λ c z n. absurd (n (sym (pos_eq 0 c z))))

end_of-IsRightly :
    (m : Meets) (dialed : List Text) (ms : List Member) (r : Answered) (peer : Option ℕ)
    (q : CallQueue) (qe : QueueEnt)
    → r.peer ≡ peer
    → Picks (AnyAnswer m.polls) r
    → Leaves m.polls r
    → OnInterfaces (MayBeCalled dialed ms) r.state.outgoing
    → IsRightly m dialed ms (end_of peer r.to r.digit q qe r.state)
end_of-IsRightly m dialed ms r none q qe e h l k =
    result_of m.polls r.to r.digit (l.0 e) (λ n. (l.1 n).2)
end_of-IsRightly m dialed ms r (some i) q qe e h l k =
    let (answer, (a, (at, live))) = h i e in
    (
      answer,
      a,
      at,
      live,
      All-get (λ o. MayBeCalled dialed ms o.interface) r.state.outgoing i a at k,
    )

settle-IsRightly :
    (m : Meets) (dialed : List Text) (ms : List Member) (w : Polled)
    → Ensures (λ _. Unit {0}) (Picks (AnyAnswer m.polls)) w
    → Ensures (λ _. Unit {0}) (Leaves m.polls) w
    → Ensures
        (λ s. OnInterfaces (MayBeCalled dialed ms) s.outgoing)
        (λ r. OnInterfaces (MayBeCalled dialed ms) r.state.outgoing)
        w
    → IsRightly m dialed ms (settle w)
unfolding settle
settle-IsRightly m dialed ms (waits s) h l k = tt
settle-IsRightly m dialed ms (returns r) (returned h) (returned l) (returned k) =
    end_of-IsRightly m dialed ms r r.peer _ _ refl h l k

-- Where a round of calls ends with an answer, the attempt that it names answered while the caller waited,
-- has its channel, and is for a member of the queue, at an interface that the channel had not dialed
-- before. Where it ends without one, with -1, the caller hung up while it waited; and with a result
-- above 0, the caller dialed that digit where it was a way out.
pub call_members-IsRightly :
    (config : QueueConfig) (m : Meets) (dialed : List Text) (q : CallQueue) (qe : QueueEnt)
    → IsRightly m dialed q.members (call_members config m dialed q qe)
unfolding call_members prepare
call_members-IsRightly config m dialed q qe =
    let P = MayBeCalled dialed q.members in
    let p = prepare m.now m.draw dialed q qe in
    let start : Preparing = record {
      queue = q;
      entry = qe;
      dialed = dialed;
      at = 0;
      outgoing = [];
    } in
    let to = timeout_of config.timeoutpriority config.timeout m.now p.entry in
    let ringing : Ringing = record {
      parent = p.queue;
      entry = record (p.entry) { pending = true };
      busies = 0;
    } in
    let rung = ring_one (suc (length p.outgoing)) m.phones m.queues 0 ringing p.outgoing in
    let made =
      prepare_all-interfaces (IsMember q.members) m.now m.draw start q.members
        (All-IsMember q.members) tt in
    let may = both dialed q.members p.outgoing made (prepare-Apart m.now m.draw dialed q qe).0 in
    let rings =
      ring_one-interfaces P (suc (length p.outgoing)) m.phones m.queues 0 ringing p.outgoing may in
    if_keeps (IsRightly m dialed q.members) (expired m.now qe) _ _ too_late (
      settle-IsRightly m dialed q.members _
        (wait_for_answer-Picks config m.queues m.round m.caller_disconnect to m.start_time m.polls
          rung.state rung.outgoing)
        (wait_for_answer-Leaves config m.queues m.round m.caller_disconnect to m.start_time m.polls
          rung.state rung.outgoing)
        (wait_for_answer-interfaces P config m.queues m.round m.caller_disconnect to m.start_time
          m.polls rung.state rung.outgoing rings))
