-- ===== src/Queue/State/Penalties.antt =====
-- Writing a member's penalty and reading it back, and what a failure leaves.
use vx_pbx.Base.{
  ℕ, ◌≡◌, ◌≢◌, refl, ap, ◌∙◌, true, false, List, [], ◌∷◌, Option, none, some, arith, inl, inr,
}
use vx_pbx.Base.Tests.{if◌then◌else◌, Bool-cases}
use vx_pbx.Base.Int.{ℤ, pos, pos_part}
use vx_pbx.Queue.Types.{Text, Member, CallQueue}
use vx_pbx.Queue.Name.{same_name}
use vx_pbx.Queue.Roster.{find_member, is_empty, is_named}
use vx_pbx.Queue.State.{
  Property, penalty, set_value, set_first, set_in_queue, set_in_queues, set_member_value, success,
  penalty_in, get_member_penalty,
}

set_first_missing :
    (i : Text) (p : Property) (value : ℕ) (ms : List Member)
    → (set_first i p value ms).1 ≡ false
    → (set_first i p value ms).0 ≡ ms
unfolding set_first
set_first_missing i p value [] e = refl
set_first_missing i p value (m ∷ ms) e = ground (arith, set_first_missing i p value ms)

set_in_queues_missing :
    (name i : Text) (p : Property) (value : ℕ) (qs : List CallQueue)
    → (set_in_queues name i p value qs).foundinterface ≡ false
    → (set_in_queues name i p value qs).queues ≡ qs
unfolding set_in_queues set_in_queue
set_in_queues_missing name i p value [] e = refl
set_in_queues_missing name i p value (q ∷ qs) e =
    ground (arith, set_first_missing i p value q.members, set_in_queues_missing name i p value qs)

-- A call that fails, for whichever reason, leaves every queue as it was.
pub set_member_value_failure :
    (name i : Text) (p : Property) (value : ℤ) (qs : List CallQueue)
    → (set_member_value name i p value qs).0 ≢ success
    → (set_member_value name i p value qs).1 ≡ qs
unfolding set_member_value
set_member_value_failure name i p value qs h =
    ground (arith, set_in_queues_missing name i p (pos_part value) qs)

penalty_in-set_first :
    (i : Text) (value : ℕ) (ms : List Member) (m : Member)
    → find_member i ms ≡ some m
    → m.realtime ≡ false
    → (penalty_in i (set_first i penalty value ms).0 ≡ some value)
      × ((set_first i penalty value ms).1 ≡ true)
unfolding penalty_in set_first find_member set_value
penalty_in-set_first i value [] m e r = cc
penalty_in-set_first i value (x ∷ ms) m e r = elim (Bool-cases (same_name i x.interface)) [
  | inl s ↦
      let eq : x ≡ m = ground arith in
      let live : x.realtime ≡ false = ap (λ (y : Member). y.realtime) eq ∙ r in
      (ground arith, ground arith)
  | inr s ↦
      let later : find_member i ms ≡ some m = ground arith in
      let rest = penalty_in-set_first i value ms m later r in
      (ground (arith, rest), ground (arith, rest))
]

-- The member of that interface in the first queue of that name.
unfoldable pub member_in : Text → Text → List CallQueue → Option Member
member_in name i [] = none
member_in name i (q ∷ qs) = if is_named name q then find_member i q.members else member_in name i qs

set_in_queues_found :
    (name i : Text) (value : ℕ) (qs : List CallQueue) (m : Member)
    → is_empty name ≡ false
    → member_in name i qs ≡ some m
    → m.realtime ≡ false
    → (get_member_penalty name i (set_in_queues name i penalty value qs).queues ≡ some value)
      × ((set_in_queues name i penalty value qs).foundinterface ≡ true)
unfolding member_in get_member_penalty set_in_queues set_in_queue
set_in_queues_found name i value [] m n e r = cc
set_in_queues_found name i value (q ∷ qs) m n e r = elim (Bool-cases (is_named name q)) [
  | inl s ↦
      let here : find_member i q.members ≡ some m = ground arith in
      let w = penalty_in-set_first i value q.members m here r in
      (ground (arith, w), ground (arith, w))
  | inr s ↦
      let later : member_in name i qs ≡ some m = ground arith in
      let w = set_in_queues_found name i value qs m n later r in
      (ground (arith, w), ground (arith, w))
]

-- A penalty that is set in a named queue, for a member there that is not realtime, succeeds and is
-- what `get_member_penalty` returns afterwards.
pub get_member_penalty-set_member_value :
    (name i : Text) (value : ℕ) (qs : List CallQueue) (m : Member)
    → is_empty name ≡ false
    → member_in name i qs ≡ some m
    → m.realtime ≡ false
    → ((set_member_value name i penalty (pos value) qs).0 ≡ success)
      × (get_member_penalty name i (set_member_value name i penalty (pos value) qs).1 ≡ some value)
unfolding set_member_value
get_member_penalty-set_member_value name i value qs m n e r =
    let w = set_in_queues_found name i value qs m n e r in (ground (arith, w), ground (arith, w))
