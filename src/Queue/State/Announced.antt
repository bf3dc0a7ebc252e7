-- ===== src/Queue/State/Announced.antt =====
-- What is announced for a queue when a device changes its state.
use vx_pbx.Base.{ℕ, ◌≡◌, refl, Bool, true, false, ◌||◌, List, [], ◌∷◌, none, some, arith, inl, inr}
use vx_pbx.Base.Tests.{if◌then◌else◌, Bool-cases}
use vx_pbx.Base.Lists.{any}
use vx_pbx.Queue.Types.{Text, DeviceState, Member, CallQueue}
use vx_pbx.Queue.Members.{is_member_available}
use vx_pbx.Queue.State.{Walked, is_device, update_status, member_walk, change_queue}

-- The first member of that device has the new state, and no other member is changed.
pub first_updated : Text → DeviceState → List Member → List Member
first_updated dev state [] = []
first_updated dev state (m ∷ ms) =
    if is_device dev m then update_status state m ∷ ms else m ∷ first_updated dev state ms

record Walks (now : ℕ) (q : CallQueue) (found avail : Bool) (here : Bool) (after : List Member)
    (w : Walked) : Type 0 where
  members : w.members ≡ after
  found_member : w.found_member ≡ (found || here)
  available : w.found_member ≡ true → w.avail ≡ (avail || any (is_member_available now q) after)

walk_found :
    (now : ℕ) (q : CallQueue) (dev : Text) (state : DeviceState) (avail : Bool) (ms : List Member)
    → Walks now q true avail (any (is_device dev) ms) ms (member_walk now q dev state true avail ms)
unfolding member_walk
walk_found now q dev state avail [] = record {
  members = refl;
  found_member = refl;
  available = λ _. ground arith;
}
walk_found now q dev state avail (m ∷ ms) =
    let rest = walk_found now q dev state (avail || is_member_available now q m) ms in
    record {
      members = ground (arith, rest.members);
      found_member = ground (arith, rest.found_member);
      available = λ e. ground (arith, rest.available, rest.found_member);
    }

walk_searching :
    (now : ℕ) (q : CallQueue) (dev : Text) (state : DeviceState) (avail : Bool) (ms : List Member)
    → Walks now q false avail
        (any (is_device dev) ms)
        (first_updated dev state ms)
        (member_walk now q dev state false avail ms)
unfolding member_walk first_updated
walk_searching now q dev state avail [] = record {
  members = refl;
  found_member = refl;
  available = λ e. ground arith;
}
walk_searching now q dev state avail (m ∷ ms) = elim (Bool-cases (is_device dev m)) [
  | inl here ↦ rw here (
      let rest =
        walk_found now q dev state (avail || is_member_available now q (update_status state m))
          ms in
      record {
        members = ground (arith, rest.members);
        found_member = ground (arith, rest.found_member);
        available = λ e. ground (arith, rest.available, rest.found_member);
      })
  | inr other ↦ rw other (
      let rest = walk_searching now q dev state (avail || is_member_available now q m) ms in
      record {
        members = ground (arith, rest.members);
        found_member = ground (arith, rest.found_member);
        available = λ e. ground (arith, rest.available, rest.found_member);
      })
]

-- When a device changes its state, in each queue the first member of that device, if any, gets the new
-- state and no other member changes; the queue is then announced available exactly if one of its
-- members is, counting the change, and nothing is announced for a queue without such a member.
pub change_queue-announces :
    (now : ℕ) (dev : Text) (state : DeviceState) (q : CallQueue)
    → change_queue now dev state q ≡ (
      record q { members = first_updated dev state q.members },
      (if any (is_device dev) q.members
          then some (any (is_member_available now q) (first_updated dev state q.members))
          else none),
    )
unfolding change_queue
change_queue-announces now dev state q =
    let w = walk_searching now q dev state false q.members in
    let same = w.members in
    elim (Bool-cases (any (is_device dev) q.members)) [
      | inl here ↦ ground (arith, w.members, w.found_member, w.available)
      | inr none_here ↦ ground (arith, w.members, w.found_member)
    ]
