-- ===== src/Queue/Roster.antt =====
-- The members of a queue and their round-robin positions: `member_add_to_queue`,
-- `member_remove_from_queue`, `add_to_queue`, `remove_from_queue`, `set_member_paused`.
-- The container is the list of its members in the order in which an iterator meets them; the
-- source fixes no order, and no theorem here depends on it. A member is known by its interface.
pub mod Positions
pub mod Pausing
use vx_pbx.Base.{
  ℕ, ◌+◌, ◌-◌, Bool, true, false, not, ◌&&◌, ◌||◌, List, [], ◌∷◌, ◌++◌, map, Option, none, some,
}
use vx_pbx.Base.Tests.{ltb, ◌==◌, if◌then◌else◌}
use vx_pbx.Base.Lists.{length}
use vx_pbx.Base.Int.{pos, negsuc, ltb_ℤ, ◌+ℤ◌}
use vx_pbx.Queue.Types.{Text, Member, CallQueue}
use vx_pbx.Queue.Name.{same_name}

-- `queue_member_decrement_followers`
unfoldable pub decrement_followers : ℕ → Member → Member
decrement_followers after mem =
    if ltb after mem.queuepos then record mem { queuepos = mem.queuepos - 1 } else mem

-- `queue_member_follower_removal`
unfoldable pub follower_removal : CallQueue → Member → CallQueue
unfolding decrement_followers
follower_removal q mem = record q {
  rrpos = if ltb_ℤ (pos mem.queuepos) q.rrpos then q.rrpos +ℤ negsuc 0 else q.rrpos;
  members = map (decrement_followers mem.queuepos) q.members;
}

-- `interface_exists`, and the look-up in the container, which compare interfaces alike.
unfoldable pub find_member : Text → List Member → Option Member
find_member interface [] = none
find_member interface (mem ∷ rest) =
    if same_name interface mem.interface then some mem else find_member interface rest

unfoldable pub unlink : Text → List Member → List Member
unlink interface [] = []
unlink interface (mem ∷ rest) =
    if same_name interface mem.interface then rest else mem ∷ unlink interface rest

unfoldable pub member_add_to_queue : CallQueue → Member → CallQueue
member_add_to_queue q mem = record q {
  members = q.members ++ record mem { queuepos = length q.members } ∷ [];
}

unfoldable pub member_remove_from_queue : CallQueue → Member → CallQueue
unfolding follower_removal unlink
member_remove_from_queue q mem =
    let q' = follower_removal q mem in record q' { members = unlink mem.interface q'.members }

pub data Res : Type 0 where
  okay exists nosuchqueue not_dynamic outofmemory : Res

-- `add_to_queue`, on the queue that `find_load_queue_rt_friendly` gives and the member that
-- `create_queue_member` allocates for the interface, if they do.
unfoldable pub add_to_queue : Option CallQueue → Text → Option Member → Res × Option CallQueue
unfolding member_add_to_queue
add_to_queue none interface created = (nosuchqueue, none)
add_to_queue (some q) interface created = elim (find_member interface q.members) [
  | some old ↦ (exists, some q)
  | none ↦ elim created [
    | none ↦ (outofmemory, some q)
    | some new ↦ (
      okay,
      some (member_add_to_queue q (record new { ringinuse = q.ringinuse; dynamic = true })),
    )
  ]
]

abbrev pub is_empty : Text → Bool
is_empty [] = true
is_empty (c ∷ cs) = false

-- `remove_from_queue`, on the queue of that name.
unfoldable pub remove_from_queue : Bool → Option CallQueue → Text → Res × Option CallQueue
unfolding member_remove_from_queue
remove_from_queue negative_penalty_invalid none interface = (nosuchqueue, none)
remove_from_queue negative_penalty_invalid (some q) interface =
    elim (find_member interface q.members) [
      | none ↦ (exists, some q)
      | some mem ↦
          if not (mem.realtime && not (is_empty mem.rt_uniqueid) && negative_penalty_invalid)
            && not mem.dynamic
          then (not_dynamic, some q)
          else (okay, some (member_remove_from_queue q mem))
    ]

-- `mem->paused = paused` on the first member of that interface.
unfoldable pub pause_first : Text → Bool → List Member → List Member
pause_first interface paused [] = []
pause_first interface paused (mem ∷ rest) =
    if same_name interface mem.interface
    then record mem { paused = paused } ∷ rest
    else mem ∷ pause_first interface paused rest

-- What `set_member_paused` does in one queue.
pub data Paused : Type 0 where
  changed failed : CallQueue → Paused
  missing : Paused

-- `update_fails` is `update_realtime_member_field`, asked for a realtime member only.
unfoldable pub pause_in : (CallQueue → Member → Bool) → Text → Bool → CallQueue → Paused
unfolding pause_first
pause_in update_fails interface paused q = elim (find_member interface q.members) [
  | none ↦ missing
  | some mem ↦
      if mem.realtime && update_fails q mem
      then failed q
      else changed (record q { members = pause_first interface paused q.members })
]

abbrev pub is_named : Text → CallQueue → Bool
is_named queuename q = same_name q.name queuename

-- The loop over the queues, with the number of members changed; an empty name stands for all of
-- them. Where the update of a realtime member fails it goes on to the next queue (`continue`).
unfoldable pub set_member_paused :
    (CallQueue → Member → Bool) → Text → Text → Bool → List CallQueue → List CallQueue × ℕ
set_member_paused update_fails queuename interface paused [] = ([], 0)
set_member_paused update_fails queuename interface paused (q ∷ qs) =
    let rest = set_member_paused update_fails queuename interface paused qs in
    let stop = not (is_empty queuename) && is_named queuename q in
    if is_empty queuename || is_named queuename q
    then (elim (pause_in update_fails interface paused q) [
      | changed q' ↦ if stop then (q' ∷ qs, 1) else (q' ∷ rest.0, rest.1 + 1)
      | missing ↦ if stop then (q ∷ qs, 0) else (q ∷ rest.0, rest.1)
      | failed q' ↦ (q' ∷ rest.0, rest.1)
    ])
    else (q ∷ rest.0, rest.1)
