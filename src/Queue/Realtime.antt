-- ===== src/Queue/Realtime.antt =====
-- Members of a realtime database: `rt_handle_member_record` and `update_realtime_members`.
-- A record of the database comes with its columns, of which `none` is one that is not there. A member is
-- taken out by its place in the container, as ao2_unlink does it by its address. Texts are shorter than
-- their buffers; the log is left out. `negative_penalty_invalid` is an argument.
pub mod Sweep
pub mod Steps
pub mod Present
pub mod Synced
use vx_pbx.Base.{
  ℕ, zero, suc, ◌+◌, Bool, true, false, not, ◌&&◌, ◌||◌, List, [], ◌∷◌, map, Option, none, some,
}
use vx_pbx.Base.Tests.{if◌then◌else◌}
use vx_pbx.Base.Lists.{length, get_elem?}
use vx_pbx.Base.Int.{ℤ, pos, pos_part, ltb_ℤ}
use vx_pbx.Base.Cstr.{atoi}
use vx_pbx.Queue.Types.{Text, Member, CallQueue}
use vx_pbx.Queue.Name.{same_name}
use vx_pbx.Queue.Roster.{follower_removal, member_add_to_queue, is_empty}
use vx_pbx.Queue.Reload.{Words, create_queue_member, or_else}

pub record RtRecord : Type 0 where
  pub interface : Text
  pub uniqueid : Option Text
  pub membername : Option Text
  pub state_interface : Option Text
  pub penalty : Option Text
  pub paused : Option Text
  pub ringinuse : Option Text

-- NULL counts as an empty text.
abbrev pub text_of : Option Text → Text
text_of none = []
text_of (some t) = t

-- `none` where the record is passed over.
unfoldable pub rt_penalty : Bool → Option Text → Option ℕ
rt_penalty negative_penalty_invalid none = some 0
rt_penalty negative_penalty_invalid (some t) =
    if ltb_ℤ (atoi t) (pos 0) && negative_penalty_invalid then none else some (pos_part (atoi t))

abbrev pub rt_paused : Option Text → Bool
rt_paused none = false
rt_paused (some t) = ltb_ℤ (pos 0) (atoi t)

abbrev pub rt_ringinuse : Words → Bool → Option Text → Bool
rt_ringinuse w default none = default
rt_ringinuse w default (some t) =
    if w.is_true t then true else if w.is_false t then false else default

-- What is written to a member of that id.
abbrev pub rt_update : Words → Bool → ℕ → RtRecord → Member → Member
rt_update w default penalty r m =
    let state = or_else (text_of r.state_interface) r.interface in
    record m {
      dead = false;
      rt_uniqueid = text_of r.uniqueid;
      paused = elim r.paused [ none ↦ m.paused | some t ↦ rt_paused (some t) ];
      state_interface = if same_name state m.state_interface then m.state_interface else state;
      penalty = penalty;
      ringinuse = rt_ringinuse w default r.ringinuse;
    }

-- The search for the first member of that id.
unfoldable pub rt_find : Words → Bool → ℕ → RtRecord → List Member → Option (List Member)
rt_find w default penalty r [] = none
rt_find w default penalty r (m ∷ ms) =
    let rest = rt_find w default penalty r ms in
    if same_name m.rt_uniqueid (text_of r.uniqueid)
    then some (rt_update w default penalty r m ∷ ms)
    else (elim rest [ none ↦ none | some ms' ↦ some (m ∷ ms') ])

unfoldable pub rt_created : Words → Bool → ℕ → RtRecord → Option Member
unfolding create_queue_member
rt_created w default penalty r =
    create_queue_member w r.interface (or_else (text_of r.membername) r.interface) penalty
      (rt_paused r.paused) (or_else (text_of r.state_interface) r.interface)
      (rt_ringinuse w default r.ringinuse)

abbrev pub rt_add : CallQueue → RtRecord → Option Member → CallQueue
rt_add q r none = q
rt_add q r (some m) =
    member_add_to_queue q
      (record m { dead = false; realtime = true; rt_uniqueid = text_of r.uniqueid })

abbrev pub rt_found : Words → CallQueue → ℕ → RtRecord → Option (List Member) → CallQueue
rt_found w q penalty r (some ms) = record q { members = ms }
rt_found w q penalty r none = rt_add q r (rt_created w q.ringinuse penalty r)

-- Behind the checks of the id and the penalty.
abbrev pub rt_write : Words → CallQueue → RtRecord → Option ℕ → CallQueue
rt_write w q r none = q
rt_write w q r (some penalty) = rt_found w q penalty r (rt_find w q.ringinuse penalty r q.members)

unfoldable pub rt_handle_member_record : Words → Bool → CallQueue → RtRecord → CallQueue
unfolding rt_penalty rt_find rt_created member_add_to_queue
rt_handle_member_record w negative_penalty_invalid q r =
    if is_empty (text_of r.uniqueid)
    then q
    else rt_write w q r (rt_penalty negative_penalty_invalid r.penalty)

abbrev pub erase : ℕ → List Member → List Member
erase i [] = []
erase zero (m ∷ ms) = ms
erase (suc i) (m ∷ ms) = m ∷ erase i ms

-- `member_remove_from_queue` for the member at place `i`.
unfoldable pub remove_at : ℕ → Member → CallQueue → CallQueue
unfolding follower_removal
remove_at i m q = let q' = follower_removal q m in record q' { members = erase i q'.members }

-- The loop that takes out the members that pass a test; the fuel is their number.
unfoldable pub sweep : (Member → Bool) → ℕ → ℕ → CallQueue → CallQueue
unfolding remove_at
sweep p zero i q = q
sweep p (suc n) i q = elim (get_elem? q.members i) [
  | none ↦ q
  | some m ↦ elim (p m) [ true ↦ sweep p n i (remove_at i m q) | false ↦ sweep p n (i + 1) q ]
]

unfoldable pub mark_dead : Member → Member
mark_dead m = if m.realtime then record m { dead = true } else m

unfoldable pub rt_handle_all : Words → Bool → CallQueue → List RtRecord → CallQueue
unfolding rt_handle_member_record
rt_handle_all w negative_penalty_invalid q [] = q
rt_handle_all w negative_penalty_invalid q (r ∷ rs) =
    rt_handle_all w negative_penalty_invalid
      (rt_handle_member_record w negative_penalty_invalid q r) rs

-- `none` is a database without members for the queue.
unfoldable pub update_realtime_members :
    Words → Bool → CallQueue → Option (List RtRecord) → CallQueue
unfolding sweep mark_dead rt_handle_all
update_realtime_members w negative_penalty_invalid q none =
    sweep (λ m. m.realtime) (length q.members) 0 q
update_realtime_members w negative_penalty_invalid q (some rs) =
    let marked = record q { members = map mark_dead q.members } in
    let handled = rt_handle_all w negative_penalty_invalid marked rs in
    sweep (λ m. m.dead) (length handled.members) 0 handled
