-- ===== src/Queue/Reload.antt =====
-- The members of a queue when its configuration is read again: the member part of
-- `reload_single_queue`, with `create_queue_member`, `reload_single_member`, `mark_member_dead`,
-- `queue_delme_members_decrement_followers` and `kill_dead_members`.
-- AST_STANDARD_APP_ARGS, ast_strip, ast_true and ast_false are outside: a `member` line comes as its
-- arguments, and `Words` reads them. Interfaces are shorter than their buffers, so that
-- ast_copy_string copies all.
pub mod Compact
pub mod Members
use vx_pbx.Base.{
  ℕ, zero, suc, ◌+◌, Bool, true, false, not, ◌&&◌, ◌||◌, List, [], ◌∷◌, ◌++◌, map, Option, none,
  some,
}
use vx_pbx.Base.Tests.{ltb, ◌==◌, if◌then◌else◌}
use vx_pbx.Base.Lists.{length, get_elem?}
use vx_pbx.Base.Int.{pos_part}
use vx_pbx.Base.Cstr.{atoi}
use vx_pbx.Queue.Types.{Text, DeviceState, Member, CallQueue}
use vx_pbx.Queue.Name.{same_name}
use vx_pbx.Queue.Roster.{decrement_followers, find_member, unlink, member_add_to_queue, is_empty}

-- What the functions of Asterisk say: `strip`, `is_true` and `is_false` of a text, whether memory is
-- found for a member, and the state of its device (`get_queue_member_status`).
pub record Words : Type 0 where
  pub strip : Text → Text
  pub is_true : Text → Bool
  pub is_false : Text → Bool
  pub allocates : Text → Bool
  pub device : Text → DeviceState

pub record MemberArgs : Type 0 where
  pub interface : Text
  pub penalty : Text
  pub membername : Text
  pub state_interface : Text
  pub ringinuse : Text

abbrev pub or_else : Text → Text → Text
or_else [] other = other
or_else (c ∷ cs) other = c ∷ cs

-- The fields that the source does not set are 0. `penalty` is not negative at the calls.
unfoldable pub create_queue_member : Words → Text → Text → ℕ → Bool → Text → Bool → Option Member
create_queue_member w interface membername penalty paused state_interface ringinuse =
    let state = or_else state_interface interface in
    if not (w.allocates interface)
    then none
    else some record {
      interface = interface;
      state_interface = state;
      membername = or_else membername interface;
      penalty = penalty;
      calls = 0;
      dynamic = false;
      realtime = false;
      status = w.device state;
      paused = paused;
      queuepos = 0;
      lastcall = 0;
      lastqueue = none;
      dead = false;
      delme = false;
      rt_uniqueid = [];
      call_pending = false;
      ringinuse = ringinuse;
    }

-- A negative number counts as 0.
abbrev pub penalty_of : Words → Text → ℕ
penalty_of w t = if is_empty t then 0 else pos_part (atoi (w.strip t))

abbrev pub ringinuse_of : Words → CallQueue → Text → Bool
ringinuse_of w q t =
    if is_empty t
    then q.ringinuse
    else if w.is_true (w.strip t)
    then true
    else if w.is_false (w.strip t)
    then false
    else q.ringinuse

abbrev pub paused_of : Option Member → Bool
paused_of none = false
paused_of (some cur) = cur.paused

-- The new member is linked, with the position of the old one, before the old one is unlinked.
unfoldable pub link_member : CallQueue → Option Member → Option Member → CallQueue
unfolding member_add_to_queue unlink
link_member q cur none = q
link_member q none (some newm) = member_add_to_queue q newm
link_member q (some cur) (some newm) = record q {
  members = unlink cur.interface (q.members ++ record newm { queuepos = cur.queuepos } ∷ []);
}

-- `none` is an empty definition.
unfoldable pub reload_single_member : Words → CallQueue → Option MemberArgs → CallQueue
unfolding create_queue_member link_member
reload_single_member w q none = q
reload_single_member w q (some args) =
    let cur = find_member args.interface q.members in
    let state =
      if is_empty args.state_interface then args.interface else w.strip args.state_interface in
    let name = if is_empty args.membername then args.interface else w.strip args.membername in
    link_member q cur (
      create_queue_member w args.interface name (penalty_of w args.penalty) (paused_of cur) state
        (ringinuse_of w q args.ringinuse))

unfoldable pub mark_member_dead : Member → Member
mark_member_dead m = if not m.dynamic && not m.realtime then record m { delme = true } else m

-- One call of `queue_delme_members_decrement_followers`, for the member at place `i`.
unfoldable pub decrement_behind : ℕ → List Member → List Member
unfolding decrement_followers
decrement_behind i ms = elim (get_elem? ms i) [
  | none ↦ ms
  | some mem ↦ if mem.delme then map (decrement_followers mem.queuepos) ms else ms
]

-- The callback for `n` places from `i` on.
unfoldable pub decrement_dead : ℕ → ℕ → List Member → List Member
unfolding decrement_behind
decrement_dead zero i ms = ms
decrement_dead (suc n) i ms = decrement_dead n (i + 1) (decrement_behind i ms)

unfoldable pub kill_dead_members : Words → List Member → List Member
kill_dead_members w [] = []
kill_dead_members w (m ∷ ms) =
    let rest = kill_dead_members w ms in
    if m.delme then rest else record m { status = w.device m.state_interface } ∷ rest

unfoldable pub read_members : Words → CallQueue → List (Option MemberArgs) → CallQueue
unfolding reload_single_member
read_members w q [] = q
read_members w q (args ∷ rest) = read_members w (reload_single_member w q args) rest

-- `reload_single_queue` with QUEUE_RELOAD_MEMBER alone, for a queue that exists and was not yet found
-- in this pass; `lines` are its `member` lines.
unfoldable pub reload_members : Words → CallQueue → List (Option MemberArgs) → CallQueue
unfolding mark_member_dead read_members decrement_dead kill_dead_members
reload_members w q lines =
    let marked = record q { members = map mark_member_dead q.members } in
    let added = read_members w marked lines in
    record added {
      members = kill_dead_members w (decrement_dead (length added.members) 0 added.members);
    }
