-- ===== src/Queue/State.antt =====
-- The state of members: `extensionstate2devicestate`, `update_status` and `handle_statechange`, with
-- `set_member_value` and its helpers, which write a member's penalty and its ringinuse.
-- State interfaces are shorter than the buffers that they are copied to. A queue's announced
-- availability (ast_devstate_changed) is part of the result; the manager's events are left out.
pub mod Announced
pub mod Penalties
use vx_pbx.Base.{
  ℕ, ◌+◌, Bool, true, false, not, ◌&&◌, ◌||◌, List, [], ◌∷◌, ◌++◌, map, Option, none, some,
}
use vx_pbx.Base.Tests.{ltb, ◌==◌, if◌then◌else◌}
use vx_pbx.Base.Int.{ℤ, pos, ltb_ℤ, pos_part}
use vx_pbx.Base.Lists.{take}
use vx_pbx.Base.Cstr.{split_at}
use vx_pbx.Queue.Types.{Text, DeviceState, Member, CallQueue}
use vx_pbx.Queue.Name.{same_name}
use vx_pbx.Queue.Members.{is_member_available}
use vx_pbx.Queue.Roster.{is_empty, is_named}

-- `AST_EXTENSION_*`; any other number counts as `removed`.
pub data ExtensionState : Type 0 where
  removed deactivated not_inuse inuse busy unavailable ringing onhold : ExtensionState

unfoldable pub extensionstate2devicestate : ExtensionState → DeviceState
extensionstate2devicestate ExtensionState.not_inuse = DeviceState.not_inuse
extensionstate2devicestate ExtensionState.inuse = DeviceState.inuse
extensionstate2devicestate ExtensionState.busy = DeviceState.busy
extensionstate2devicestate ExtensionState.ringing = DeviceState.ringing
extensionstate2devicestate ExtensionState.onhold = DeviceState.onhold
extensionstate2devicestate ExtensionState.unavailable = DeviceState.unavailable
extensionstate2devicestate removed = DeviceState.invalid
extensionstate2devicestate deactivated = DeviceState.invalid

-- "Local/", compared without case over its six characters.
abbrev local_prefix : Text
local_prefix = b'l' ∷ b'o' ∷ b'c' ∷ b'a' ∷ b'l' ∷ b'/' ∷ []

-- The text up to the second slash, where there is one.
unfoldable pub before_second_slash : Text → Text
unfolding split_at
before_second_slash s = elim (split_at b'/' s) [
  | none ↦ s
  | some (a, b) ↦ elim (split_at b'/' b) [ none ↦ s | some (c, d) ↦ a ++ b'/' ∷ c ]
]

-- The device by which a member's state is known.
unfoldable pub device_of : Text → Text
unfolding before_second_slash same_name
device_of state_interface =
    if same_name (take 6 state_interface) local_prefix
    then before_second_slash state_interface
    else state_interface

abbrev pub is_device : Text → Member → Bool
is_device dev m = same_name (device_of m.state_interface) dev

-- `update_status`
unfoldable pub update_status : DeviceState → Member → Member
update_status status m = record m { status = status }

pub record Walked : Type 0 where
  pub members : List Member
  pub found_member : Bool
  pub avail : Bool

-- The walk over the members of one queue, which ends once a member is available and the member of
-- that device is found.
unfoldable pub member_walk : ℕ → CallQueue → Text → DeviceState → Bool → Bool → List Member → Walked
unfolding device_of update_status
member_walk now q dev state found avail [] = record {
  members = [];
  found_member = found;
  avail = avail;
}
member_walk now q dev state found avail (m ∷ rest) =
    let here = not found && is_device dev m in
    let m' = if here then update_status state m else m in
    let found' = found || here in
    let avail' = avail || is_member_available now q m' in
    let more = member_walk now q dev state found' avail' rest in
    if avail' && found'
    then record { members = m' ∷ rest; found_member = found'; avail = avail' }
    else record more { members = m' ∷ more.members }

-- A queue after the change, and what is announced for it: whether a member is available, or nothing
-- where no member has that device.
unfoldable pub change_queue : ℕ → Text → DeviceState → CallQueue → CallQueue × Option Bool
unfolding member_walk
change_queue now dev state q =
    let w = member_walk now q dev state false false q.members in
    (record q { members = w.members }, if w.found_member then some w.avail else none)

unfoldable pub handle_statechange :
    ℕ → Text → DeviceState → List CallQueue → List (CallQueue × Option Bool)
handle_statechange now dev state = map (change_queue now dev state)

-- The properties of a member that `set_member_value` writes.
pub data Property : Type 0 where
  penalty ringinuse : Property

-- The value on a member that is not realtime; a realtime member is written in the database only.
unfoldable pub set_value : Property → ℕ → Member → Member
set_value penalty value m = if m.realtime then m else record m { penalty = value }
set_value ringinuse value m = if m.realtime then m else record m { ringinuse = not (value == 0) }

-- On the member that `interface_exists` finds; and whether it finds one.
unfoldable pub set_first : Text → Property → ℕ → List Member → List Member × Bool
unfolding set_value
set_first interface property value [] = ([], false)
set_first interface property value (m ∷ rest) =
    let more = set_first interface property value rest in
    if same_name interface m.interface
    then (set_value property value m ∷ rest, true)
    else (m ∷ more.0, more.1)

-- `set_member_value_help_members`
unfoldable pub set_in_queue : Text → Property → ℕ → CallQueue → CallQueue × Bool
unfolding set_first
set_in_queue interface property value q =
    let r = set_first interface property value q.members in (record q { members = r.0 }, r.1)

-- The queues after the call, with whether a queue and an interface have been found.
pub record Written : Type 0 where
  pub queues : List CallQueue
  pub foundqueue : Bool
  pub foundinterface : Bool

-- In every queue, or in the first of that name.
unfoldable pub set_in_queues : Text → Text → Property → ℕ → List CallQueue → Written
unfolding set_in_queue
set_in_queues queuename interface property value [] = record {
  queues = [];
  foundqueue = false;
  foundinterface = false;
}
set_in_queues queuename interface property value (q ∷ qs) =
    let r = set_in_queue interface property value q in
    let more = set_in_queues queuename interface property value qs in
    if is_empty queuename
    then record {
      queues = r.0 ∷ more.queues;
      foundqueue = true;
      foundinterface = r.1 || more.foundinterface;
    }
    else if is_named queuename q
    then record { queues = r.0 ∷ qs; foundqueue = true; foundinterface = r.1 }
    else record more { queues = q ∷ more.queues }

pub data ValueResult : Type 0 where
  success invalid_penalty invalid_queuename invalid_interface : ValueResult

abbrev pub rejects : Property → ℤ → Bool
rejects penalty value = ltb_ℤ value (pos 0)
rejects ringinuse value = false

-- `set_member_value`, without realtime queues and without `negative_penalty_invalid`, under which it
-- would take a negative penalty. A value for ringinuse is 0 or 1.
unfoldable pub set_member_value :
    Text → Text → Property → ℤ → List CallQueue → ValueResult × List CallQueue
unfolding set_in_queues
set_member_value queuename interface property value queues =
    let w = set_in_queues queuename interface property (pos_part value) queues in
    if rejects property value
    then (invalid_penalty, queues)
    else if w.foundinterface
    then (success, w.queues)
    else if not w.foundqueue
    then (invalid_queuename, w.queues)
    else (invalid_interface, w.queues)

-- The penalty of the member that `interface_exists` finds.
unfoldable pub penalty_in : Text → List Member → Option ℕ
penalty_in interface [] = none
penalty_in interface (m ∷ rest) =
    if same_name interface m.interface then some m.penalty else penalty_in interface rest

-- `get_member_penalty`; `none` is RESULT_FAILURE.
unfoldable pub get_member_penalty : Text → Text → List CallQueue → Option ℕ
unfolding penalty_in
get_member_penalty queuename interface [] = none
get_member_penalty queuename interface (q ∷ qs) =
    if is_named queuename q
    then penalty_in interface q.members
    else get_member_penalty queuename interface qs
