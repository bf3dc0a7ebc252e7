-- ===== src/Tests/Changes.antt =====
-- Members that change: read again, by their devices, and by their penalties.
use vx_pbx.Base.{◌≡◌, refl, true, false, List, [], ◌∷◌, Option, none, some, arith}
use vx_pbx.Base.Tests.{if◌then◌else◌}
use vx_pbx.Base.Int.{pos}
use vx_pbx.Base.Lists.{any}
use vx_pbx.Queue.Types.{Text, DeviceState, CallQueue}
use vx_pbx.Queue.Name.{same_name}
use vx_pbx.Queue.Members.{is_member_available}
use vx_pbx.Queue.Roster.{find_member}
use vx_pbx.Queue.Roster.Positions.{IsRoster}
use vx_pbx.Queue.Reload.{Words, MemberArgs, reload_members}
use vx_pbx.Queue.Reload.Members.{reload_members-IsRoster}
use vx_pbx.Queue.State.{
  is_device, change_queue, penalty, success, set_member_value, get_member_penalty,
}
use vx_pbx.Queue.State.Announced.{first_updated, change_queue-announces}
use vx_pbx.Queue.State.Penalties.{member_in, get_member_penalty-set_member_value}
use vx_pbx.Tests.Data.{member, queue}

abbrev static_queue : CallQueue
static_queue = record queue {
  members = record (member b'a' 0) { dynamic = false } ∷ member b'b' 1 ∷ [];
}

abbrev words : Words
words = record {
  strip = λ t. t;
  is_true = λ _. false;
  is_false = λ _. false;
  allocates = λ _. true;
  device = λ _. DeviceState.not_inuse;
}

-- A line for a new member, and an empty one; the static member "a" has none.
abbrev lines : List (Option MemberArgs)
lines =
    some record {
      interface = b'd' ∷ [];
      penalty = b'3' ∷ [];
      membername = [];
      state_interface = [];
      ringinuse = [];
    }
    ∷ none
    ∷ []

static_queue-IsRoster : IsRoster static_queue.members
static_queue-IsRoster =
    ((omega arith, (omega arith, tt)), (((λ e. omega (arith, e)), tt), (tt, tt)))

reload_members-IsRoster_example : IsRoster (reload_members words static_queue lines).members
reload_members-IsRoster_example =
    reload_members-IsRoster words static_queue lines static_queue-IsRoster

abbrev name_b : Text
name_b = b'b' ∷ []

change_queue-announces_example : change_queue 100 name_b DeviceState.inuse queue ≡ (
  record queue { members = first_updated name_b DeviceState.inuse queue.members },
  (if any (is_device name_b) queue.members
      then some (
          any
            (is_member_available 100 queue)
            (first_updated name_b DeviceState.inuse queue.members))
      else none),
)
change_queue-announces_example = change_queue-announces 100 name_b DeviceState.inuse queue

abbrev both : List CallQueue
both = queue ∷ static_queue ∷ []

found : member_in (b's' ∷ []) name_b both ≡ some (member b'b' 1)
unfolding member_in find_member same_name
found = refl

get_member_penalty-set_member_value_example :
    ((set_member_value (b's' ∷ []) name_b penalty (pos 4) both).0 ≡ success)
    × (get_member_penalty
          (b's' ∷ [])
          name_b
          (set_member_value (b's' ∷ []) name_b penalty (pos 4) both).1
        ≡ some 4)
get_member_penalty-set_member_value_example =
    get_member_penalty-set_member_value (b's' ∷ []) name_b 4 both (member b'b' 1) refl found refl
