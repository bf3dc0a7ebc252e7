-- ===== src/Queue/Members.antt =====
-- Which members of a queue can take a call: `is_member_available`, `num_available_members`,
-- `compare_weight` and `get_member_status`.
-- The clock is the argument `now`. Times and the wrap-up time are not negative, so
-- `time(NULL) - wrapuptime < lastcall` is `now < lastcall + wrapuptime`.
pub mod Count
use vx_pbx.Base.{ℕ, ◌+◌, Bool, true, false, not, ◌&&◌, ◌||◌, List, [], ◌∷◌, map, Option, none, some}
use vx_pbx.Base.Tests.{ltb, leb, ◌==◌, if◌then◌else◌, bit}
use vx_pbx.Base.Lists.{length}
use vx_pbx.Base.Int.{ℤ, pos, ltb_ℤ, eqb_ℤ, int_max}
use vx_pbx.Queue.Types.{
  Text, Strategy, DeviceState, EmptyConditions, Member, QueueEnt, CallQueue, ringall,
}
use vx_pbx.Queue.Name.{same_name}

-- Whether a device state lets a member ring, by the switch of `is_member_available`.
unfoldable pub state_available : DeviceState → Bool → Bool
state_available DeviceState.invalid ringinuse = false
state_available DeviceState.unavailable ringinuse = false
state_available DeviceState.not_inuse ringinuse = true
state_available DeviceState.unknown ringinuse = true
state_available _ ringinuse = ringinuse

abbrev pub in_wrapup : ℕ → CallQueue → Member → Bool
in_wrapup now q mem =
    not (mem.lastcall == 0) && not (q.wrapuptime == 0) && ltb now (mem.lastcall + q.wrapuptime)

unfoldable pub is_member_available : ℕ → CallQueue → Member → Bool
unfolding state_available
is_member_available now q mem =
    let available = state_available mem.status mem.ringinuse && not mem.paused in
    if in_wrapup now q mem then false else available

unfoldable pub is_ringall : Strategy → Bool
is_ringall ringall = true
is_ringall _ = false

-- The loop of `num_available_members`, which may stop at the first available member.
unfoldable pub available_loop : ℕ → CallQueue → ℕ → List Member → ℕ
available_loop now q avl [] = avl
available_loop now q avl (mem ∷ rest) =
    let avl' = avl + bit (is_member_available now q mem) in
    let more = available_loop now q avl' rest in
    if (not q.autofill || is_ringall q.strategy) && not (avl' == 0) then avl' else more

unfoldable pub num_available_members : ℕ → CallQueue → ℕ
unfolding available_loop
num_available_members now q = available_loop now q 0 q.members

unfoldable pub has_member : Text → List Member → Bool
has_member interface [] = false
has_member interface (mem ∷ rest) =
    if same_name interface mem.interface then true else has_member interface rest

-- Another queue with callers, a higher weight and no more members free than callers wants `member`.
abbrev pub is_preferred : ℕ → CallQueue → Member → CallQueue → Bool
is_preferred now rq member q =
    not (q.address == rq.address)
    && not (q.count == 0)
    && has_member member.interface q.members
    && ltb_ℤ rq.weight q.weight
    && leb (num_available_members now q) q.count

unfoldable pub compare_weight : ℕ → List CallQueue → CallQueue → Member → Bool
compare_weight now [] rq member = false
compare_weight now (q ∷ rest) rq member =
    if is_preferred now rq member q then true else compare_weight now rest rq member

-- The cases of the switch of `get_member_status` that end in `break`.
unfoldable pub excluded_by_state : EmptyConditions → DeviceState → Bool
excluded_by_state conditions DeviceState.invalid = conditions.invalid
excluded_by_state conditions DeviceState.unavailable = conditions.unavailable
excluded_by_state conditions DeviceState.inuse = conditions.inuse
excluded_by_state conditions DeviceState.ringing = conditions.ringing
excluded_by_state conditions DeviceState.unknown = conditions.unknown
excluded_by_state conditions _ = false

abbrev pub outside_penalty : ℤ → ℤ → ℕ → Bool
outside_penalty max_penalty min_penalty penalty =
    (not (eqb_ℤ max_penalty int_max) && ltb_ℤ max_penalty (pos penalty))
    || (not (eqb_ℤ min_penalty int_max) && ltb_ℤ (pos penalty) min_penalty)

-- Whether the loop of `get_member_status` returns 0 at this member, whose state is `status`.
unfoldable pub serves : ℕ → CallQueue → ℤ → ℤ → EmptyConditions → DeviceState → Member → Bool
unfolding excluded_by_state
serves now q max_penalty min_penalty conditions status member =
    if outside_penalty max_penalty min_penalty member.penalty && conditions.penalty
    then false
    else if excluded_by_state conditions status
    then false
    else if member.paused && conditions.paused
    then false
    else not (conditions.wrapup && in_wrapup now q member)

-- One pass over the members; `read` is where a member's state is read.
unfoldable pub some_serves :
    ℕ → CallQueue → ℤ → ℤ → EmptyConditions → (Member → DeviceState) → List Member → Bool
some_serves now q max_penalty min_penalty conditions read [] = false
some_serves now q max_penalty min_penalty conditions read (m ∷ rest) =
    if serves now q max_penalty min_penalty conditions (read m) m
    then true
    else some_serves now q max_penalty min_penalty conditions read rest

-- True stands for the result -1, "no member". `device` is `ast_device_state`, which is asked again
-- where ringing members do not count.
unfoldable pub get_member_status :
    (Text → DeviceState) → ℕ → CallQueue → ℤ → ℤ → EmptyConditions → Bool
get_member_status device now q max_penalty min_penalty conditions =
    let cached = some_serves now q max_penalty min_penalty conditions (λ m. m.status) q.members in
    let asked =
      some_serves now q max_penalty min_penalty conditions (λ m. device m.state_interface)
        q.members in
    if cached then false else if conditions.ringing then not asked else true
