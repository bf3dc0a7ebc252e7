-- ===== src/Queue/Stats.antt =====
-- The figures of a queue: `recalc_holdtime`, `update_queue`, `record_abandoned`, `clear_queue`.
pub mod Average
use vx_pbx.Base.{ℕ, ◌+◌, ◌-◌, ◌*◌, ◌/◌, Bool, true, false, List, [], ◌∷◌, map, Option, none, some}
use vx_pbx.Base.Tests.{◌==◌, if◌then◌else◌}
use vx_pbx.Queue.Types.{Text, Member, CallQueue, QueueEnt}
use vx_pbx.Queue.Name.{same_name}

-- ((old << 2) - old + new) >> 2
unfoldable pub average : ℕ → ℕ → ℕ
average old new = (old * 4 - old + new) / 4

-- `recalc_holdtime`; `none` is the fault of a division by `opos == 0`.
unfoldable pub recalc_holdtime : CallQueue → QueueEnt → ℕ → Option CallQueue
recalc_holdtime q qe newholdtime =
    if qe.opos == 0
    then none
    else some
        (record q { holdtime = average q.holdtime newholdtime; holdsecs = newholdtime / qe.opos })

-- A member took a call that ended at `now`, in the queue at address `served`.
abbrev pub took_call : ℕ → ℕ → Member → Member
took_call now served mem = record mem {
  lastcall = now;
  calls = mem.calls + 1;
  lastqueue = some served;
}

unfoldable pub touch_member : ℕ → ℕ → Text → List Member → List Member
touch_member now served interface [] = []
touch_member now served interface (mem ∷ rest) =
    if same_name interface mem.interface
    then took_call now served mem ∷ rest
    else mem ∷ touch_member now served interface rest

abbrev pub touch_queue : ℕ → ℕ → Text → CallQueue → CallQueue
touch_queue now served interface q = record q {
  members = touch_member now served interface q.members;
}

-- The second half of `update_queue`, on the queue itself.
abbrev pub completed : Bool → ℕ → CallQueue → CallQueue
completed callcompletedinsl newtalktime q = record q {
  callscompleted = q.callscompleted + 1;
  callscompletedinsl = if callcompletedinsl then q.callscompletedinsl + 1 else q.callscompletedinsl;
  talktime = average q.talktime newtalktime;
}

-- One queue of the container: with `shared_lastcall` the member is marked in every queue, without
-- it only in the queue at address `served`.
unfoldable pub update_one : Bool → ℕ → ℕ → Text → Bool → ℕ → CallQueue → CallQueue
unfolding touch_member average
update_one shared_lastcall now served interface callcompletedinsl newtalktime q =
    let marked =
      if shared_lastcall
      then touch_queue now served interface q
      else if q.address == served
      then touch_queue now served interface q
      else q in
    if q.address == served then completed callcompletedinsl newtalktime marked else marked

unfoldable pub update_queue : Bool → ℕ → ℕ → Text → Bool → ℕ → List CallQueue → List CallQueue
update_queue shared_lastcall now served interface callcompletedinsl newtalktime =
    map (update_one shared_lastcall now served interface callcompletedinsl newtalktime)

unfoldable pub record_abandoned : CallQueue → CallQueue
record_abandoned q = record q { callsabandoned = q.callsabandoned + 1 }

abbrev pub forget_calls : Member → Member
forget_calls mem = record mem { calls = 0; lastcall = 0 }

unfoldable pub clear_queue : CallQueue → CallQueue
clear_queue q = record q {
  holdtime = 0;
  holdsecs = 0;
  callscompleted = 0;
  callsabandoned = 0;
  callscompletedinsl = 0;
  talktime = 0;
  members = map forget_calls q.members;
}
