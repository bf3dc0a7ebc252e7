-- ===== src/Queue/Stats/Average.antt =====
-- Averages stay between the old and the new value, the division never faults on a caller who joined,
-- and a member who took a call rests in every queue.
use vx_pbx.Base.{
  ℕ, ◌+◌, ◌/◌, ◌≤◌, ◌<◌, ◌≡◌, Bool, true, false, List, [], ◌∷◌, some, arith, min, max, inl, inr,
}
use vx_pbx.Base.Lists.{All}
use vx_pbx.Queue.Types.{Text, Member, QueueEnt, CallQueue}
use vx_pbx.Queue.Members.{is_member_available}
use vx_pbx.Queue.Roster.{find_member}
use vx_pbx.Queue.Line.{
  insert_loop, enter, asked_position, leave_loop, leave_queue, Arrival, comes, goes, arrive,
  arrive_all,
}
use vx_pbx.Queue.Line.Wellformed.{join_queue_cases}
use vx_pbx.Queue.Stats.{average, recalc_holdtime, touch_member, update_one, update_queue}

average_bounds : (old new : ℕ) → (min old new ≤ average old new) × (average old new ≤ max old new)
unfolding average
average_bounds old new = omega arith

-- Everyone in the line has an original place, counted from 1.
abbrev pub HasPlace : QueueEnt → Type 0
HasPlace e = 0 < e.opos

insert_loop-HasPlace :
    (q : CallQueue) (qe : QueueEnt) (position : ℕ) (inserted : Bool) (pos : ℕ) (es : List QueueEnt)
    → All HasPlace es
    → All HasPlace (insert_loop q qe position inserted pos es)
unfolding insert_loop
insert_loop-HasPlace q qe position inserted pos [] h = ground arith
insert_loop-HasPlace q qe position inserted pos (e ∷ es) h = ground (
  arith,
  insert_loop-HasPlace q qe position true (pos + 1) es h.1,
  insert_loop-HasPlace q qe position inserted (pos + 1) es h.1,
  insert_loop-HasPlace q qe position true (pos + 1 + 1) es h.1,
)

leave_loop-HasPlace :
    (address pos : ℕ) (es : List QueueEnt)
    → All HasPlace es
    → All HasPlace (leave_loop address pos es)
unfolding leave_loop
leave_loop-HasPlace address pos [] h = tt
leave_loop-HasPlace address pos (e ∷ es) h =
    ground
      (arith, leave_loop-HasPlace address pos es h.1, leave_loop-HasPlace address (pos + 1) es h.1)

enter-HasPlace :
    (q : CallQueue) (qe : QueueEnt) (position : ℕ)
    → All HasPlace q.head
    → All HasPlace (enter q qe position).head
unfolding enter
enter-HasPlace q qe position h =
    insert_loop-HasPlace q (record qe { moh = q.moh; announce = q.announce; context = q.context })
      (asked_position qe position q.head) false 0 q.head h

arrive_all-HasPlace :
    (q : CallQueue) (history : List Arrival)
    → All HasPlace q.head
    → All HasPlace (arrive_all q history).head
unfolding arrive_all
arrive_all-HasPlace q [] h = h
arrive_all-HasPlace q (goes address ∷ rest) h =
    arrive_all-HasPlace (arrive q (goes address)) rest
      (unfold arrive leave_queue in leave_loop-HasPlace address 0 q.head h)
arrive_all-HasPlace q (comes no_member qe position ∷ rest) h =
    arrive_all-HasPlace (arrive q (comes no_member qe position)) rest (
      unfold arrive in
      elim (join_queue_cases q no_member qe position) [
        | inl same ↦ rw same h
        | inr (new, room) ↦ rw new (enter-HasPlace q qe position h)
      ])

-- The hold time is computed, and lies between the old value and the new one.
abbrev pub Averages : CallQueue → ℕ → QueueEnt → Type 0
Averages q newholdtime e =
    (r : CallQueue) × (recalc_holdtime q e newholdtime ≡ some r)
    × (min q.holdtime newholdtime ≤ r.holdtime)
    × (r.holdtime ≤ max q.holdtime newholdtime)

recalc_holdtime-Averages :
    (q : CallQueue) (newholdtime : ℕ) (e : QueueEnt) → HasPlace e → Averages q newholdtime e
unfolding recalc_holdtime
recalc_holdtime-Averages q newholdtime e h = (
  record q { holdtime = average q.holdtime newholdtime; holdsecs = newholdtime / e.opos },
  ground arith,
  (average_bounds q.holdtime newholdtime).0,
  (average_bounds q.holdtime newholdtime).1,
)

All-Averages :
    (q : CallQueue) (newholdtime : ℕ) (es : List QueueEnt)
    → All HasPlace es
    → All (Averages q newholdtime) es
All-Averages q newholdtime [] h = tt
All-Averages q newholdtime (e ∷ es) h =
    (recalc_holdtime-Averages q newholdtime e h.0, All-Averages q newholdtime es h.1)

-- After any history of an empty line, the hold time can be computed for every caller in it (the
-- division never faults), and lies between the old value and the new one.
pub recalc_holdtime-arrive_all :
    (q : CallQueue) (history : List Arrival) (newholdtime : ℕ)
    → q.head ≡ []
    → All (Averages (arrive_all q history) newholdtime) (arrive_all q history).head
recalc_holdtime-arrive_all q history newholdtime e =
    All-Averages (arrive_all q history) newholdtime (arrive_all q history).head
      (arrive_all-HasPlace q history (rw e tt))

-- The member with this interface takes no call from the queue before its wrap-up time has passed
-- since `now`.
abbrev pub Rests : ℕ → ℕ → Text → CallQueue → Type 0
Rests now t i q =
    0 < q.wrapuptime
    → t < now + q.wrapuptime
    → (mem : Member) → find_member i q.members ≡ some mem
    → is_member_available t q mem ≡ false

lastcall-touch_member :
    (now served : ℕ) (i : Text) (ms : List Member) (mem : Member)
    → find_member i (touch_member now served i ms) ≡ some mem
    → mem.lastcall ≡ now
unfolding find_member touch_member
lastcall-touch_member now served i [] mem e = cc
lastcall-touch_member now served i (m ∷ ms) mem e =
    ground (arith, lastcall-touch_member now served i ms mem)

update_one_shared :
    (now served : ℕ) (i : Text) (insl : Bool) (talk : ℕ) (q : CallQueue)
    → ((update_one true now served i insl talk q).members ≡ touch_member now served i q.members)
      × ((update_one true now served i insl talk q).wrapuptime ≡ q.wrapuptime)
unfolding update_one
update_one_shared now served i insl talk q = ground arith

in_wrapup_unavailable :
    (now t : ℕ) (q : CallQueue) (mem : Member)
    → 0 < now
    → mem.lastcall ≡ now
    → 0 < q.wrapuptime
    → t < now + q.wrapuptime
    → is_member_available t q mem ≡ false
unfolding is_member_available
in_wrapup_unavailable now t q mem p e w h = ground arith

-- With shared last calls, after a call that ends at a time above 0, the member found under the
-- interface is not available in any queue before that queue's own wrap-up time, if any, has passed.
pub update_queue-Rests :
    (now t served : ℕ) (i : Text) (insl : Bool) (talk : ℕ) (qs : List CallQueue)
    → 0 < now
    → All (Rests now t i) (update_queue true now served i insl talk qs)
unfolding update_queue
update_queue-Rests now t served i insl talk [] p = tt
update_queue-Rests now t served i insl talk (q ∷ qs) p =
    let r = update_one true now served i insl talk q in
    let (ms, w) = update_one_shared now served i insl talk q in
    (
      (λ pw h mem e.
          in_wrapup_unavailable now t r mem p
            (lastcall-touch_member now served i q.members mem (rw ms at e)) pw h),
      update_queue-Rests now t served i insl talk qs p,
    )
