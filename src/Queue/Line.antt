-- ===== src/Queue/Line.antt =====
-- The line of callers of a queue: `insert_entry`, `join_queue` and `leave_queue`.
-- The linked list from `head` is the list of its entries. The result of `get_member_status` at the
-- moment of joining is an argument here (Queue/Members computes it).
pub mod Order
pub mod Place
pub mod Wellformed
pub mod Tickets
pub mod Arrivals
use vx_pbx.Base.{
  ℕ, zero, suc, ◌+◌, Bool, true, false, not, ◌&&◌, ◌||◌, List, [], ◌∷◌, Option, none, some, ◌-◌,
}
use vx_pbx.Base.Tests.{ltb, leb, ◌==◌, if◌then◌else◌}
use vx_pbx.Base.Int.{ltb_ℤ, leb_ℤ}
use vx_pbx.Queue.Types.{QueueEnt, CallQueue, EmptyConditions, QueueResult}

-- The scan of lines 3052-3061: the last place of a caller whose last position said is at most
-- `position`, among those who were told one.
abbrev pub later_place : ℕ → ℕ → QueueEnt → ℕ
later_place position pos1 cur =
    if not (cur.last_pos_said == 0) && leb cur.last_pos_said position && ltb pos1 cur.position
    then cur.position
    else pos1

unfoldable pub last_place_said : ℕ → ℕ → List QueueEnt → ℕ
last_place_said position pos1 [] = pos1
last_place_said position pos1 (cur ∷ rest) =
    last_place_said position (later_place position pos1 cur) rest

-- The position that a caller asks for, once those who were told an earlier one are counted in.
unfoldable pub asked_position : QueueEnt → ℕ → List QueueEnt → ℕ
unfolding last_place_said
asked_position qe position entries =
    let pos1 = last_place_said position 0 entries in
    if ltb 0 qe.last_pos_said && (not (pos1 == 0) && leb position pos1) then pos1 + 1 else position

-- `insert_entry`, on the entry itself; `pos` is the place that it gets.
unfoldable pub placed : CallQueue → QueueEnt → ℕ → QueueEnt
placed q new pos = record new {
  parent = some q.address;
  position = pos;
  opos = pos;
  ppos = 0;
  periodicannouncelimit = q.periodicannouncelimit;
}

-- Whether the caller goes in before `cur`: a higher priority, or the place asked for is reached.
unfoldable pub goes_before : QueueEnt → ℕ → Bool → ℕ → QueueEnt → Bool
goes_before qe position inserted pos cur =
    (not inserted && ltb_ℤ cur.prio qe.prio)
    || (not inserted && leb_ℤ cur.prio qe.prio && (not (position == 0) && leb position (pos + 1)))

-- The loop over the line; `pos` counts the entries passed.
unfoldable pub insert_loop : CallQueue → QueueEnt → ℕ → Bool → ℕ → List QueueEnt → List QueueEnt
unfolding placed goes_before
insert_loop q qe position inserted pos [] = if inserted then [] else placed q qe (pos + 1) ∷ []
insert_loop q qe position inserted pos (cur ∷ rest) =
    let here = goes_before qe position inserted pos cur in
    let pos' = if here then pos + 1 else pos in
    let tail =
      record cur { position = pos' + 1 }
      ∷ insert_loop q qe position (inserted || here) (pos' + 1) rest in
    if here then placed q qe (pos + 1) ∷ tail else tail

abbrev pub is_set : EmptyConditions → Bool
is_set c =
    c.penalty || c.paused || c.inuse || c.ringing || c.unavailable || c.invalid || c.unknown
    || c.wrapup

-- `join_queue` on a queue that is found. `no_member` is what `get_member_status` answers for the
-- `joinempty` conditions. The result is the queue with the caller in its line, or the reason why not.
pub data Joined : Type 0 where
  joined : CallQueue → Joined
  refused : QueueResult → Joined

-- The queue once the caller is in.
unfoldable pub enter : CallQueue → QueueEnt → ℕ → CallQueue
unfolding insert_loop asked_position
enter q qe position =
    let named = record qe { moh = q.moh; announce = q.announce; context = q.context } in
    record q {
      head = insert_loop q named (asked_position qe position q.head) false 0 q.head;
      count = q.count + 1;
    }

unfoldable pub join_queue : CallQueue → Bool → QueueEnt → ℕ → Joined
join_queue q no_member qe position =
    if is_set q.joinempty && no_member
    then refused QueueResult.joinempty
    else if not (q.maxlen == 0) && leb q.maxlen q.count
    then refused QueueResult.full
    else joined (enter q qe position)

-- The loop of `leave_queue`: the entry is taken out, and the others are numbered anew.
unfoldable pub leave_loop : ℕ → ℕ → List QueueEnt → List QueueEnt
leave_loop address pos [] = []
leave_loop address pos (current ∷ rest) =
    let found = current.address == address in
    let pos' = if found then pos else pos + 1 in
    let tail = leave_loop address pos' rest in
    if found then tail else record current { position = pos + 1 } ∷ tail

-- How often the loop meets the entry, each time lowering `count`.
unfoldable pub leave_count : ℕ → ℕ → List QueueEnt → ℕ
leave_count address n [] = n
leave_count address n (current ∷ rest) =
    leave_count address (if current.address == address then n - 1 else n) rest

unfoldable pub leave_queue : CallQueue → ℕ → CallQueue
unfolding leave_loop leave_count
leave_queue q address = record q {
  head = leave_loop address 0 q.head;
  count = leave_count address q.count q.head;
}

-- What happens to a line: callers come with what `get_member_status` says to them, and go.
pub data Arrival : Type 0 where
  comes : Bool → QueueEnt → ℕ → Arrival
  goes : ℕ → Arrival

abbrev pub after_join : CallQueue → Joined → CallQueue
after_join q (joined r) = r
after_join q (refused _) = q

unfoldable pub arrive : CallQueue → Arrival → CallQueue
arrive q (comes no_member qe position) = after_join q (join_queue q no_member qe position)
arrive q (goes address) = leave_queue q address

unfoldable pub arrive_all : CallQueue → List Arrival → CallQueue
arrive_all q [] = q
arrive_all q (a ∷ rest) = arrive_all (arrive q a) rest
