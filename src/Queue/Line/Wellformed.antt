-- ===== src/Queue/Line/Wellformed.antt =====
-- The invariant of a queue's line, and the round trip of joining and leaving.
use vx_pbx.Base.{
  ℕ, ◌+◌, ◌-◌, ◌≤◌, ◌<◌, ◌≡◌, ◌≢◌, refl, ◌∙◌, ◌⊎◌, inl, inr, Bool, true, false, List, [], ◌∷◌,
  arith,
}
use vx_pbx.Base.Lists.{length, All}
use vx_pbx.Queue.Types.{QueueEnt, CallQueue}
use vx_pbx.Queue.Line.{
  enter, after_join, join_queue, insert_loop, asked_position, leave_loop, leave_count, leave_queue,
  Arrival, comes, goes, arrive, arrive_all,
}
use vx_pbx.Queue.Line.Order.{
  IsNumberedFrom, IsOrdered, insert_loop-IsNumberedFrom, insert_loop-IsOrdered, length-insert_loop,
  leave_loop-IsNumberedFrom, leave_loop-IsOrdered, length-leave_loop,
}

pub record IsLine (q : CallQueue) : Type 0 where
  pub numbered : IsNumberedFrom 0 q.head
  pub ordered : IsOrdered q.head
  pub counted : length q.head ≡ q.count

pub enter-IsLine :
    (q : CallQueue) (qe : QueueEnt) (position : ℕ) → IsLine q → IsLine (enter q qe position)
unfolding enter
enter-IsLine q qe position v =
    let named = record qe { moh = q.moh; announce = q.announce; context = q.context } in
    let asked = asked_position qe position q.head in
    record {
      numbered = insert_loop-IsNumberedFrom q named asked false 0 q.head;
      ordered = insert_loop-IsOrdered q named asked q.head v.ordered;
      counted = length-insert_loop q named asked 0 q.head ∙ omega (arith, v.counted);
    }

-- A queue with a limit never holds more callers than that.
abbrev pub IsWithin : CallQueue → Type 0
IsWithin q = 0 < q.maxlen → q.count ≤ q.maxlen

pub leave_queue-IsLine : (q : CallQueue) (address : ℕ) → IsLine q → IsLine (leave_queue q address)
unfolding leave_queue
leave_queue-IsLine q address v = record {
  numbered = leave_loop-IsNumberedFrom address 0 q.head;
  ordered = leave_loop-IsOrdered address q.head v.ordered;
  counted =
      omega
        (arith, length-leave_loop address 0 q.count q.head (omega (arith, v.counted)), v.counted);
}

leave_count-le : (address n : ℕ) (es : List QueueEnt) → leave_count address n es ≤ n
unfolding leave_count
leave_count-le address n [] = omega arith
leave_count-le address n (e ∷ es) =
    ground (arith, leave_count-le address n es, leave_count-le address (n - 1) es)

pub join_queue_cases :
    (q : CallQueue) (no_member : Bool) (qe : QueueEnt) (position : ℕ)
    → (after_join q (join_queue q no_member qe position) ≡ q)
      ⊎ ((after_join q (join_queue q no_member qe position) ≡ enter q qe position)
          × (0 < q.maxlen → q.count < q.maxlen))
unfolding join_queue
join_queue_cases q no_member qe position = ground arith

enter-IsWithin :
    (q : CallQueue) (qe : QueueEnt) (position : ℕ)
    → (0 < q.maxlen → q.count < q.maxlen)
    → IsWithin (enter q qe position)
unfolding enter
enter-IsWithin q qe position h m = omega (arith, h m)

arrive-IsLine :
    (q : CallQueue) (a : Arrival)
    → IsLine q × IsWithin q
    → IsLine (arrive q a) × IsWithin (arrive q a)
unfolding arrive
arrive-IsLine q (comes no_member qe position) v = elim (join_queue_cases q no_member qe position) [
  | inl same ↦ rw same v
  | inr (new, room) ↦ rw new (enter-IsLine q qe position v.0, enter-IsWithin q qe position room)
]
arrive-IsLine q (goes address) v = (
  leave_queue-IsLine q address v.0,
  unfold leave_queue in λ m. omega (arith, leave_count-le address q.count q.head, v.1 m),
)

-- From a line that is numbered from 1, ordered by priority, counted and within the queue's limit,
-- whoever comes and goes, with whatever priorities and positions, it stays so.
pub arrive_all-IsLine :
    (q : CallQueue) (history : List Arrival)
    → IsLine q × IsWithin q
    → IsLine (arrive_all q history) × IsWithin (arrive_all q history)
unfolding arrive_all
arrive_all-IsLine q [] v = v
arrive_all-IsLine q (a ∷ rest) v = arrive_all-IsLine (arrive q a) rest (arrive-IsLine q a v)

-- Nobody in the line has this address.
abbrev pub IsFresh : ℕ → List QueueEnt → Type 0
IsFresh address = All λ e. e.address ≢ address

leave-insert_loop_done :
    (q : CallQueue) (qe : QueueEnt) (position pos pos' address : ℕ) (es : List QueueEnt)
    → IsFresh address es
    → IsNumberedFrom pos' es
    → leave_loop address pos' (insert_loop q qe position true pos es) ≡ es
unfolding leave_loop insert_loop
leave-insert_loop_done q qe position pos pos' address [] f n = refl
leave-insert_loop_done q qe position pos pos' address (e ∷ es) f n =
    ground (arith, leave-insert_loop_done q qe position (pos + 1) (pos' + 1) address es f.1 n.1)

leave-insert_loop :
    (q : CallQueue) (qe : QueueEnt) (position pos : ℕ) (es : List QueueEnt)
    → IsFresh qe.address es
    → IsNumberedFrom pos es
    → leave_loop qe.address pos (insert_loop q qe position false pos es) ≡ es
unfolding leave_loop insert_loop
leave-insert_loop q qe position pos [] f n = ground arith
leave-insert_loop q qe position pos (e ∷ es) f n = ground (
  arith,
  leave-insert_loop q qe position (pos + 1) es f.1 n.1,
  leave-insert_loop_done q qe position (pos + 1 + 1) (pos + 1) qe.address es f.1 n.1,
)

leave_count-insert_loop_done :
    (q : CallQueue) (qe : QueueEnt) (position pos address n : ℕ) (es : List QueueEnt)
    → IsFresh address es
    → leave_count address n (insert_loop q qe position true pos es) ≡ n
unfolding leave_count insert_loop
leave_count-insert_loop_done q qe position pos address n [] f = refl
leave_count-insert_loop_done q qe position pos address n (e ∷ es) f =
    ground (arith, leave_count-insert_loop_done q qe position (pos + 1) address n es f.1)

leave_count-insert_loop :
    (q : CallQueue) (qe : QueueEnt) (position pos n : ℕ) (es : List QueueEnt)
    → IsFresh qe.address es
    → leave_count qe.address (n + 1) (insert_loop q qe position false pos es) ≡ n
unfolding leave_count insert_loop
leave_count-insert_loop q qe position pos n [] f = ground arith
leave_count-insert_loop q qe position pos n (e ∷ es) f = ground (
  arith,
  leave_count-insert_loop q qe position (pos + 1) n es f.1,
  leave_count-insert_loop_done q qe position (pos + 1 + 1) qe.address n es f.1,
)

-- A caller with an address that nobody in a well-formed line has, who joins and leaves again, leaves
-- the queue as it was.
pub leave_queue-enter :
    (q : CallQueue) (qe : QueueEnt) (position : ℕ)
    → IsLine q
    → IsFresh qe.address q.head
    → leave_queue (enter q qe position) qe.address ≡ q
unfolding leave_queue enter
leave_queue-enter q qe position v f =
    let named = record qe { moh = q.moh; announce = q.announce; context = q.context } in
    let asked = asked_position qe position q.head in
    ground (
      arith,
      leave-insert_loop q named asked 0 q.head f v.numbered,
      leave_count-insert_loop q named asked 0 q.count q.head f,
    )
