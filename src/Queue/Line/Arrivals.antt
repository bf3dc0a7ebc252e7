-- ===== src/Queue/Line/Arrivals.antt =====
-- The line against what it promises: the callers who came and did not leave, in the order in which
-- they came, sorted by priority.
use vx_pbx.Base.{
  ℕ, ◌+◌, ◌≡◌, refl, sym, ap, subst, ◌∙◌, Bool, true, false, not, ◌&&◌, List, [], ◌∷◌, ◌++◌, map,
  arith, inl, inr,
}
use vx_pbx.Base.Tests.{if◌then◌else◌, leb, ◌==◌, Bool-cases}
use vx_pbx.Base.Lists.{length, length-map, All}
use vx_pbx.Queue.Types.{QueueEnt, CallQueue}
use vx_pbx.Queue.Line.{
  is_set, insert_loop, enter, join_queue, leave_loop, leave_queue, asked_position, Arrival, comes,
  goes, arrive, arrive_all,
}
use vx_pbx.Queue.Line.Tickets.{
  Ticket, by_priority, insert_ticket, length-sort_onto, sort_onto-append, ticket, without,
  without-sort_onto,
}
use vx_pbx.Queue.Line.Wellformed.{IsLine, enter-IsLine, leave_queue-IsLine}

-- What a queue turns callers away by: whether it asks for members, and its limit, 0 for none.
pub record Limits : Type 0 where
  pub wants_members : Bool
  pub maxlen : ℕ

abbrev pub limits : CallQueue → Limits
limits q = record { wants_members = is_set q.joinempty; maxlen = q.maxlen }

-- A caller comes last, unless no member serves it or the line is full.
unfoldable pub promised : Limits → List Ticket → Arrival → List Ticket
promised l ts (comes no_member qe position) =
    if l.wants_members && no_member
    then ts
    else if not (l.maxlen == 0) && leb l.maxlen (length ts)
    then ts
    else ts ++ ticket qe ∷ []
promised l ts (goes a) = without a ts

unfoldable pub promised_all : Limits → List Ticket → List Arrival → List Ticket
promised_all l ts [] = ts
promised_all l ts (a ∷ rest) = promised_all l (promised l ts a) rest

-- A caller who asks for no place.
abbrev pub AsksNothing : Arrival → Type 0
AsksNothing (comes no_member qe position) = (position ≡ 0) × (qe.last_pos_said ≡ 0)
AsksNothing (goes a) = Unit {0}

-- The loops of the source, on what the specification sees.
insert_loop_done-ticket :
    (q : CallQueue) (qe : QueueEnt) (pos : ℕ) (es : List QueueEnt)
    → map ticket (insert_loop q qe 0 true pos es) ≡ map ticket es
unfolding insert_loop
insert_loop_done-ticket q qe pos [] = refl
insert_loop_done-ticket q qe pos (e ∷ es) =
    ap (λ v. ticket e ∷ v) (insert_loop_done-ticket q qe (pos + 1) es)

insert_loop-ticket :
    (q : CallQueue) (qe : QueueEnt) (pos : ℕ) (es : List QueueEnt)
    → map ticket (insert_loop q qe 0 false pos es) ≡ insert_ticket (ticket qe) (map ticket es)
unfolding insert_loop
insert_loop-ticket q qe pos [] = refl
insert_loop-ticket q qe pos (e ∷ es) =
    ground
      (arith, insert_loop-ticket q qe (pos + 1) es, insert_loop_done-ticket q qe (pos + 1 + 1) es)

leave_loop-ticket :
    (a pos : ℕ) (es : List QueueEnt) → map ticket (leave_loop a pos es) ≡ without a (map ticket es)
unfolding leave_loop
leave_loop-ticket a pos [] = refl
leave_loop-ticket a pos (e ∷ es) =
    ground (arith, leave_loop-ticket a pos es, leave_loop-ticket a (pos + 1) es)

-- The line shows the callers of the specification, by priority.
pub record Shows (q : CallQueue) (ts : List Ticket) : Type 0 where
  pub line : IsLine q
  pub sorted : map ticket q.head ≡ by_priority ts

count-Shows : (q : CallQueue) (ts : List Ticket) → Shows q ts → q.count ≡ length ts
count-Shows q ts h = omega (
  arith,
  h.line.counted,
  length-map ticket q.head,
  ap (λ (v : List Ticket). length v) h.sorted,
  length-sort_onto [] ts,
)

-- Without a position said and a place asked for, the place is 0.
asked_nothing :
    (qe : QueueEnt) (es : List QueueEnt) → qe.last_pos_said ≡ 0 → asked_position qe 0 es ≡ 0
unfolding asked_position
asked_nothing qe es n = ground arith

enter-Shows :
    (q : CallQueue) (qe : QueueEnt) (ts : List Ticket)
    → qe.last_pos_said ≡ 0
    → Shows q ts
    → Shows (enter q qe 0) (ts ++ ticket qe ∷ [])
unfolding enter
enter-Shows q qe ts n h =
    let named = record qe { moh = q.moh; announce = q.announce; context = q.context } in
    record {
      line = enter-IsLine q qe 0 h.line;
      sorted = rw (asked_nothing qe q.head n) (
          insert_loop-ticket q named 0 q.head
          ∙ ap (insert_ticket (ticket qe)) h.sorted
          ∙ sym (sort_onto-append [] ts (ticket qe)));
    }

leave-Shows :
    (q : CallQueue) (a : ℕ) (ts : List Ticket) → Shows q ts → Shows (leave_queue q a) (without a ts)
unfolding leave_queue
leave-Shows q a ts h = record {
  line = leave_queue-IsLine q a h.line;
  sorted = leave_loop-ticket a 0 q.head ∙ ap (without a) h.sorted ∙ without-sort_onto a [] ts tt;
}

arrive-Shows :
    (q : CallQueue) (a : Arrival) (ts : List Ticket)
    → AsksNothing a
    → Shows q ts
    → Shows (arrive q a) (promised (limits q) ts a)
unfolding arrive promised join_queue
arrive-Shows q (comes no_member qe position) ts n h =
    let size = count-Shows q ts h in
    elim (Bool-cases (is_set q.joinempty && no_member)) [
      | inl empty ↦ rw empty h
      | inr served ↦ rw served (
          rw (← size) (elim (Bool-cases (not (q.maxlen == 0) && leb q.maxlen q.count)) [
            | inl full ↦ rw full h
            | inr room ↦ rw room (rw n.0 (enter-Shows q qe ts n.1 h))
          ]))
    ]
arrive-Shows q (goes a) ts n h = leave-Shows q a ts h

limits-arrive : (q : CallQueue) (a : Arrival) → limits (arrive q a) ≡ limits q
unfolding arrive join_queue enter leave_queue
limits-arrive q (comes no_member qe position) = ground arith
limits-arrive q (goes a) = refl

arrive_all-Shows_by :
    (l : Limits) (q : CallQueue) (history : List Arrival) (ts : List Ticket)
    → limits q ≡ l
    → All AsksNothing history
    → Shows q ts
    → Shows (arrive_all q history) (promised_all l ts history)
unfolding arrive_all promised_all
arrive_all-Shows_by l q [] ts e n h = h
arrive_all-Shows_by l q (a ∷ rest) ts e n h =
    arrive_all-Shows_by l (arrive q a) rest (promised l ts a) (limits-arrive q a ∙ e) n.1
      (subst (λ l'. Shows (arrive q a) (promised l' ts a)) e (arrive-Shows q a ts n.0 h))

-- Whoever comes without asking for a place, and whoever goes, the line that is kept is the promised
-- one: those who came and did not leave, sorted by priority and, within a priority, in the order of
-- their coming; and the same callers are turned away.
pub arrive_all-Shows :
    (q : CallQueue) (history : List Arrival) (ts : List Ticket)
    → All AsksNothing history
    → Shows q ts
    → Shows (arrive_all q history) (promised_all (limits q) ts history)
arrive_all-Shows q history ts n h = arrive_all-Shows_by (limits q) q history ts refl n h
