-- ===== src/Queue/Line/Place.antt =====
-- Where a caller goes in: the place that `insert_loop` finds, in closed form, and what the
-- positions said before do to it.
use vx_pbx.Base.{
  ℕ, suc, ◌+◌, ◌-◌, ◌≤◌, ◌<◌, ◌≡◌, refl, ap, true, false, List, [], ◌∷◌, ◌++◌, arith, min, max, inl,
  inr,
}
use vx_pbx.Base.Tests.{if◌then◌else◌, ◌==◌, Bool-cases}
use vx_pbx.Base.Lists.{count, take, drop, All}
use vx_pbx.Base.Int.{ℤ, ltb_ℤ, leb_ℤ, ◌≤ℤ◌, ◌<ℤ◌}
use vx_pbx.Queue.Types.{QueueEnt, CallQueue}
use vx_pbx.Queue.Line.{
  placed, insert_loop, goes_before, later_place, last_place_said, asked_position, enter,
}
use vx_pbx.Queue.Line.Order.{IsOrderedBelow, IsOrdered}

abbrev pub number : ℕ → List QueueEnt → List QueueEnt
number pos [] = []
number pos (e ∷ es) = record e { position = pos + 1 } ∷ number (pos + 1) es

-- How many of the line have a higher priority than `p`, and at least `p`.
abbrev pub higher : ℤ → List QueueEnt → ℕ
higher p es = count (λ e. ltb_ℤ p e.prio) es

abbrev pub at_least : ℤ → List QueueEnt → ℕ
at_least p es = count (λ e. leb_ℤ p e.prio) es

-- How many of the entries behind the first `pos` stay before the caller.
abbrev pub rank : ℤ → ℕ → ℕ → List QueueEnt → ℕ
rank p position pos es =
    if position == 0
    then at_least p es
    else max (higher p es) (min (position - 1 - pos) (at_least p es))

higher-IsOrderedBelow :
    (p r : ℤ) (es : List QueueEnt) → IsOrderedBelow r es → r ≤ℤ p → higher p es ≡ 0
higher-IsOrderedBelow p r [] o h = refl
higher-IsOrderedBelow p r (e ∷ es) o h = ground (arith, higher-IsOrderedBelow p e.prio es o.1)

at_least-IsOrderedBelow :
    (p r : ℤ) (es : List QueueEnt) → IsOrderedBelow r es → r <ℤ p → at_least p es ≡ 0
at_least-IsOrderedBelow p r [] o h = refl
at_least-IsOrderedBelow p r (e ∷ es) o h = ground (arith, at_least-IsOrderedBelow p e.prio es o.1)

higher-le-at_least : (p : ℤ) (es : List QueueEnt) → higher p es ≤ at_least p es
higher-le-at_least p [] = omega arith
higher-le-at_least p (e ∷ es) = ground (arith, higher-le-at_least p es)

insert_loop_done :
    (q : CallQueue) (qe : QueueEnt) (position pos : ℕ) (es : List QueueEnt)
    → insert_loop q qe position true pos es ≡ number pos es
unfolding insert_loop
insert_loop_done q qe position pos [] = refl
insert_loop_done q qe position pos (e ∷ es) =
    ap (λ t. record e { position = pos + 1 } ∷ t) (insert_loop_done q qe position (pos + 1) es)

-- The caller goes in at once, or passes the first entry.
rank_here :
    (qe cur : QueueEnt) (position pos : ℕ) (rest : List QueueEnt)
    → IsOrderedBelow cur.prio rest
    → goes_before qe position false pos cur ≡ true
    → rank qe.prio position pos (cur ∷ rest) ≡ 0
unfolding goes_before
rank_here qe cur position pos rest o h = ground (
  arith,
  higher-IsOrderedBelow qe.prio cur.prio rest o,
  at_least-IsOrderedBelow qe.prio cur.prio rest o,
)

rank_later :
    (qe cur : QueueEnt) (position pos : ℕ) (rest : List QueueEnt)
    → IsOrderedBelow cur.prio rest
    → goes_before qe position false pos cur ≡ false
    → rank qe.prio position pos (cur ∷ rest) ≡ suc (rank qe.prio position (pos + 1) rest)
unfolding goes_before
rank_later qe cur position pos rest o h =
    ground (arith, higher-IsOrderedBelow qe.prio cur.prio rest o, higher-le-at_least qe.prio rest)

-- The line in closed form: the first `k` entries, the caller, the others.
abbrev pub line_with : CallQueue → QueueEnt → ℕ → ℕ → List QueueEnt → List QueueEnt
line_with q qe pos k es =
    number pos (take k es) ++ placed q qe (pos + k + 1) ∷ number (pos + k + 1) (drop k es)

line_with-suc :
    (q : CallQueue) (qe cur : QueueEnt) (pos k : ℕ) (rest : List QueueEnt)
    → record cur { position = pos + 1 } ∷ line_with q qe (pos + 1) k rest
      ≡ line_with q qe pos (suc k) (cur ∷ rest)
line_with-suc q qe cur pos k rest = let e : pos + 1 + k + 1 ≡ pos + suc k + 1 = omega arith in rw e

insert_loop_lem :
    (q : CallQueue) (qe : QueueEnt) (position pos : ℕ) (r : ℤ) (es : List QueueEnt)
    → IsOrderedBelow r es
    → insert_loop q qe position false pos es ≡ line_with q qe pos (rank qe.prio position pos es) es
unfolding insert_loop
insert_loop_lem q qe position pos r [] o =
    let e : rank qe.prio position pos [] ≡ 0 = ground arith in
    rw e (let f : pos + 0 + 1 ≡ pos + 1 = omega arith in rw f)
insert_loop_lem q qe position pos r (cur ∷ rest) o =
    elim (Bool-cases (goes_before qe position false pos cur)) [
      | inl here ↦
          let e : pos + 0 + 1 ≡ pos + 1 = omega arith in
          rw (rank_here qe cur position pos rest o.1 here, here)
            (rw (insert_loop_done q qe position (pos + 1 + 1) rest, e))
      | inr later ↦
          rw (rank_later qe cur position pos rest o.1 later, later)
            (rw (insert_loop_lem q qe position (pos + 1) cur.prio rest o.1)
              (line_with-suc q qe cur pos (rank qe.prio position (pos + 1) rest) rest))
    ]

insert_loop-line_with :
    (q : CallQueue) (qe : QueueEnt) (position : ℕ) (es : List QueueEnt)
    → IsOrdered es
    → insert_loop q qe position false 0 es ≡ line_with q qe 0 (rank qe.prio position 0 es) es
insert_loop-line_with q qe position [] o = insert_loop_lem q qe position 0 qe.prio [] tt
insert_loop-line_with q qe position (e ∷ es) o =
    insert_loop_lem q qe position 0 e.prio (e ∷ es) (omega arith, o)

-- In a line ordered by priority, a caller who joins goes behind all of a higher priority and before all of a lower one. Among
-- those of its own priority it takes the place asked for, as near as these two bounds allow, or the
-- last one if it asks for none. The others keep their order, and all are numbered from 1.
pub enter-line_with :
    (q : CallQueue) (qe : QueueEnt) (position : ℕ)
    → IsOrdered q.head
    → let named = record qe { moh = q.moh; announce = q.announce; context = q.context } in
      (enter q qe position).head
      ≡ line_with q named 0 (rank qe.prio (asked_position qe position q.head) 0 q.head) q.head
unfolding enter
enter-line_with q qe position o =
    insert_loop-line_with q (record qe { moh = q.moh; announce = q.announce; context = q.context })
      (asked_position qe position q.head) q.head o

abbrev SaidBefore : ℕ → ℕ → QueueEnt → Type 0
SaidBefore position bound e = 0 < e.last_pos_said → e.last_pos_said ≤ position → e.position ≤ bound

last_place_said-ge :
    (position pos1 : ℕ) (es : List QueueEnt) → pos1 ≤ last_place_said position pos1 es
unfolding last_place_said
last_place_said-ge position pos1 [] = omega arith
last_place_said-ge position pos1 (e ∷ es) =
    ground (arith, last_place_said-ge position pos1 es, last_place_said-ge position e.position es)

last_place_said-All :
    (position pos1 : ℕ) (es : List QueueEnt)
    → All (SaidBefore position (last_place_said position pos1 es)) es
unfolding last_place_said
last_place_said-All position pos1 [] = tt
last_place_said-All position pos1 (e ∷ es) = (
  (λ h k.
      ground
        (arith, last_place_said-ge position e.position es, last_place_said-ge position pos1 es)),
  last_place_said-All position (later_place position pos1 e) es,
)

-- The position asked for, against those of the callers who are in the line already.
abbrev pub Behind : ℕ → ℕ → QueueEnt → Type 0
Behind position place e = 0 < e.last_pos_said → e.last_pos_said ≤ position → e.position < place

All-Behind :
    (position bound place : ℕ) (es : List QueueEnt)
    → bound < place
    → All (SaidBefore position bound) es
    → All (Behind position place) es
All-Behind position bound place [] h a = tt
All-Behind position bound place (e ∷ es) h a =
    ((λ s t. omega (arith, a.0 s t)), All-Behind position bound place es h a.1)

-- A caller who was told a position before, and comes with a position above 0, asks for a place no
-- earlier than that, and behind everyone in the line who was told a position up to it.
asked_position-Behind :
    (qe : QueueEnt) (position : ℕ) (es : List QueueEnt)
    → 0 < qe.last_pos_said
    → 0 < position
    → (position ≤ asked_position qe position es)
      × All (Behind position (asked_position qe position es)) es
unfolding asked_position
asked_position-Behind qe position es told p = (
  ground arith,
  All-Behind position (last_place_said position 0 es) (asked_position qe position es) es
      (ground arith) (last_place_said-All position 0 es),
)
