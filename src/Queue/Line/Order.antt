-- ===== src/Queue/Line/Order.antt =====
-- What the loops of `join_queue` and `leave_queue` keep: the numbering from 1, the order by
-- priority, and the number of entries.
use vx_pbx.Base.{ℕ, ◌+◌, ◌-◌, ◌≤◌, ◌≡◌, refl, Bool, true, false, ◌||◌, List, [], ◌∷◌, arith}
use vx_pbx.Base.Tests.{◌==◌}
use vx_pbx.Base.Lists.{length}
use vx_pbx.Base.Int.{ℤ, ◌≤ℤ◌}
use vx_pbx.Queue.Types.{QueueEnt, CallQueue}
use vx_pbx.Queue.Line.{insert_loop, goes_before, leave_loop, leave_count}

-- The entries hold the places `pos + 1`, `pos + 2`, ….
abbrev pub IsNumberedFrom : ℕ → List QueueEnt → Type 0
IsNumberedFrom pos [] = Unit {0}
IsNumberedFrom pos (e ∷ es) = (e.position ≡ pos + 1) × IsNumberedFrom (pos + 1) es

-- No caller stands behind one of lower priority, and none is above `p`.
abbrev pub IsOrderedBelow : ℤ → List QueueEnt → Type 0
IsOrderedBelow p [] = Unit {0}
IsOrderedBelow p (e ∷ es) = (e.prio ≤ℤ p) × IsOrderedBelow e.prio es

abbrev pub IsOrdered : List QueueEnt → Type 0
IsOrdered [] = Unit {0}
IsOrdered (e ∷ es) = IsOrderedBelow e.prio es

pub IsOrderedBelow-mono :
    (p r : ℤ) (es : List QueueEnt) → p ≤ℤ r → IsOrderedBelow p es → IsOrderedBelow r es
IsOrderedBelow-mono p r [] h o = tt
IsOrderedBelow-mono p r (e ∷ es) h o = (omega arith, o.1)

module _ (q : CallQueue) (qe : QueueEnt) (position : ℕ) where
  pub insert_loop-IsNumberedFrom :
      (inserted : Bool) (pos : ℕ) (es : List QueueEnt)
      → IsNumberedFrom pos (insert_loop q qe position inserted pos es)
  unfolding insert_loop
  insert_loop-IsNumberedFrom inserted pos [] = ground arith
  insert_loop-IsNumberedFrom inserted pos (cur ∷ rest) =
      let here = goes_before qe position inserted pos cur in
      ground (
        arith,
        insert_loop-IsNumberedFrom (inserted || here) (pos + 1) rest,
        insert_loop-IsNumberedFrom (inserted || here) (pos + 1 + 1) rest,
      )

  insert_loop_done-IsOrderedBelow :
      (p : ℤ) (pos : ℕ) (es : List QueueEnt)
      → IsOrderedBelow p es
      → IsOrderedBelow p (insert_loop q qe position true pos es)
  unfolding insert_loop
  insert_loop_done-IsOrderedBelow p pos [] o = tt
  insert_loop_done-IsOrderedBelow p pos (cur ∷ rest) o =
      (o.0, insert_loop_done-IsOrderedBelow cur.prio (pos + 1) rest o.1)

  pub insert_loop-IsOrderedBelow :
      (p : ℤ) (pos : ℕ) (es : List QueueEnt)
      → qe.prio ≤ℤ p
      → IsOrderedBelow p es
      → IsOrderedBelow p (insert_loop q qe position false pos es)
  unfolding insert_loop
  insert_loop-IsOrderedBelow p pos [] h o = (h, tt)
  insert_loop-IsOrderedBelow p pos (cur ∷ rest) h o = ground (
    arith,
    insert_loop-IsOrderedBelow cur.prio (pos + 1) rest,
    insert_loop_done-IsOrderedBelow cur.prio (pos + 1 + 1) rest,
  )

  pub insert_loop-IsOrdered :
      (es : List QueueEnt) → IsOrdered es → IsOrdered (insert_loop q qe position false 0 es)
  unfolding insert_loop
  insert_loop-IsOrdered [] o = tt
  insert_loop-IsOrdered (cur ∷ rest) o = ground (
    arith,
    insert_loop-IsOrderedBelow cur.prio 1 rest,
    insert_loop_done-IsOrderedBelow cur.prio 2 rest,
  )

  length-insert_loop_done :
      (pos : ℕ) (es : List QueueEnt) → length (insert_loop q qe position true pos es) ≡ length es
  unfolding insert_loop
  length-insert_loop_done pos [] = refl
  length-insert_loop_done pos (cur ∷ rest) = omega (arith, length-insert_loop_done (pos + 1) rest)

  pub length-insert_loop :
      (pos : ℕ) (es : List QueueEnt)
      → length (insert_loop q qe position false pos es) ≡ length es + 1
  unfolding insert_loop
  length-insert_loop pos [] = refl
  length-insert_loop pos (cur ∷ rest) =
      ground (arith, length-insert_loop (pos + 1) rest, length-insert_loop_done (pos + 1 + 1) rest)

pub leave_loop-IsNumberedFrom :
    (address pos : ℕ) (es : List QueueEnt) → IsNumberedFrom pos (leave_loop address pos es)
unfolding leave_loop
leave_loop-IsNumberedFrom address pos [] = tt
leave_loop-IsNumberedFrom address pos (current ∷ rest) = ground (
  arith,
  leave_loop-IsNumberedFrom address pos rest,
  leave_loop-IsNumberedFrom address (pos + 1) rest,
)

pub leave_loop-IsOrderedBelow :
    (p : ℤ) (address pos : ℕ) (es : List QueueEnt)
    → IsOrderedBelow p es
    → IsOrderedBelow p (leave_loop address pos es)
unfolding leave_loop
leave_loop-IsOrderedBelow p address pos [] o = tt
leave_loop-IsOrderedBelow p address pos (current ∷ rest) o = ground (
  arith,
  IsOrderedBelow-mono current.prio p rest,
  leave_loop-IsOrderedBelow p address pos rest,
  leave_loop-IsOrderedBelow current.prio address (pos + 1) rest o.1,
)

abbrev is_at : ℕ → QueueEnt → Bool
is_at address e = e.address == address

IsOrdered-of_below : (p : ℤ) (es : List QueueEnt) → IsOrderedBelow p es → IsOrdered es
IsOrdered-of_below p [] o = tt
IsOrdered-of_below p (e ∷ es) o = o.1

pub leave_loop-IsOrdered :
    (address : ℕ) (es : List QueueEnt) → IsOrdered es → IsOrdered (leave_loop address 0 es)
unfolding leave_loop
leave_loop-IsOrdered address [] o = tt
leave_loop-IsOrdered address (e ∷ es) o = ground (
  arith,
  IsOrdered-of_below e.prio _ (leave_loop-IsOrderedBelow e.prio address 0 es o),
  leave_loop-IsOrderedBelow e.prio address 1 es o,
)

pub length-leave_loop :
    (address pos n : ℕ) (es : List QueueEnt)
    → length es ≤ n
    → length (leave_loop address pos es) + n ≡ leave_count address n es + length es
unfolding leave_loop leave_count
length-leave_loop address pos n [] h = omega arith
length-leave_loop address pos n (current ∷ rest) h =
    ground (
      arith,
      length-leave_loop address pos (n - 1) rest,
      length-leave_loop address (pos + 1) n rest,
    )
