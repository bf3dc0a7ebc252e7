-- ===== src/Queue/Line/Tickets.antt =====
-- Callers sorted by priority, as they come and go: what a line promises, apart from its code.
use vx_pbx.Base.{ℕ, ◌+◌, ◌≡◌, refl, ap, ◌∙◌, true, List, [], ◌∷◌, ◌++◌, arith, inl, inr}
use vx_pbx.Base.Tests.{if◌then◌else◌, ◌==◌, Bool-cases}
use vx_pbx.Base.Lists.{length}
use vx_pbx.Base.Int.{ℤ, ltb_ℤ, ◌≤ℤ◌}
use vx_pbx.Queue.Types.{QueueEnt}

-- What a caller is to the specification.
pub record Ticket : Type 0 where
  pub address : ℕ
  pub prio : ℤ

abbrev pub ticket : QueueEnt → Ticket
ticket e = record { address = e.address; prio = e.prio }

-- The callers who did not leave, the last one to come last.
abbrev pub without : ℕ → List Ticket → List Ticket
without a [] = []
without a (t ∷ ts) = if t.address == a then without a ts else t ∷ without a ts

-- Behind all of the same or a higher priority.
abbrev pub insert_ticket : Ticket → List Ticket → List Ticket
insert_ticket t [] = t ∷ []
insert_ticket t (u ∷ us) = if ltb_ℤ u.prio t.prio then t ∷ u ∷ us else u ∷ insert_ticket t us

abbrev pub sort_onto : List Ticket → List Ticket → List Ticket
sort_onto sorted [] = sorted
sort_onto sorted (t ∷ ts) = sort_onto (insert_ticket t sorted) ts

abbrev pub by_priority : List Ticket → List Ticket
by_priority = sort_onto []

abbrev IsSortedBelow : ℤ → List Ticket → Type 0
IsSortedBelow p [] = Unit {0}
IsSortedBelow p (t ∷ ts) = (t.prio ≤ℤ p) × IsSortedBelow t.prio ts

abbrev IsSorted : List Ticket → Type 0
IsSorted [] = Unit {0}
IsSorted (t ∷ ts) = IsSortedBelow t.prio ts

IsSortedBelow-mono : (p r : ℤ) (ts : List Ticket) → p ≤ℤ r → IsSortedBelow p ts → IsSortedBelow r ts
IsSortedBelow-mono p r [] h s = tt
IsSortedBelow-mono p r (t ∷ ts) h s = (omega arith, s.1)

insert_ticket-IsSortedBelow :
    (p : ℤ) (t : Ticket) (us : List Ticket)
    → t.prio ≤ℤ p
    → IsSortedBelow p us
    → IsSortedBelow p (insert_ticket t us)
insert_ticket-IsSortedBelow p t [] h s = (h, tt)
insert_ticket-IsSortedBelow p t (u ∷ us) h s =
    ground (arith, insert_ticket-IsSortedBelow u.prio t us)

insert_ticket-IsSorted :
    (t : Ticket) (us : List Ticket) → IsSorted us → IsSorted (insert_ticket t us)
insert_ticket-IsSorted t [] s = tt
insert_ticket-IsSorted t (u ∷ us) s = ground (arith, insert_ticket-IsSortedBelow u.prio t us)

without-IsSortedBelow :
    (p : ℤ) (a : ℕ) (us : List Ticket) → IsSortedBelow p us → IsSortedBelow p (without a us)
without-IsSortedBelow p a [] s = tt
without-IsSortedBelow p a (u ∷ us) s = ground (
  arith,
  without-IsSortedBelow p a us (IsSortedBelow-mono u.prio p us s.0 s.1),
  without-IsSortedBelow u.prio a us s.1,
)

IsSorted-of_below : (p : ℤ) (us : List Ticket) → IsSortedBelow p us → IsSorted us
IsSorted-of_below p [] s = tt
IsSorted-of_below p (u ∷ us) s = s.1

insert_front :
    (t : Ticket) (p : ℤ) (us : List Ticket)
    → IsSortedBelow p us
    → ltb_ℤ p t.prio ≡ true
    → insert_ticket t us ≡ t ∷ us
insert_front t p [] s h = refl
insert_front t p (u ∷ us) s h = ground arith

-- Leaving commutes with coming in.
without-insert_ticket :
    (a : ℕ) (t : Ticket) (us : List Ticket)
    → IsSorted us
    → without a (insert_ticket t us)
      ≡ (if t.address == a then without a us else insert_ticket t (without a us))
without-insert_ticket a t [] s = refl
without-insert_ticket a t (u ∷ us) s = ground (
  arith,
  insert_front t u.prio (without a us) (without-IsSortedBelow u.prio a us s),
  without-insert_ticket a t us (IsSorted-of_below u.prio us s),
)

sort_onto-IsSorted : (us ts : List Ticket) → IsSorted us → IsSorted (sort_onto us ts)
sort_onto-IsSorted us [] s = s
sort_onto-IsSorted us (t ∷ ts) s =
    sort_onto-IsSorted (insert_ticket t us) ts (insert_ticket-IsSorted t us s)

pub without-sort_onto :
    (a : ℕ) (us ts : List Ticket)
    → IsSorted us
    → without a (sort_onto us ts) ≡ sort_onto (without a us) (without a ts)
without-sort_onto a us [] s = refl
without-sort_onto a us (t ∷ ts) s =
    let step = without-insert_ticket a t us s in
    let rest = without-sort_onto a (insert_ticket t us) ts (insert_ticket-IsSorted t us s) in
    elim (Bool-cases (t.address == a)) [
      | inl gone ↦ rw gone (rest ∙ ap (λ v. sort_onto v (without a ts)) (rw gone at step))
      | inr kept ↦ rw kept (rest ∙ ap (λ v. sort_onto v (without a ts)) (rw kept at step))
    ]

pub sort_onto-append :
    (us ts : List Ticket) (t : Ticket)
    → sort_onto us (ts ++ t ∷ []) ≡ insert_ticket t (sort_onto us ts)
sort_onto-append us [] t = refl
sort_onto-append us (u ∷ ts) t = sort_onto-append (insert_ticket u us) ts t

length-insert_ticket : (t : Ticket) (us : List Ticket) → length (insert_ticket t us) ≡ length us + 1
length-insert_ticket t [] = omega arith
length-insert_ticket t (u ∷ us) = ground (arith, length-insert_ticket t us)

pub length-sort_onto : (us ts : List Ticket) → length (sort_onto us ts) ≡ length us + length ts
length-sort_onto us [] = omega arith
length-sort_onto us (t ∷ ts) =
    omega (arith, length-sort_onto (insert_ticket t us) ts, length-insert_ticket t us)
