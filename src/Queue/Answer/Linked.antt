-- ===== src/Queue/Answer/Linked.antt =====
-- How a round of `wait_for_answer` links the attempts along `call_next`.
use vx_pbx.Base.{
  ℕ, zero, suc, ◌+◌, ◌≤◌, ◌<◌, ◌≡◌, ◌⊎◌, refl, sym, subst, ◌∙◌, true, false, not, ◌||◌, List, [],
  ◌∷◌, Option, none, some, arith, inl, inr,
}
use vx_pbx.Base.Tests.{Bool-cases, Option-cases}
use vx_pbx.Base.Lists.{length, set}
use vx_pbx.Queue.Members.{is_ringall}
use vx_pbx.Queue.Metric.{CallAttempt}
use vx_pbx.Queue.Ring.{Phones, Queues}
use vx_pbx.Queue.Answer.{
  Waiting, Chain, link_to, link_one, link_all, link_attempts, linked, ring_more, gather, next_of,
}

-- The links from place `j` on lead forward.
abbrev pub IsForwardFrom : ℕ → List (Option ℕ) → Type 0
IsForwardFrom j [] = Unit {0}
IsForwardFrom j (x ∷ xs) = ((l : ℕ) → x ≡ some l → j < l) × IsForwardFrom (j + 1) xs

IsForwardFrom-set :
    (j k i : ℕ) (xs : List (Option ℕ))
    → IsForwardFrom j xs
    → j + k < i
    → IsForwardFrom j (set xs k (some i))
IsForwardFrom-set j k i [] f h = tt
IsForwardFrom-set j zero i (x ∷ xs) f h = (λ l e. ground arith, f.1)
IsForwardFrom-set j (suc k) i (x ∷ xs) f h =
    (f.0, IsForwardFrom-set (j + 1) k i xs f.1 (omega arith))

IsForwardFrom-next :
    (j k l : ℕ) (xs : List (Option ℕ))
    → IsForwardFrom j xs
    → next_of xs k ≡ some l
    → (j + k < l) × (k < length xs)
IsForwardFrom-next j k l [] f e = cc
IsForwardFrom-next j zero l (x ∷ xs) f e = (omega (arith, f.0 l e), omega arith)
IsForwardFrom-next j (suc k) l (x ∷ xs) f e =
    let rest = IsForwardFrom-next (j + 1) k l xs f.1 e in
    (omega (arith, rest.0), omega (arith, rest.1))

-- Along `call_next` the walk comes to NULL within `n` attempts.
abbrev pub EndsWithin : ℕ → List (Option ℕ) → Option ℕ → Type 0
EndsWithin zero links none = Unit {0}
EndsWithin zero links (some i) = ⊥
EndsWithin (suc n) links none = Unit {0}
EndsWithin (suc n) links (some i) = EndsWithin n links (next_of links i)

EndsWithin-none : (n : ℕ) (links : List (Option ℕ)) → EndsWithin n links none
EndsWithin-none zero links = tt
EndsWithin-none (suc n) links = tt

EndsWithin-forward :
    (n i : ℕ) (links : List (Option ℕ))
    → IsForwardFrom 0 links
    → length links ≤ i + n
    → EndsWithin (suc n) links (some i)
EndsWithin-forward zero i links f h = elim (Option-cases (next_of links i)) [
  | inl e ↦ subst (EndsWithin zero links) (sym e) tt
  | inr (l, e) ↦ let on = IsForwardFrom-next 0 i l links f e in absurd (omega (arith, on.1))
]
EndsWithin-forward (suc n) i links f h = elim (Option-cases (next_of links i)) [
  | inl e ↦ subst (EndsWithin (suc n) links) (sym e) tt
  | inr (l, e) ↦
      let on = IsForwardFrom-next 0 i l links f e in
      subst (EndsWithin (suc n) links) (sym e)
        (EndsWithin-forward n l links f (omega (arith, on.0)))
]

pub ends :
    (links : List (Option ℕ)) (o : Option ℕ)
    → IsForwardFrom 0 links
    → EndsWithin (suc (length links)) links o
ends links none f = tt
ends links (some i) f = EndsWithin-forward (length links) i links f (omega arith)

-- What holds of the walk that links the attempts before place `i`.
record IsLinking (i : ℕ) (c : Chain) : Type 0 where
  ahead : IsForwardFrom 0 c.links
  before : (first : ℕ) → c.start ≡ some first → c.prev < i

link_to-IsLinking :
    (i : ℕ) (c : Chain) (o : Option ℕ)
    → c.start ≡ o
    → IsLinking i c
    → IsLinking (i + 1) (link_to c i o)
link_to-IsLinking i c none e v = record { ahead = v.ahead; before = λ first z. omega arith }
link_to-IsLinking i c (some first) e v = record {
  ahead = IsForwardFrom-set 0 c.prev i c.links v.ahead (omega (arith, v.before first e));
  before = λ other z. omega arith;
}

link_one-IsLinking :
    (i : ℕ) (o : CallAttempt) (c : Chain) → IsLinking i c → IsLinking (i + 1) (link_one i o c)
unfolding link_one
link_one-IsLinking i o c v = elim (Bool-cases o.stillgoing) [
  | inl going ↦ rw going (elim (Bool-cases o.called) [
    | inl called ↦ rw called (
        link_to-IsLinking i (record c { stillgoing = true }) c.start refl
          (record { ahead = v.ahead; before = v.before }))
    | inr idle ↦ rw idle (record { ahead = v.ahead; before = λ f e. omega (arith, v.before f e) })
  ])
  | inr gone ↦ rw gone (record { ahead = v.ahead; before = λ f e. omega (arith, v.before f e) })
]

link_all-IsLinking :
    (i : ℕ) (os : List CallAttempt) (c : Chain)
    → IsLinking i c
    → IsForwardFrom 0 (link_all i os c).links
unfolding link_all
link_all-IsLinking i [] c v = v.ahead
link_all-IsLinking i (o ∷ os) c v =
    link_all-IsLinking (i + 1) os (link_one i o c) (link_one-IsLinking i o c v)

found-link_one :
    (i : ℕ) (o : CallAttempt) (c : Chain) → c.found ≡ true → (link_one i o c).found ≡ true
unfolding link_one
found-link_one i o c h = elim (Option-cases c.start) [
  | inl e ↦ simp (e) (ground arith)
  | inr (f, e) ↦ simp (e) (ground arith)
]

found-link_to : (c : Chain) (i : ℕ) (o : Option ℕ) → (link_to c i o).found ≡ true
found-link_to c i none = refl
found-link_to c i (some f) = refl

link_one-start :
    (i : ℕ) (o : CallAttempt) (c : Chain)
    → ((link_one i o c).start ≡ c.start) ⊎ ((link_one i o c).found ≡ true)
unfolding link_one
link_one-start i o c = elim (Bool-cases o.stillgoing) [
  | inl going ↦ rw going (elim (Bool-cases o.called) [
    | inl called ↦ rw called (inr (found-link_to (record c { stillgoing = true }) i c.start))
    | inr idle ↦ rw idle (inl refl)
  ])
  | inr gone ↦ rw gone (inl refl)
]

found-link_all :
    (i : ℕ) (os : List CallAttempt) (c : Chain) → c.found ≡ true → (link_all i os c).found ≡ true
unfolding link_all link_one
found-link_all i [] c h = h
found-link_all i (o ∷ os) c h = found-link_all (i + 1) os (link_one i o c) (found-link_one i o c h)

start-link_all :
    (i : ℕ) (os : List CallAttempt) (c : Chain)
    → (link_all i os c).found ≡ false
    → (link_all i os c).start ≡ c.start
unfolding link_all
start-link_all i [] c h = refl
start-link_all i (o ∷ os) c h = elim (link_one-start i o c) [
  | inl same ↦ start-link_all (i + 1) os (link_one i o c) h ∙ same
  | inr found ↦ absurd (let z = found-link_all (i + 1) os (link_one i o c) found in cc)
]

-- A state from which a round starts to look for attempts: the links lead forward and none is the first.
abbrev pub IsLinked : Waiting → Type 0
IsLinked s = IsForwardFrom 0 s.links

pub gather-IsLinked :
    (tries : ℕ) (phones : Phones) (queues : Queues) (s : Waiting)
    → s.start ≡ none
    → IsLinked s
    → IsLinked (gather tries phones queues s).1
unfolding gather link_attempts ring_more
gather-IsLinked zero phones queues s e v = v
gather-IsLinked (suc tries) phones queues s e v =
    let c = link_attempts s in
    let s' = linked s c in
    let stop = c.found || not c.stillgoing || not (is_ringall s.ringing.parent.strategy) in
    let first : Chain = record {
      start = s.start;
      prev = 0;
      found = false;
      stillgoing = s.stillgoing;
      links = s.links;
    } in
    let linking : IsLinking 0 first = record {
      ahead = v;
      before = λ f z. absurd (let w : none ≡ some f = sym e ∙ z in cc);
    } in
    let ahead = link_all-IsLinking 0 s.outgoing first linking in
    elim (Bool-cases stop) [
      | inl now ↦ rw now ahead
      | inr later ↦ rw later (
          gather-IsLinked tries phones queues (ring_more phones queues s')
            (start-link_all 0 s.outgoing first (ground arith) ∙ e) ahead)
    ]
