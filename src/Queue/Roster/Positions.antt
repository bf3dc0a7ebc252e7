-- ===== src/Queue/Roster/Positions.antt =====
-- The round-robin positions of the members are 0, …, n - 1, each taken once, through every addition
-- and removal; and the member whose turn it is stays next.
use vx_pbx.Base.{
  ℕ, suc, ◌<◌, ◌≡◌, ◌≢◌, sym, ap, true, false, List, [], ◌∷◌, ◌++◌, map, some, arith, ◌⊎◌, inl, inr,
}
use mathlib.Core.Path.{subst}
use vx_pbx.Base.Tests.{Bool-cases}
use vx_pbx.Base.Lists.{length, All, length-append, length-map}
use vx_pbx.Queue.Types.{Text, Member, CallQueue}
use vx_pbx.Queue.Name.{same_name, same_name_refl, same_name_trans}
use vx_pbx.Queue.Roster.{
  decrement_followers, find_member, unlink, member_add_to_queue, member_remove_from_queue,
}

abbrev pub Other : ℕ → Member → Type 0
Other p m = m.queuepos ≢ p

abbrev pub Distinct : List Member → Type 0
Distinct [] = Unit {0}
Distinct (m ∷ ms) = All (Other m.queuepos) ms × Distinct ms

-- `n` members, whose positions are below `n` and distinct.
abbrev pub IsRoster : List Member → Type 0
IsRoster ms = All (λ m. m.queuepos < length ms) ms × Distinct ms

pub All-map {ℓ κ} :
    {A : Type 0} {P : A → Type ℓ} {Q : A → Type κ} (f : (a : A) → P a → Q a) (xs : List A)
    → All P xs
    → All Q xs
All-map f [] h = tt
All-map f (x ∷ xs) h = (f x h.0, All-map f xs h.1)

pub find_member-All {ℓ} :
    (P : Member → Type ℓ) (i : Text) (ms : List Member) (mem : Member)
    → All P ms
    → find_member i ms ≡ some mem
    → P mem
unfolding find_member
find_member-All P i [] mem h e = cc
find_member-All P i (m ∷ ms) mem h e = elim (Bool-cases (same_name i m.interface)) [
  | inl s ↦ let eq : m ≡ mem = ground arith in subst P eq h.0
  | inr s ↦ find_member-All P i ms mem h.1 (ground arith)
]

pub same_name-find_member :
    (i : Text) (ms : List Member) (mem : Member)
    → find_member i ms ≡ some mem
    → same_name i mem.interface ≡ true
unfolding find_member
same_name-find_member i [] mem e = cc
same_name-find_member i (m ∷ ms) mem e = ground (arith, same_name-find_member i ms mem)

-- The list that a removal leaves, when `mem` was found under `i` and its position was `p`.
abbrev remaining : ℕ → Member → List Member → List Member
remaining p mem ms = unlink mem.interface (map (decrement_followers p) ms)

interface-decrement_followers :
    (p : ℕ) (m : Member) → (decrement_followers p m).interface ≡ m.interface
unfolding decrement_followers
interface-decrement_followers p m = ground arith

-- A member that another look-up passes over is not the one that it finds.
pub same_name_passed :
    (i : Text) (m mem : Member)
    → same_name i m.interface ≡ false
    → same_name i mem.interface ≡ true
    → same_name mem.interface m.interface ≡ false
same_name_passed i m mem s t = elim (Bool-cases (same_name mem.interface m.interface)) [
  | inl u ↦ cc (same_name_trans i mem.interface m.interface t u)
  | inr u ↦ u
]

-- A member that is found is the first one, or is found and removed behind it.
remaining_cases :
    (i : Text) (mem m : Member) (ms : List Member)
    → find_member i (m ∷ ms) ≡ some mem
    → ((m ≡ mem)
        × (remaining mem.queuepos mem (m ∷ ms) ≡ map (decrement_followers mem.queuepos) ms))
      ⊎ ((find_member i ms ≡ some mem)
          × (remaining mem.queuepos mem (m ∷ ms)
              ≡ decrement_followers mem.queuepos m ∷ remaining mem.queuepos mem ms))
unfolding find_member unlink
remaining_cases i mem m ms e = elim (Bool-cases (same_name i m.interface)) [
  | inl s ↦
      let eq : m ≡ mem = ground arith in
      inl (eq, rw (interface-decrement_followers, eq, same_name_refl mem.interface))
  | inr s ↦
      let later : find_member i ms ≡ some mem = ground arith in
      let t = same_name_passed i m mem s (same_name-find_member i ms mem later) in
      inr (later, rw (interface-decrement_followers, t))
]

module _ {ℓ κ} (P : Member → Type ℓ) (Q : Member → Type κ) (mem : Member)
    (keep : (m : Member)
      → Q m
      → Other mem.queuepos m
      → P (decrement_followers mem.queuepos m)) where
  pub decrement-All :
      (ms : List Member)
      → All Q ms
      → All (Other mem.queuepos) ms
      → All P (map (decrement_followers mem.queuepos) ms)
  decrement-All [] h o = tt
  decrement-All (m ∷ ms) h o = (keep m h.0 o.0, decrement-All ms h.1 o.1)

  -- What holds of every other member after `decrement_followers` holds of all that remain.
  remaining-All :
      (i : Text) (ms : List Member)
      → All Q ms
      → Distinct ms
      → find_member i ms ≡ some mem
      → All P (remaining mem.queuepos mem ms)
  remaining-All i [] h d e = unfold find_member in cc
  remaining-All i (m ∷ ms) h d e = elim (remaining_cases i mem m ms e) [
    | inl (eq, r) ↦
        rw r (decrement-All ms h.1 (subst (λ (x : Member). All (Other x.queuepos) ms) eq d.0))
    | inr (later, r) ↦
        let other : mem.queuepos ≢ m.queuepos =
          find_member-All (Other m.queuepos) i ms mem d.0 later in
        rw r (keep m h.0 (λ x. other (sym x)), remaining-All i ms h.1 d.1 later)
  ]

pub decrement-lt :
    (mem : Member) (n : ℕ) (m : Member)
    → m.queuepos < suc n
    → mem.queuepos < suc n
    → Other mem.queuepos m
    → (decrement_followers mem.queuepos m).queuepos < n
unfolding decrement_followers
decrement-lt mem n m h k o = ground arith

decrement-Other :
    (mem a m : Member)
    → Other a.queuepos m
    → Other mem.queuepos a
    → Other mem.queuepos m
    → Other (decrement_followers mem.queuepos a).queuepos (decrement_followers mem.queuepos m)
unfolding decrement_followers
decrement-Other mem a m h k o = ground arith

pub decrement-Distinct :
    (mem : Member) (ms : List Member)
    → Distinct ms
    → All (Other mem.queuepos) ms
    → Distinct (map (decrement_followers mem.queuepos) ms)
decrement-Distinct mem [] d o = tt
decrement-Distinct mem (m ∷ ms) d o = (
  decrement-All (Other (decrement_followers mem.queuepos m).queuepos) (Other m.queuepos) mem
      (λ a h k. decrement-Other mem m a h o.0 k) ms d.0 o.1,
  decrement-Distinct mem ms d.1 o.1,
)

remaining-Distinct :
    (i : Text) (mem : Member) (ms : List Member)
    → Distinct ms
    → find_member i ms ≡ some mem
    → Distinct (remaining mem.queuepos mem ms)
remaining-Distinct i mem [] d e = unfold find_member in cc
remaining-Distinct i mem (m ∷ ms) d e = elim (remaining_cases i mem m ms e) [
  | inl (eq, r) ↦
      rw r
        (decrement-Distinct mem ms d.1 (subst (λ (x : Member). All (Other x.queuepos) ms) eq d.0))
  | inr (later, r) ↦
      let other : mem.queuepos ≢ m.queuepos =
        find_member-All (Other m.queuepos) i ms mem d.0 later in
      rw r (
        remaining-All (Other (decrement_followers mem.queuepos m).queuepos) (Other m.queuepos) mem
            (λ a h k. decrement-Other mem m a h (λ x. other (sym x)) k) i ms d.0 d.1 later,
        remaining-Distinct i mem ms d.1 later,
      )
]

length-remaining :
    (i : Text) (mem : Member) (ms : List Member)
    → find_member i ms ≡ some mem
    → suc (length (remaining mem.queuepos mem ms)) ≡ length ms
length-remaining i mem [] e = unfold find_member in cc
length-remaining i mem (m ∷ ms) e = elim (remaining_cases i mem m ms e) [
  | inl (eq, r) ↦ rw r (ap suc (length-map (decrement_followers mem.queuepos) ms))
  | inr (later, r) ↦ rw r (ap suc (length-remaining i mem ms later))
]

-- In a well-formed roster, a member who is found under an interface and removed leaves no gap: the
-- positions of the others are again distinct and below their number.
pub member_remove_from_queue-IsRoster :
    (q : CallQueue) (i : Text) (mem : Member)
    → IsRoster q.members
    → find_member i q.members ≡ some mem
    → IsRoster (member_remove_from_queue q mem).members
unfolding member_remove_from_queue
member_remove_from_queue-IsRoster q i mem v e =
    let bound : mem.queuepos < length q.members =
      find_member-All (λ m. m.queuepos < length q.members) i q.members mem v.0 e in
    let n = length (remaining mem.queuepos mem q.members) in
    let len : suc n ≡ length q.members = length-remaining i mem q.members e in
    (
      remaining-All (λ m. m.queuepos < n) (λ m. m.queuepos < length q.members) mem
          (λ m h o. decrement-lt mem n m (omega arith) (omega arith) o) i q.members v.0 v.1 e,
      remaining-Distinct i mem q.members v.1 e,
    )

pub All-append {ℓ} :
    (P : Member → Type ℓ) (ms : List Member) (m : Member) → All P ms → P m → All P (ms ++ m ∷ [])
All-append P [] m h k = (k, tt)
All-append P (x ∷ ms) m h k = (h.0, All-append P ms m h.1 k)

pub Distinct-append :
    (ms : List Member) (m : Member)
    → Distinct ms
    → All (Other m.queuepos) ms
    → Distinct (ms ++ m ∷ [])
Distinct-append [] m d o = (tt, tt)
Distinct-append (x ∷ ms) m d o =
    (All-append (Other x.queuepos) ms m d.0 (λ e. o.0 (sym e)), Distinct-append ms m d.1 o.1)

-- A member who is added leaves the positions distinct and below the number of members.
pub member_add_to_queue-IsRoster :
    (q : CallQueue) (mem : Member)
    → IsRoster q.members
    → IsRoster (member_add_to_queue q mem).members
unfolding member_add_to_queue
member_add_to_queue-IsRoster q mem v =
    let n = length q.members in
    let new = record mem { queuepos = length q.members } in
    let len = length-append q.members (new ∷ []) in
    (
      All-append (λ e. e.queuepos < length (q.members ++ new ∷ [])) q.members new
          (All-map (λ m h. omega arith) q.members v.0) (omega arith),
      Distinct-append q.members new v.1 (All-map (λ m h. omega arith) q.members v.0),
    )
