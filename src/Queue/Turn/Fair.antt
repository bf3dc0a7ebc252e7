-- ===== src/Queue/Turn/Fair.antt =====
-- Turns are given in the order of the line, and never to more callers than members are free.
use vx_pbx.Base.{
  ℕ, ◌+◌, ◌-◌, ◌≤◌, ◌<◌, ◌≡◌, ◌≢◌, refl, Bool, true, false, not, ◌&&◌, ◌||◌, List, [], ◌∷◌, Option,
  none, some, arith, inl, inr,
}
use vx_pbx.Base.Tests.{ltb, ◌==◌, if◌then◌else◌, Bool-cases}
use vx_pbx.Base.Lists.{All, count}
use vx_pbx.Queue.Types.{QueueEnt, CallQueue}
use vx_pbx.Queue.Members.{num_available_members}
use vx_pbx.Queue.Turn.{turn_loop, is_our_turn}

-- How many callers who are not being connected stand before the caller at `me`, if that one is in
-- the line.
abbrev pub waiting_before : ℕ → List QueueEnt → Option ℕ
waiting_before me [] = none
waiting_before me (e ∷ es) = if e.address == me then some 0 else (elim (waiting_before me es) [
  | none ↦ none
  | some k ↦ some (if e.pending then k else k + 1)
])

abbrev pub has_turn : ℕ → ℕ → Option ℕ → Bool
has_turn avl idx none = false
has_turn avl idx (some k) = ltb (idx + k) avl

turn_loop-has_turn :
    (avl idx me : ℕ) (es : List QueueEnt)
    → turn_loop avl idx me es ≡ has_turn avl idx (waiting_before me es)
unfolding turn_loop
turn_loop-has_turn avl idx me [] = refl
turn_loop-has_turn avl idx me (e ∷ es) =
    ground (arith, turn_loop-has_turn avl (if e.pending then idx else idx + 1) me es)

-- It is a caller's turn exactly if it stands in the line with fewer callers who wait before it than
-- members are free, and, without autofill, stands first.
pub is_our_turn-has_turn :
    (now : ℕ) (q : CallQueue) (qe : QueueEnt)
    → is_our_turn now q qe ≡ (
        has_turn (num_available_members now q) 0 (waiting_before qe.address q.head)
        && (q.autofill || qe.position == 1))
unfolding is_our_turn
is_our_turn-has_turn now q qe =
    rw (turn_loop-has_turn (num_available_members now q) 0 qe.address q.head)

-- The addresses of the callers are distinct.
abbrev pub IsDistinct : List QueueEnt → Type 0
IsDistinct [] = Unit {0}
IsDistinct (e ∷ es) = All (λ x. e.address ≢ x.address) es × IsDistinct es

count-cong :
    (p r : QueueEnt → Bool) (es : List QueueEnt) → All (λ e. p e ≡ r e) es → count p es ≡ count r es
count-cong p r [] h = refl
count-cong p r (e ∷ es) h = rw (h.0, count-cong p r es h.1)

abbrev waits_turn : ℕ → ℕ → List QueueEnt → QueueEnt → Bool
waits_turn avl idx es e = turn_loop avl idx e.address es && not e.pending

turn_loop_skip :
    (avl idx : ℕ) (ch : QueueEnt) (rest xs : List QueueEnt)
    → idx < avl
    → All (λ x. ch.address ≢ x.address) xs
    → All
        (λ e.
          waits_turn avl idx (ch ∷ rest) e
          ≡ waits_turn avl (if ch.pending then idx else idx + 1) rest e)
        xs
unfolding turn_loop
turn_loop_skip avl idx ch rest [] h d = tt
turn_loop_skip avl idx ch rest (x ∷ xs) h d =
    (ground (arith, d.0), turn_loop_skip avl idx ch rest xs h d.1)

count_none :
    (avl idx : ℕ) (es xs : List QueueEnt) → avl ≤ idx → count (waits_turn avl idx es) xs ≡ 0
unfolding turn_loop
count_none avl idx es [] h = refl
count_none avl idx [] (x ∷ xs) h = ground (arith, count_none avl idx [] xs h)
count_none avl idx (e ∷ es) (x ∷ xs) h = ground (arith, count_none avl idx (e ∷ es) xs h)

waits_turn_head :
    (avl idx : ℕ) (ch : QueueEnt) (rest : List QueueEnt)
    → waits_turn avl idx (ch ∷ rest) ch ≡ (ltb idx avl && not ch.pending)
unfolding turn_loop
waits_turn_head avl idx ch rest = ground arith

count-turn_loop :
    (avl idx : ℕ) (es : List QueueEnt)
    → IsDistinct es
    → count (waits_turn avl idx es) es ≤ avl - idx
count-turn_loop avl idx [] d = omega arith
count-turn_loop avl idx (ch ∷ rest) d = elim (Bool-cases (ltb idx avl)) [
  | inl room ↦
      let idx' = if ch.pending then idx else idx + 1 in
      let lt : idx < avl = ground arith in
      let same =
        count-cong (waits_turn avl idx (ch ∷ rest)) (waits_turn avl idx' rest) rest
          (turn_loop_skip avl idx ch rest rest lt d.0) in
      let more = count-turn_loop avl idx' rest d.1 in
      rw (waits_turn_head avl idx ch rest, same) (ground (arith, more))
  | inr full ↦
      let none_left = count_none avl idx (ch ∷ rest) (ch ∷ rest) (ground arith) in
      omega (arith, none_left)
]

count-le :
    (p r : QueueEnt → Bool) (es : List QueueEnt)
    → ((e : QueueEnt) → p e ≡ true → r e ≡ true)
    → count p es ≤ count r es
count-le p r [] h = omega arith
count-le p r (e ∷ es) h = ground (arith, h e, count-le p r es h)

-- In a line of callers with distinct addresses, no more of those who are not being connected yet have
-- their turn at once than members are free.
pub count-is_our_turn :
    (now : ℕ) (q : CallQueue)
    → IsDistinct q.head
    → count (λ e. is_our_turn now q e && not e.pending) q.head ≤ num_available_members now q
unfolding is_our_turn
count-is_our_turn now q d =
    let avl = num_available_members now q in
    let all = count-turn_loop avl 0 q.head d in
    let fewer =
      count-le (λ e. is_our_turn now q e && not e.pending) (waits_turn avl 0 q.head) q.head
        (λ e h. ground arith) in
    omega (arith, all, fewer)

-- The caller at the head of the line, at position 1, has its turn as soon as a member is free.
is_our_turn_head :
    (now : ℕ) (q : CallQueue) (qe : QueueEnt) (rest : List QueueEnt)
    → q.head ≡ qe ∷ rest
    → qe.position ≡ 1
    → 0 < num_available_members now q
    → is_our_turn now q qe ≡ true
unfolding is_our_turn
is_our_turn_head now q qe rest e p h = rw e (unfold turn_loop in ground arith)
