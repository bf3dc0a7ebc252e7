-- ===== src/Queue/Members/Count.antt =====
-- What the loops over members and queues compute.
use vx_pbx.Base.{
  ℕ, ◌+◌, ◌≡◌, refl, ◌∙◌, inl, inr, Bool, true, false, not, ◌||◌, List, [], ◌∷◌, arith, min,
}
use vx_pbx.Base.Tests.{if◌then◌else◌, bit, Bool-cases}
use vx_pbx.Base.Lists.{count, any}
use vx_pbx.Base.Int.{ℤ}
use vx_pbx.Queue.Types.{Member, CallQueue, EmptyConditions, DeviceState}
use vx_pbx.Queue.Members.{
  is_member_available, is_ringall, available_loop, num_available_members, is_preferred,
  compare_weight, serves, some_serves,
}

abbrev pub available_count : ℕ → CallQueue → ℕ
available_count now q = count (is_member_available now q) q.members

-- Where the head caller alone can be served, one free member is enough.
abbrev pub serves_head_only : CallQueue → Bool
serves_head_only q = not q.autofill || is_ringall q.strategy

available_loop_all :
    (now : ℕ) (q : CallQueue) (avl : ℕ) (ms : List Member)
    → serves_head_only q ≡ false
    → available_loop now q avl ms ≡ avl + count (is_member_available now q) ms
unfolding available_loop
available_loop_all now q avl [] h = omega arith
available_loop_all now q avl (mem ∷ rest) h =
    rw h
      (omega (arith, available_loop_all now q (avl + bit (is_member_available now q mem)) rest h))

available_loop_first :
    (now : ℕ) (q : CallQueue) (ms : List Member)
    → serves_head_only q ≡ true
    → available_loop now q 0 ms ≡ min 1 (count (is_member_available now q) ms)
unfolding available_loop
available_loop_first now q [] h = refl
available_loop_first now q (mem ∷ rest) h = elim (Bool-cases (is_member_available now q mem)) [
  | inl free ↦ rw (free, h) (omega arith)
  | inr taken ↦ rw (taken, h) (available_loop_first now q rest h ∙ omega arith)
]

-- `num_available_members` is the number of available members, cut to 1 where only the head of the
-- line can be served.
num_available_members_lem :
    (now : ℕ) (q : CallQueue)
    → num_available_members now q
      ≡ (if serves_head_only q then min 1 (available_count now q) else available_count now q)
unfolding num_available_members
num_available_members_lem now q = elim (Bool-cases (serves_head_only q)) [
  | inl h ↦ rw h (available_loop_first now q q.members h)
  | inr h ↦ rw h (available_loop_all now q 0 q.members h ∙ omega arith)
]

pub compare_weight-any :
    (now : ℕ) (qs : List CallQueue) (rq : CallQueue) (member : Member)
    → compare_weight now qs rq member ≡ any (is_preferred now rq member) qs
unfolding compare_weight
compare_weight-any now [] rq member = refl
compare_weight-any now (q ∷ qs) rq member = rw (compare_weight-any now qs rq member)

pub some_serves-any :
    (now : ℕ) (q : CallQueue) (max_penalty min_penalty : ℤ) (c : EmptyConditions)
    (read : Member → DeviceState) (ms : List Member)
    → some_serves now q max_penalty min_penalty c read ms
      ≡ any (λ m. serves now q max_penalty min_penalty c (read m) m) ms
unfolding some_serves
some_serves-any now q max_penalty min_penalty c read [] = refl
some_serves-any now q max_penalty min_penalty c read (m ∷ ms) =
    rw (some_serves-any now q max_penalty min_penalty c read ms)
