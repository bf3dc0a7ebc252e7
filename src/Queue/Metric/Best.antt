-- ===== src/Queue/Metric/Best.antt =====
-- `find_best` finds an open attempt of the least metric, if there is one.
use vx_pbx.Base.{
  ℕ, suc, ◌+◌, ◌≡◌, ◌⊎◌, inl, inr, true, false, ◌&&◌, List, [], ◌∷◌, Option, none, some, arith,
}
use vx_pbx.Base.Tests.{Bool-cases}
use vx_pbx.Base.Lists.{All, get_elem?}
use vx_pbx.Base.Int.{◌≤ℤ◌}
use vx_pbx.Queue.Metric.{CallAttempt, is_open, is_better, best_loop, find_best}

-- No open attempt of the list has a lower metric than `c`.
abbrev pub IsLeast : CallAttempt → List CallAttempt → Type 0
IsLeast c = All λ a. is_open a ≡ true → c.metric ≤ℤ a.metric

abbrev NoMore : CallAttempt → Option (ℕ × CallAttempt) → Type 0
NoMore c none = Unit {0}
NoMore c (some (i, b)) = c.metric ≤ℤ b.metric

best_loop-IsLeast :
    (i : ℕ) (best : Option (ℕ × CallAttempt)) (ms : List CallAttempt) (k : ℕ) (c : CallAttempt)
    → best_loop i best ms ≡ some (k, c)
    → NoMore c best × IsLeast c ms
unfolding best_loop
best_loop-IsLeast i none [] k c e = cc
best_loop-IsLeast i (some (j, b)) [] k c e = ground arith
best_loop-IsLeast i none (a ∷ ms) k c e =
    ground
      (arith, best_loop-IsLeast (i + 1) none ms k c, best_loop-IsLeast (i + 1) (some (i, a)) ms k c)
best_loop-IsLeast i (some (j, b)) (a ∷ ms) k c e = ground (
  arith,
  best_loop-IsLeast (i + 1) (some (j, b)) ms k c,
  best_loop-IsLeast (i + 1) (some (i, a)) ms k c,
)

best_loop-none :
    (i : ℕ) (best : Option (ℕ × CallAttempt)) (ms : List CallAttempt)
    → best_loop i best ms ≡ none
    → (best ≡ none) × All (λ a. is_open a ≡ false) ms
unfolding best_loop
best_loop-none i best [] e = (e, tt)
best_loop-none i best (a ∷ ms) e =
    ground (arith, best_loop-none (i + 1) best ms, best_loop-none (i + 1) (some (i, a)) ms)

best_loop-some :
    (i : ℕ) (best : Option (ℕ × CallAttempt)) (ms : List CallAttempt) (k : ℕ) (c : CallAttempt)
    → best_loop i best ms ≡ some (k, c)
    → (best ≡ some (k, c))
      ⊎ ((j : ℕ) × (k ≡ i + j) × (get_elem? ms j ≡ some c) × (is_open c ≡ true))
unfolding best_loop
best_loop-some i best [] k c e = inl e
best_loop-some i best (a ∷ ms) k c e = elim (Bool-cases (is_open a && is_better a best)) [
  | inl t ↦ elim (best_loop-some (i + 1) (some (i, a)) ms k c (ground arith)) [
    | inl h ↦ inr (0, ground arith, ground arith, ground arith)
    | inr (j, h, g, o) ↦ inr (suc j, omega arith, g, o)
  ]
  | inr f ↦ elim (best_loop-some (i + 1) best ms k c (ground arith)) [
    | inl h ↦ inl h
    | inr (j, h, g, o) ↦ inr (suc j, omega arith, g, o)
  ]
]

-- The attempt that `find_best` points to is open, and no open one has a lower metric.
pub find_best-IsLeast :
    (outgoing : List CallAttempt) (i : ℕ) (best : CallAttempt)
    → find_best outgoing ≡ some (i, best)
    → (get_elem? outgoing i ≡ some best) × (is_open best ≡ true) × IsLeast best outgoing
unfolding find_best
find_best-IsLeast outgoing i best e = elim (best_loop-some 0 none outgoing i best e) [
  | inl h ↦ cc
  | inr (j, h, g, o) ↦
      let eq : i ≡ j = omega arith in (rw eq g, o, (best_loop-IsLeast 0 none outgoing i best e).1)
]

-- It finds none only when all have been tried.
pub find_best-none :
    (outgoing : List CallAttempt)
    → find_best outgoing ≡ none
    → All (λ a. is_open a ≡ false) outgoing
unfolding find_best
find_best-none outgoing e = (best_loop-none 0 none outgoing e).1
