-- ===== src/Queue/Penalty/Due.antt =====
-- The rules stay in the order of their times, those that are due are applied, and the limits that
-- they set make sense.
use vx_pbx.Base.{◌≡◌, ◌≢◌, Bool, List, [], ◌∷◌, some, arith, inl, inr}
use vx_pbx.Base.Tests.{if◌then◌else◌, Bool-cases, Option-cases}
use vx_pbx.Base.Lists.{All}
use vx_pbx.Base.Int.{ℤ, pos, ◌≤ℤ◌, int_max}
use vx_pbx.Queue.Types.{Text, PenaltyRule, QueueEnt}
use vx_pbx.Queue.Name.{same_name}
use vx_pbx.Queue.Penalty.{
  RuleList, parse_rule, insert_rule, insert_named, insert_penaltychange, update_qe_rule, is_due,
}

-- Times do not fall along the list, and none is below `t`.
abbrev pub IsSortedFrom : ℤ → List PenaltyRule → Type 0
IsSortedFrom t [] = Unit {0}
IsSortedFrom t (r ∷ rs) = (t ≤ℤ r.time) × IsSortedFrom r.time rs

insert_rule-IsSortedFrom :
    (t : ℤ) (rule : PenaltyRule) (rs : List PenaltyRule)
    → t ≤ℤ rule.time
    → IsSortedFrom t rs
    → IsSortedFrom t (insert_rule rule rs)
unfolding insert_rule
insert_rule-IsSortedFrom t rule [] h s = (h, tt)
insert_rule-IsSortedFrom t rule (r ∷ rs) h s =
    ground (arith, insert_rule-IsSortedFrom r.time rule rs)

-- Every list of rules starts at 0 or later and is sorted.
abbrev pub IsSorted : List RuleList → Type 0
IsSorted = All λ l. IsSortedFrom (pos 0) l.rules

parse_rule-time : (content : Text) (r : PenaltyRule) → parse_rule content ≡ some r → pos 0 ≤ℤ r.time
unfolding parse_rule
parse_rule-time content r e = ground arith

insert_named-IsSorted :
    (list_name : Text) (rule : PenaltyRule) (ls out : List RuleList)
    → pos 0 ≤ℤ rule.time
    → IsSorted ls
    → insert_named list_name rule ls ≡ some out
    → IsSorted out
unfolding insert_named
insert_named-IsSorted list_name rule [] out h s e = cc
insert_named-IsSorted list_name rule (l ∷ ls) out h s e =
    elim (Bool-cases (same_name l.name list_name)) [
      | inl t ↦
          let eq : out ≡ record l { rules = insert_rule rule l.rules } ∷ ls = ground arith in
          rw eq (insert_rule-IsSortedFrom (pos 0) rule l.rules h s.0, s.1)
      | inr f ↦ elim (Option-cases (insert_named list_name rule ls)) [
        | inl n ↦ absurd (ground arith)
        | inr (ls', n) ↦
            let eq : out ≡ l ∷ ls' = ground arith in
            rw eq (s.0, insert_named-IsSorted list_name rule ls ls' h s.1 n)
      ]
    ]

-- A line that `insert_penaltychange` accepts leaves every list sorted by time, from 0 on.
pub insert_penaltychange-IsSorted :
    (list_name content : Text) (lists out : List RuleList)
    → IsSorted lists
    → insert_penaltychange list_name content lists ≡ some out
    → IsSorted out
unfolding insert_penaltychange
insert_penaltychange-IsSorted list_name content lists out s e =
    elim (Option-cases (parse_rule content)) [
      | inl n ↦ absurd (ground arith)
      | inr (rule, r) ↦
          insert_named-IsSorted list_name rule lists out (parse_rule-time content rule r) s
            (ground arith)
    ]

-- The rules that are not due.
abbrev pub not_due : Bool → ℤ → List PenaltyRule → List PenaltyRule
not_due strict elapsed [] = []
not_due strict elapsed (r ∷ rs) =
    if is_due strict elapsed r then not_due strict elapsed rs else r ∷ not_due strict elapsed rs

-- After a rule, the limits of a caller who has both are not negative, and, where the upper one is not
-- INT_MAX, the lower one is not above it.
update_qe_rule_bounds :
    (qe : QueueEnt) (pr : PenaltyRule) (rest : List PenaltyRule)
    → qe.max_penalty ≢ int_max
    → qe.min_penalty ≢ int_max
    → (pos 0 ≤ℤ (update_qe_rule qe pr rest).max_penalty)
      × (pos 0 ≤ℤ (update_qe_rule qe pr rest).min_penalty)
      × ((update_qe_rule qe pr rest).max_penalty ≢ int_max
          → (update_qe_rule qe pr rest).min_penalty ≤ℤ (update_qe_rule qe pr rest).max_penalty)
unfolding update_qe_rule
update_qe_rule_bounds qe pr rest h k = ground arith
