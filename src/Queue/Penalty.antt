-- ===== src/Queue/Penalty.antt =====
-- Penalty rules: `insert_penaltychange`, `copy_rules`, `update_qe_rule`, and the loops that apply
-- the rules that are due.
pub mod Due
use vx_pbx.Base.{ℕ, ◌-◌, Bool, true, false, not, ◌&&◌, ◌||◌, List, [], ◌∷◌, Option, none, some}
use vx_pbx.Base.Tests.{◌==◌, if◌then◌else◌}
use vx_pbx.Base.Int.{ℤ, pos, ◌+ℤ◌, ltb_ℤ, leb_ℤ, eqb_ℤ, int_max}
use vx_pbx.Base.Cstr.{atoi, split_at}
use vx_pbx.Queue.Types.{Text, PenaltyRule, QueueEnt, CallQueue}
use vx_pbx.Queue.Name.{same_name}

abbrev pub is_sign : Text → Bool
is_sign [] = false
is_sign (c ∷ cs) = c == b'+' || c == b'-'

abbrev pub is_nil : Text → Bool
is_nil [] = true
is_nil (c ∷ cs) = false

-- What stands behind the second comma, or nothing.
abbrev pub min_text : Text → Text
min_text maxstr = elim (split_at b',' maxstr) [ none ↦ [] | some (a, b) ↦ b ]

abbrev pub max_text : Text → Text
max_text maxstr = elim (split_at b',' maxstr) [ none ↦ maxstr | some (a, b) ↦ a ]

-- The rule that a line `time,max[,min]` states.
unfoldable pub parse_rule : Text → Option PenaltyRule
parse_rule content = elim (split_at b',' content) [
  | none ↦ none
  | some (timestr, maxstr) ↦
      if ltb_ℤ (atoi timestr) (pos 0)
      then none
      else some (record {
        time = atoi timestr;
        max_value = atoi (max_text maxstr);
        max_relative = is_sign (max_text maxstr) || is_nil (max_text maxstr);
        min_value = if is_nil (min_text maxstr) then pos 0 else atoi (min_text maxstr);
        min_relative = is_nil (min_text maxstr) || is_sign (min_text maxstr);
      })
]

-- Before the first rule that comes later, or at the end.
unfoldable pub insert_rule : PenaltyRule → List PenaltyRule → List PenaltyRule
insert_rule rule [] = rule ∷ []
insert_rule rule (r ∷ rest) =
    if ltb_ℤ rule.time r.time then rule ∷ r ∷ rest else r ∷ insert_rule rule rest

pub record RuleList : Type 0 where
  pub name : Text
  pub rules : List PenaltyRule

-- Into the first list of that name; `none` where there is none.
unfoldable pub insert_named : Text → PenaltyRule → List RuleList → Option (List RuleList)
unfolding insert_rule
insert_named list_name rule [] = none
insert_named list_name rule (l ∷ ls) =
    if same_name l.name list_name
    then some (record l { rules = insert_rule rule l.rules } ∷ ls)
    else (elim (insert_named list_name rule ls) [ none ↦ none | some ls' ↦ some (l ∷ ls') ])

-- `none` is the result -1, which leaves the lists as they were.
unfoldable pub insert_penaltychange : Text → Text → List RuleList → Option (List RuleList)
insert_penaltychange list_name content lists = elim (parse_rule content) [
  | none ↦ none
  | some rule ↦ insert_named list_name rule lists
]

unfoldable pub find_rules : Text → List RuleList → List PenaltyRule
find_rules name [] = []
find_rules name (l ∷ ls) = if same_name l.name name then l.rules else find_rules name ls

-- `copy_rules`, with `pr` set to the first of the rules. The caller has none before.
unfoldable pub copy_rules : Text → Text → List RuleList → QueueEnt → QueueEnt
unfolding find_rules
copy_rules defaultrule rulename lists qe = record qe {
  rules = find_rules (if is_nil rulename then defaultrule else rulename) lists;
}

abbrev pub not_below_zero : ℤ → ℤ
not_below_zero x = if ltb_ℤ x (pos 0) then pos 0 else x

-- The local `max_penalty` of `update_qe_rule`, which stays INT_MAX where the caller has no limit.
unfoldable pub next_max : QueueEnt → PenaltyRule → ℤ
next_max qe pr =
    if eqb_ℤ qe.max_penalty int_max
    then int_max
    else not_below_zero (if pr.max_relative then qe.max_penalty +ℤ pr.max_value else pr.max_value)

unfoldable pub next_min : QueueEnt → PenaltyRule → ℤ → ℤ
next_min qe pr max_penalty =
    let given =
      not_below_zero (if pr.min_relative then qe.min_penalty +ℤ pr.min_value else pr.min_value) in
    if eqb_ℤ qe.min_penalty int_max
    then qe.min_penalty
    else if not (eqb_ℤ max_penalty int_max) && ltb_ℤ max_penalty given
    then max_penalty
    else given

-- `update_qe_rule`, by the rule at `pr`; `rest` are those behind it.
unfoldable pub update_qe_rule : QueueEnt → PenaltyRule → List PenaltyRule → QueueEnt
unfolding next_max next_min
update_qe_rule qe pr rest = record qe {
  max_penalty = next_max qe pr;
  min_penalty = next_min qe pr (next_max qe pr);
  rules = rest;
}

-- `while (qe->pr && (elapsed >= qe->pr->time))` in `wait_our_turn`; `queue_exec` has `>` (`strict`).
abbrev pub is_due : Bool → ℤ → PenaltyRule → Bool
is_due strict elapsed r = if strict then ltb_ℤ r.time elapsed else leb_ℤ r.time elapsed

unfoldable pub apply_rules : Bool → ℤ → QueueEnt → List PenaltyRule → QueueEnt
apply_rules strict elapsed qe [] = record qe { rules = [] }
apply_rules strict elapsed qe (r ∷ rest) =
    let more = apply_rules strict elapsed (update_qe_rule qe r rest) rest in
    if is_due strict elapsed r then more else record qe { rules = r ∷ rest }

unfoldable pub apply_due : Bool → ℤ → QueueEnt → QueueEnt
unfolding apply_rules
apply_due strict elapsed qe = apply_rules strict elapsed qe qe.rules
