-- ===== src/Tests/Members.antt =====
-- The members of a queue, its penalty rules and its figures.
use vx_pbx.Base.{ℕ, ◌≡◌, refl, true, List, [], ◌∷◌, some, arith}
use vx_pbx.Base.Lists.{All}
use vx_pbx.Base.Cstr.{split_at, atoi}
use vx_pbx.Base.Int.{pos}
use vx_pbx.Queue.Types.{QueueEnt, PenaltyRule, Text}
use vx_pbx.Queue.Name.{same_name}
use vx_pbx.Queue.Roster.{find_member, member_remove_from_queue}
use vx_pbx.Queue.Roster.Positions.{IsRoster, member_remove_from_queue-IsRoster}
use vx_pbx.Queue.Penalty.{RuleList, insert_penaltychange, insert_named, parse_rule}
use vx_pbx.Queue.Penalty.Due.{IsSorted, insert_penaltychange-IsSorted}
use vx_pbx.Queue.Stats.{update_queue}
use vx_pbx.Queue.Stats.Average.{Rests, update_queue-Rests}
use vx_pbx.Tests.Data.{caller, queue, member, members}

members-IsRoster : IsRoster members
members-IsRoster = (
  (omega arith, (omega arith, (omega arith, tt))),
  (
    ((λ e. omega (arith, e)), ((λ e. omega (arith, e)), tt)),
    (((λ e. omega (arith, e)), tt), (tt, tt)),
  ),
)

found_b : find_member (b'b' ∷ []) members ≡ some (member b'b' 1)
unfolding find_member same_name
found_b = refl

member_remove_from_queue-IsRoster_example :
    IsRoster (member_remove_from_queue queue (member b'b' 1)).members
member_remove_from_queue-IsRoster_example =
    member_remove_from_queue-IsRoster queue (b'b' ∷ []) (member b'b' 1) members-IsRoster found_b

-- "30,+3"
abbrev rule_line : Text
rule_line = b'3' ∷ b'0' ∷ b',' ∷ b'+' ∷ b'3' ∷ []

abbrev rule_at : ℕ → PenaltyRule
rule_at t = record {
  time = pos t;
  max_value = pos 3;
  min_value = pos 0;
  max_relative = true;
  min_relative = true;
}

abbrev lists_before : List RuleList
lists_before = record { name = b'r' ∷ []; rules = rule_at 60 ∷ [] } ∷ []

abbrev lists_after : List RuleList
lists_after = record { name = b'r' ∷ []; rules = rule_at 30 ∷ rule_at 60 ∷ [] } ∷ []

rule_accepted : insert_penaltychange (b'r' ∷ []) rule_line lists_before ≡ some lists_after
unfolding insert_penaltychange parse_rule split_at atoi insert_named same_name
rule_accepted = refl

insert_penaltychange-IsSorted_example : IsSorted lists_after
insert_penaltychange-IsSorted_example =
    insert_penaltychange-IsSorted (b'r' ∷ []) rule_line lists_before lists_after
      ((omega arith, tt), tt) rule_accepted

abbrev ruled : QueueEnt
ruled = record (caller 11 (pos 0) 1 0) { rules = rule_at 30 ∷ rule_at 60 ∷ [] }

update_queue-Rests_example :
    All
      (Rests 100 105 (b'b' ∷ []))
      (update_queue true 100 1 (b'b' ∷ []) true 30 (queue ∷ record queue { address = 2 } ∷ []))
update_queue-Rests_example =
    update_queue-Rests 100 105 1 (b'b' ∷ []) true 30 (queue ∷ record queue { address = 2 } ∷ [])
      (omega arith)
