-- ===== src/Queue/Metric.antt =====
-- Who is called next: `calc_metric`, `find_best`, `store_next_rr` and `store_next_lin`.
-- An attempt is pointed to by its place in the list of attempts. A metric is
-- an `int` and wraps around, as the product by 1000000 does for penalties from 2148 on.
pub mod Best
pub mod Rotation
use vx_pbx.Base.{
  ℕ, suc, ◌+◌, ◌*◌, ◌%◌, Bool, true, false, not, ◌&&◌, ◌||◌, List, [], ◌∷◌, Option, none, some,
}
use vx_pbx.Base.Tests.{ltb, leb, ◌==◌, if◌then◌else◌}
use vx_pbx.Base.Lists.{length}
use vx_pbx.Base.Int.{ℤ, pos, sub_ℕ, ltb_ℤ, ◌+ℤ◌, int32, magnitude, rem}
use vx_pbx.Queue.Types.{
  Text, Member, CallQueue, QueueEnt, Strategy, ringall, leastrecent, fewestcalls, random, rrmemory,
  linear, wrandom, rrordered,
}
use vx_pbx.Queue.Members.{outside_penalty}

-- `struct callattempt`; `called` tells that `chan` is not NULL.
pub record CallAttempt : Type 0 where
  pub interface : Text
  pub metric : ℤ
  pub lastcall : ℕ
  pub lastqueue : Option ℕ
  pub member : Member
  pub called : Bool
  pub stillgoing : Bool

-- `usepenalty`
abbrev pub uses_penalty : CallQueue → Bool
uses_penalty q = not (leb (length q.members) q.penaltymemberslimit)

abbrev pub penalty_part : CallQueue → Member → ℕ
penalty_part q mem = if uses_penalty q then mem.penalty * 1000000 else 0

-- The metric of a member at place `at` when the round is at `next`.
abbrev pub round_metric : ℤ → ℕ → ℕ
round_metric next at = if ltb_ℤ (pos at) next then 1000 + at else at

-- 1000000 - (now - lastcall), for a call that lies in the past.
abbrev pub idle_metric : ℕ → ℕ → ℕ → ℤ
idle_metric now lastcall penalty =
    if lastcall == 0 then pos penalty else sub_ℕ (1000000 + lastcall + penalty) now

-- What the switch writes: the metric, and the flags that tell of another place in the round.
pub record Scored : Type 0 where
  pub metric : ℤ
  pub wrapped : Bool
  pub linwrapped : Bool

-- `draw` is the result of `ast_random`; C defines no remainder by 0.
unfoldable pub score : Strategy → ℕ → ℕ → CallQueue → Member → ℕ → QueueEnt → Scored
unfolding int32
score ringall now draw q mem at qe = record {
  metric = int32 (pos (penalty_part q mem));
  wrapped = q.wrapped;
  linwrapped = qe.linwrapped;
}
score linear now draw q mem at qe = record {
  metric = int32 (pos (round_metric qe.linpos at + penalty_part q mem));
  wrapped = q.wrapped;
  linwrapped = if ltb_ℤ qe.linpos (pos at) then true else qe.linwrapped;
}
score rrordered now draw q mem at qe = record {
  metric = int32 (pos (round_metric q.rrpos mem.queuepos + penalty_part q mem));
  wrapped = if ltb_ℤ q.rrpos (pos mem.queuepos) then true else q.wrapped;
  linwrapped = qe.linwrapped;
}
score rrmemory now draw q mem at qe = record {
  metric = int32 (pos (round_metric q.rrpos mem.queuepos + penalty_part q mem));
  wrapped = if ltb_ℤ q.rrpos (pos mem.queuepos) then true else q.wrapped;
  linwrapped = qe.linwrapped;
}
score random now draw q mem at qe = record {
  metric = int32 (pos (draw % 1000 + penalty_part q mem));
  wrapped = q.wrapped;
  linwrapped = qe.linwrapped;
}
score wrandom now draw q mem at qe = record {
  metric = int32 (pos (draw % magnitude (int32 (pos ((1 + mem.penalty) * 1000)))));
  wrapped = q.wrapped;
  linwrapped = qe.linwrapped;
}
score fewestcalls now draw q mem at qe = record {
  metric = int32 (pos (mem.calls + penalty_part q mem));
  wrapped = q.wrapped;
  linwrapped = qe.linwrapped;
}
score leastrecent now draw q mem at qe = record {
  metric = int32 (idle_metric now mem.lastcall (penalty_part q mem));
  wrapped = q.wrapped;
  linwrapped = qe.linwrapped;
}

-- `none` is the result -1: the caller's penalties leave the member out.
unfoldable pub calc_metric :
    ℕ
    → ℕ
    → CallQueue
    → Member
    → ℕ
    → QueueEnt
    → CallAttempt
    → Option (CallQueue × QueueEnt × CallAttempt)
calc_metric now draw q mem at qe tmp =
    let s = score q.strategy now draw q mem at qe in
    if uses_penalty q && outside_penalty qe.max_penalty qe.min_penalty mem.penalty
    then none
    else some (
      record q { wrapped = s.wrapped },
      record qe { linwrapped = s.linwrapped },
      record tmp { metric = s.metric },
    )

-- Still to be tried, and not ringing.
abbrev pub is_open : CallAttempt → Bool
is_open a = a.stillgoing && not a.called

abbrev pub is_better : CallAttempt → Option (ℕ × CallAttempt) → Bool
is_better cur none = true
is_better cur (some (i, best)) = ltb_ℤ cur.metric best.metric

unfoldable pub best_loop :
    ℕ → Option (ℕ × CallAttempt) → List CallAttempt → Option (ℕ × CallAttempt)
best_loop i best [] = best
best_loop i best (cur ∷ rest) =
    best_loop (i + 1) (if is_open cur && is_better cur best then some (i, cur) else best) rest

unfoldable pub find_best : List CallAttempt → Option (ℕ × CallAttempt)
unfolding best_loop
find_best outgoing = best_loop 0 none outgoing

unfoldable pub store_next_rr : CallQueue → List CallAttempt → CallQueue
unfolding rem ◌+ℤ◌
store_next_rr q outgoing = elim (find_best outgoing) [
  | some (i, best) ↦ record q { rrpos = rem best.metric 1000; wrapped = false }
  | none ↦ record q { rrpos = if q.wrapped then pos 0 else q.rrpos +ℤ pos 1; wrapped = false }
]

unfoldable pub store_next_lin : QueueEnt → List CallAttempt → QueueEnt
unfolding rem ◌+ℤ◌
store_next_lin qe outgoing = elim (find_best outgoing) [
  | some (i, best) ↦ record qe { linpos = rem best.metric 1000; linwrapped = false }
  | none ↦ record qe {
    linpos = if qe.linwrapped then pos 0 else qe.linpos +ℤ pos 1;
    linwrapped = false;
  }
]
