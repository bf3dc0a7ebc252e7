-- ===== src/Queue/Metric/Rotation.antt =====
-- The round: members of one penalty are taken in the order of their positions, from the position
-- that is next on, and a lower penalty always goes first.
use vx_pbx.Base.{
  ℕ, ◌+◌, ◌*◌, ◌≤◌, ◌<◌, ◌≡◌, refl, ◌∙◌, ◌↔◌, ◌⊎◌, inl, inr, Bool, true, false, List, some, arith,
}
use vx_pbx.Base.Tests.{if◌then◌else◌}
use vx_pbx.Base.Lists.{length}
use vx_pbx.Base.Int.{
  ℤ, pos, negsuc, pos_part, neg_part, sub_ℕ, ltb_ℤ, ◌<ℤ◌, int32, int32_small, rem,
}
use vx_pbx.Queue.Types.{Strategy, rrmemory, rrordered, Member, CallQueue, QueueEnt}
use vx_pbx.Queue.Metric.{
  CallAttempt, score, calc_metric, find_best, store_next_rr, uses_penalty, round_metric,
  penalty_part,
}

abbrev pub KeepsRound : Strategy → Type 0
KeepsRound s = (s ≡ rrmemory) ⊎ (s ≡ rrordered)

-- How many places the round has to go from `next` to `at`, among `n`.
abbrev pub distance : ℕ → ℤ → ℕ → ℤ
distance n next at =
    let reached = if ltb_ℤ (pos at) next then at + n else at in
    sub_ℕ (reached + neg_part next) (pos_part next)

score_round :
    (s : Strategy) (now draw : ℕ) (q : CallQueue) (mem : Member) (at : ℕ) (qe : QueueEnt)
    → KeepsRound s
    → (score s now draw q mem at qe).metric
      ≡ int32 (pos (round_metric q.rrpos mem.queuepos + penalty_part q mem))
unfolding score
score_round s now draw q mem at qe (inl e) = rw e refl
score_round s now draw q mem at qe (inr e) = rw e refl

abbrev weight : Bool → ℕ → ℕ
weight uses p = if uses then p * 1000000 else 0

-- The numbers behind `calc_metric-rotation`.
rotation_core :
    (uses : Bool) (n : ℕ) (next : ℤ) (i j p r : ℕ)
    → n ≤ 1000
    → i < n
    → j < n
    → (pos (round_metric next i + weight uses p) <ℤ pos (round_metric next j + weight uses r)) ↔ (
        (weight uses p < weight uses r)
        ⊎ ((weight uses p ≡ weight uses r) × (distance n next i <ℤ distance n next j)))
rotation_core true n (pos next) i j p r h hi hj = (λ k. ground arith, λ k. ground arith)
rotation_core true n (negsuc next) i j p r h hi hj = (λ k. ground arith, λ k. ground arith)
rotation_core false n (pos next) i j p r h hi hj = (λ k. ground arith, λ k. ground arith)
rotation_core false n (negsuc next) i j p r h hi hj = (λ k. ground arith, λ k. ground arith)

-- A metric that an `int` holds.
metric_small :
    (uses : Bool) (next : ℤ) (i p : ℕ)
    → i < 1000
    → p ≤ 2147
    → int32 (pos (round_metric next i + weight uses p)) ≡ pos (round_metric next i + weight uses p)
metric_small true next i p h k = int32_small (round_metric next i + weight true p) (ground arith)
metric_small false next i p h k = int32_small (round_metric next i + weight false p) (ground arith)

module _ (now draw : ℕ) (q : CallQueue) (at : ℕ) (qe : QueueEnt) (tmp : CallAttempt)
    (round : KeepsRound q.strategy) where
  -- What the metric is under the strategies that keep a round.
  calc_metric_round :
      (mem : Member) (q' : CallQueue) (qe' : QueueEnt) (tmp' : CallAttempt)
      → calc_metric now draw q mem at qe tmp ≡ some (q', qe', tmp')
      → tmp'.metric ≡ int32 (pos (round_metric q.rrpos mem.queuepos + penalty_part q mem))
  unfolding calc_metric
  calc_metric_round mem q' qe' tmp' e =
      ground (arith, score_round q.strategy now draw q mem at qe round)

  -- Under a strategy that keeps a round, in a queue of at most 1000 members whose positions are below
  -- their number: of two members who can be tried, and whose penalties are at most 2147, the first has
  -- the lower metric exactly if its penalty is lower (where the queue uses penalties), or is the same
  -- and the round, wherever it is, comes to its position first.
  pub calc_metric-rotation :
      (a b : Member) (q₁ q₂ : CallQueue) (e₁ e₂ : QueueEnt) (x y : CallAttempt)
      → length q.members ≤ 1000
      → a.queuepos < length q.members
      → b.queuepos < length q.members
      → a.penalty ≤ 2147
      → b.penalty ≤ 2147
      → calc_metric now draw q a at qe tmp ≡ some (q₁, e₁, x)
      → calc_metric now draw q b at qe tmp ≡ some (q₂, e₂, y)
      → (x.metric <ℤ y.metric) ↔ (
          (penalty_part q a < penalty_part q b)
          ⊎ ((penalty_part q a ≡ penalty_part q b)
              × (distance (length q.members) q.rrpos a.queuepos
                  <ℤ distance (length q.members) q.rrpos b.queuepos)))
  calc_metric-rotation a b q₁ q₂ e₁ e₂ x y n ha hb pa pb ea eb =
      let uses = uses_penalty q in
      let small_a = metric_small uses q.rrpos a.queuepos a.penalty (omega (arith, n, ha)) pa in
      let small_b = metric_small uses q.rrpos b.queuepos b.penalty (omega (arith, n, hb)) pb in
      rw (calc_metric_round a q₁ e₁ x ea ∙ small_a, calc_metric_round b q₂ e₂ y eb ∙ small_b)
        (rotation_core uses (length q.members) q.rrpos a.queuepos b.queuepos a.penalty b.penalty n
          ha hb)

-- Under a strategy that keeps a round, the position that `store_next_rr` writes is that of the member,
-- at a position below 1000 and of a penalty of at most 2147, whose scored attempt `find_best` yields:
-- 1000 added for a second round and the penalty leave no trace.
store_next_rr-queuepos :
    (now draw : ℕ) (q : CallQueue) (at : ℕ) (qe : QueueEnt) (tmp : CallAttempt) (mem : Member)
    (q' q'' : CallQueue) (qe' : QueueEnt) (best : CallAttempt) (outgoing : List CallAttempt) (i : ℕ)
    → KeepsRound q.strategy
    → mem.queuepos < 1000
    → mem.penalty ≤ 2147
    → calc_metric now draw q mem at qe tmp ≡ some (q', qe', best)
    → find_best outgoing ≡ some (i, best)
    → ((store_next_rr q'' outgoing).rrpos ≡ pos mem.queuepos)
      × ((store_next_rr q'' outgoing).wrapped ≡ false)
unfolding store_next_rr rem
store_next_rr-queuepos now draw q at qe tmp mem q' q'' qe' best outgoing i round h p e f =
    let m =
      calc_metric_round now draw q at qe tmp round mem q' qe' best e
      ∙ metric_small (uses_penalty q) q.rrpos mem.queuepos mem.penalty h p in
    rw (f, store_next_rr) (rw m (ground arith), refl)
