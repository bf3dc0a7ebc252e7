-- ===== src/Queue/Settings/Sane.antt =====
-- What holds of the settings of a queue, whatever its configuration says.
use vx_pbx.Base.{
  ℕ, zero, suc, ◌≤◌, ◌||◌, ◌≡◌, refl, Bool, true, false, List, [], ◌∷◌, ◌++◌, arith, inl, inr,
}
use vx_pbx.Base.Tests.{if◌then◌else◌, Bool-cases, ◌==◌}
use vx_pbx.Base.Lists.{length, take, drop, All, length-append}
use vx_pbx.Base.Int.{ℤ, pos, ltb_ℤ}
use vx_pbx.Base.Cstr.{atoi}
use vx_pbx.Queue.Types.{Text}
use vx_pbx.Queue.Name.{same_name}
use vx_pbx.Queue.Settings.{Answers, QueueConfig, init_queue, fresh_sounds}
use vx_pbx.Queue.Settings.Values.{
  set_strategy, strat2int, set_rounding, set_sounds, sounds_of, is_rounding, split_all, add_first,
  has_comma,
}
use vx_pbx.Queue.Settings.Plain.{ParamTable, text_params, flag_params}
use vx_pbx.Queue.Settings.Params.{
  number_params, other_params, params, set_in, queue_set_param, set_params,
}
use vx_pbx.Queue.Settings.Ranges.{IsSane, Keeps, text-Keeps, flag-Keeps, number-Keeps}

rounded : (z : ℤ) → is_rounding (if is_rounding z then z else pos 0) ≡ true
rounded z = elim (Bool-cases (is_rounding z)) [ inl r ↦ rw r r | inr r ↦ rw r refl ]

rounding-IsSane : (q : QueueConfig) (v : Text) → IsSane q → IsSane (set_rounding q v)
unfolding set_rounding
rounding-IsSane q v h = (h.0, h.1, h.2, h.3, h.4, h.5, rounded (atoi v), h.7, h.8, h.9)

added : (c : ℕ) (ts : List Text) → 1 ≤ length (add_first c ts)
added c [] = omega arith
added c (t ∷ ts) = omega arith

split_all-length : (p : ℕ → Bool) (s : Text) → 1 ≤ length (split_all p s)
unfolding split_all
split_all-length p [] = omega arith
split_all-length p (c ∷ s) = elim (Bool-cases (p c)) [
  | inl d ↦ rw d (omega arith)
  | inr d ↦ rw d (added c (split_all p s))
]

take-le : (n : ℕ) (ts : List Text) → length (take n ts) ≤ n
take-le zero ts = omega arith
take-le (suc n) [] = omega arith
take-le (suc n) (t ∷ ts) = omega (arith, take-le n ts)

take-not_empty : (n : ℕ) (ts : List Text) → 1 ≤ n → 1 ≤ length ts → 1 ≤ length (take n ts)
take-not_empty zero ts m h = m
take-not_empty (suc n) [] m h = h
take-not_empty (suc n) (t ∷ ts) m h = omega arith

sounds_of_bounds : (v : Text) → (1 ≤ length (sounds_of v)) × (length (sounds_of v) ≤ 128)
unfolding sounds_of
sounds_of_bounds v =
    let words = split_all (λ c. c == b',' || c == b'|') v in
    elim (Bool-cases (has_comma v)) [
      | inl comma ↦
          rw comma
            (take-not_empty 128 words (omega arith) (split_all-length _ v), take-le 128 words)
      | inr plain ↦ rw plain (omega arith, omega arith)
    ]

sounds-IsSane : (q : QueueConfig) (v : Text) → IsSane q → IsSane (set_sounds q v)
unfolding set_sounds
sounds-IsSane q v h =
    let new = sounds_of v in
    let b = sounds_of_bounds v in
    let len = length-append new (drop (length new) q.sound_periodicannounce) in
    (h.0, h.1, h.2, h.3, h.4, h.5, h.6, omega (arith, len), omega (arith, len, b.0), b.1)

chosen_strategy :
    (test : Bool) (z : ℤ) (q : QueueConfig)
    → IsSane q
    → IsSane (if test then q else record q { strategy = z })
chosen_strategy true z q h = h
chosen_strategy false z q h = h

strategy-IsSane :
    (failunknown : Bool) (q : QueueConfig) (v : Text)
    → IsSane q
    → IsSane (set_strategy failunknown q v)
unfolding set_strategy
strategy-IsSane true q v h = h
strategy-IsSane false q v h = elim (Bool-cases (ltb_ℤ (strat2int v) (pos 0))) [
  | inl unknown ↦ rw unknown (chosen_strategy _ (strat2int v) (record q { strategy = pos 0 }) h)
  | inr known ↦ rw known (chosen_strategy _ (strat2int v) q h)
]

montype-IsSane :
    (test : Bool) (q q' : QueueConfig) → IsSane q → IsSane q' → IsSane (if test then q else q')
montype-IsSane true q q' h k = h
montype-IsSane false q q' h k = k

other-Keeps : (w : Answers) (failunknown : Bool) → All Keeps (other_params w failunknown)
unfolding other_params
other-Keeps w failunknown = (
  rounding-IsSane,
  (
    (λ q v h. h),
    (
      (λ q v h. h),
      (
        sounds-IsSane,
        (
          (λ q v h. montype-IsSane _ _ _ h h),
          (
            (λ q v h. h),
            (
              strategy-IsSane failunknown,
              ((λ q v h. h), ((λ q v h. h), ((λ q v h. h), ((λ q v h. h), tt)))),
            ),
          ),
        ),
      ),
    ),
  ),
)

set_in-IsSane :
    (table : ParamTable) (param val : Text) (q : QueueConfig)
    → All Keeps table
    → IsSane q
    → IsSane (set_in table param val q)
unfolding set_in
set_in-IsSane [] param val q keeps h = h
set_in-IsSane ((name, branch) ∷ rest) param val q keeps h =
    elim (Bool-cases (same_name param name)) [
      | inl this ↦ rw this (keeps.0 q val h)
      | inr other ↦ rw other (set_in-IsSane rest param val q keeps.1 h)
    ]

All-++ : (xs ys : ParamTable) → All Keeps xs → All Keeps ys → All Keeps (xs ++ ys)
All-++ [] ys h k = k
All-++ (x ∷ xs) ys h k = (h.0, All-++ xs ys h.1 k)

queue_set_param-IsSane :
    (w : Answers) (param val : Text) (failunknown : Bool) (q : QueueConfig)
    → IsSane q
    → IsSane (queue_set_param w param val failunknown q)
unfolding queue_set_param params
queue_set_param-IsSane w param val failunknown q h =
    let others = number_params w ++ other_params w failunknown in
    set_in-IsSane (params w failunknown) param val q
      (All-++ text_params (flag_params w ++ others) text-Keeps (
        All-++ (flag_params w) others (flag-Keeps w) (
          All-++ (number_params w) (other_params w failunknown) (number-Keeps w)
            (other-Keeps w failunknown))))
      h

init_queue-IsSane : (w : Answers) (q : QueueConfig) → IsSane (init_queue w q)
unfolding init_queue fresh_sounds
init_queue-IsSane w q = (
  omega arith,
  omega arith,
  omega arith,
  omega arith,
  omega arith,
  omega arith,
  refl,
  omega arith,
  omega arith,
  omega arith,
)

set_params_from-IsSane :
    (w : Answers) (lines : List (Text × Text)) (q : QueueConfig)
    → IsSane q
    → IsSane (set_params w lines q)
unfolding set_params
set_params_from-IsSane w [] q h = h
set_params_from-IsSane w ((param, val) ∷ lines) q h =
    set_params_from-IsSane w lines (queue_set_param w param val true q)
      (queue_set_param-IsSane w param val true q h)

-- Whatever the configuration of a queue says, and whatever was set before, the settings that it
-- results in are sane: the counts and times are in their ranges, the rounding is one of the five steps
-- or none, and the sounds of the periodic announcement that are counted are in the array, which holds
-- at least one.
pub set_params-IsSane :
    (w : Answers) (lines : List (Text × Text)) (q : QueueConfig)
    → IsSane (set_params w lines (init_queue w q))
set_params-IsSane w lines q =
    set_params_from-IsSane w lines (init_queue w q) (init_queue-IsSane w q)
