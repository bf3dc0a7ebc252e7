-- ===== src/Queue/Settings/Ranges.antt =====
-- The ranges that the settings of a queue keep to, and the parameters that are stored as they are or as
-- a number.
use vx_pbx.Base.{ℕ, ◌≤◌, ◌≡◌, true, arith, inl, inr}
use vx_pbx.Base.Tests.{Bool-cases}
use vx_pbx.Base.Lists.{length, All}
use vx_pbx.Base.Int.{ℤ, pos, ltb_ℤ, ◌≤ℤ◌}
use vx_pbx.Base.Cstr.{atoi}
use vx_pbx.Queue.Types.{Text}
use vx_pbx.Queue.Settings.{Answers, QueueConfig}
use vx_pbx.Queue.Settings.Values.{is_rounding}
use vx_pbx.Queue.Settings.Plain.{text_params, flag_params}
use vx_pbx.Queue.Settings.Params.{at_least, number_params}

-- Numbers that the queue counts or divides by have the least value that makes sense, the hold time is
-- rounded to one of the five steps or not at all, and the array holds the sounds that are counted,
-- at least one and at most MAX_PERIODIC_ANNOUNCEMENTS.
abbrev pub IsSane : QueueConfig → Type 0
IsSane q =
    (pos 0 ≤ℤ q.timeout)
    × (pos 1 ≤ℤ q.retry)
    × (pos 0 ≤ℤ q.maxlen)
    × (pos 0 ≤ℤ q.offset)
    × (pos 1 ≤ℤ q.minhold)
    × (pos 1 ≤ℤ q.announcetimelimit)
    × (is_rounding q.roundingseconds ≡ true)
    × (q.numperiodicannounce ≤ length q.sound_periodicannounce)
    × (1 ≤ length q.sound_periodicannounce)
    × (q.numperiodicannounce ≤ 128)

-- A branch that keeps the settings sane.
abbrev pub Keeps : (Text × (QueueConfig → Text → QueueConfig)) → Type 0
Keeps e = (q : QueueConfig) (v : Text) → IsSane q → IsSane (e.1 q v)

kept : (low : ℕ) (default z : ℤ) → pos low ≤ℤ default → pos low ≤ℤ at_least low default z
kept low default z h = elim (Bool-cases (ltb_ℤ z (pos low))) [
  | inl small ↦ rw small h
  | inr there ↦ rw there (ground arith)
]

pub text-Keeps : All Keeps text_params
unfolding text_params
text-Keeps = (
  (λ q v h. h),
  (
    (λ q v h. h),
    (
      (λ q v h. h),
      (
        (λ q v h. h),
        (
          (λ q v h. h),
          (
            (λ q v h. h),
            (
              (λ q v h. h),
              (
                (λ q v h. h),
                (
                  (λ q v h. h),
                  (
                    (λ q v h. h),
                    (
                      (λ q v h. h),
                      (
                        (λ q v h. h),
                        (
                          (λ q v h. h),
                          (
                            (λ q v h. h),
                            (
                              (λ q v h. h),
                              (
                                (λ q v h. h),
                                (
                                  (λ q v h. h),
                                  (
                                    (λ q v h. h),
                                    ((λ q v h. h), ((λ q v h. h), ((λ q v h. h), tt))),
                                  ),
                                ),
                              ),
                            ),
                          ),
                        ),
                      ),
                    ),
                  ),
                ),
              ),
            ),
          ),
        ),
      ),
    ),
  ),
)

pub flag-Keeps : (w : Answers) → All Keeps (flag_params w)
unfolding flag_params
flag-Keeps w = (
  (λ q v h. h),
  (
    (λ q v h. h),
    (
      (λ q v h. h),
      (
        (λ q v h. h),
        (
          (λ q v h. h),
          (
            (λ q v h. h),
            (
              (λ q v h. h),
              (
                (λ q v h. h),
                (
                  (λ q v h. h),
                  (
                    (λ q v h. h),
                    (
                      (λ q v h. h),
                      (
                        (λ q v h. h),
                        ((λ q v h. h), ((λ q v h. h), ((λ q v h. h), ((λ q v h. h), tt)))),
                      ),
                    ),
                  ),
                ),
              ),
            ),
          ),
        ),
      ),
    ),
  ),
)

pub number-Keeps : (w : Answers) → All Keeps (number_params w)
unfolding number_params
number-Keeps w = (
  (λ q v h. (kept 0 (pos 15) (atoi v) (omega arith), h.1, h.2, h.3, h.4, h.5, h.6, h.7, h.8, h.9)),
  (
    (λ q v h. h),
    (
      (λ q v h. h),
      (
        (λ q v h. h),
        (
          (λ q v h.
              (h.0, h.1, h.2, h.3, h.4, kept 1 (pos 1) (atoi v) (omega arith), h.6, h.7, h.8, h.9)),
          (
            (λ q v h. h),
            (
              (λ q v h. h),
              (
                (λ q v h. h),
                (
                  (λ q v h. (
                    h.0,
                    kept 1 (pos 5) (atoi v) (omega arith),
                    h.2,
                    h.3,
                    h.4,
                    h.5,
                    h.6,
                    h.7,
                    h.8,
                    h.9,
                  )),
                  (
                    (λ q v h. h),
                    (
                      (λ q v h. h),
                      (
                        (λ q v h. h),
                        (
                          (λ q v h. (
                            h.0,
                            h.1,
                            kept 0 (pos 0) (atoi v) (omega arith),
                            h.3,
                            h.4,
                            h.5,
                            h.6,
                            h.7,
                            h.8,
                            h.9,
                          )),
                          (
                            (λ q v h. (
                              h.0,
                              h.1,
                              h.2,
                              kept 0 (pos 0) (atoi v) (omega arith),
                              h.4,
                              h.5,
                              h.6,
                              h.7,
                              h.8,
                              h.9,
                            )),
                            (
                              (λ q v h. (
                                h.0,
                                h.1,
                                h.2,
                                h.3,
                                kept 1 (pos 1) (atoi v) (omega arith),
                                h.5,
                                h.6,
                                h.7,
                                h.8,
                                h.9,
                              )),
                              ((λ q v h. h), ((λ q v h. h), ((λ q v h. h), tt))),
                            ),
                          ),
                        ),
                      ),
                    ),
                  ),
                ),
              ),
            ),
          ),
        ),
      ),
    ),
  ),
)
