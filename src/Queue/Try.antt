-- ===== src/Queue/Try.antt =====
-- The first half of `try_calling`: who is to be called, and for how long.
-- Memory is found for every attempt. Interfaces are shorter than their buffers. `dialed` is the list of
-- interfaces that the channel carries; the channel's options and its caller identity are left out.
pub mod Prepared
pub mod Limit
use vx_pbx.Base.{
  ℕ, ◌+◌, ◌*◌, Bool, true, false, not, ◌&&◌, ◌||◌, List, [], ◌∷◌, ◌++◌, Option, none, some,
}
use vx_pbx.Base.Tests.{leb, ◌==◌, if◌then◌else◌}
use vx_pbx.Base.Lists.{any, take}
use vx_pbx.Base.Int.{ℤ, pos, negsuc, sub_ℕ, leb_ℤ, eqb_ℤ, int32}
use vx_pbx.Base.Cstr.{codes}
use vx_pbx.Queue.Types.{Text, Member, QueueEnt, CallQueue}
use vx_pbx.Queue.Name.{same_name}
use vx_pbx.Queue.Metric.{CallAttempt, calc_metric}
use vx_pbx.Queue.Settings.{QueueConfig, TimeoutPriority, app, conf}

-- "Local/", compared without case.
unfoldable pub is_local : Text → Bool
unfolding same_name
is_local interface = same_name (take 6 interface) (codes "local/")

abbrev pub is_dialed : List Text → Text → Bool
is_dialed dialed interface = any (same_name interface) dialed

abbrev pub new_attempt : Member → CallAttempt
new_attempt cur = record {
  interface = cur.interface;
  metric = pos 0;
  lastcall = cur.lastcall;
  lastqueue = cur.lastqueue;
  member = cur;
  called = false;
  stillgoing = true;
}

-- The loop's variables: `at` is `x`.
pub record Preparing : Type 0 where
  pub queue : CallQueue
  pub entry : QueueEnt
  pub dialed : List Text
  pub at : ℕ
  pub outgoing : List CallAttempt

abbrev pub add_attempt : Preparing → Option (CallQueue × QueueEnt × CallAttempt) → Preparing
add_attempt s none = record s { at = s.at + 1 }
add_attempt s (some (q, qe, tmp)) = record s {
  queue = q;
  entry = qe;
  at = s.at + 1;
  outgoing = tmp ∷ s.outgoing;
}

-- A Local interface may be dialed again, and is not noted.
unfoldable pub note : Text → List Text → List Text
unfolding is_local
note interface dialed = if is_local interface then dialed else dialed ++ interface ∷ []

-- One member. `draw` gives the results of `ast_random`.
unfoldable pub prepare_one : ℕ → (ℕ → ℕ) → Preparing → Member → Preparing
unfolding note
prepare_one now draw s cur =
    let s' = record s { dialed = note cur.interface s.dialed } in
    if is_dialed s.dialed cur.interface
    then s
    else add_attempt s' (calc_metric now (draw s.at) s.queue cur s.at s.entry (new_attempt cur))

unfoldable pub prepare_all : ℕ → (ℕ → ℕ) → Preparing → List Member → Preparing
unfolding prepare_one
prepare_all now draw s [] = s
prepare_all now draw s (cur ∷ rest) = prepare_all now draw (prepare_one now draw s cur) rest

-- The loop over the members, of which the last one comes first in `outgoing`.
unfoldable pub prepare : ℕ → (ℕ → ℕ) → List Text → CallQueue → QueueEnt → Preparing
unfolding prepare_all
prepare now draw dialed q qe =
    prepare_all now draw (record { queue = q; entry = qe; dialed = dialed; at = 0; outgoing = [] })
      q.members

-- Seconds in milliseconds.
abbrev pub in_ms : ℤ → ℤ
in_ms (pos n) = pos (n * 1000)
in_ms (negsuc n) = negsuc (n * 1000 + 999)

-- `to`, an `int`, where -1 stands for no limit.
unfoldable pub timeout_of : TimeoutPriority → ℤ → ℕ → QueueEnt → ℤ
timeout_of app timeout now qe =
    let left = sub_ℕ qe.expire now in
    if not (qe.expire == 0) && (eqb_ℤ timeout (pos 0) || leb_ℤ left timeout)
    then int32 (in_ms left)
    else if not (eqb_ℤ timeout (pos 0))
    then int32 (in_ms timeout)
    else negsuc 0
timeout_of conf timeout now qe =
    if not (qe.expire == 0) && leb qe.expire now
    then pos 0
    else if not (eqb_ℤ timeout (pos 0))
    then int32 (in_ms timeout)
    else negsuc 0
