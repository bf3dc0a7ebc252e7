-- ===== src/Queue/Settings/Params.antt =====
-- `queue_set_param`: the tests of the parameter's name and their branches as a table, grouped by what is
-- written. No name occurs twice, so the order of the tests decides nothing. Warnings are left out.
use vx_pbx.Base.{ℕ, Bool, true, false, List, [], ◌∷◌, ◌++◌, Option, none, some}
use vx_pbx.Base.Tests.{if◌then◌else◌, bit}
use vx_pbx.Base.Int.{ℤ, pos, ltb_ℤ}
use vx_pbx.Base.Cstr.{atoi, codes}
use vx_pbx.Queue.Types.{Text, AnnouncePosition}
use vx_pbx.Queue.Name.{same_name}
use vx_pbx.Queue.Settings.{Answers, QueueConfig, app, conf}
use vx_pbx.Queue.Settings.Values.{
  parse_empty_options, autopause2int, set_strategy, set_rounding, set_sounds,
}
use vx_pbx.Queue.Settings.Plain.{ParamTable, text_params, flag_params}

abbrev pub at_least : ℕ → ℤ → ℤ → ℤ
at_least low default z = if ltb_ℤ z (pos low) then default else z

abbrev number_or_0 : Option ℤ → ℤ
number_or_0 none = pos 0
number_or_0 (some z) = z

abbrev holdtime_of : Answers → Text → ℕ
holdtime_of w v = if same_name v (codes "once") then 2 else bit (w.is_true v)

abbrev position_of : Answers → Text → AnnouncePosition
position_of w v =
    if same_name v (codes "limit")
    then AnnouncePosition.limit
    else if same_name v (codes "more")
    then AnnouncePosition.more_than
    else if w.is_true v
    then AnnouncePosition.always
    else AnnouncePosition.never

unfoldable pub number_params : Answers → ParamTable
unfolding atoi
number_params w =
    (codes "timeout", λ q v. record q { timeout = at_least 0 (pos 15) (atoi v) })
    ∷ (codes "announce-frequency", λ q v. record q { announcefrequency = atoi v })
    ∷ (codes "min-announce-frequency", λ q v. record q { minannouncefrequency = atoi v })
    ∷ (codes "announce-position-limit", λ q v. record q { announcepositionlimit = atoi v })
    ∷ (
      codes "announce-time-limit",
      λ q v. record q { announcetimelimit = at_least 1 (pos 1) (atoi v) },
    )
    ∷ (codes "announce-delay", λ q v. record q { announcedelay = atoi v })
    ∷ (codes "periodic-announce-limit", λ q v. record q { periodicannouncelimit = atoi v })
    ∷ (codes "periodic-announce-frequency", λ q v. record q { periodicannouncefrequency = atoi v })
    ∷ (codes "retry", λ q v. record q { retry = at_least 1 (pos 5) (atoi v) })
    ∷ (codes "wrapuptime", λ q v. record q { wrapuptime = atoi v })
    ∷ (
      codes "penaltymemberslimit",
      λ q v. record q { penaltymemberslimit = number_or_0 (w.scan_int v) },
    )
    ∷ (codes "autopausedelay", λ q v. record q { autopausedelay = atoi v })
    ∷ (codes "maxlen", λ q v. record q { maxlen = at_least 0 (pos 0) (atoi v) })
    ∷ (codes "offset", λ q v. record q { offset = at_least 0 (pos 0) (atoi v) })
    ∷ (codes "minhold", λ q v. record q { minhold = at_least 1 (pos 1) (atoi v) })
    ∷ (codes "servicelevel", λ q v. record q { servicelevel = atoi v })
    ∷ (codes "memberdelay", λ q v. record q { memberdelay = atoi v })
    ∷ (codes "weight", λ q v. record q { weight = atoi v })
    ∷ []

unfoldable pub other_params : Answers → Bool → ParamTable
unfolding set_rounding set_sounds autopause2int set_strategy parse_empty_options same_name
other_params w failunknown =
    (codes "announce-round-seconds", λ q v. set_rounding q v)
    ∷ (codes "announce-holdtime", λ q v. record q { announceholdtime = holdtime_of w v })
    ∷ (codes "announce-position", λ q v. record q { announceposition = position_of w v })
    ∷ (codes "periodic-announce", λ q v. set_sounds q v)
    ∷ (
      codes "monitor-type",
      λ q v. if same_name v (codes "mixmonitor") then record q { montype = 1 } else q,
    )
    ∷ (codes "autopause", λ q v. record q { autopause = autopause2int w v })
    ∷ (codes "strategy", λ q v. set_strategy failunknown q v)
    ∷ (codes "joinempty", λ q v. record q { joinempty = parse_empty_options w v q.joinempty true })
    ∷ (
      codes "leavewhenempty",
      λ q v. record q { leavewhenempty = parse_empty_options w v q.leavewhenempty false },
    )
    ∷ (
      codes "eventwhencalled",
      λ q v. record q {
        eventwhencalled = if same_name v (codes "vars") then 3 else bit (w.is_true v);
      },
    )
    ∷ (
      codes "timeoutpriority",
      λ q v. record q { timeoutpriority = if same_name v (codes "conf") then conf else app },
    )
    ∷ []

unfoldable pub params : Answers → Bool → ParamTable
unfolding text_params flag_params number_params other_params
params w failunknown = text_params ++ flag_params w ++ number_params w ++ other_params w failunknown

-- The branch of the first name that is the parameter's, in any case; none for an unknown parameter.
unfoldable pub set_in : ParamTable → Text → Text → QueueConfig → QueueConfig
unfolding same_name
set_in [] param val q = q
set_in ((name, branch) ∷ rest) param val q =
    let later = set_in rest param val q in if same_name param name then branch q val else later

unfoldable pub queue_set_param : Answers → Text → Text → Bool → QueueConfig → QueueConfig
unfolding params set_in
queue_set_param w param val failunknown q = set_in (params w failunknown) param val q

-- The first pass of `reload_single_queue` over the lines of a queue.
unfoldable pub set_params : Answers → List (Text × Text) → QueueConfig → QueueConfig
unfolding queue_set_param
set_params w [] q = q
set_params w ((param, val) ∷ lines) q = set_params w lines (queue_set_param w param val true q)
