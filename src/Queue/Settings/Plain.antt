-- ===== src/Queue/Settings/Plain.antt =====
-- The parameters of `queue_set_param` whose value is stored as it is, or as true or false.
use vx_pbx.Base.{not, List, [], ◌∷◌}
use vx_pbx.Base.Lists.{take}
use vx_pbx.Base.Cstr.{codes}
use vx_pbx.Queue.Types.{Text}
use vx_pbx.Queue.Settings.{Answers, QueueConfig}

-- A name, and what a value of that name does.
abbrev pub ParamTable : Type 0
ParamTable = List (Text × (QueueConfig → Text → QueueConfig))

unfoldable pub text_params : ParamTable
text_params =
    (codes "musicclass", λ q v. record q { moh = v })
    ∷ (codes "music", λ q v. record q { moh = v })
    ∷ (codes "musiconhold", λ q v. record q { moh = v })
    ∷ (codes "announce", λ q v. record q { announce = v })
    ∷ (codes "context", λ q v. record q { context = v })
    ∷ (codes "monitor-format", λ q v. record q { monfmt = take 7 v })
    ∷ (codes "membermacro", λ q v. record q { membermacro = v })
    ∷ (codes "membergosub", λ q v. record q { membergosub = v })
    ∷ (codes "queue-youarenext", λ q v. record q { sound_next = v })
    ∷ (codes "queue-thereare", λ q v. record q { sound_thereare = v })
    ∷ (codes "queue-callswaiting", λ q v. record q { sound_calls = v })
    ∷ (codes "queue-quantity1", λ q v. record q { queue_quantity1 = v })
    ∷ (codes "queue-quantity2", λ q v. record q { queue_quantity2 = v })
    ∷ (codes "queue-holdtime", λ q v. record q { sound_holdtime = v })
    ∷ (codes "queue-minutes", λ q v. record q { sound_minutes = v })
    ∷ (codes "queue-minute", λ q v. record q { sound_minute = v })
    ∷ (codes "queue-seconds", λ q v. record q { sound_seconds = v })
    ∷ (codes "queue-thankyou", λ q v. record q { sound_thanks = v })
    ∷ (codes "queue-callerannounce", λ q v. record q { sound_callerannounce = v })
    ∷ (codes "queue-reporthold", λ q v. record q { sound_reporthold = v })
    ∷ (codes "defaultrule", λ q v. record q { defaultrule = v })
    ∷ []

unfoldable pub flag_params : Answers → ParamTable
flag_params w =
    (codes "ringinuse", λ q v. record q { ringinuse = w.is_true v })
    ∷ (codes "setinterfacevar", λ q v. record q { setinterfacevar = w.is_true v })
    ∷ (codes "setqueuevar", λ q v. record q { setqueuevar = w.is_true v })
    ∷ (codes "setqueueentryvar", λ q v. record q { setqueueentryvar = w.is_true v })
    ∷ (codes "announce-to-first-user", λ q v. record q { announce_to_first_user = w.is_true v })
    ∷ (codes "poslog", λ q v. record q { poslog = w.is_true v })
    ∷ (codes "moh-supress", λ q v. record q { mohsupress = w.is_true v })
    ∷ (codes "announce-backoff", λ q v. record q { backoff = w.is_true v })
    ∷ (
      codes "relative-periodic-announce",
      λ q v. record q { relativeperiodicannounce = w.is_true v },
    )
    ∷ (codes "random-periodic-announce", λ q v. record q { randomperiodicannounce = w.is_true v })
    ∷ (codes "autofill", λ q v. record q { autofill = w.is_true v })
    ∷ (codes "autopausebusy", λ q v. record q { autopausebusy = w.is_true v })
    ∷ (codes "autopauseunavail", λ q v. record q { autopauseunavail = w.is_true v })
    ∷ (codes "eventmemberstatus", λ q v. record q { maskmemberstatus = not (w.is_true v) })
    ∷ (codes "reportholdtime", λ q v. record q { reportholdtime = w.is_true v })
    ∷ (codes "timeoutrestart", λ q v. record q { timeoutrestart = w.is_true v })
    ∷ []
