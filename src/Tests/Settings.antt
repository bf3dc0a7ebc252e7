-- ===== src/Tests/Settings.antt =====
-- A queue that is configured.
use vx_pbx.Base.{true, false, List, [], ◌∷◌, some}
use vx_pbx.Base.Int.{pos}
use vx_pbx.Base.Cstr.{codes}
use vx_pbx.Queue.Types.{Text, AnnouncePosition}
use vx_pbx.Queue.Name.{same_name}
use vx_pbx.Queue.Settings.{Answers, QueueConfig, off, app, no_empty, init_queue}
use vx_pbx.Queue.Settings.Params.{set_params}
use vx_pbx.Queue.Settings.Ranges.{IsSane}
use vx_pbx.Queue.Settings.Sane.{set_params-IsSane}

-- A queue with every field 0.
abbrev pub allocated : QueueConfig
allocated = record {
  moh = [];
  announce = [];
  context = [];
  membermacro = [];
  membergosub = [];
  defaultrule = [];
  sound_next = [];
  sound_thereare = [];
  sound_calls = [];
  queue_quantity1 = [];
  queue_quantity2 = [];
  sound_holdtime = [];
  sound_minutes = [];
  sound_minute = [];
  sound_seconds = [];
  sound_thanks = [];
  sound_callerannounce = [];
  sound_reporthold = [];
  monfmt = [];
  sound_periodicannounce = [];
  numperiodicannounce = 0;
  found = false;
  dead = false;
  ringinuse = false;
  announce_to_first_user = false;
  setinterfacevar = false;
  setqueuevar = false;
  setqueueentryvar = false;
  reportholdtime = false;
  timeoutrestart = false;
  maskmemberstatus = false;
  relativeperiodicannounce = false;
  randomperiodicannounce = false;
  autopausebusy = false;
  autopauseunavail = false;
  autofill = false;
  poslog = false;
  mohsupress = false;
  backoff = false;
  announcepositionlimit = pos 0;
  announcetimelimit = pos 0;
  announcedelay = pos 0;
  announcefrequency = pos 0;
  minannouncefrequency = pos 0;
  periodicannouncefrequency = pos 0;
  periodicannouncelimit = pos 0;
  roundingseconds = pos 0;
  servicelevel = pos 0;
  maxlen = pos 0;
  offset = pos 0;
  minhold = pos 0;
  wrapuptime = pos 0;
  penaltymemberslimit = pos 0;
  retry = pos 0;
  timeout = pos 0;
  weight = pos 0;
  autopausedelay = pos 0;
  memberdelay = pos 0;
  strategy = pos 0;
  eventwhencalled = 0;
  announceholdtime = 0;
  montype = 0;
  announceposition = AnnouncePosition.off;
  joinempty = no_empty;
  leavewhenempty = no_empty;
  autopause = off;
  timeoutpriority = app;
  rules = [];
}

-- "yes" is true, everything else false, and every number is 0.
abbrev answers : Answers
answers = record {
  is_true = λ t. same_name t (codes "yes");
  is_false = λ t. same_name t (codes "no");
  scan_int = λ t. some (pos 0);
  autofill_default = true;
  montype_default = 0;
}

-- A rounding that is none of the five, a negative length, and two sounds.
abbrev lines : List (Text × Text)
lines =
    (codes "announce-round-seconds", codes "7")
    ∷ (codes "maxlen", codes "-3")
    ∷ (codes "periodic-announce", codes "a,+")
    ∷ []

set_params-IsSane_example : IsSane (set_params answers lines (init_queue answers allocated))
set_params-IsSane_example = set_params-IsSane answers lines allocated
