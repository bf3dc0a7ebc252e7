-- ===== src/Queue/Settings.antt =====
-- The settings of a queue: `init_queue`, and what `queue_set_param` makes of single values.
-- `strategy` holds QUEUE_STRATEGY_*, or -1. Members, statistics and the device state that is announced
-- for a fresh queue are outside.
pub mod Values
pub mod Plain
pub mod Params
pub mod Ranges
pub mod Sane
pub mod Spelling
use vx_pbx.Base.{
  ℕ, Bool, true, false, not, ◌&&◌, ◌||◌, List, [], ◌∷◌, ◌++◌, map, Option, none, some,
}
use vx_pbx.Base.Tests.{◌==◌, if◌then◌else◌, bit}
use vx_pbx.Base.Lists.{length, take, drop, any}
use vx_pbx.Base.Int.{ℤ, pos, negsuc, ltb_ℤ, eqb_ℤ}
use vx_pbx.Base.Cstr.{atoi, split_at, codes}
use vx_pbx.Queue.Types.{Text, EmptyConditions, PenaltyRule, AnnouncePosition}
use vx_pbx.Queue.Name.{same_name}
use vx_pbx.Queue.Roster.{is_empty}

pub data Autopause : Type 0 where
  off on all : Autopause

pub data TimeoutPriority : Type 0 where
  app conf : TimeoutPriority

-- `sound_periodicannounce` is the array up to its last sound.
pub record QueueConfig : Type 0 where
  pub moh : Text
  pub announce : Text
  pub context : Text
  pub membermacro : Text
  pub membergosub : Text
  pub defaultrule : Text
  pub sound_next : Text
  pub sound_thereare : Text
  pub sound_calls : Text
  pub queue_quantity1 : Text
  pub queue_quantity2 : Text
  pub sound_holdtime : Text
  pub sound_minutes : Text
  pub sound_minute : Text
  pub sound_seconds : Text
  pub sound_thanks : Text
  pub sound_callerannounce : Text
  pub sound_reporthold : Text
  pub monfmt : Text
  pub sound_periodicannounce : List Text
  pub numperiodicannounce : ℕ
  pub found : Bool
  pub dead : Bool
  pub ringinuse : Bool
  pub announce_to_first_user : Bool
  pub setinterfacevar : Bool
  pub setqueuevar : Bool
  pub setqueueentryvar : Bool
  pub reportholdtime : Bool
  pub timeoutrestart : Bool
  pub maskmemberstatus : Bool
  pub relativeperiodicannounce : Bool
  pub randomperiodicannounce : Bool
  pub autopausebusy : Bool
  pub autopauseunavail : Bool
  pub autofill : Bool
  pub poslog : Bool
  pub mohsupress : Bool
  pub backoff : Bool
  pub announcepositionlimit : ℤ
  pub announcetimelimit : ℤ
  pub announcedelay : ℤ
  pub announcefrequency : ℤ
  pub minannouncefrequency : ℤ
  pub periodicannouncefrequency : ℤ
  pub periodicannouncelimit : ℤ
  pub roundingseconds : ℤ
  pub servicelevel : ℤ
  pub maxlen : ℤ
  pub offset : ℤ
  pub minhold : ℤ
  pub wrapuptime : ℤ
  pub penaltymemberslimit : ℤ
  pub retry : ℤ
  pub timeout : ℤ
  pub weight : ℤ
  pub autopausedelay : ℤ
  pub memberdelay : ℤ
  pub strategy : ℤ
  pub eventwhencalled : ℕ
  pub announceholdtime : ℕ
  pub montype : ℕ
  pub announceposition : AnnouncePosition
  pub joinempty : EmptyConditions
  pub leavewhenempty : EmptyConditions
  pub autopause : Autopause
  pub timeoutpriority : TimeoutPriority
  pub rules : List PenaltyRule

-- What Asterisk and the C library answer: `ast_true`, `ast_false`, `sscanf` with "%10d" (nothing where
-- it reads no number), and the defaults of the [general] section.
pub record Answers : Type 0 where
  pub is_true : Text → Bool
  pub is_false : Text → Bool
  pub scan_int : Text → Option ℤ
  pub autofill_default : Bool
  pub montype_default : ℕ

abbrev pub no_empty : EmptyConditions
no_empty = record {
  penalty = false;
  paused = false;
  inuse = false;
  ringing = false;
  unavailable = false;
  invalid = false;
  unknown = false;
  wrapup = false;
}

abbrev queue_periodic_announce : Text
queue_periodic_announce = codes "queue-periodic-announce"

-- The first sound is the default one, and the others that there are become empty.
unfoldable pub fresh_sounds : List Text → List Text
fresh_sounds old = queue_periodic_announce ∷ map (λ (t : Text). []) (drop 1 old)

unfoldable pub init_queue : Answers → QueueConfig → QueueConfig
unfolding fresh_sounds
init_queue w q = record q {
  sound_next = codes "queue-youarenext";
  sound_thereare = codes "queue-thereare";
  sound_calls = codes "queue-callswaiting";
  queue_quantity1 = codes "queue-quantity1";
  queue_quantity2 = codes "queue-quantity2";
  sound_holdtime = codes "queue-holdtime";
  sound_minutes = codes "queue-minutes";
  sound_minute = codes "queue-minute";
  sound_seconds = codes "queue-seconds";
  sound_thanks = codes "queue-thankyou";
  sound_reporthold = codes "queue-reporthold";
  monfmt = [];
  sound_periodicannounce = fresh_sounds q.sound_periodicannounce;
  numperiodicannounce = 0;
  found = true;
  dead = false;
  ringinuse = true;
  announce_to_first_user = false;
  setinterfacevar = false;
  setqueuevar = false;
  setqueueentryvar = false;
  reportholdtime = false;
  timeoutrestart = false;
  maskmemberstatus = false;
  randomperiodicannounce = false;
  autofill = w.autofill_default;
  poslog = false;
  mohsupress = false;
  backoff = true;
  announcepositionlimit = pos 10;
  announcetimelimit = pos 30;
  announcedelay = pos 0;
  announcefrequency = pos 0;
  minannouncefrequency = pos 15;
  periodicannouncefrequency = pos 0;
  periodicannouncelimit = negsuc 0;
  roundingseconds = pos 0;
  servicelevel = pos 0;
  maxlen = pos 0;
  offset = pos 0;
  minhold = pos 30;
  wrapuptime = pos 0;
  penaltymemberslimit = pos 0;
  retry = pos 5;
  timeout = pos 15;
  weight = pos 0;
  autopausedelay = pos 0;
  memberdelay = pos 0;
  eventwhencalled = 0;
  announceholdtime = 1;
  montype = w.montype_default;
  announceposition = AnnouncePosition.always;
  joinempty = no_empty;
  leavewhenempty = no_empty;
  autopause = off;
  timeoutpriority = app;
  rules = [];
}
