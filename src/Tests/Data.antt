-- ===== src/Tests/Data.antt =====
-- A small call centre: three members, three callers, and a queue for them.
use vx_pbx.Base.{ℕ, ◌+◌, true, false, List, [], ◌∷◌, none, some}
use vx_pbx.Base.Int.{ℤ, pos}
use vx_pbx.Queue.Types.{
  Strategy, DeviceState, AnnouncePosition, Announce, EmptyConditions, Member, QueueEnt, CallQueue,
  Periodic,
}
use vx_pbx.Queue.Metric.{CallAttempt}
use vx_pbx.Queue.Ring.{Phones, Queues, Ringing}

abbrev pub no_conditions : EmptyConditions
no_conditions = record {
  penalty = false;
  paused = false;
  inuse = false;
  ringing = false;
  unavailable = false;
  invalid = false;
  unknown = false;
  wrapup = false;
}

abbrev pub settings : Announce
settings = record {
  announceposition = AnnouncePosition.always;
  announceholdtime = 0;
  announcepositionlimit = 0;
  announcetimelimit = 0;
  announcedelay = 0;
  announcefrequency = 30;
  minannouncefrequency = 15;
  roundingseconds = 0;
  poslog = false;
  backoff = false;
  offset = 0;
  minhold = 0;
}

-- "a", then "-", which turns the music off.
abbrev pub sounds_of_queue : Periodic
sounds_of_queue = record {
  periodicannouncefrequency = 30;
  randomperiodicannounce = false;
  relativeperiodicannounce = false;
  sound_periodicannounce = (b'a' ∷ []) ∷ (b'-' ∷ []) ∷ [];
}

abbrev pub member : ℕ → ℕ → Member
member name at = record {
  interface = name ∷ [];
  state_interface = name ∷ [];
  membername = name ∷ [];
  penalty = 0;
  calls = 0;
  dynamic = true;
  realtime = false;
  status = DeviceState.not_inuse;
  paused = false;
  queuepos = at;
  lastcall = 0;
  lastqueue = none;
  dead = false;
  delme = false;
  rt_uniqueid = [];
  call_pending = false;
  ringinuse = false;
}

abbrev pub caller : ℕ → ℤ → ℕ → ℕ → QueueEnt
caller address prio position last_pos_said = record {
  address = address;
  parent = some 1;
  moh = 5 ∷ [];
  announce = [];
  context = [];
  position = position;
  prio = prio;
  last_pos_said = last_pos_said;
  nomoh = false;
  last_pos = 0;
  last_log = 0;
  last_hold_said = 0;
  opos = 1;
  ppos = 0;
  periodicannouncelimit = pos 2;
  last_periodic_announce_sound = 0;
  last_periodic_announce_time = 0;
  pending = false;
  max_penalty = pos 8;
  min_penalty = pos 2;
  linpos = pos 0;
  linwrapped = false;
  start = 0;
  expire = 0;
  rules = [];
}

abbrev pub members : List Member
members = member b'a' 0 ∷ member b'b' 1 ∷ member b'c' 2 ∷ []

abbrev pub callers : List QueueEnt
callers = caller 11 (pos 5) 1 0 ∷ caller 12 (pos 0) 2 0 ∷ caller 13 (pos 0) 3 0 ∷ []

abbrev pub queue_of : List Member → List QueueEnt → ℕ → CallQueue
queue_of ms es n = record {
  address = 1;
  name = b's' ∷ [];
  ringinuse = false;
  moh = 5 ∷ [];
  announce = [];
  context = [];
  wrapped = false;
  strategy = Strategy.rrmemory;
  joinempty = no_conditions;
  leavewhenempty = no_conditions;
  announcing = settings;
  periodicannouncelimit = pos 2;
  numperiodicannounce = 2;
  periodic = sounds_of_queue;
  mohsupress = false;
  holdtime = 20;
  holdsecs = 20;
  talktime = 0;
  callscompleted = 0;
  callsabandoned = 0;
  callscompletedinsl = 0;
  count = n;
  maxlen = 3;
  wrapuptime = 10;
  penaltymemberslimit = 0;
  weight = pos 0;
  rrpos = pos 1;
  autofill = true;
  members = ms;
  head = es;
}

abbrev pub queue : CallQueue
queue = queue_of members callers 3

abbrev pub empty_queue : CallQueue
empty_queue = queue_of members [] 0

abbrev pub attempt : Member → ℕ → CallAttempt
attempt m metric = record {
  interface = m.interface;
  metric = pos metric;
  lastcall = 0;
  lastqueue = none;
  member = m;
  called = false;
  stillgoing = true;
}

abbrev pub outgoing : List CallAttempt
outgoing = attempt (member b'a' 0) 1000 ∷ attempt (member b'b' 1) 1 ∷ []

-- Every device is free and every call can be placed.
abbrev pub phones : Phones
phones = record {
  device = λ _. DeviceState.not_inuse;
  request = λ _. true;
  call = λ _. true;
  clock = λ t. t + 100;
}

abbrev pub queues : Queues
queues = record { at = λ _. queue; all = queue ∷ []; use_weight = true }

abbrev pub ringing_state : Ringing
ringing_state = record { parent = queue; entry = caller 11 (pos 5) 1 0; busies = 0 }
