-- ===== src/Queue/Types.antt =====
-- The data of Asterisk/11/19/app_queue.c: queues, their members and their callers.
-- A pointer to a queue is the queue's address, and a caller or a member is told apart by its own.
use vx_pbx.Base.{ℕ, Bool, List, Option}
use vx_pbx.Base.Int.{ℤ}

-- The bytes of a C string.
abbrev pub Text : Type 0
Text = List ℕ

pub data Strategy : Type 0 where
  ringall leastrecent fewestcalls random rrmemory linear wrandom rrordered : Strategy

-- `AST_DEVICE_*`, the states that the queue tells apart.
pub data DeviceState : Type 0 where
  unknown not_inuse inuse busy invalid unavailable ringing ringinuse onhold : DeviceState

pub data QueueResult : Type 0 where
  unknown timeout joinempty leaveempty joinunavail leaveunavail full continue : QueueResult

-- One flag for each bit of `enum empty_conditions`.
pub record EmptyConditions : Type 0 where
  pub penalty : Bool
  pub paused : Bool
  pub inuse : Bool
  pub ringing : Bool
  pub unavailable : Bool
  pub invalid : Bool
  pub unknown : Bool
  pub wrapup : Bool

pub record PenaltyRule : Type 0 where
  pub time : ℤ
  pub max_value : ℤ
  pub min_value : ℤ
  pub max_relative : Bool
  pub min_relative : Bool

pub record Member : Type 0 where
  pub interface : Text
  pub state_interface : Text
  pub membername : Text
  pub penalty : ℕ
  pub calls : ℕ
  pub dynamic : Bool
  pub realtime : Bool
  pub status : DeviceState
  pub paused : Bool
  pub queuepos : ℕ
  pub lastcall : ℕ
  pub lastqueue : Option ℕ
  pub dead : Bool
  pub delme : Bool
  pub rt_uniqueid : Text
  pub call_pending : Bool
  pub ringinuse : Bool

-- `rules` is the part of `qe_rules` that starts at `pr`: the rules still to be applied.
pub record QueueEnt : Type 0 where
  pub address : ℕ
  pub parent : Option ℕ
  pub moh : Text
  pub announce : Text
  pub context : Text
  pub position : ℕ
  pub prio : ℤ
  pub last_pos_said : ℕ
  pub nomoh : Bool
  pub last_pos : ℕ
  pub last_log : ℕ
  pub last_hold_said : ℕ
  pub opos : ℕ
  pub ppos : ℕ
  pub periodicannouncelimit : ℤ
  pub last_periodic_announce_sound : ℕ
  pub last_periodic_announce_time : ℕ
  pub pending : Bool
  pub max_penalty : ℤ
  pub min_penalty : ℤ
  pub linpos : ℤ
  pub linwrapped : Bool
  pub start : ℕ
  pub expire : ℕ
  pub rules : List PenaltyRule

pub data AnnouncePosition : Type 0 where
  off always never more_than limit : AnnouncePosition

-- The settings that announcements read.
pub record Announce : Type 0 where
  pub announceposition : AnnouncePosition
  pub announceholdtime : ℕ
  pub announcepositionlimit : ℕ
  pub announcetimelimit : ℕ
  pub announcedelay : ℕ
  pub announcefrequency : ℕ
  pub minannouncefrequency : ℕ
  pub roundingseconds : ℕ
  pub poslog : Bool
  pub backoff : Bool
  pub offset : ℕ
  pub minhold : ℕ

-- The settings of periodic announcements; `sound_periodicannounce` is the array up to its last sound.
pub record Periodic : Type 0 where
  pub periodicannouncefrequency : ℕ
  pub randomperiodicannounce : Bool
  pub relativeperiodicannounce : Bool
  pub sound_periodicannounce : List Text

pub record CallQueue : Type 0 where
  pub address : ℕ
  pub name : Text
  pub ringinuse : Bool
  pub moh : Text
  pub announce : Text
  pub context : Text
  pub wrapped : Bool
  pub strategy : Strategy
  pub joinempty : EmptyConditions
  pub leavewhenempty : EmptyConditions
  pub announcing : Announce
  pub periodicannouncelimit : ℤ
  pub numperiodicannounce : ℕ
  pub periodic : Periodic
  pub mohsupress : Bool
  pub holdtime : ℕ
  pub holdsecs : ℕ
  pub talktime : ℕ
  pub callscompleted : ℕ
  pub callsabandoned : ℕ
  pub callscompletedinsl : ℕ
  pub count : ℕ
  pub maxlen : ℕ
  pub wrapuptime : ℕ
  pub penaltymemberslimit : ℕ
  pub weight : ℤ
  pub rrpos : ℤ
  pub autofill : Bool
  pub members : List Member
  pub head : List QueueEnt
