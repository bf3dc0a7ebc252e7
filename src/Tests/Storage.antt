-- ===== src/Tests/Storage.antt =====
-- Members that are written to the database and read again, and members of a realtime database.
use vx_pbx.Base.{◌≡◌, refl, true, false, List, [], ◌∷◌, ◌++◌, map, ◌||◌, none, some, arith}
use vx_pbx.Base.Cstr.{codes}
use vx_pbx.Base.Decimal.{decimal}
use vx_pbx.Queue.Types.{Text, DeviceState, Member, CallQueue}
use vx_pbx.Queue.Name.{same_name}
use vx_pbx.Queue.Roster.{find_member}
use vx_pbx.Queue.Roster.Positions.{IsRoster}
use vx_pbx.Queue.Reload.{Words}
use vx_pbx.Queue.Persist.{dump_queue_members}
use vx_pbx.Queue.Persist.Dumped.{dynamic_members}
use vx_pbx.Queue.Persist.Restored.{kept, restored, restored-dump_queue_members}
use vx_pbx.Queue.Realtime.{RtRecord, update_realtime_members}
use vx_pbx.Queue.Realtime.Synced.{IsSynced, records, update_realtime_members-IsSynced}
use vx_pbx.Queue.Exit.{Dialplan, Dialed, IsExit, dial_all, dial_all-IsExit}
use vx_pbx.Tests.Data.{member, queue}

abbrev words : Words
words = record {
  strip = λ t. t;
  is_true = λ t. same_name t (codes "yes");
  is_false = λ t. same_name t (codes "no");
  allocates = λ _. true;
  device = λ _. DeviceState.not_inuse;
}

-- "a", paused and with penalty 12, "b" of the configuration, and "c".
abbrev dumped : List Member
dumped =
    record (member b'a' 0) { penalty = 12; paused = true }
    ∷ record (member b'b' 1) { dynamic = false }
    ∷ member b'c' 2
    ∷ []

abbrev started_queue : CallQueue
started_queue = record queue { members = record (member b'b' 0) { dynamic = false } ∷ [] }

dump_text : dump_queue_members dumped ≡ some (codes "a;12;1;a;a|c;0;0;c;c")
unfolding dump_queue_members decimal
dump_text = refl

not_there :
    (i : Text) → same_name i (b'b' ∷ []) ≡ false → find_member i started_queue.members ≡ none
unfolding find_member
not_there i h = rw h refl

a_not_b : same_name (b'a' ∷ []) (b'b' ∷ []) ≡ false
unfolding same_name
a_not_b = refl

c_not_b : same_name (b'c' ∷ []) (b'b' ∷ []) ≡ false
unfolding same_name
c_not_b = refl

c_not_a : same_name (b'c' ∷ []) (b'a' ∷ []) ≡ false
unfolding same_name
c_not_a = refl

restored-dump_queue_members_example :
    map kept (restored words (λ _. false) started_queue (dump_queue_members dumped)).members
    ≡ map kept started_queue.members ++ map kept (dynamic_members dumped)
restored-dump_queue_members_example =
    restored-dump_queue_members words (λ _. false) started_queue dumped (λ _. refl) (λ _. refl)
      (
        ((refl, refl, refl), (refl, refl, refl), (refl, refl, refl)),
        (((refl, refl, refl), (refl, refl, refl), (refl, refl, refl)), tt),
      )
      (not_there (b'a' ∷ []) a_not_b, (not_there (b'c' ∷ []) c_not_b, tt)) ((c_not_a, tt), (tt, tt))

-- "d" is new, "b" has a negative penalty, and nobody else is there.
abbrev rows : List RtRecord
rows =
    record {
      interface = b'd' ∷ [];
      uniqueid = some (codes "7");
      membername = none;
      state_interface = none;
      penalty = some (codes "3");
      paused = none;
      ringinuse = some (codes "yes");
    }
    ∷ record {
      interface = b'b' ∷ [];
      uniqueid = some (codes "8");
      membername = none;
      state_interface = none;
      penalty = some (codes "-1");
      paused = none;
      ringinuse = none;
    }
    ∷ []

abbrev rt_queue : CallQueue
rt_queue = record queue {
  members =
      member b'a' 0 ∷ record (member b'b' 1) { realtime = true; rt_uniqueid = codes "8" } ∷ [];
}

rt_queue-IsRoster : IsRoster rt_queue.members
rt_queue-IsRoster = ((omega arith, (omega arith, tt)), (((λ e. omega (arith, e)), tt), (tt, tt)))

update_realtime_members-IsSynced_example :
    IsRoster (update_realtime_members words true rt_queue (some rows)).members
    × IsSynced true
        (records (some rows))
        (update_realtime_members words true rt_queue (some rows)).members
update_realtime_members-IsSynced_example =
    update_realtime_members-IsSynced words true rt_queue (some rows) (λ _. refl) rt_queue-IsRoster

-- Extension 12 leads out, and 1 may go on.
abbrev dialplan : Dialplan
dialplan = record {
  can_match = λ _ digits. same_name digits (codes "1") || same_name digits (codes "12");
  goes = λ _ digits. same_name digits (codes "12");
}

abbrev nothing_dialed : Dialed
nothing_dialed = record { digits = []; valid_digits = false }

dial_all-IsExit_example :
    IsExit dialplan (codes "out") (dial_all dialplan (codes "out") (codes "12") nothing_dialed)
dial_all-IsExit_example =
    dial_all-IsExit dialplan (codes "out") (codes "12") nothing_dialed (omega arith)
