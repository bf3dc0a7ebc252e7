-- ===== src/Queue/Roster/Pausing.antt =====
-- What pausing a member does: after an automatic pause in all queues nobody of that interface can be
-- called from any of them.
use vx_pbx.Base.{◌≡◌, Bool, false, List, [], ◌∷◌, none, some, arith, ◌⊎◌, inl, inr}
use vx_pbx.Base.Tests.{Option-cases}
use vx_pbx.Base.Lists.{All}
use vx_pbx.Queue.Types.{Text, Member, CallQueue}
use vx_pbx.Queue.Roster.{find_member, pause_first, pause_in, set_member_paused, changed, missing}

-- The member that is looked up under `i`, if any, is not paused otherwise than `paused` says.
abbrev pub FoundPaused : Text → Bool → CallQueue → Type 0
FoundPaused i paused q = (mem : Member) → find_member i q.members ≡ some mem → mem.paused ≡ paused

find_member-pause_first :
    (i : Text) (paused : Bool) (ms : List Member) (mem : Member)
    → find_member i (pause_first i paused ms) ≡ some mem
    → mem.paused ≡ paused
unfolding find_member pause_first
find_member-pause_first i paused [] mem e = cc
find_member-pause_first i paused (m ∷ ms) mem e =
    ground (arith, find_member-pause_first i paused ms mem)

pause_in_cases :
    (fails : CallQueue → Member → Bool) (i : Text) (paused : Bool) (q : CallQueue)
    → ((m : Member) → fails q m ≡ false)
    → ((pause_in fails i paused q ≡ missing) × (find_member i q.members ≡ none))
      ⊎ (pause_in fails i paused q
          ≡ changed (record q { members = pause_first i paused q.members }))
unfolding pause_in
pause_in_cases fails i paused q h = elim (Option-cases (find_member i q.members)) [
  | inl e ↦ inl (rw (e, pause_in), e)
  | inr (m, e) ↦ inr (rw (e, pause_in) (ground (arith, h m)))
]

-- Where no database refuses, a call for all queues leaves that member paused as asked in each of
-- them.
pub set_member_paused-FoundPaused :
    (fails : CallQueue → Member → Bool) (i : Text) (paused : Bool) (qs : List CallQueue)
    → ((q : CallQueue) (m : Member) → fails q m ≡ false)
    → All (FoundPaused i paused) (set_member_paused fails [] i paused qs).0
unfolding set_member_paused
set_member_paused-FoundPaused fails i paused [] h = tt
set_member_paused-FoundPaused fails i paused (q ∷ qs) h =
    let rest = set_member_paused-FoundPaused fails i paused qs h in
    elim (pause_in_cases fails i paused q (h q)) [
      | inl (e, absent) ↦ rw (e, set_member_paused) ((λ m f. cc), rest)
      | inr e ↦
          rw (e, set_member_paused) ((λ m f. find_member-pause_first i paused q.members m f), rest)
    ]
