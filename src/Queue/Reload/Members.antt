-- ===== src/Queue/Reload/Members.antt =====
-- A queue whose members are read again.
use vx_pbx.Base.{
  ℕ, ◌<◌, ◌≡◌, ◌≢◌, refl, ap, subst, List, [], ◌∷◌, ◌++◌, map, Option, none, some, arith, inl, inr,
}
use vx_pbx.Base.Tests.{Bool-cases, Option-cases}
use vx_pbx.Base.Lists.{length, All, length-append, length-map}
use vx_pbx.Queue.Types.{Text, Member, CallQueue}
use vx_pbx.Queue.Name.{same_name, same_name_refl}
use vx_pbx.Queue.Roster.{find_member, unlink}
use vx_pbx.Queue.Roster.Positions.{
  Distinct, IsRoster, All-append, Distinct-append, All-map, same_name-find_member, same_name_passed,
  member_add_to_queue-IsRoster,
}
use vx_pbx.Queue.Reload.{
  Words, MemberArgs, link_member, reload_single_member, mark_member_dead, read_members,
  reload_members,
}
use vx_pbx.Queue.Reload.Compact.{All-remove, Distinct-remove, length-remove, compact-IsRoster}

-- Where the look-up finds a member, and what unlinking it leaves.
unlink_at :
    (i : Text) (ms : List Member) (cur : Member) (behind : List Member)
    → find_member i ms ≡ some cur
    → (pre : List Member) × (post : List Member) × (ms ≡ pre ++ cur ∷ post)
      × (unlink cur.interface (ms ++ behind) ≡ pre ++ post ++ behind)
unfolding find_member unlink
unlink_at i [] cur behind e = cc
unlink_at i (m ∷ ms) cur behind e = elim (Bool-cases (same_name i m.interface)) [
  | inl s ↦
      let eq : m ≡ cur = ground arith in
      ([], ms, ap (λ y. y ∷ ms) eq, rw eq (rw (same_name_refl cur.interface) refl))
  | inr s ↦
      let later : find_member i ms ≡ some cur = ground arith in
      let (pre, post, at, left) = unlink_at i ms cur behind later in
      let other = same_name_passed i m cur s (same_name-find_member i ms cur later) in
      (m ∷ pre, post, ap (λ l. m ∷ l) at, rw other (ap (λ l. m ∷ l) left))
]

link_member-IsRoster :
    (q : CallQueue) (i : Text) (newm : Option Member)
    → IsRoster q.members
    → IsRoster (link_member q (find_member i q.members) newm).members
unfolding link_member
link_member-IsRoster q i none v = v
link_member-IsRoster q i (some newm) v = elim (Option-cases (find_member i q.members)) [
  | inl e ↦ rw (e, link_member) (member_add_to_queue-IsRoster q newm v)
  | inr (cur, e) ↦
      let new = record newm { queuepos = cur.queuepos } in
      let (pre, post, at, left) = unlink_at i q.members cur (new ∷ []) e in
      let w = subst IsRoster at v in
      let (low, lows) =
        All-remove (λ x. x.queuepos < length (pre ++ cur ∷ post)) pre cur post w.0 in
      let (distinct, others) = Distinct-remove pre cur post w.1 in
      let n = length (pre ++ post ++ new ∷ []) in
      let len = length-append (pre ++ post) (new ∷ []) in
      let len' = length-remove pre cur post in
      rw (e, link_member)
        (rw left (
          All-append (λ x. x.queuepos < n) (pre ++ post) new
              (All-map (λ x h. omega (arith, h, len, len')) (pre ++ post) lows)
              (omega (arith, low, len, len')),
          Distinct-append (pre ++ post) new distinct others,
        ))
]

reload_single_member-IsRoster :
    (w : Words) (q : CallQueue) (args : Option MemberArgs)
    → IsRoster q.members
    → IsRoster (reload_single_member w q args).members
unfolding reload_single_member
reload_single_member-IsRoster w q none v = v
reload_single_member-IsRoster w q (some args) v = link_member-IsRoster q args.interface _ v

read_members-IsRoster :
    (w : Words) (q : CallQueue) (lines : List (Option MemberArgs))
    → IsRoster q.members
    → IsRoster (read_members w q lines).members
unfolding read_members
read_members-IsRoster w q [] v = v
read_members-IsRoster w q (args ∷ rest) v =
    read_members-IsRoster w (reload_single_member w q args) rest
      (reload_single_member-IsRoster w q args v)

queuepos-mark_member_dead : (m : Member) → (mark_member_dead m).queuepos ≡ m.queuepos
unfolding mark_member_dead
queuepos-mark_member_dead m = ground arith

mark-All {ℓ} :
    (P : ℕ → Type ℓ) (ms : List Member)
    → All (λ m. P m.queuepos) ms
    → All (λ m. P m.queuepos) (map mark_member_dead ms)
mark-All P [] h = tt
mark-All P (m ∷ ms) h = (rw (queuepos-mark_member_dead m) h.0, mark-All P ms h.1)

mark-Distinct : (ms : List Member) → Distinct ms → Distinct (map mark_member_dead ms)
mark-Distinct [] d = tt
mark-Distinct (m ∷ ms) d =
    (rw (queuepos-mark_member_dead m) (mark-All (λ p. p ≢ m.queuepos) ms d.0), mark-Distinct ms d.1)

-- Reading the members of a queue again keeps the positions 0, …, n - 1, each taken once, whatever
-- members the configuration adds, replaces or drops.
pub reload_members-IsRoster :
    (w : Words) (q : CallQueue) (lines : List (Option MemberArgs))
    → IsRoster q.members
    → IsRoster (reload_members w q lines).members
unfolding reload_members
reload_members-IsRoster w q lines v =
    let marked = record q { members = map mark_member_dead q.members } in
    let len = length-map mark_member_dead q.members in
    compact-IsRoster w (read_members w marked lines).members (
      read_members-IsRoster w marked lines
        (rw len (mark-All (λ p. p < length q.members) q.members v.0), mark-Distinct q.members v.1))
