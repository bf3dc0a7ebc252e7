-- ===== src/Queue/Persist/Restored.antt =====
-- What is restored of a dump.
use vx_pbx.Base.{
  ◌≡◌, refl, sym, ap, ◌∙◌, subst, Bool, true, false, List, [], ◌∷◌, ◌++◌, map, Option, none, some,
  arith, inl, inr,
}
use mathlib.Core.List.{append-nil, append_assoc}
use vx_pbx.Base.Tests.{if◌then◌else◌, Bool-cases}
use vx_pbx.Base.Lists.{All, length}
use vx_pbx.Queue.Types.{Text, Member, CallQueue}
use vx_pbx.Queue.Name.{same_name}
use vx_pbx.Queue.Roster.{find_member, add_to_queue, member_add_to_queue, is_empty, okay}
use vx_pbx.Queue.Reload.{or_else, Words, create_queue_member}
use vx_pbx.Queue.Persist.{
  entry_of, append_entry, dump_queue_members, Entry, parse_entry, add_entry, after_add, restore_all,
  restore,
}
use vx_pbx.Queue.Persist.Dumped.{
  dynamic_members, AllPlain, join, dump_all-join, tokens-dump, is_empty-join,
}
use vx_pbx.Queue.Persist.Entries.{HasPlainTexts, entry, parse_entry-entry_of, is_empty-entry_of}

-- What of a member outlives a restart.
pub record Kept : Type 0 where
  pub dynamic : Bool
  pub parts : Entry

abbrev pub kept : Member → Kept
kept m = record { dynamic = m.dynamic; parts = entry m }

-- Nobody of these is a member, and their interfaces are different.
abbrev pub Strange : List Member → List Member → Type 0
Strange members ms = All (λ m. find_member m.interface members ≡ none) ms

abbrev pub Apart : List Member → Type 0
Apart [] = Unit {0}
Apart (m ∷ ms) = All (λ n. same_name n.interface m.interface ≡ false) ms × Apart ms

find_member-append :
    (i : Text) (members : List Member) (new : Member)
    → find_member i members ≡ none
    → same_name i new.interface ≡ false
    → find_member i (members ++ new ∷ []) ≡ none
unfolding find_member
find_member-append i [] new e s = rw s refl
find_member-append i (m ∷ ms) new e s = ground (arith, find_member-append i ms new)

Strange-append :
    (members : List Member) (new : Member) (ms : List Member)
    → Strange members ms
    → All (λ n. same_name n.interface new.interface ≡ false) ms
    → Strange (members ++ new ∷ []) ms
Strange-append members new [] h a = tt
Strange-append members new (m ∷ ms) h a =
    (find_member-append m.interface members new h.0 a.0, Strange-append members new ms h.1 a.1)

map-append_one :
    (xs : List Member) (m : Member) → map kept (xs ++ m ∷ []) ≡ map kept xs ++ kept m ∷ []
map-append_one [] m = refl
map-append_one (x ∷ xs) m = ap (λ l. kept x ∷ l) (map-append_one xs m)

add_to_queue_new :
    (q : CallQueue) (i : Text) (new : Member)
    → find_member i q.members ≡ none
    → add_to_queue (some q) i (some new) ≡ (
      okay,
      some (member_add_to_queue q (record new { ringinuse = q.ringinuse; dynamic = true })),
    )
unfolding add_to_queue
add_to_queue_new q i new e = rw (e, add_to_queue) refl

or_else_filled : (t other : Text) → is_empty t ≡ false → or_else t other ≡ t
or_else_filled [] other e = cc
or_else_filled (c ∷ t) other e = refl

module _ (w : Words) (erange : Text → Bool) (allocates : (t : Text) → w.allocates t ≡ true)
    (in_range : (t : Text) → erange t ≡ false) where
  -- The member that an entry is restored as.
  abbrev fresh : CallQueue → Member → Member
  fresh q m = record {
    interface = m.interface;
    state_interface = m.state_interface;
    membername = m.membername;
    penalty = m.penalty;
    calls = 0;
    dynamic = true;
    realtime = false;
    status = w.device m.state_interface;
    paused = m.paused;
    queuepos = length q.members;
    lastcall = 0;
    lastqueue = none;
    dead = false;
    delme = false;
    rt_uniqueid = [];
    call_pending = false;
    ringinuse = q.ringinuse;
  }

  created :
      (q : CallQueue) (m : Member)
      → HasPlainTexts m
      → create_queue_member w m.interface m.membername m.penalty m.paused m.state_interface
          q.ringinuse
        ≡ some (record (fresh q m) { dynamic = false; queuepos = 0 })
  unfolding create_queue_member
  created q m (i, n, s) =
      rw
        (
          allocates m.interface,
          or_else_filled m.membername m.interface n.0,
          or_else_filled m.state_interface m.interface s.0,
        )
        refl

  added :
      (q : CallQueue) (m : Member)
      → HasPlainTexts m
      → find_member m.interface q.members ≡ none
      → add_entry w q (entry m) ≡ (okay, some (record q { members = q.members ++ fresh q m ∷ [] }))
  unfolding add_entry member_add_to_queue
  added q m h e =
      ap (add_to_queue (some q) m.interface) (created q m h)
      ∙ add_to_queue_new q m.interface (record (fresh q m) { dynamic = false; queuepos = 0 }) e

  restore_all_step :
      (q q' : CallQueue) (t : Text) (e : Entry) (ts : List Text)
      → is_empty t ≡ false
      → parse_entry erange t ≡ some e
      → add_entry w q e ≡ (okay, some q')
      → restore_all w erange q (t ∷ ts) ≡ restore_all w erange q' ts
  unfolding restore_all
  restore_all_step q q' [] e ts n p a = cc
  restore_all_step q q' (c ∷ cs) e ts n p a =
      rw (p, restore_all)
        (ap (λ x. after_add q (λ r. restore_all w erange r ts) x.0 x.1) a
          ∙ (unfold after_add in refl))

  restore_all-entries :
      (q : CallQueue) (ms : List Member)
      → AllPlain ms
      → All (λ m. m.dynamic ≡ true) ms
      → Strange q.members ms
      → Apart ms
      → map kept (restore_all w erange q (map entry_of ms)).members
        ≡ map kept q.members ++ map kept ms
  unfolding restore_all
  restore_all-entries q [] h d s a = sym (append-nil (map kept q.members))
  restore_all-entries q (m ∷ ms) h d s a =
      let m' = fresh q m in
      let q' = record q { members = q.members ++ m' ∷ [] } in
      let first =
        restore_all_step q q' (entry_of m) (entry m) (map entry_of ms) (is_empty-entry_of m h.0)
          (parse_entry-entry_of erange m in_range h.0) (added q m h.0 s.0) in
      let rest = restore_all-entries q' ms h.1 d.1 (Strange-append q.members m' ms s.1 a.0) a.1 in
      let same : kept m' ≡ kept m = rw d.0 refl in
      ap (λ (r : CallQueue). map kept r.members) first
      ∙ (rest
          ∙ (ap (λ l. l ++ map kept ms) (map-append_one q.members m')
              ∙ (append_assoc (map kept q.members) (kept m' ∷ []) (map kept ms)
                  ∙ ap (λ k. map kept q.members ++ k ∷ map kept ms) same)))

dynamic-dynamic_members : (ms : List Member) → All (λ m. m.dynamic ≡ true) (dynamic_members ms)
dynamic-dynamic_members [] = tt
dynamic-dynamic_members (m ∷ ms) = elim (Bool-cases m.dynamic) [
  | inl d ↦
      subst
        (λ b.
          All (λ n. n.dynamic ≡ true) (if b then m ∷ dynamic_members ms else dynamic_members ms))
        (sym d) (d, dynamic-dynamic_members ms)
  | inr s ↦ rw s (dynamic-dynamic_members ms)
]

-- The queue once a dump, if there is an entry, is read.
unfoldable pub restored : Words → (Text → Bool) → CallQueue → Option Text → CallQueue
unfolding restore
restored w erange q none = q
restored w erange q (some value) = restore w erange q value

restored-join :
    (w : Words) (erange : Text → Bool) (q : CallQueue) (ms : List Member)
    → ((t : Text) → w.allocates t ≡ true)
    → ((t : Text) → erange t ≡ false)
    → AllPlain ms
    → All (λ m. m.dynamic ≡ true) ms
    → Strange q.members ms
    → Apart ms
    → map kept
        (restored w erange q (if is_empty (join [] ms) then none else some (join [] ms))).members
      ≡ map kept q.members ++ map kept ms
unfolding restored
restored-join w erange q [] allocates in_range h d s a =
    unfold join in sym (append-nil (map kept q.members))
restored-join w erange q (m ∷ ms) allocates in_range h d s a =
    let filled : is_empty (join [] (m ∷ ms)) ≡ false =
      unfold join append_entry in is_empty-join (entry_of m) ms (is_empty-entry_of m h.0) in
    rw filled (
      ap (λ ts. map kept (restore_all w erange q ts).members) (tokens-dump m ms h)
      ∙ restore_all-entries w erange allocates in_range q (m ∷ ms) h d s a)

-- The dynamic members that a queue dumps are restored in a queue that has nobody of their interfaces,
-- behind its members and in the same order, with interface, name, penalty, pause and the interface of
-- their state, where their texts are not empty and hold no comma, bar or semicolon, their interfaces are
-- different, memory is found and strtol sets no error.
pub restored-dump_queue_members :
    (w : Words) (erange : Text → Bool) (q : CallQueue) (ms : List Member)
    → ((t : Text) → w.allocates t ≡ true)
    → ((t : Text) → erange t ≡ false)
    → AllPlain (dynamic_members ms)
    → Strange q.members (dynamic_members ms)
    → Apart (dynamic_members ms)
    → map kept (restored w erange q (dump_queue_members ms)).members
      ≡ map kept q.members ++ map kept (dynamic_members ms)
unfolding restored dump_queue_members
restored-dump_queue_members w erange q ms allocates in_range h s a = rw (dump_all-join [] ms) (
    restored-join w erange q (dynamic_members ms) allocates in_range h (dynamic-dynamic_members ms)
      s a)
