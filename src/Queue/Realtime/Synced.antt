-- ===== src/Queue/Realtime/Synced.antt =====
-- The members of a queue and the records of its database.
use vx_pbx.Base.{
  ℕ, ◌≡◌, refl, sym, ap, ◌∙◌, subst, Bool, true, false, List, [], ◌∷◌, map, Option, none, some,
  arith, inl, inr,
}
use vx_pbx.Base.Tests.{if◌then◌else◌, Bool-cases}
use vx_pbx.Base.Lists.{length, any, All}
use vx_pbx.Queue.Types.{Text, Member, CallQueue}
use vx_pbx.Queue.Roster.{decrement_followers}
use vx_pbx.Queue.Roster.Positions.{IsRoster, All-map}
use vx_pbx.Queue.Reload.{Words}
use vx_pbx.Queue.Realtime.{
  RtRecord, text_of, rt_handle_all, mark_dead, sweep, update_realtime_members,
}
use vx_pbx.Queue.Realtime.Present.{has_id, Present, handle_all-listed}
use vx_pbx.Queue.Realtime.Sweep.{
  plain, keep_unless, sweep-IsRoster, sweep_lem, dead-decrement, realtime-decrement,
}
use vx_pbx.Queue.Realtime.Steps.{
  Takes, Listed, Fine, mark_dead-position, handle_all-IsRoster, handle_all-Fine, IsRoster-positions,
}

-- What is left by the loop that takes members out.
keep_unless-All :
    (P : Member → Type 0) (p : Member → Bool) (ms : List Member)
    → All P ms
    → All (λ m. P m × (p m ≡ false)) (keep_unless p ms)
keep_unless-All P p [] h = tt
keep_unless-All P p (m ∷ ms) h =
    let rest = keep_unless-All P p ms h.1 in
    let left = λ (b : Bool). if b then keep_unless p ms else m ∷ keep_unless p ms in
    elim (Bool-cases (p m)) [
      | inl t ↦ subst (λ b. All (λ n. P n × (p n ≡ false)) (left b)) (sym t) rest
      | inr f ↦ subst (λ b. All (λ n. P n × (p n ≡ false)) (left b)) (sym f) ((h.0, f), rest)
    ]

Present-keep_unless :
    (u : Text) (ms : List Member) → Present u ms → Present u (keep_unless (λ m. m.dead) ms)
Present-keep_unless u [] h = h
Present-keep_unless u (m ∷ ms) h =
    let left =
      λ (b : Bool). if b then keep_unless (λ x. x.dead) ms else m ∷ keep_unless (λ x. x.dead) ms in
    elim (Bool-cases m.dead) [
      | inl t ↦ subst (λ b. Present u (left b)) (sym t) (Present-keep_unless u ms (ground arith))
      | inr f ↦
          subst (λ b. Present u (left b)) (sym f)
            (elim (Bool-cases (has_id u m)) [
              | inl here ↦ rw here refl
              | inr later ↦ rw later (Present-keep_unless u ms (ground arith))
            ])
    ]

any-plain : (u : Text) (ms : List Member) → any (has_id u) (map plain ms) ≡ any (has_id u) ms
any-plain u [] = refl
any-plain u (m ∷ ms) = ap (λ b. if has_id u m then true else b) (any-plain u ms)

-- A property that does not read positions.
module _ (P : Member → Type 0) (to : (m : Member) → P m → P (plain m))
    (from : (m : Member) → P (plain m) → P m) where
  All-to : (ms : List Member) → All P ms → All P (map plain ms)
  All-to [] h = tt
  All-to (m ∷ ms) h = (to m h.0, All-to ms h.1)

  All-from : (ms : List Member) → All P (map plain ms) → All P ms
  All-from [] h = tt
  All-from (m ∷ ms) h = (from m h.0, All-from ms h.1)

  All-same : (ms ns : List Member) → map plain ms ≡ map plain ns → All P ns → All P ms
  All-same ms ns e h = All-from ms (subst (All P) (sym e) (All-to ns h))

abbrev pub records : Option (List RtRecord) → List RtRecord
records none = []
records (some rs) = rs

-- The realtime members of a queue are those of the database.
pub record IsSynced (neg : Bool) (rs : List RtRecord) (ms : List Member) : Type 0 where
  pub listed : All (λ m. m.realtime ≡ true → Listed neg rs m.rt_uniqueid) ms
  pub present : All (λ r. Takes neg r → Present (text_of r.uniqueid) ms) rs

Fine-mark_dead : (L : Text → Type 0) (ms : List Member) → All (Fine L) (map mark_dead ms)
unfolding mark_dead
Fine-mark_dead L [] = tt
Fine-mark_dead L (m ∷ ms) = (dead_or_other m, Fine-mark_dead L ms)
  where
    dead_or_other : (n : Member) → Fine L (mark_dead n)
    dead_or_other n e = inl (ground arith)

All-later :
    (neg : Bool) (r : RtRecord) (ss rs : List RtRecord)
    → All (λ s. Takes neg s → Listed neg rs (text_of s.uniqueid)) ss
    → All (λ s. Takes neg s → Listed neg (r ∷ rs) (text_of s.uniqueid)) ss
All-later neg r [] rs h = tt
All-later neg r (s ∷ ss) rs h = (λ t. inr (h.0 t), All-later neg r ss rs h.1)

Listed_self :
    (neg : Bool) (rs : List RtRecord)
    → All (λ r. Takes neg r → Listed neg rs (text_of r.uniqueid)) rs
Listed_self neg [] = tt
Listed_self neg (r ∷ rs) = (λ t. inl (t, refl), All-later neg r rs rs (Listed_self neg rs))

All-true : (ms : List Member) → All (λ (m : Member). Unit {0}) ms
All-true [] = tt
All-true (m ∷ ms) = (tt, All-true ms)

-- In whatever `keep_unless` has left, a sweep's members.
swept :
    (P Q : Member → Type 0) (p : Member → Bool) (q : CallQueue)
    → ((y : ℕ) (m : Member) → p (decrement_followers y m) ≡ p m)
    → ((m : Member) → Q m → Q (plain m))
    → ((m : Member) → Q (plain m) → Q m)
    → ((m : Member) → P m × (p m ≡ false) → Q m)
    → All P q.members
    → All Q (sweep p (length q.members) 0 q).members
swept P Q p q stable to from gives h =
    All-same Q to from (sweep p (length q.members) 0 q).members (keep_unless p q.members)
      (sweep_lem p stable q)
      (All-map gives (keep_unless p q.members) (keep_unless-All P p q.members h))

live :
    (L : Text → Type 0) (m : Member)
    → Fine L m × (m.dead ≡ false)
    → m.realtime ≡ true
    → L m.rt_uniqueid
live L m (fine, alive) e = elim (fine e) [ inl d ↦ cc | inr l ↦ l ]

Present-sweep :
    (u : Text) (q : CallQueue)
    → Present u q.members
    → Present u (sweep (λ m. m.dead) (length q.members) 0 q).members
Present-sweep u q h =
    sym (any-plain u (sweep (λ m. m.dead) (length q.members) 0 q).members)
    ∙ (ap (any (has_id u)) (sweep_lem (λ m. m.dead) dead-decrement q)
        ∙ (any-plain u (keep_unless (λ m. m.dead) q.members) ∙ Present-keep_unless u q.members h))

All-Present :
    (neg : Bool) (q : CallQueue) (rs : List RtRecord)
    → All (λ r. Takes neg r → Present (text_of r.uniqueid) q.members) rs
    → All
        (λ r.
          Takes neg r
          → Present (text_of r.uniqueid) (sweep (λ m. m.dead) (length q.members) 0 q).members)
        rs
All-Present neg q [] h = tt
All-Present neg q (r ∷ rs) h =
    (λ t. Present-sweep (text_of r.uniqueid) q (h.0 t), All-Present neg q rs h.1)

-- Behind update_realtime_members the round-robin positions are still distinct and below the number of
-- members; every realtime member has the id of a record that is not passed over; and, where memory is
-- found, every such record has a member of its id. Records without an id, and those with a negative
-- penalty where that is invalid, are passed over.
pub update_realtime_members-IsSynced :
    (w : Words) (neg : Bool) (q : CallQueue) (o : Option (List RtRecord))
    → ((t : Text) → w.allocates t ≡ true)
    → IsRoster q.members
    → IsRoster (update_realtime_members w neg q o).members
      × IsSynced neg (records o) (update_realtime_members w neg q o).members
unfolding update_realtime_members
update_realtime_members-IsSynced w neg q none h v =
    let p = λ (m : Member). m.realtime in
    (
      sweep-IsRoster p (length q.members) 0 q v,
      record {
        listed =
            swept (λ _. Unit {0}) (λ m. m.realtime ≡ true → ⊥) p q realtime-decrement (λ m k. k)
              (λ m k. k) (λ m k e. cc) (All-true q.members);
        present = tt;
      },
    )
update_realtime_members-IsSynced w neg q (some rs) h v =
    let marked = record q { members = map mark_dead q.members } in
    let handled = rt_handle_all w neg marked rs in
    let L = Listed neg rs in
    let w' = IsRoster-positions q.members marked.members (mark_dead-position q.members) v in
    let fine =
      handle_all-Fine L w neg marked rs (Listed_self neg rs) (Fine-mark_dead L q.members) in
    (
      sweep-IsRoster (λ m. m.dead) (length handled.members) 0 handled
          (handle_all-IsRoster w neg marked rs w'),
      record {
        listed =
            swept (Fine L) (λ m. m.realtime ≡ true → L m.rt_uniqueid) (λ m. m.dead) handled
              dead-decrement (λ m k. k) (λ m k. k) (live L) fine;
        present = All-Present neg handled rs (handle_all-listed w neg marked rs h);
      },
    )
