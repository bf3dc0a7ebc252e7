-- ===== src/Queue/Realtime/Steps.antt =====
-- What a record of the database does to the members of a queue.
use vx_pbx.Base.{
  ℕ, ◌<◌, ◌≡◌, ◌≢◌, ◌⊎◌, refl, sym, ap, ◌∙◌, subst, Bool, true, false, List, [], ◌∷◌, ◌++◌, map,
  Option, none, some, arith, inl, inr,
}
use vx_pbx.Base.Tests.{Bool-cases, Option-cases}
use vx_pbx.Base.Lists.{length, length-map, All}
use vx_pbx.Queue.Types.{Text, Member, CallQueue}
use vx_pbx.Queue.Name.{same_name}
use vx_pbx.Queue.Roster.{is_empty, member_add_to_queue}
use vx_pbx.Queue.Roster.Positions.{
  IsRoster, Distinct, Other, member_add_to_queue-IsRoster, All-append,
}
use vx_pbx.Queue.Reload.{Words}
use vx_pbx.Queue.Realtime.{
  RtRecord, text_of, rt_penalty, rt_update, rt_find, rt_created, rt_add, rt_found, rt_write,
  rt_handle_member_record, rt_handle_all, mark_dead,
}

-- A record that is not passed over.
abbrev pub Takes : Bool → RtRecord → Type 0
Takes neg r =
    (is_empty (text_of r.uniqueid) ≡ false)
    × (penalty : ℕ) × (rt_penalty neg r.penalty ≡ some penalty)

-- The id of such a record.
abbrev pub Listed : Bool → List RtRecord → Text → Type 0
Listed neg [] u = ⊥
Listed neg (r ∷ rs) u = (Takes neg r × (u ≡ text_of r.uniqueid)) ⊎ Listed neg rs u

abbrev pub position : Member → ℕ
position m = m.queuepos

All-positions :
    (R : ℕ → Type 0) (ms ms' : List Member)
    → map position ms ≡ map position ms'
    → All (λ m. R m.queuepos) ms
    → All (λ m. R m.queuepos) ms'
All-positions R [] [] e h = tt
All-positions R [] (m ∷ ms') e h = cc
All-positions R (m ∷ ms) [] e h = cc
All-positions R (m ∷ ms) (n ∷ ms') e h =
    let first : m.queuepos ≡ n.queuepos = cc in
    let rest : map position ms ≡ map position ms' = cc in
    (subst R first h.0, All-positions R ms ms' rest h.1)

Distinct-positions :
    (ms ms' : List Member) → map position ms ≡ map position ms' → Distinct ms → Distinct ms'
Distinct-positions [] [] e d = tt
Distinct-positions [] (m ∷ ms') e d = cc
Distinct-positions (m ∷ ms) [] e d = cc
Distinct-positions (m ∷ ms) (n ∷ ms') e d =
    let first : m.queuepos ≡ n.queuepos = cc in
    let rest : map position ms ≡ map position ms' = cc in
    (
      All-positions (λ x. x ≢ n.queuepos) ms ms' rest (subst (λ x. All (Other x) ms) first d.0),
      Distinct-positions ms ms' rest d.1,
    )

pub IsRoster-positions :
    (ms ms' : List Member) → map position ms ≡ map position ms' → IsRoster ms → IsRoster ms'
IsRoster-positions ms ms' e v =
    let len : length ms ≡ length ms' =
      sym (length-map position ms) ∙ (ap (λ (l : List ℕ). length l) e ∙ length-map position ms') in
    (
      subst (λ n. All (λ m. m.queuepos < n) ms') len
          (All-positions (λ x. x < length ms) ms ms' e v.0),
      Distinct-positions ms ms' e v.1,
    )

rt_first :
    (w : Words) (b : Bool) (n : ℕ) (r : RtRecord) (m : Member) (ms ms' : List Member)
    → same_name m.rt_uniqueid (text_of r.uniqueid) ≡ true
    → rt_find w b n r (m ∷ ms) ≡ some ms'
    → rt_update w b n r m ∷ ms ≡ ms'
unfolding rt_find
rt_first w b n r m ms ms' s e =
    let z : some (rt_update w b n r m ∷ ms) ≡ some ms' = sym (rw (s, rt_find) refl) ∙ e in cc

rt_later :
    (w : Words) (b : Bool) (n : ℕ) (r : RtRecord) (m : Member) (ms ms' : List Member)
    → same_name m.rt_uniqueid (text_of r.uniqueid) ≡ false
    → rt_find w b n r (m ∷ ms) ≡ some ms'
    → (rest : List Member) × (rt_find w b n r ms ≡ some rest) × (m ∷ rest ≡ ms')
unfolding rt_find
rt_later w b n r m ms ms' s e = elim (Option-cases (rt_find w b n r ms)) [
  | inl f ↦ absurd (let z : none ≡ some ms' = sym (rw (s, rt_find) (rw f refl)) ∙ e in cc)
  | inr (rest, f) ↦
      (rest, f, (let z : some (m ∷ rest) ≡ some ms' = sym (rw (s, rt_find) (rw f refl)) ∙ e in cc))
]

-- The member that is found, and what is written in its place.
pub rt_find_at :
    (w : Words) (b : Bool) (n : ℕ) (r : RtRecord) (ms ms' : List Member)
    → rt_find w b n r ms ≡ some ms'
    → (pre : List Member) × (m : Member) × (post : List Member) × (ms ≡ pre ++ m ∷ post)
      × (same_name m.rt_uniqueid (text_of r.uniqueid) ≡ true)
      × (ms' ≡ pre ++ rt_update w b n r m ∷ post)
unfolding rt_find
rt_find_at w b n r [] ms' e = cc
rt_find_at w b n r (m ∷ ms) ms' e =
    elim (Bool-cases (same_name m.rt_uniqueid (text_of r.uniqueid))) [
      | inl s ↦
          let same : rt_update w b n r m ∷ ms ≡ ms' = rt_first w b n r m ms ms' s e in
          ([], m, ms, refl, s, sym same)
      | inr s ↦
          let (rest, found, same) = rt_later w b n r m ms ms' s e in
          let (pre, x, post, at, named, left) = rt_find_at w b n r ms rest found in
          (m ∷ pre, x, post, ap (λ l. m ∷ l) at, named, sym same ∙ ap (λ l. m ∷ l) left)
    ]

pub map-middle :
    (f : Member → ℕ) (pre : List Member) (m n : Member) (post : List Member)
    → f m ≡ f n
    → map f (pre ++ m ∷ post) ≡ map f (pre ++ n ∷ post)
map-middle f [] m n post e = ap (λ x. x ∷ map f post) e
map-middle f (x ∷ pre) m n post e = ap (λ l. f x ∷ l) (map-middle f pre m n post e)

pub All-middle :
    (P : Member → Type 0) (pre : List Member) (m n : Member) (post : List Member)
    → (P m → P n)
    → All P (pre ++ m ∷ post)
    → All P (pre ++ n ∷ post)
All-middle P [] m n post f h = (f h.0, h.1)
All-middle P (x ∷ pre) m n post f h = (h.0, All-middle P pre m n post f h.1)

-- Where the search goes on.
pub data Step (w : Words) (neg : Bool) (q : CallQueue) (r : RtRecord) : CallQueue → Type 0 where
  passed : Step w neg q r q
  updated :
      (n : ℕ) (pre : List Member) (m : Member) (post : List Member)
      → Takes neg r
      → q.members ≡ pre ++ m ∷ post
      → same_name m.rt_uniqueid (text_of r.uniqueid) ≡ true
      → Step w neg q r (record q { members = pre ++ rt_update w q.ringinuse n r m ∷ post })
  added :
      (m : Member)
      → Takes neg r
      → Step w neg q r (
          member_add_to_queue q
            (record m { dead = false; realtime = true; rt_uniqueid = text_of r.uniqueid }))

created-Step :
    (w : Words) (neg : Bool) (q : CallQueue) (r : RtRecord) (o : Option Member)
    → Takes neg r
    → Step w neg q r (rt_add q r o)
created-Step w neg q r none t = passed
created-Step w neg q r (some m) t = added m t

found-Step :
    (w : Words) (neg : Bool) (q : CallQueue) (r : RtRecord) (n : ℕ) (o : Option (List Member))
    → Takes neg r
    → rt_find w q.ringinuse n r q.members ≡ o
    → Step w neg q r (rt_found w q n r o)
found-Step w neg q r n none t e = created-Step w neg q r (rt_created w q.ringinuse n r) t
found-Step w neg q r n (some ms) t e =
    let (pre, m, post, at, named, left) = rt_find_at w q.ringinuse n r q.members ms e in
    subst (λ l. Step w neg q r (record q { members = l })) (sym left)
      (updated n pre m post t at named)

write-Step :
    (w : Words) (neg : Bool) (q : CallQueue) (r : RtRecord) (o : Option ℕ)
    → is_empty (text_of r.uniqueid) ≡ false
    → rt_penalty neg r.penalty ≡ o
    → Step w neg q r (rt_write w q r o)
write-Step w neg q r none i e = passed
write-Step w neg q r (some n) i e =
    found-Step w neg q r n (rt_find w q.ringinuse n r q.members) (i, n, e) refl

pub handle-Step :
    (w : Words) (neg : Bool) (q : CallQueue) (r : RtRecord)
    → Step w neg q r (rt_handle_member_record w neg q r)
unfolding rt_handle_member_record
handle-Step w neg q r = elim (Bool-cases (is_empty (text_of r.uniqueid))) [
  | inl e ↦ rw e passed
  | inr e ↦ rw e (write-Step w neg q r (rt_penalty neg r.penalty) e refl)
]

pub mark_dead-position : (ms : List Member) → map position ms ≡ map position (map mark_dead ms)
unfolding mark_dead
mark_dead-position [] = refl
mark_dead-position (m ∷ ms) =
    let same : m.queuepos ≡ (mark_dead m).queuepos = ground arith in
    ap (λ x. x ∷ map position ms) same
    ∙ ap (λ l. (mark_dead m).queuepos ∷ l) (mark_dead-position ms)

Step-IsRoster :
    (w : Words) (neg : Bool) (q : CallQueue) (r : RtRecord) (q' : CallQueue)
    → Step w neg q r q'
    → IsRoster q.members
    → IsRoster q'.members
Step-IsRoster w neg q r q' passed v = v
Step-IsRoster w neg q r q' (updated n pre m post t at named) v =
    IsRoster-positions (pre ++ m ∷ post) (pre ++ rt_update w q.ringinuse n r m ∷ post)
      (map-middle position pre m (rt_update w q.ringinuse n r m) post refl) (subst IsRoster at v)
Step-IsRoster w neg q r q' (added m t) v = member_add_to_queue-IsRoster q _ v

-- What every member is: one of the database is to be taken out, or its id is `L`.
abbrev pub Fine : (Text → Type 0) → Member → Type 0
Fine L m = m.realtime ≡ true → (m.dead ≡ true) ⊎ L m.rt_uniqueid

Step-Fine :
    (L : Text → Type 0) (w : Words) (neg : Bool) (q : CallQueue) (r : RtRecord) (q' : CallQueue)
    → (Takes neg r → L (text_of r.uniqueid))
    → Step w neg q r q'
    → All (Fine L) q.members
    → All (Fine L) q'.members
unfolding member_add_to_queue
Step-Fine L w neg q r q' l passed h = h
Step-Fine L w neg q r q' l (updated n pre m post t at named) h =
    All-middle (Fine L) pre m (rt_update w q.ringinuse n r m) post (λ _ _. inr (l t))
      (subst (All (Fine L)) at h)
Step-Fine L w neg q r q' l (added m t) h = All-append (Fine L) q.members _ h (λ _. inr (l t))

pub handle_all-IsRoster :
    (w : Words) (neg : Bool) (q : CallQueue) (rs : List RtRecord)
    → IsRoster q.members
    → IsRoster (rt_handle_all w neg q rs).members
unfolding rt_handle_all
handle_all-IsRoster w neg q [] v = v
handle_all-IsRoster w neg q (r ∷ rs) v =
    handle_all-IsRoster w neg (rt_handle_member_record w neg q r) rs
      (Step-IsRoster w neg q r _ (handle-Step w neg q r) v)

pub handle_all-Fine :
    (L : Text → Type 0) (w : Words) (neg : Bool) (q : CallQueue) (rs : List RtRecord)
    → All (λ r. Takes neg r → L (text_of r.uniqueid)) rs
    → All (Fine L) q.members
    → All (Fine L) (rt_handle_all w neg q rs).members
unfolding rt_handle_all
handle_all-Fine L w neg q [] l h = h
handle_all-Fine L w neg q (r ∷ rs) l h =
    handle_all-Fine L w neg (rt_handle_member_record w neg q r) rs l.1
      (Step-Fine L w neg q r _ l.0 (handle-Step w neg q r) h)
