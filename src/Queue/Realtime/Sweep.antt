-- ===== src/Queue/Realtime/Sweep.antt =====
-- What the loop that takes members out leaves.
use vx_pbx.Base.{
  ℕ, zero, suc, ◌+◌, ◌≤◌, ◌≡◌, refl, sym, ap, ◌∙◌, subst, Bool, true, false, List, [], ◌∷◌, ◌++◌,
  map, none, some, arith, inl, inr,
}
use vx_pbx.Base.Tests.{ltb, if◌then◌else◌, Bool-cases, Option-cases}
use mathlib.Core.List.{append-nil}
use vx_pbx.Base.Lists.{length, length-append, get_elem?, length-map}
use vx_pbx.Queue.Types.{Member, CallQueue}
use vx_pbx.Queue.Roster.{decrement_followers, follower_removal}
use vx_pbx.Queue.Roster.Positions.{IsRoster}
use vx_pbx.Queue.Reload.Compact.{IsRoster-remove}
use vx_pbx.Queue.Realtime.{erase, remove_at, sweep}

-- The member at a place, and what is left without it.
erase_at :
    (i : ℕ) (m : Member) (ms : List Member)
    → get_elem? ms i ≡ some m
    → (pre : List Member) × (post : List Member) × (ms ≡ pre ++ m ∷ post)
      × ((f : Member → Member) → erase i (map f ms) ≡ map f (pre ++ post))
      × (length pre ≡ i)
erase_at i m [] e = cc
erase_at zero m (x ∷ ms) e =
    let same : x ≡ m = cc in ([], ms, ap (λ y. y ∷ ms) same, λ f. refl, refl)
erase_at (suc i) m (x ∷ ms) e =
    let (pre, post, at, left, len) = erase_at i m ms e in
    (x ∷ pre, post, ap (λ l. x ∷ l) at, λ f. ap (λ l. f x ∷ l) (left f), ap suc len)

remove_at-IsRoster :
    (i : ℕ) (m : Member) (q : CallQueue)
    → get_elem? q.members i ≡ some m
    → IsRoster q.members
    → IsRoster (remove_at i m q).members
unfolding remove_at follower_removal
remove_at-IsRoster i m q e v =
    let (pre, post, at, left, len) = erase_at i m q.members e in
    rw (left (decrement_followers m.queuepos)) (IsRoster-remove pre m post (subst IsRoster at v))

pub sweep-IsRoster :
    (p : Member → Bool) (n i : ℕ) (q : CallQueue)
    → IsRoster q.members
    → IsRoster (sweep p n i q).members
unfolding sweep
sweep-IsRoster p zero i q v = v
sweep-IsRoster p (suc n) i q v = elim (Option-cases (get_elem? q.members i)) [
  | inl e ↦ rw (e, sweep) v
  | inr (m, e) ↦ elim (Bool-cases (p m)) [
    | inl t ↦
        rw (e, sweep)
          (rw (t, sweep) (sweep-IsRoster p n i (remove_at i m q) (remove_at-IsRoster i m q e v)))
    | inr f ↦ rw (e, sweep) (rw (f, sweep) (sweep-IsRoster p n (i + 1) q v))
  ]
]

-- A member but for its position.
abbrev pub plain : Member → Member
plain m = record m { queuepos = 0 }

abbrev pub keep_unless : (Member → Bool) → List Member → List Member
keep_unless p [] = []
keep_unless p (m ∷ ms) = if p m then keep_unless p ms else m ∷ keep_unless p ms

plain-decrement : (x : ℕ) (m : Member) → plain (decrement_followers x m) ≡ plain m
unfolding decrement_followers
plain-decrement x m = elim (Bool-cases (ltb x m.queuepos)) [ inl l ↦ rw l refl | inr g ↦ rw g refl ]

map-plain : (x : ℕ) (ms : List Member) → map plain (map (decrement_followers x) ms) ≡ map plain ms
map-plain x [] = refl
map-plain x (m ∷ ms) =
    ap (λ a. a ∷ map plain (map (decrement_followers x) ms)) (plain-decrement x m)
    ∙ ap (λ l. plain m ∷ l) (map-plain x ms)

keep_unless-map :
    (p : Member → Bool) (x : ℕ) (ms : List Member)
    → ((y : ℕ) (m : Member) → p (decrement_followers y m) ≡ p m)
    → map plain (keep_unless p (map (decrement_followers x) ms)) ≡ map plain (keep_unless p ms)
keep_unless-map p x [] s = refl
keep_unless-map p x (m ∷ ms) s =
    let rest = keep_unless-map p x ms s in
    let same = s x m in
    elim (Bool-cases (p m)) [
      | inl t ↦ rw (same, t) rest
      | inr f ↦
          rw (same, f)
            (ap (λ a. a ∷ map plain (keep_unless p (map (decrement_followers x) ms)))
                (plain-decrement x m)
              ∙ ap (λ l. plain m ∷ l) rest)
    ]

get_elem?-length :
    (pre : List Member) (m : Member) (post : List Member)
    → get_elem? (pre ++ m ∷ post) (length pre) ≡ some m
get_elem?-length [] m post = refl
get_elem?-length (x ∷ pre) m post = get_elem?-length pre m post

get_elem?-end : (pre : List Member) → get_elem? (pre ++ []) (length pre) ≡ none
get_elem?-end [] = refl
get_elem?-end (x ∷ pre) = get_elem?-end pre

erase-length :
    (f : Member → Member) (pre : List Member) (m : Member) (post : List Member)
    → erase (length pre) (map f (pre ++ m ∷ post)) ≡ map f pre ++ map f post
erase-length f [] m post = refl
erase-length f (x ∷ pre) m post = ap (λ l. f x ∷ l) (erase-length f pre m post)

append_one :
    (pre : List Member) (m : Member) (post : List Member)
    → pre ++ m ∷ post ≡ (pre ++ m ∷ []) ++ post
append_one [] m post = refl
append_one (x ∷ pre) m post = ap (λ l. x ∷ l) (append_one pre m post)

map-append_one :
    (pre : List Member) (m : Member) (ms : List Member)
    → map plain (pre ++ m ∷ []) ++ ms ≡ map plain pre ++ plain m ∷ ms
map-append_one [] m ms = refl
map-append_one (x ∷ pre) m ms = ap (λ l. plain x ∷ l) (map-append_one pre m ms)

removed :
    (pre : List Member) (m : Member) (post : List Member) (q : CallQueue)
    → (let here = record q { members = pre ++ m ∷ post } in
        let d = decrement_followers m.queuepos in
        remove_at (length pre) m here
        ≡ record q { rrpos = (follower_removal here m).rrpos; members = map d pre ++ map d post })
unfolding remove_at follower_removal
removed pre m post q =
    let here = record q { members = pre ++ m ∷ post } in
    ap (λ l. record q { rrpos = (follower_removal here m).rrpos; members = l })
      (erase-length (decrement_followers m.queuepos) pre m post)

-- Of the members behind a place, those are left that do not pass the test, and those before it stay.
module _ (p : Member → Bool) (s : (y : ℕ) (m : Member) → p (decrement_followers y m) ≡ p m) where
  sweep_out :
      (n i : ℕ) (m : Member) (q : CallQueue)
      → get_elem? q.members i ≡ some m
      → p m ≡ true
      → sweep p (suc n) i q ≡ sweep p n i (remove_at i m q)
  unfolding sweep
  sweep_out n i m q e t = rw (e, sweep) (rw (t, sweep) refl)

  sweep_on :
      (n i : ℕ) (m : Member) (q : CallQueue)
      → get_elem? q.members i ≡ some m
      → p m ≡ false
      → sweep p (suc n) i q ≡ sweep p n (i + 1) q
  unfolding sweep
  sweep_on n i m q e t = rw (e, sweep) (rw (t, sweep) refl)

  sweep_end : (n i : ℕ) (q : CallQueue) → get_elem? q.members i ≡ none → sweep p (suc n) i q ≡ q
  unfolding sweep
  sweep_end n i q e = rw (e, sweep) refl

  sweep_from :
      (n : ℕ) (pre post : List Member) (q : CallQueue)
      → length post ≤ n
      → map plain (sweep p n (length pre) (record q { members = pre ++ post })).members
        ≡ map plain pre ++ map plain (keep_unless p post)
  unfolding sweep
  sweep_from zero pre [] q h = ap (map plain) (append-nil pre) ∙ sym (append-nil (map plain pre))
  sweep_from zero pre (m ∷ post) q h = absurd (omega arith)
  sweep_from (suc n) pre [] q h =
      ap (λ (r : CallQueue). map plain r.members)
        (sweep_end n (length pre) (record q { members = pre ++ [] }) (get_elem?-end pre))
      ∙ (ap (map plain) (append-nil pre) ∙ sym (append-nil (map plain pre)))
  sweep_from (suc n) pre (m ∷ post) q h = elim (Bool-cases (p m)) [
    | inl t ↦
        let d = decrement_followers m.queuepos in
        let here = record q { members = pre ++ m ∷ post } in
        let left = record q {
          rrpos = (follower_removal here m).rrpos;
          members = map d pre ++ map d post;
        } in
        ap (λ (r : CallQueue). map plain r.members)
          (sweep_out n (length pre) m here (get_elem?-length pre m post) t
            ∙ (ap (sweep p n (length pre)) (removed pre m post q)
                ∙ ap (λ i. sweep p n i left) (sym (length-map d pre))))
        ∙ (sweep_from n (map d pre) (map d post)
              (record q { rrpos = (follower_removal here m).rrpos })
              (omega (arith, h, length-map d post))
            ∙ (ap (λ l. l ++ map plain (keep_unless p (map d post))) (map-plain m.queuepos pre)
                ∙ (ap (λ l. map plain pre ++ l) (keep_unless-map p m.queuepos post s) ∙ rw t refl)))
    | inr f ↦
        let here = record q { members = pre ++ m ∷ post } in
        let on = pre ++ m ∷ [] in
        ap (λ (r : CallQueue). map plain r.members)
          (sweep_on n (length pre) m here (get_elem?-length pre m post) f
            ∙ (ap (λ l. sweep p n (length pre + 1) (record q { members = l }))
                  (append_one pre m post)
                ∙ ap (λ i. sweep p n i (record q { members = on ++ post }))
                    (sym (length-append pre (m ∷ [])))))
        ∙ (sweep_from n on post q (omega arith)
            ∙ (map-append_one pre m (map plain (keep_unless p post)) ∙ rw f refl))
  ]

  -- Through the whole container: those that pass the test are gone, and the others are left.
  pub sweep_lem :
      (q : CallQueue)
      → map plain (sweep p (length q.members) 0 q).members ≡ map plain (keep_unless p q.members)
  sweep_lem q = sweep_from (length q.members) [] q.members q (omega arith)

pub dead-decrement : (y : ℕ) (m : Member) → (decrement_followers y m).dead ≡ m.dead
unfolding decrement_followers
dead-decrement y m = ground arith

pub realtime-decrement : (y : ℕ) (m : Member) → (decrement_followers y m).realtime ≡ m.realtime
unfolding decrement_followers
realtime-decrement y m = ground arith
