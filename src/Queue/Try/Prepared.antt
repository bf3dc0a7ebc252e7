-- ===== src/Queue/Try/Prepared.antt =====
-- The attempts that `try_calling` makes.
use vx_pbx.Base.{
  ℕ, ◌≡◌, refl, Bool, true, false, ◌&&◌, List, [], ◌∷◌, ◌++◌, Option, none, some, arith, inl, inr,
}
use vx_pbx.Base.Tests.{Bool-cases}
use vx_pbx.Base.Lists.{any, All}
use vx_pbx.Queue.Types.{Text, Member, QueueEnt, CallQueue}
use vx_pbx.Queue.Name.{same_name, same_name_refl, same_name_trans}
use vx_pbx.Queue.Metric.{CallAttempt, calc_metric, score, uses_penalty}
use vx_pbx.Queue.Members.{outside_penalty}
use vx_pbx.Queue.Try.{
  is_local, is_dialed, new_attempt, note, Preparing, add_attempt, prepare_one, prepare_all, prepare,
}

-- An interface that is not a Local one is not called a second time.
abbrev pub Differ : Text → CallAttempt → Type 0
Differ a b = is_local b.interface ≡ false → same_name a b.interface ≡ false

abbrev pub Apart : List CallAttempt → Type 0
Apart [] = Unit {0}
Apart (a ∷ rest) = All (Differ a.interface) rest × Apart rest

-- An attempt for a member, still to be made, at an interface that was not dialed before.
abbrev pub IsNew : List Text → CallAttempt → Type 0
IsNew dialed a =
    (a.interface ≡ a.member.interface)
    × (a.stillgoing ≡ true)
    × (a.called ≡ false)
    × (is_dialed dialed a.interface ≡ false)

any-append_left :
    (p : Text → Bool) (xs ys : List Text) → any p (xs ++ ys) ≡ false → any p xs ≡ false
any-append_left p [] ys h = refl
any-append_left p (x ∷ xs) ys h = ground (arith, any-append_left p xs ys)

any-append_right : (p : Text → Bool) (xs ys : List Text) → any p ys ≡ true → any p (xs ++ ys) ≡ true
any-append_right p [] ys h = h
any-append_right p (x ∷ xs) ys h = ground (arith, any-append_right p xs ys)

any-append_keeps : (p : Text → Bool) (xs ys : List Text) → any p xs ≡ true → any p (xs ++ ys) ≡ true
any-append_keeps p [] ys h = cc
any-append_keeps p (x ∷ xs) ys h = ground (arith, any-append_keeps p xs ys)

-- Texts of one name are dialed or not together.
is_dialed-same_name :
    (dialed : List Text) (a b : Text)
    → same_name a b ≡ true
    → is_dialed dialed b ≡ true
    → is_dialed dialed a ≡ true
is_dialed-same_name [] a b h d = d
is_dialed-same_name (x ∷ xs) a b h d =
    ground (arith, same_name_trans a b x, is_dialed-same_name xs a b h)

-- What holds of the loop's variables: what it has made is noted among the dialed interfaces.
record IsPreparing (first : List Text) (s : Preparing) : Type 0 where
  fresh : All (IsNew first) s.outgoing
  apart : Apart s.outgoing
  noted : All (λ a. is_local a.interface ≡ false → is_dialed s.dialed a.interface ≡ true) s.outgoing
  grows : (t : Text) → is_dialed first t ≡ true → is_dialed s.dialed t ≡ true

Differ-noted :
    (dialed : List Text) (a : Text) (bs : List CallAttempt)
    → is_dialed dialed a ≡ false
    → All (λ b. is_local b.interface ≡ false → is_dialed dialed b.interface ≡ true) bs
    → All (Differ a) bs
Differ-noted dialed a [] n h = tt
Differ-noted dialed a (b ∷ bs) n h = (
  λ l. elim (Bool-cases (same_name a b.interface)) [
    | inl same ↦ cc (is_dialed-same_name dialed a b.interface same (h.0 l))
    | inr other ↦ other
  ],
  Differ-noted dialed a bs n h.1,
)

noted-append :
    (dialed more : List Text) (bs : List CallAttempt)
    → All (λ b. is_local b.interface ≡ false → is_dialed dialed b.interface ≡ true) bs
    → All (λ b. is_local b.interface ≡ false → is_dialed (dialed ++ more) b.interface ≡ true) bs
noted-append dialed more [] h = tt
noted-append dialed more (b ∷ bs) h = (
  λ l. any-append_keeps (same_name b.interface) dialed more (h.0 l),
  noted-append dialed more bs h.1,
)

-- The attempt that a metric is written to keeps all else.
pub calc_metric-interface :
    (now draw : ℕ) (q : CallQueue) (m : Member) (at : ℕ) (qe : QueueEnt) (tmp : CallAttempt)
    (q' : CallQueue) (qe' : QueueEnt) (tmp' : CallAttempt)
    → calc_metric now draw q m at qe tmp ≡ some (q', qe', tmp')
    → (tmp'.interface ≡ tmp.interface)
      × (tmp'.member ≡ tmp.member)
      × (tmp'.stillgoing ≡ tmp.stillgoing)
      × (tmp'.called ≡ tmp.called)
unfolding calc_metric
calc_metric-interface now draw q m at qe tmp q' qe' tmp' e =
    let test = uses_penalty q && outside_penalty qe.max_penalty qe.min_penalty m.penalty in
    elim (Bool-cases test) [
      | inl out ↦ absurd (let z : none ≡ some (q', qe', tmp') = rw out at e in cc)
      | inr fits ↦
          let same : record tmp { metric = (score q.strategy now draw q m at qe).metric } ≡ tmp' =
            (let z = rw fits at e in cc) in
          rw (← same) (refl, refl, refl, refl)
    ]

add_attempt-IsPreparing :
    (first : List Text) (cur : Member) (s : Preparing)
    (r : Option (CallQueue × QueueEnt × CallAttempt))
    → IsPreparing first s
    → is_dialed first cur.interface ≡ false
    → (is_local cur.interface ≡ false → is_dialed s.dialed cur.interface ≡ true)
    → All (Differ cur.interface) s.outgoing
    → ((q : CallQueue) (qe : QueueEnt) (tmp : CallAttempt)
        → r ≡ some (q, qe, tmp)
        → (tmp.interface ≡ cur.interface)
          × (tmp.member ≡ cur)
          × (tmp.stillgoing ≡ true)
          × (tmp.called ≡ false))
    → IsPreparing first (add_attempt s r)
add_attempt-IsPreparing first cur s none v new note apart made = record {
  fresh = v.fresh;
  apart = v.apart;
  noted = v.noted;
  grows = v.grows;
}
add_attempt-IsPreparing first cur s (some (q, qe, tmp)) v new note apart made =
    let m = made q qe tmp refl in
    record {
      fresh = ((rw (m.0, m.1) refl, m.2, m.3, rw m.0 new), v.fresh);
      apart = (rw m.0 apart, v.apart);
      noted = (rw m.0 note, v.noted);
      grows = v.grows;
    }

-- The interface of a member is noted, unless it is a Local one.
note-IsPreparing :
    (first : List Text) (s : Preparing) (interface : Text)
    → IsPreparing first s
    → IsPreparing first (record s { dialed = note interface s.dialed })
      × (is_local interface ≡ false → is_dialed (note interface s.dialed) interface ≡ true)
unfolding note
note-IsPreparing first s interface v = elim (Bool-cases (is_local interface)) [
  | inl local ↦
      rw local
        (record { fresh = v.fresh; apart = v.apart; noted = v.noted; grows = v.grows }, λ l. cc)
  | inr other ↦
      let more = interface ∷ [] in
      rw other (
        record {
          fresh = v.fresh;
          apart = v.apart;
          noted = noted-append s.dialed more s.outgoing v.noted;
          grows = λ t d. any-append_keeps (same_name t) s.dialed more (v.grows t d);
        },
        λ l.
            any-append_right (same_name interface) s.dialed more
              (rw (same_name_refl interface) refl),
      )
]

not_first :
    (first : List Text) (s : Preparing) (t : Text)
    → IsPreparing first s
    → is_dialed s.dialed t ≡ false
    → is_dialed first t ≡ false
not_first first s t v d = elim (Bool-cases (is_dialed first t)) [
  | inl old ↦ cc (v.grows t old)
  | inr new ↦ new
]

prepare_one-IsPreparing :
    (first : List Text) (now : ℕ) (draw : ℕ → ℕ) (s : Preparing) (cur : Member)
    → IsPreparing first s
    → IsPreparing first (prepare_one now draw s cur)
unfolding prepare_one
prepare_one-IsPreparing first now draw s cur v =
    elim (Bool-cases (is_dialed s.dialed cur.interface)) [
      | inl old ↦ rw old v
      | inr new ↦
          let noted = note-IsPreparing first s cur.interface v in
          rw new (
            add_attempt-IsPreparing first cur (record s { dialed = note cur.interface s.dialed })
              (calc_metric now (draw s.at) s.queue cur s.at s.entry (new_attempt cur)) noted.0
              (not_first first s cur.interface v new) noted.1
              (Differ-noted s.dialed cur.interface s.outgoing new v.noted)
              (λ q qe tmp e.
                calc_metric-interface now (draw s.at) s.queue cur s.at s.entry (new_attempt cur) q
                  qe tmp e))
    ]

prepare_all-IsPreparing :
    (first : List Text) (now : ℕ) (draw : ℕ → ℕ) (s : Preparing) (ms : List Member)
    → IsPreparing first s
    → IsPreparing first (prepare_all now draw s ms)
unfolding prepare_all
prepare_all-IsPreparing first now draw s [] v = v
prepare_all-IsPreparing first now draw s (m ∷ ms) v =
    prepare_all-IsPreparing first now draw (prepare_one now draw s m) ms
      (prepare_one-IsPreparing first now draw s m v)

-- Every attempt is for the interface of its member, open, and not at an interface that the channel has
-- dialed before; and no two attempts are at one interface, unless it is a Local one.
pub prepare-Apart :
    (now : ℕ) (draw : ℕ → ℕ) (dialed : List Text) (q : CallQueue) (qe : QueueEnt)
    → All (IsNew dialed) (prepare now draw dialed q qe).outgoing
      × Apart (prepare now draw dialed q qe).outgoing
unfolding prepare
prepare-Apart now draw dialed q qe =
    let start : Preparing = record {
      queue = q;
      entry = qe;
      dialed = dialed;
      at = 0;
      outgoing = [];
    } in
    let v =
      prepare_all-IsPreparing dialed now draw start q.members
        (record { fresh = tt; apart = tt; noted = tt; grows = λ t d. d }) in
    (v.fresh, v.apart)
