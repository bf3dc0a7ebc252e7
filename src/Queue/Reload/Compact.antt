-- ===== src/Queue/Reload/Compact.antt =====
-- The members that are dropped at a reload leave no gap among the positions of the others.
use vx_pbx.Base.{
  ℕ, zero, suc, ◌+◌, ◌≤◌, ◌<◌, ◌≡◌, ◌≢◌, refl, sym, ap, ◌∙◌, subst, Bool, List, [], ◌∷◌, ◌++◌, map,
  none, some, arith, inl, inr,
}
use vx_pbx.Base.Tests.{if◌then◌else◌, Bool-cases, Option-cases}
use vx_pbx.Base.Lists.{length, get_elem?, All, length-map}
use vx_pbx.Queue.Types.{Member}
use vx_pbx.Queue.Roster.{decrement_followers}
use vx_pbx.Queue.Roster.Positions.{
  Other, Distinct, IsRoster, decrement-All, decrement-Distinct, decrement-lt,
}
use vx_pbx.Queue.Reload.{Words, decrement_behind, decrement_dead, kill_dead_members}

-- One member taken out of the middle.
pub All-remove {ℓ} :
    (P : Member → Type ℓ) (pre : List Member) (m : Member) (post : List Member)
    → All P (pre ++ m ∷ post)
    → P m × All P (pre ++ post)
All-remove P [] m post h = (h.0, h.1)
All-remove P (x ∷ pre) m post h = let rest = All-remove P pre m post h.1 in (rest.0, (h.0, rest.1))

pub Distinct-remove :
    (pre : List Member) (m : Member) (post : List Member)
    → Distinct (pre ++ m ∷ post)
    → Distinct (pre ++ post) × All (Other m.queuepos) (pre ++ post)
Distinct-remove [] m post d = (d.1, d.0)
Distinct-remove (x ∷ pre) m post d =
    let (other, others) = All-remove (Other x.queuepos) pre m post d.0 in
    let (distinct, apart) = Distinct-remove pre m post d.1 in
    ((others, distinct), ((λ e. other (sym e)), apart))

pub length-remove :
    (pre : List Member) (m : Member) (post : List Member)
    → length (pre ++ m ∷ post) ≡ suc (length (pre ++ post))
length-remove [] m post = refl
length-remove (x ∷ pre) m post = ap suc (length-remove pre m post)

pub IsRoster-remove :
    (pre : List Member) (m : Member) (post : List Member)
    → IsRoster (pre ++ m ∷ post)
    → IsRoster (map (decrement_followers m.queuepos) (pre ++ post))
IsRoster-remove pre m post v =
    let rest = pre ++ post in
    let (at, low) = All-remove (λ x. x.queuepos < length (pre ++ m ∷ post)) pre m post v.0 in
    let (distinct, others) = Distinct-remove pre m post v.1 in
    let len = length-remove pre m post in
    let len' = length-map (decrement_followers m.queuepos) rest in
    let n = length (map (decrement_followers m.queuepos) rest) in
    (
      decrement-All (λ x. x.queuepos < n) (λ x. x.queuepos < length (pre ++ m ∷ post)) m
          (λ x h o.
            decrement-lt m n x (omega (arith, h, len, len')) (omega (arith, at, len, len')) o)
          rest low others,
      decrement-Distinct m rest distinct others,
    )

-- The members who stay, and those still to be dropped: the dead ones from place `i` on.
keepers : ℕ → List Member → List Member
keepers i [] = []
keepers zero (m ∷ ms) = m ∷ ms
keepers (suc i) (m ∷ ms) = if m.delme then keepers i ms else m ∷ keepers i ms

delme-decrement_followers : (p : ℕ) (m : Member) → (decrement_followers p m).delme ≡ m.delme
unfolding decrement_followers
delme-decrement_followers p m = ground arith

keepers-map :
    (p i : ℕ) (ms : List Member)
    → keepers i (map (decrement_followers p) ms) ≡ map (decrement_followers p) (keepers i ms)
unfolding keepers
keepers-map p i [] = refl
keepers-map p zero (m ∷ ms) = refl
keepers-map p (suc i) (m ∷ ms) = ground (arith, delme-decrement_followers p m, keepers-map p i ms)

keepers_zero : (ms : List Member) → keepers 0 ms ≡ ms
unfolding keepers
keepers_zero [] = refl
keepers_zero (m ∷ ms) = refl

-- The place `i` among the keepers.
keepers_at :
    (i : ℕ) (ms : List Member) (m : Member)
    → get_elem? ms i ≡ some m
    → (pre : List Member) × (post : List Member) × (keepers i ms ≡ pre ++ m ∷ post)
      × (keepers (suc i) ms ≡ pre ++ (if m.delme then post else m ∷ post))
unfolding keepers
keepers_at i [] m e = cc
keepers_at zero (x ∷ ms) m e =
    let eq : x ≡ m = ground arith in ([], ms, ap (λ y. y ∷ ms) eq, ground (arith, keepers_zero ms))
keepers_at (suc i) (x ∷ ms) m e =
    let (pre, post, now, later) = keepers_at i ms m e in
    elim (Bool-cases x.delme) [
      | inl dead ↦ (pre, post, ground arith, ground arith)
      | inr live ↦ (x ∷ pre, post, ground arith, ground arith)
    ]

keepers_end : (i : ℕ) (ms : List Member) → get_elem? ms i ≡ none → keepers (suc i) ms ≡ keepers i ms
unfolding keepers
keepers_end i [] e = refl
keepers_end zero (x ∷ ms) e = absurd (ground arith)
keepers_end (suc i) (x ∷ ms) e = ground (arith, keepers_end i ms)

decrement_behind-IsRoster :
    (i : ℕ) (ms : List Member)
    → IsRoster (keepers i ms)
    → IsRoster (keepers (suc i) (decrement_behind i ms))
unfolding decrement_behind
decrement_behind-IsRoster i ms v = elim (Option-cases (get_elem? ms i)) [
  | inl e ↦ rw (e, decrement_behind) (rw (keepers_end i ms e) v)
  | inr (m, e) ↦
      let (pre, post, now, later) = keepers_at i ms m e in
      rw (e, decrement_behind)
        (elim (Bool-cases m.delme) [
          | inl dead ↦ rw dead (
              let kept : keepers (suc i) ms ≡ pre ++ post =
                later ∙ ap (λ (b : Bool). pre ++ (if b then post else m ∷ post)) dead in
              rw (keepers-map m.queuepos (suc i) ms, kept)
                (IsRoster-remove pre m post (subst IsRoster now v)))
          | inr live ↦ rw live (
              let same : keepers (suc i) ms ≡ pre ++ m ∷ post =
                later ∙ ap (λ (b : Bool). pre ++ (if b then post else m ∷ post)) live in
              rw same (subst IsRoster now v))
        ])
]

length-decrement_behind : (i : ℕ) (ms : List Member) → length (decrement_behind i ms) ≡ length ms
unfolding decrement_behind
length-decrement_behind i ms = elim (Option-cases (get_elem? ms i)) [
  | inl e ↦ rw (e, decrement_behind) refl
  | inr (m, e) ↦
      rw (e, decrement_behind)
        (elim (Bool-cases m.delme) [
          | inl dead ↦ rw dead (length-map (decrement_followers m.queuepos) ms)
          | inr live ↦ rw live refl
        ])
]

decrement_dead-IsRoster :
    (n i : ℕ) (ms : List Member)
    → IsRoster (keepers i ms)
    → IsRoster (keepers (i + n) (decrement_dead n i ms))
      × (length (decrement_dead n i ms) ≡ length ms)
unfolding decrement_dead
decrement_dead-IsRoster zero i ms v = let e : i + 0 ≡ i = omega arith in (rw e v, refl)
decrement_dead-IsRoster (suc n) i ms v =
    let e : i + suc n ≡ i + 1 + n = omega arith in
    let e' : suc i ≡ i + 1 = omega arith in
    let (later, len) = decrement_dead-IsRoster n (i + 1) (decrement_behind i ms) (
      subst (λ (k : ℕ). IsRoster (keepers k (decrement_behind i ms))) e'
        (decrement_behind-IsRoster i ms v)) in
    (rw e later, len ∙ length-decrement_behind i ms)

-- Past the end of the list only the live ones are kept.
module _ (w : Words) where
  kill_dead-All {ℓ} :
      (P : ℕ → Type ℓ) (n : ℕ) (ms : List Member)
      → length ms ≤ n
      → All (λ m. P m.queuepos) (keepers n ms)
      → All (λ m. P m.queuepos) (kill_dead_members w ms)
  unfolding keepers kill_dead_members
  kill_dead-All P n [] h v = tt
  kill_dead-All P zero (m ∷ ms) h v = absurd (omega (arith, h))
  kill_dead-All P (suc n) (m ∷ ms) h v = elim (Bool-cases m.delme) [
    | inl dead ↦ rw dead (kill_dead-All P n ms (omega (arith, h)) (rw dead at v))
    | inr live ↦ rw live (
        let v' : P m.queuepos × All (λ x. P x.queuepos) (keepers n ms) = rw live at v in
        (v'.0, kill_dead-All P n ms (omega (arith, h)) v'.1))
  ]

  kill_dead-Distinct :
      (n : ℕ) (ms : List Member)
      → length ms ≤ n
      → Distinct (keepers n ms)
      → Distinct (kill_dead_members w ms)
  unfolding keepers kill_dead_members
  kill_dead-Distinct n [] h v = tt
  kill_dead-Distinct zero (m ∷ ms) h v = absurd (omega (arith, h))
  kill_dead-Distinct (suc n) (m ∷ ms) h v = elim (Bool-cases m.delme) [
    | inl dead ↦ rw dead (kill_dead-Distinct n ms (omega (arith, h)) (rw dead at v))
    | inr live ↦ rw live (
        let v' : All (Other m.queuepos) (keepers n ms) × Distinct (keepers n ms) = rw live at v in
        (
          kill_dead-All (λ p. p ≢ m.queuepos) n ms (omega (arith, h)) v'.0,
          kill_dead-Distinct n ms (omega (arith, h)) v'.1,
        ))
  ]

  length-kill_dead :
      (n : ℕ) (ms : List Member)
      → length ms ≤ n
      → length (kill_dead_members w ms) ≡ length (keepers n ms)
  unfolding keepers kill_dead_members
  length-kill_dead n [] h = refl
  length-kill_dead zero (m ∷ ms) h = absurd (omega (arith, h))
  length-kill_dead (suc n) (m ∷ ms) h = elim (Bool-cases m.delme) [
    | inl dead ↦ rw dead (length-kill_dead n ms (omega (arith, h)))
    | inr live ↦ rw live (ap suc (length-kill_dead n ms (omega (arith, h))))
  ]

  pub compact-IsRoster :
      (ms : List Member)
      → IsRoster ms
      → IsRoster (kill_dead_members w (decrement_dead (length ms) 0 ms))
  compact-IsRoster ms v =
      let n = length ms in
      let out = decrement_dead n 0 ms in
      let (kept, len) = decrement_dead-IsRoster n 0 ms (rw keepers_zero v) in
      let within : length out ≤ 0 + n = omega (arith, len) in
      (
        rw (length-kill_dead (0 + n) out within)
            (kill_dead-All (λ p. p < length (keepers (0 + n) out)) (0 + n) out within kept.0),
        kill_dead-Distinct (0 + n) out within kept.1,
      )
