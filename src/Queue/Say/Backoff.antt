-- ===== src/Queue/Say/Backoff.antt =====
-- With `backoff` off, the numbers that a caller is told never grow, however its place in the line
-- changes between the announcements.
use vx_pbx.Base.{
  ℕ, ◌+◌, ◌-◌, ◌≤◌, ◌<◌, ◌≡◌, ap, refl, sym, ◌∙◌, Bool, false, not, ◌&&◌, ◌||◌, List, [], ◌∷◌, ◌++◌,
  Option, none, some, arith, inl, inr,
}
use vx_pbx.Base.Tests.{if◌then◌else◌, if_keeps, ◌==◌, ltb}
use vx_pbx.Base.Lists.{All}
use vx_pbx.Base.Int.{ℤ}
use vx_pbx.Queue.Types.{QueueEnt, CallQueue}
use vx_pbx.Queue.Say.{
  Prompt, shown_position, sounds, playout, Said, say_position, logged, measured, too_early,
}
use vx_pbx.Queue.Say.Told.{told, TellsOnly, sounds-TellsOnly}

-- The parts of the state that the sounds leave as they are.
record Keeps (s : Said) (q : CallQueue) (qe : QueueEnt) : Type 0 where
  announcing : s.queue.announcing ≡ q.announcing
  last_pos_said : s.entry.last_pos_said ≡ qe.last_pos_said
  position : s.entry.position ≡ qe.position

sounds-Keeps :
    (answer : Prompt → ℤ) (q : CallQueue) (qe : QueueEnt) (waited shown at : ℕ)
    → Keeps (sounds answer q qe waited shown at) q qe
unfolding sounds
sounds-Keeps answer q qe waited shown at = record {
  announcing = ground arith;
  last_pos_said = ground arith;
  position = ground arith;
}

-- What one call does to a told caller.
record OnceTold (r : Said) (q : CallQueue) (qe : QueueEnt) : Type 0 where
  announcing : r.queue.announcing ≡ q.announcing
  below : r.entry.last_pos_said ≤ qe.last_pos_said
  still_told : 0 < r.entry.last_pos_said
  told_only : TellsOnly (r.entry.last_pos_said + q.announcing.offset) r.heard

-- The place kept for the next call is the one that was announced.
shown_after :
    (b : Bool) (said at said' at' : ℕ) (b' : Bool)
    → b ≡ false
    → b' ≡ false
    → said ≡ said'
    → at ≡ at'
    → 0 < said'
    → (if b || said == 0 || ltb at said then at else said)
      ≡ (if not b' && ltb 0 said' && ltb said' at' then said' else at')
shown_after b said at said' at' b' f f' e e' h = ground arith

shown_bounds :
    (said at : ℕ) (b : Bool)
    → b ≡ false
    → 0 < said
    → 0 < at
    → (let shown = if not b && ltb 0 said && ltb said at then said else at in
        (shown ≤ said) × (0 < shown))
shown_bounds said at b f h k = (ground arith, ground arith)

playout-OnceTold :
    (answer : Prompt → ℤ) (exits : ℤ → Bool) (now waited : ℕ) (q q' : CallQueue) (qe qe' : QueueEnt)
    → q'.announcing ≡ q.announcing
    → qe'.last_pos_said ≡ qe.last_pos_said
    → qe'.position ≡ qe.position
    → q.announcing.backoff ≡ false
    → 0 < qe.last_pos_said
    → 0 < qe.position
    → (let shown = shown_position q.announcing qe in
        OnceTold
          (playout exits now (sounds answer q' qe' waited shown (shown + q.announcing.offset)))
          q
          qe)
unfolding playout shown_position
playout-OnceTold answer exits now waited q q' qe qe' same said placed off told_before placed_right =
    let shown = shown_position q.announcing qe in
    let at = shown + q.announcing.offset in
    let kept = sounds-Keeps answer q' qe' waited shown at in
    let s = sounds answer q' qe' waited shown at in
    let ann = kept.announcing ∙ same in
    let lps = kept.last_pos_said ∙ said in
    let pos_kept = kept.position ∙ placed in
    let off' = ap (λ a. a.backoff) ann ∙ off in
    let after =
      shown_after s.queue.announcing.backoff s.entry.last_pos_said s.entry.position qe.last_pos_said
        qe.position q.announcing.backoff off' off lps pos_kept told_before in
    let bounds =
      shown_bounds qe.last_pos_said qe.position q.announcing.backoff off told_before placed_right in
    record {
      announcing = ann;
      below = rw after bounds.0;
      still_told = rw after bounds.1;
      told_only = rw after (
          sounds-TellsOnly answer q' qe' waited (shown_position q.announcing qe)
            (shown_position q.announcing qe + q.announcing.offset));
    }

say_position-OnceTold :
    (answer : Prompt → ℤ) (exits : ℤ → Bool) (now : ℕ) (q : CallQueue) (qe : QueueEnt)
    → q.announcing.backoff ≡ false
    → 0 < qe.last_pos_said
    → 0 < qe.position
    → OnceTold (say_position answer exits now q qe) q qe
unfolding say_position
say_position-OnceTold answer exits now q qe off told_before placed_right =
    let waited = now - qe.start in
    let shown = shown_position q.announcing qe in
    let at = shown + q.announcing.offset in
    let qe' = logged q qe now in
    let q' = measured q qe waited in
    let sounded =
      playout-OnceTold answer exits now waited q q' qe qe' (ground arith) (ground arith)
        (ground arith) off told_before placed_right in
    if_keeps (λ r. OnceTold r q qe) (ltb waited q.announcing.announcedelay) _ _
      (record { announcing = refl; below = omega arith; still_told = told_before; told_only = tt })
      (if_keeps (λ r. OnceTold r q qe) (too_early q.announcing qe now shown at) _ _
        (record {
          announcing = ground arith;
          below = ground arith;
          still_told = ground arith;
          told_only = tt;
        })
        sounded)

-- One call of `say_position`, on the place that the caller has by then.
pub record Visit : Type 0 where
  pub now : ℕ
  pub place_now : ℕ
  pub answer : Prompt → ℤ
  pub exits : ℤ → Bool

-- All that the caller hears in these calls.
unfoldable pub visits : CallQueue → QueueEnt → List Visit → List Prompt
visits q qe [] = []
visits q qe (v ∷ vs) =
    let said = say_position v.answer v.exits v.now q (record qe { position = v.place_now }) in
    said.heard ++ visits said.queue said.entry vs

abbrev pub told_or : ℕ → Option ℕ → ℕ
told_or before none = before
told_or before (some n) = n

-- Each number told in these sounds is at most the one told before, the first at most the bound.
abbrev pub FallsFrom : ℕ → List Prompt → Type 0
FallsFrom bound [] = Unit
FallsFrom bound (p ∷ ps) = (told_or bound (told p) ≤ bound) × FallsFrom (told_or bound (told p)) ps

told_or-bound : (n bound : ℕ) (o : Option ℕ) → n ≤ bound → told_or n o ≤ n → told_or bound o ≤ bound
told_or-bound n bound none h k = omega arith
told_or-bound n bound (some m) h k = omega arith

told_or-le : (n bound : ℕ) (o : Option ℕ) → n ≤ bound → told_or n o ≤ told_or bound o
told_or-le n bound none h = h
told_or-le n bound (some k) h = omega arith

FallsFrom-le : (n bound : ℕ) (ps : List Prompt) → n ≤ bound → FallsFrom n ps → FallsFrom bound ps
FallsFrom-le n bound [] h f = tt
FallsFrom-le n bound (p ∷ ps) h f = (
  told_or-bound n bound (told p) h f.0,
  FallsFrom-le (told_or n (told p)) (told_or bound (told p)) ps (told_or-le n bound (told p) h) f.1,
)

TellsOnly-FallsFrom :
    (n bound : ℕ) (ps qs : List Prompt)
    → TellsOnly n ps
    → n ≤ bound
    → FallsFrom n qs
    → FallsFrom bound (ps ++ qs)
TellsOnly-FallsFrom n bound [] qs t h f = FallsFrom-le n bound qs h f
TellsOnly-FallsFrom n bound (p ∷ ps) qs t h f =
    elim t.0 as (λ _. FallsFrom bound ((p ∷ ps) ++ qs)) [
      | inl none_told ↦
          rw none_told
            (let b : bound ≤ bound = omega arith in (b, TellsOnly-FallsFrom n bound ps qs t.1 h f))
      | inr this_told ↦
          rw this_told (let b : n ≤ n = omega arith in (h, TellsOnly-FallsFrom n n ps qs t.1 b f))
    ]

-- With `backoff` off, a caller that has been told its place hears numbers that never grow, the first
-- of them at most the last place told plus the offset, whatever its places at the later calls are, as
-- long as each is at least 1, and whatever the answers to the sounds are.
pub visits-FallsFrom :
    (q : CallQueue) (qe : QueueEnt) (vs : List Visit)
    → q.announcing.backoff ≡ false
    → 0 < qe.last_pos_said
    → All (λ v. 0 < v.place_now) vs
    → FallsFrom (qe.last_pos_said + q.announcing.offset) (visits q qe vs)
unfolding visits
visits-FallsFrom q qe [] off told_before placed_right = tt
visits-FallsFrom q qe (v ∷ vs) off told_before placed_right =
    let qe' = record qe { position = v.place_now } in
    let said = say_position v.answer v.exits v.now q qe' in
    let once = say_position-OnceTold v.answer v.exits v.now q qe' off told_before placed_right.0 in
    let later =
      visits-FallsFrom said.queue said.entry vs (ap (λ a. a.backoff) once.announcing ∙ off)
        once.still_told placed_right.1 in
    let offset_kept = ap (λ a. a.offset) once.announcing in
    TellsOnly-FallsFrom (said.entry.last_pos_said + q.announcing.offset)
      (qe.last_pos_said + q.announcing.offset) said.heard (visits said.queue said.entry vs)
      once.told_only (let b = once.below in omega arith)
      (rw (sym (ap (λ o. said.entry.last_pos_said + o) offset_kept)) later)
