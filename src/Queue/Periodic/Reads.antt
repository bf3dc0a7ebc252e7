-- ===== src/Queue/Periodic/Reads.antt =====
-- The sounds that a periodic announcement reads.
use vx_pbx.Base.{
  ℕ, zero, suc, ◌+◌, ◌%◌, ◌≤◌, ◌<◌, ◌≡◌, refl, Bool, true, List, [], ◌∷◌, Option, some, arith, ◌⊎◌,
}
use vx_pbx.Base.Lists.{length, get_elem?}
use vx_pbx.Base.Int.{ℤ, pos, negsuc, ◌+ℤ◌, eqb_ℤ}
use vx_pbx.Queue.Types.{Text, QueueEnt, CallQueue}
use vx_pbx.Queue.Periodic.{
  sound_at, is_there, pick_sound, is_sign, switch_music, count_down, announce,
  say_periodic_announcement,
}

-- The array holds the configured sounds, and at least one, as `init_queue` and `queue_set_param`
-- leave it.
pub record HasSounds (q : CallQueue) : Type 0 where
  pub configured : q.numperiodicannounce ≤ length q.periodic.sound_periodicannounce
  pub not_empty : 0 < length q.periodic.sound_periodicannounce

get_elem_there : (xs : List Text) (i : ℕ) → i < length xs → is_there (get_elem? xs i) ≡ true
get_elem_there [] i h = absurd (omega (arith, h))
get_elem_there (x ∷ xs) zero h = refl
get_elem_there (x ∷ xs) (suc i) h = get_elem_there xs i (omega (arith, h))

mod-lt : (n d : ℕ) → 0 < d → n % d < d
mod-lt n d h = grind arith

pick_sound-lt :
    (q : CallQueue) (draw i : ℕ)
    → HasSounds q
    → pick_sound q draw i < length q.periodic.sound_periodicannounce
unfolding pick_sound
pick_sound-lt q draw i h = ground (arith, h, mod-lt draw q.numperiodicannounce)

abbrev pub IsSwitch : Option Text → Type 0
IsSwitch t = (is_sign b'-' t ≡ true) ⊎ (is_sign b'+' t ≡ true)

limit_one : (x : ℤ) → eqb_ℤ (x +ℤ negsuc 0) (pos 0) ≡ true → x ≡ pos 1
unfolding ◌+ℤ◌
limit_one (pos n) e = ground arith
limit_one (negsuc n) e = absurd (ground arith)

-- The count looks behind the chosen sound only if that is a switch and the limit is reached.
count_down-fault :
    (q : CallQueue) (qe : QueueEnt) (first : ℕ)
    → first < length q.periodic.sound_periodicannounce
    → qe.last_periodic_announce_sound ≡ first
    → (count_down q (switch_music (sound_at q first) qe)).1 ≡ true
    → (qe.periodicannouncelimit ≡ pos 1)
      × IsSwitch (sound_at q first)
      × (first + 1 ≡ length q.periodic.sound_periodicannounce)
unfolding count_down switch_music
count_down-fault q qe first h at e =
    let there = get_elem_there q.periodic.sound_periodicannounce in
    (
      ground (arith, limit_one qe.periodicannouncelimit),
      ground (arith, there first h),
      ground (arith, there first h, there (first + 1)),
    )

-- Where the array holds the configured sounds and at least one, the sound that is played is in it; and
-- the text of a sound outside it is read only where the limit is 1, the sound chosen first is a switch
-- of the music, and it is the last one in the array.
pub say_periodic_announcement-reads :
    (answer : ℕ → ℤ) (exits : ℤ → Bool) (now later : ℕ) (draw : ℕ × ℕ) (q : CallQueue)
    (qe : QueueEnt)
    → HasSounds q
    → (let r = say_periodic_announcement answer exits now later draw q qe in
        let first = pick_sound q draw.0 qe.last_periodic_announce_sound in
        let n = length q.periodic.sound_periodicannounce in
        ((i : ℕ) → r.played ≡ some i → i < n)
        × (r.fault ≡ true
            → (qe.periodicannouncelimit ≡ pos 1) × IsSwitch (sound_at q first) × (first + 1 ≡ n)))
unfolding say_periodic_announcement announce
say_periodic_announcement-reads answer exits now later draw q qe h =
    let first = pick_sound q draw.0 qe.last_periodic_announce_sound in
    let chosen = record qe { last_periodic_announce_sound = first } in
    let counted = count_down q (switch_music (sound_at q first) chosen) in
    let at = pick_sound q draw.1 counted.0.last_periodic_announce_sound in
    let low = pick_sound-lt q draw.0 qe.last_periodic_announce_sound h in
    let low' = pick_sound-lt q draw.1 counted.0.last_periodic_announce_sound h in
    let sounds = q.periodic.sound_periodicannounce in
    (
      (λ i e. ground (arith, low')),
      (λ e.
          count_down-fault q chosen first low refl
            (ground (arith, get_elem_there sounds first low, get_elem_there sounds at low'))),
    )
