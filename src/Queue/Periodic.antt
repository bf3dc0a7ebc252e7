-- ===== src/Queue/Periodic.antt =====
-- Periodic announcements to a waiting caller: `say_periodic_announcement`.
-- `answer` is the result of playing a sound, and `exits` that of `valid_exit` for a digit; `draw` are
-- the results of `ast_random`, and `later` is the clock once the sound has been played. Music on hold
-- and the queue log are left out, except for the caller's `nomoh`.
pub mod Reads
use vx_pbx.Base.{
  ℕ, ◌+◌, ◌-◌, ◌%◌, Bool, true, false, not, ◌&&◌, ◌||◌, List, [], ◌∷◌, Option, none, some,
}
use vx_pbx.Base.Tests.{ltb, leb, ◌==◌, if◌then◌else◌}
use vx_pbx.Base.Lists.{get_elem?}
use vx_pbx.Base.Int.{ℤ, pos, negsuc, ◌+ℤ◌, ltb_ℤ, eqb_ℤ}
use vx_pbx.Queue.Types.{Text, QueueEnt, CallQueue, Periodic}
use vx_pbx.Queue.Name.{same_name}
use vx_pbx.Queue.Roster.{is_empty}

abbrev pub sound_at : CallQueue → ℕ → Option Text
sound_at q i = get_elem? q.periodic.sound_periodicannounce i

abbrev pub is_there : Option Text → Bool
is_there none = false
is_there (some t) = true

-- A sound that is not there counts as empty here.
abbrev pub has_text : Option Text → Bool
has_text none = false
has_text (some t) = not (is_empty t)

-- The sound to be played: a random one, or the next one, the first behind the last one.
unfoldable pub pick_sound : CallQueue → ℕ → ℕ → ℕ
pick_sound q draw i =
    if q.periodic.randomperiodicannounce && not (q.numperiodicannounce == 0)
    then draw % q.numperiodicannounce
    else if leb q.numperiodicannounce i || not (has_text (sound_at q i))
    then 0
    else i

-- `strcasecmp` with a text of one sign.
abbrev pub is_sign : ℕ → Option Text → Bool
is_sign c none = false
is_sign c (some t) = same_name t (c ∷ [])

-- "-" stops the music for the caller and "+" allows it; both pass on to the next sound.
unfoldable pub switch_music : Option Text → QueueEnt → QueueEnt
switch_music tmp qe =
    if is_sign b'-' tmp
    then record qe {
      nomoh = true;
      last_periodic_announce_sound = qe.last_periodic_announce_sound + 1;
    }
    else if is_sign b'+' tmp
    then record qe {
      nomoh = false;
      last_periodic_announce_sound = qe.last_periodic_announce_sound + 1;
    }
    else qe

pub record Announced : Type 0 where
  pub entry : QueueEnt
  -- The place of the sound that is played, if one is.
  pub played : Option ℕ
  -- Whether the text of a sound that is not there is read.
  pub fault : Bool
  pub res : ℤ

abbrev pub silent : QueueEnt → Announced
silent qe = record { entry = qe; played = none; fault = false; res = pos 0 }

-- The count, and the music that is allowed again once it is 0.
unfoldable pub count_down : CallQueue → QueueEnt → QueueEnt × Bool
count_down q qe =
    let left = qe.periodicannouncelimit +ℤ negsuc 0 in
    let tmp = sound_at q qe.last_periodic_announce_sound in
    let qe' = record qe { periodicannouncelimit = left } in
    if eqb_ℤ left (pos 0)
    then (if is_sign b'-' tmp then qe' else record qe' { nomoh = false }, not (is_there tmp))
    else (qe', false)

-- From the choice of the sound on.
unfoldable pub announce : (ℕ → ℤ) → (ℤ → Bool) → ℕ → ℕ → ℕ × ℕ → CallQueue → QueueEnt → Announced
unfolding pick_sound switch_music count_down
announce answer exits now later draw q qe =
    let first = pick_sound q draw.0 qe.last_periodic_announce_sound in
    let switched =
      switch_music (sound_at q first) (record qe { last_periodic_announce_sound = first }) in
    let counted = count_down q switched in
    let at = pick_sound q draw.1 counted.0.last_periodic_announce_sound in
    let next = if q.periodic.randomperiodicannounce then at else at + 1 in
    let time = if q.periodic.relativeperiodicannounce then later else now in
    let res = answer at in
    record {
      entry = record (counted.0) {
        last_periodic_announce_sound = next;
        last_periodic_announce_time = time;
      };
      played = some at;
      fault = not (is_there (sound_at q first)) || counted.1 || not (is_there (sound_at q at));
      res = if ltb_ℤ (pos 0) res && not (exits res) then pos 0 else res;
    }

unfoldable pub say_periodic_announcement :
    (ℕ → ℤ) → (ℤ → Bool) → ℕ → ℕ → ℕ × ℕ → CallQueue → QueueEnt → Announced
unfolding announce
say_periodic_announcement answer exits now later draw q qe =
    if eqb_ℤ qe.periodicannouncelimit (pos 0)
    then silent qe
    else if ltb now (qe.last_periodic_announce_time + q.periodic.periodicannouncefrequency)
    then silent qe
    else announce answer exits now later draw q qe
