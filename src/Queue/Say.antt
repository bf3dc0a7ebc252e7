-- ===== src/Queue/Say.antt =====
-- What a waiting caller is told: `say_position`. The answers to the sounds are an argument: 0 where
-- a sound is played to its end, a digit where the caller presses one, or a negative number where the
-- call is gone. `exits` is the result of `valid_exit` for a digit. Times and settings are not
-- negative. Music on hold and the queue log, which decide nothing, are left out.
pub mod Told
pub mod Backoff
use vx_pbx.Base.{
  ℕ, ◌+◌, ◌-◌, ◌*◌, ◌/◌, Bool, true, false, not, ◌&&◌, ◌||◌, List, [], ◌∷◌, ◌++◌, Option, none,
  some,
}
use vx_pbx.Base.Tests.{ltb, leb, ◌==◌, if◌then◌else◌}
use vx_pbx.Base.Int.{ℤ, pos, ◌+ℤ◌, sub_ℕ, ltb_ℤ, leb_ℤ, eqb_ℤ}
use vx_pbx.Queue.Types.{QueueEnt, CallQueue, Announce, AnnouncePosition}

pub data Prompt : Type 0 where
  next thereare calls quantity1 quantity2 holdtime minute minutes seconds thanks : Prompt
  -- `ast_say_number` of the position, of the limit, of the minutes and of the seconds.
  place limit hold_minutes : ℕ → Prompt
  hold_seconds : ℤ → Prompt

-- The sounds that the caller hears, and how the last of them was answered.
pub record Played : Type 0 where
  pub heard : List Prompt
  pub res : ℤ

unfoldable pub play : (Prompt → ℤ) → List Prompt → Played
play answer [] = record { heard = []; res = pos 0 }
play answer (p ∷ ps) =
    let more = play answer ps in
    if eqb_ℤ (answer p) (pos 0)
    then record more { heard = p ∷ more.heard }
    else record { heard = p ∷ []; res = answer p }

unfoldable pub is_more_than : AnnouncePosition → Bool
is_more_than AnnouncePosition.more_than = true
is_more_than _ = false

unfoldable pub is_off : AnnouncePosition → Bool
is_off AnnouncePosition.off = true
is_off _ = false

-- Whether the position is announced at all; `shown` is the position before the offset.
unfoldable pub announces : AnnouncePosition → ℕ → ℕ → Bool
announces AnnouncePosition.always bound shown = true
announces AnnouncePosition.more_than bound shown = true
announces AnnouncePosition.limit bound shown = leb shown bound
announces _ bound shown = false

-- `xpos`: the position that is said, which does not grow unless `backoff` is set.
unfoldable pub shown_position : Announce → QueueEnt → ℕ
shown_position a qe =
    if not a.backoff && ltb 0 qe.last_pos_said && ltb qe.last_pos_said qe.position
    then qe.last_pos_said
    else qe.position

-- The sounds up to the hold time; `at` is the position with the offset.
unfoldable pub place_prompts : Announce → ℕ → ℕ → List Prompt
unfolding announces is_more_than
place_prompts a shown at =
    if not (announces a.announceposition a.announcepositionlimit shown)
    then []
    else if at == 1
    then next ∷ []
    else if is_more_than a.announceposition && ltb a.announcepositionlimit at
    then quantity1 ∷ limit a.announcepositionlimit ∷ quantity2 ∷ []
    else thereare ∷ place at ∷ calls ∷ []

abbrev pub at_most : ℕ → ℕ → ℕ
at_most bound n = if ltb bound n then bound else n

-- `avgholdmins`
unfoldable pub hold_mins : CallQueue → QueueEnt → ℕ → ℕ
hold_mins q qe at =
    let a = q.announcing in
    let hold = if ltb q.holdsecs a.minhold then a.minhold else q.holdsecs in
    let before = qe.last_hold_said + a.announcefrequency / 60 + 1 in
    let mins = hold * at / 60 in
    at_most a.announcetimelimit (if ltb 0 qe.last_hold_said then at_most before mins else mins)

-- `labs((holdtime + 30) - waited)`
abbrev pub apart : ℕ → ℕ → ℕ
apart a b = if leb b a then a - b else b - a

-- `avgholdsecs`; the division of C rounds towards 0.
unfoldable pub hold_secs : CallQueue → ℕ → ℕ → ℤ
hold_secs q waited mins =
    let r = q.announcing.roundingseconds in
    let a = apart (q.holdtime + 30) waited in
    if r == 0
    then pos 0
    else if leb (60 * mins) a
    then pos ((a - 60 * mins) / r * r)
    else sub_ℕ 0 ((60 * mins - a) / r * r)

-- Whether the hold time is announced.
abbrev pub says_hold : CallQueue → QueueEnt → ℕ → ℤ → Bool
says_hold q qe mins secs =
    let h = q.announcing.announceholdtime in
    ltb_ℤ (pos 0) (pos mins +ℤ secs) && not (h == 0) && (not (h == 2) || qe.last_pos == 0)

unfoldable pub hold_prompts : CallQueue → QueueEnt → ℕ → ℤ → List Prompt
hold_prompts q qe mins secs =
    if not (says_hold q qe mins secs)
    then []
    else (holdtime ∷ [])
      ++ (if leb 1 mins
          then hold_minutes mins ∷ (if mins == 1 then minute else minutes) ∷ []
          else [])
      ++ (if leb_ℤ (pos 1) secs then hold_seconds secs ∷ seconds ∷ [] else [])

-- `say_thanks`
abbrev pub says_thanks : CallQueue → QueueEnt → ℕ → ℤ → Bool
says_thanks q qe mins secs =
    says_hold q qe mins secs
    || q.announcing.announceholdtime == 0
    || not (is_off q.announcing.announceposition)

pub record Said : Type 0 where
  pub queue : CallQueue
  pub entry : QueueEnt
  pub heard : List Prompt
  pub res : ℤ

-- The sounds from the start to `playout`.
unfoldable pub sounds : (Prompt → ℤ) → CallQueue → QueueEnt → ℕ → ℕ → ℕ → Said
unfolding hold_mins hold_secs hold_prompts place_prompts is_off
sounds answer q qe waited shown at =
    let first = play answer (place_prompts q.announcing shown at) in
    let mins = hold_mins q qe at in
    let secs = hold_secs q waited mins in
    let told = record qe { last_hold_said = mins } in
    let thanked = if says_thanks q qe mins secs then thanks ∷ [] else [] in
    let second = play answer (hold_prompts q qe mins secs ++ thanked) in
    let last = play answer (thanks ∷ []) in
    if not (eqb_ℤ first.res (pos 0))
    then record { queue = q; entry = qe; heard = first.heard; res = first.res }
    else if announces q.announcing.announceposition q.announcing.announcepositionlimit shown
        && at == 1
    then record { queue = q; entry = qe; heard = first.heard ++ last.heard; res = last.res }
    else record { queue = q; entry = told; heard = first.heard ++ second.heard; res = second.res }

-- `last_pos` and `last_pos_said` behind `playout`, and the result.
unfoldable pub playout : (ℤ → Bool) → ℕ → Said → Said
playout exits now s =
    let qe = s.entry in
    let said =
      if s.queue.announcing.backoff || qe.last_pos_said == 0 || ltb qe.position qe.last_pos_said
      then qe.position
      else qe.last_pos_said in
    record s {
      entry = record qe { last_pos = now; last_pos_said = said };
      res = if ltb_ℤ (pos 0) s.res && not (exits s.res) then pos 0 else s.res;
    }

-- `ppos` and `last_log`, where each change of position is logged.
abbrev pub logged : CallQueue → QueueEnt → ℕ → QueueEnt
logged q qe now =
    if q.announcing.poslog && (not (qe.position == qe.ppos) || leb (qe.last_log + 60) now)
    then record qe { ppos = qe.position; last_log = now }
    else qe

-- `holdsecs`, measured on the caller at the head. An original place is at least 1.
abbrev pub measured : CallQueue → QueueEnt → ℕ → CallQueue
measured q qe waited =
    if qe.position == 1 && ltb q.announcing.minhold waited
    then record q { holdsecs = waited / qe.opos }
    else q

-- Whether it is too early to say anything.
abbrev pub too_early : Announce → QueueEnt → ℕ → ℕ → ℕ → Bool
too_early a qe now shown at =
    ltb now (qe.last_pos + a.minannouncefrequency)
    || (qe.last_pos_said == shown && ltb now (qe.last_pos + a.announcefrequency))
    || (is_more_than a.announceposition
        && ltb a.announcepositionlimit at
        && ltb now (qe.last_pos + a.announcefrequency))

unfoldable pub say_position : (Prompt → ℤ) → (ℤ → Bool) → ℕ → CallQueue → QueueEnt → Said
unfolding shown_position is_more_than
say_position answer exits now q qe =
    let waited = now - qe.start in
    let shown = shown_position q.announcing qe in
    let at = shown + q.announcing.offset in
    let qe' = logged q qe now in
    let q' = measured q qe waited in
    if ltb waited q.announcing.announcedelay
    then record { queue = q; entry = qe; heard = []; res = pos 0 }
    else if too_early q.announcing qe now shown at
    then record { queue = q'; entry = qe'; heard = []; res = pos 0 }
    else playout exits now (sounds answer q' qe' waited shown at)
