-- ===== src/Queue/Say/Told.antt =====
-- The numbers that the sounds of one announcement tell.
use vx_pbx.Base.{ℕ, ◌≡◌, List, [], ◌∷◌, ◌++◌, Option, none, some, arith, ◌⊎◌}
use vx_pbx.Base.Tests.{if◌then◌else◌}
use vx_pbx.Base.Lists.{All}
use vx_pbx.Base.Int.{ℤ}
use vx_pbx.Queue.Types.{QueueEnt, CallQueue, Announce}
use vx_pbx.Queue.Say.{
  Prompt, thanks, play, place_prompts, hold_prompts, sounds, hold_mins, hold_secs, says_thanks,
}

-- The number that a sound tells the caller: its place, 1 where it is next.
abbrev pub told : Prompt → Option ℕ
told Prompt.next = some 1
told (Prompt.place n) = some n
told _ = none

-- Every number told in these sounds is `n`.
abbrev pub TellsOnly : ℕ → List Prompt → Type 0
TellsOnly n = All λ p. (told p ≡ none) ⊎ (told p ≡ some n)

play-TellsOnly :
    (answer : Prompt → ℤ) (n : ℕ) (ps : List Prompt)
    → TellsOnly n ps
    → TellsOnly n (play answer ps).heard
unfolding play
play-TellsOnly answer n [] h = tt
play-TellsOnly answer n (p ∷ ps) h = ground (arith, play-TellsOnly answer n ps h.1)

TellsOnly-append :
    (n : ℕ) (ps qs : List Prompt) → TellsOnly n ps → TellsOnly n qs → TellsOnly n (ps ++ qs)
TellsOnly-append n [] qs h k = k
TellsOnly-append n (p ∷ ps) qs h k = (h.0, TellsOnly-append n ps qs h.1 k)

place_prompts-TellsOnly : (a : Announce) (shown at : ℕ) → TellsOnly at (place_prompts a shown at)
unfolding place_prompts
place_prompts-TellsOnly a shown at = ground arith

hold_prompts-TellsOnly :
    (q : CallQueue) (qe : QueueEnt) (mins : ℕ) (secs : ℤ) (n : ℕ)
    → TellsOnly n (hold_prompts q qe mins secs)
unfolding hold_prompts
hold_prompts-TellsOnly q qe mins secs n = ground arith

pub sounds-TellsOnly :
    (answer : Prompt → ℤ) (q : CallQueue) (qe : QueueEnt) (waited shown at : ℕ)
    → TellsOnly at (sounds answer q qe waited shown at).heard
unfolding sounds
sounds-TellsOnly answer q qe waited shown at =
    let first =
      play-TellsOnly answer at (place_prompts q.announcing shown at)
        (place_prompts-TellsOnly q.announcing shown at) in
    let mins = hold_mins q qe at in
    let secs = hold_secs q waited mins in
    let thanked = if says_thanks q qe mins secs then thanks ∷ [] else [] in
    let behind =
      TellsOnly-append at (hold_prompts q qe mins secs) thanked
        (hold_prompts-TellsOnly q qe mins secs at) (ground arith) in
    ground (
      arith,
      first,
      TellsOnly-append at (play answer (place_prompts q.announcing shown at)).heard
          (play answer (hold_prompts q qe mins secs ++ thanked)).heard first
          (play-TellsOnly answer at (hold_prompts q qe mins secs ++ thanked) behind),
      TellsOnly-append at (play answer (place_prompts q.announcing shown at)).heard
          (play answer (thanks ∷ [])).heard first
          (play-TellsOnly answer at (thanks ∷ []) (ground arith)),
    )
