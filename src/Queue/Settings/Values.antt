-- ===== src/Queue/Settings/Values.antt =====
-- What single values mean: `parse_empty_options`, `strat2int`, `autopause2int`, and the branches of
-- `queue_set_param` of more than a line.
use vx_pbx.Base.{ℕ, Bool, true, false, not, ◌&&◌, ◌||◌, List, [], ◌∷◌, ◌++◌}
use vx_pbx.Base.Tests.{◌==◌, if◌then◌else◌}
use vx_pbx.Base.Lists.{length, take, drop, any}
use vx_pbx.Base.Int.{ℤ, pos, negsuc, ltb_ℤ, eqb_ℤ}
use vx_pbx.Base.Cstr.{atoi, codes}
use vx_pbx.Queue.Types.{Text, EmptyConditions}
use vx_pbx.Queue.Name.{same_name}
use vx_pbx.Queue.Roster.{is_empty}
use vx_pbx.Queue.Settings.{Answers, QueueConfig, Autopause, off, on, all, no_empty}

abbrev pub add_first : ℕ → List Text → List Text
add_first c [] = (c ∷ []) ∷ []
add_first c (t ∷ ts) = (c ∷ t) ∷ ts

-- `strsep` until nothing is left.
unfoldable pub split_all : (ℕ → Bool) → Text → List Text
split_all p [] = [] ∷ []
split_all p (c ∷ s) = let more = split_all p s in if p c then [] ∷ more else add_first c more

abbrev conditions : Bool → Bool → EmptyConditions
conditions paused unavailable = record no_empty {
  penalty = true;
  invalid = true;
  paused = paused;
  unavailable = unavailable;
}

-- One word of the value.
unfoldable pub empty_option : Answers → Bool → Text → EmptyConditions → EmptyConditions
unfolding same_name
empty_option w joinempty option empty =
    if same_name option (codes "paused")
    then record empty { paused = true }
    else if same_name option (codes "penalty")
    then record empty { penalty = true }
    else if same_name option (codes "inuse")
    then record empty { inuse = true }
    else if same_name option (codes "ringing")
    then record empty { ringing = true }
    else if same_name option (codes "invalid")
    then record empty { invalid = true }
    else if same_name option (codes "wrapup")
    then record empty { wrapup = true }
    else if same_name option (codes "unavailable")
    then record empty { unavailable = true }
    else if same_name option (codes "unknown")
    then record empty { unknown = true }
    else if same_name option (codes "loose")
    then conditions false false
    else if same_name option (codes "strict")
    then conditions true true
    else if (w.is_false option && joinempty) || (w.is_true option && not joinempty)
    then conditions true false
    else if (w.is_false option && not joinempty) || (w.is_true option && joinempty)
    then no_empty
    else empty

unfoldable pub empty_options : Answers → Bool → List Text → EmptyConditions → EmptyConditions
unfolding empty_option
empty_options w joinempty [] empty = empty
empty_options w joinempty (o ∷ os) empty =
    empty_options w joinempty os (empty_option w joinempty o empty)

unfoldable pub parse_empty_options : Answers → Text → EmptyConditions → Bool → EmptyConditions
unfolding split_all empty_options
parse_empty_options w value empty joinempty =
    empty_options w joinempty (split_all (λ c. c == b',') value) empty

-- The table `strategies`, with the numbers of QUEUE_STRATEGY_*.
abbrev strategies : List (Text × ℕ)
strategies =
    (codes "ringall", 0)
    ∷ (codes "leastrecent", 1)
    ∷ (codes "fewestcalls", 2)
    ∷ (codes "random", 3)
    ∷ (codes "rrmemory", 4)
    ∷ (codes "roundrobin", 4)
    ∷ (codes "linear", 5)
    ∷ (codes "wrandom", 6)
    ∷ (codes "rrordered", 7)
    ∷ []

unfoldable pub strategy_in : Text → List (Text × ℕ) → ℤ
strategy_in strategy [] = negsuc 0
strategy_in strategy ((name, number) ∷ rest) =
    let later = strategy_in strategy rest in if same_name strategy name then pos number else later

unfoldable pub strat2int : Text → ℤ
unfolding strategy_in
strat2int strategy = strategy_in strategy strategies

unfoldable pub autopause2int : Answers → Text → Autopause
autopause2int w autopause =
    if is_empty autopause
    then off
    else if w.is_true autopause
    then on
    else if same_name autopause (codes "no")
    then off
    else if same_name autopause (codes "yes")
    then on
    else if same_name autopause (codes "all")
    then all
    else off

-- The setting `strategy`. A static queue has it already, and the linear strategy needs a restart.
unfoldable pub set_strategy : Bool → QueueConfig → Text → QueueConfig
unfolding strat2int
set_strategy failunknown q val =
    let strategy = strat2int val in
    let q' = if ltb_ℤ strategy (pos 0) then record q { strategy = pos 0 } else q in
    if failunknown
    then q
    else if eqb_ℤ strategy q'.strategy || eqb_ℤ strategy (pos 5)
    then q'
    else record q' { strategy = strategy }

abbrev pub is_rounding : ℤ → Bool
is_rounding z = any (λ n. eqb_ℤ z (pos n)) (0 ∷ 5 ∷ 10 ∷ 15 ∷ 20 ∷ 30 ∷ [])

unfoldable pub set_rounding : QueueConfig → Text → QueueConfig
unfolding atoi
set_rounding q val = record q {
  roundingseconds = if is_rounding (atoi val) then atoi val else pos 0;
}

abbrev pub has_comma : Text → Bool
has_comma val = any (λ c. c == b',') val

-- The sounds of a value, up to MAX_PERIODIC_ANNOUNCEMENTS of them where there is a comma.
unfoldable pub sounds_of : Text → List Text
unfolding split_all
sounds_of val =
    if has_comma val then take 128 (split_all (λ c. c == b',' || c == b'|') val) else val ∷ []

-- Sounds of the array behind the new ones stay.
unfoldable pub set_sounds : QueueConfig → Text → QueueConfig
unfolding sounds_of
set_sounds q val =
    let new = sounds_of val in
    record q {
      sound_periodicannounce = new ++ drop (length new) q.sound_periodicannounce;
      numperiodicannounce = length new;
    }
