-- ===== src/Ipaddrd/Cli.antt =====
-- The command line of IPADDRD/C/inet.c: `cli`.
-- getopt is outside: its results, an option letter each with its argument, come as a list, and the
-- arguments behind the options as another. `none` is exit(EXIT_FAILURE). Allocations succeed.
pub mod Accepted
use vx_pbx.Base.{ℕ, ◌-◌, ◌^◌, ◌%◌, Bool, true, false, ◌||◌, List, [], ◌∷◌, Option, none, some}
use vx_pbx.Base.Tests.{ltb, ◌==◌, if◌then◌else◌}
use vx_pbx.Base.Options.{◌>>=◌}
use vx_pbx.Base.Int.{ℤ, pos, negsuc, ltb_ℤ}
use vx_pbx.Base.Cstr.{atoi}

-- The global variables that `cli` sets; delays are in seconds. `pid_file` is `none` for PID_FILE.
pub record Settings : Type 0 where
  pub debug : Bool
  pub delay_report : ℕ
  pub delay_start : ℕ
  pub delay_random : ℕ
  pub pid_file : Option (List ℕ)

abbrev pub defaults : Settings
defaults = record {
  debug = false;
  delay_report = 15;
  delay_start = 25;
  delay_random = 1;
  pid_file = none;
}

-- An `int` that is assigned to an `unsigned long`.
abbrev pub to_ulong : ℤ → ℕ
to_ulong (pos n) = n % 2 ^ 64
to_ulong (negsuc n) = 2 ^ 64 - 1 - n % 2 ^ 64

-- One round of the loop over the options.
unfoldable pub set_option : ℕ → List ℕ → Settings → Option Settings
unfolding atoi
set_option opt optarg s =
    let v = to_ulong (atoi optarg) in
    if opt == b'd'
    then some (record s { debug = true })
    else if opt == b't'
    then (if ltb v 1 || ltb 86400 v then none else some (record s { delay_report = v }))
    else if opt == b'T'
    then (if ltb v 1 || ltb 86400 v then none else some (record s { delay_start = v }))
    else if opt == b'p'
    then some (record s { pid_file = some optarg })
    else if opt == b'r'
    then (if ltb 60 v then none else some (record s { delay_random = v }))
    else none

unfoldable pub set_options : List (ℕ × List ℕ) → Settings → Option Settings
set_options [] s = some s
set_options ((opt, optarg) ∷ rest) s = elim (set_option opt optarg s) [
  | none ↦ none
  | some s' ↦ set_options rest s'
]

-- strtok(s, ":") skips colons; what is left is a token, up to a colon or the end, and the rest.
unfoldable pub skip_colons : List ℕ → List ℕ
skip_colons [] = []
skip_colons (c ∷ s) = if c == b':' then skip_colons s else c ∷ s

unfoldable pub token : List ℕ → List ℕ
token [] = []
token (c ∷ s) = let more = token s in if c == b':' then [] else c ∷ more

unfoldable pub behind_token : List ℕ → List ℕ
behind_token [] = []
behind_token (c ∷ s) = if c == b':' then s else behind_token s

-- `server.host` is the argument up to the end that strtok writes, so colons before it stay.
unfoldable pub host_of : List ℕ → List ℕ
unfolding token
host_of [] = []
host_of (c ∷ s) = let more = host_of s in if c == b':' then c ∷ more else token (c ∷ s)

abbrev pub or_default : List ℕ → List ℕ
or_default [] = b'3' ∷ b'3' ∷ b'3' ∷ b'3' ∷ []
or_default (c ∷ s) = c ∷ s

-- The second token, "3333" where there is none.
unfoldable pub port_of : List ℕ → List ℕ
unfolding skip_colons token behind_token
port_of s = or_default (token (skip_colons (behind_token (skip_colons s))))

pub record Server : Type 0 where
  pub host : List ℕ
  pub port : List ℕ

abbrev pub bad_port : List ℕ → Bool
bad_port port = ltb_ℤ (atoi port) (pos 1) || ltb_ℤ (pos 65535) (atoi port)

-- The argument behind the options: exactly one.
unfoldable pub endpoint : List (List ℕ) → Option Server
unfolding port_of host_of
endpoint [] = none
endpoint (a ∷ b ∷ rest) = none
endpoint (a ∷ []) =
    if bad_port (port_of a) then none else some record { host = host_of a; port = port_of a }

unfoldable pub cli : List (ℕ × List ℕ) → List (List ℕ) → Option (Settings × Server)
unfolding set_options endpoint
cli options arguments = do
  s ← set_options options defaults
  server ← endpoint arguments
  some (s, server)
