-- ===== src/Ipaddrd/Cli/Accepted.antt =====
-- What `cli` accepts.
use vx_pbx.Base.{ℕ, ◌≤◌, ◌≡◌, ◌≢◌, refl, false, List, [], ◌∷◌, ◌++◌, some, arith, inl, inr}
use vx_pbx.Base.Tests.{Option-cases}
use vx_pbx.Base.Options.{>>=-eq-some, ◌>>=◌}
use vx_pbx.Base.Lists.{All}
use vx_pbx.Base.Int.{pos, ◌≤ℤ◌}
use vx_pbx.Base.Cstr.{atoi}
use vx_pbx.Ipaddrd.Cli.{
  Settings, Server, defaults, set_option, set_options, skip_colons, token, behind_token, host_of,
  port_of, bad_port, endpoint, cli,
}

pub record IsInRange (s : Settings) : Type 0 where
  pub report_low : 1 ≤ s.delay_report
  pub report_high : s.delay_report ≤ 86400
  pub start_low : 1 ≤ s.delay_start
  pub start_high : s.delay_start ≤ 86400
  pub random_high : s.delay_random ≤ 60

set_option-IsInRange :
    (opt : ℕ) (optarg : List ℕ) (s s' : Settings)
    → IsInRange s
    → set_option opt optarg s ≡ some s'
    → IsInRange s'
unfolding set_option
set_option-IsInRange opt optarg s s' v e = ground arith

set_options-IsInRange :
    (options : List (ℕ × List ℕ)) (s s' : Settings)
    → IsInRange s
    → set_options options s ≡ some s'
    → IsInRange s'
unfolding set_options
set_options-IsInRange [] s s' v e = ground arith
set_options-IsInRange ((opt, optarg) ∷ rest) s s' v e =
    elim (Option-cases (set_option opt optarg s)) [
      | inl bad ↦ absurd (ground arith)
      | inr (t, good) ↦
          set_options-IsInRange rest t s' (set_option-IsInRange opt optarg s t v good)
            (ground arith)
    ]

endpoint-IsPort :
    (arguments : List (List ℕ)) (server : Server)
    → endpoint arguments ≡ some server
    → (pos 1 ≤ℤ atoi server.port) × (atoi server.port ≤ℤ pos 65535)
unfolding endpoint
endpoint-IsPort [] server e = cc
endpoint-IsPort (a ∷ []) server e = ground arith
endpoint-IsPort (a ∷ b ∷ rest) server e = cc

-- A command line that is accepted gives delays in the documented ranges and a port from 1 to 65535.
pub cli-IsInRange :
    (options : List (ℕ × List ℕ)) (arguments : List (List ℕ)) (s : Settings) (server : Server)
    → cli options arguments ≡ some (s, server)
    → IsInRange s × (pos 1 ≤ℤ atoi server.port) × (atoi server.port ≤ℤ pos 65535)
unfolding cli
cli-IsInRange options arguments s server e =
    let (t, opts, more) =
      >>=-eq-some (set_options options defaults)
        (λ t. endpoint arguments >>= λ server. some (t, server)) e in
    let (found, there, same) = >>=-eq-some (endpoint arguments) (λ server. some (t, server)) more in
    let eq : s ≡ t = cc in
    let eq' : server ≡ found = cc in
    let range = endpoint-IsPort arguments found there in
    (
      rw eq (
          set_options-IsInRange options defaults t
            (record {
              report_low = omega arith;
              report_high = omega arith;
              start_low = omega arith;
              start_high = omega arith;
              random_high = omega arith;
            })
            opts),
      rw eq' range.0,
      rw eq' range.1,
    )

abbrev IsPlain : List ℕ → Type 0
IsPlain = All λ c. c ≢ b':'

token_plain : (s : List ℕ) → IsPlain s → token s ≡ s
unfolding token
token_plain [] h = refl
token_plain (c ∷ s) h = ground (arith, token_plain s h.1)

token_until : (s rest : List ℕ) → IsPlain s → token (s ++ b':' ∷ rest) ≡ s
unfolding token
token_until [] rest h = refl
token_until (c ∷ s) rest h = ground (arith, token_until s rest h.1)

behind_token_until : (s rest : List ℕ) → IsPlain s → behind_token (s ++ b':' ∷ rest) ≡ rest
unfolding behind_token
behind_token_until [] rest h = refl
behind_token_until (c ∷ s) rest h = ground (arith, behind_token_until s rest h.1)

skip_colons_plain : (c : ℕ) (s : List ℕ) → c ≢ b':' → skip_colons (c ∷ s) ≡ c ∷ s
unfolding skip_colons
skip_colons_plain c s h = ground arith

host_of_plain : (c : ℕ) (s : List ℕ) → c ≢ b':' → host_of (c ∷ s) ≡ token (c ∷ s)
unfolding host_of
host_of_plain c s h = ground arith

port_of_parts :
    (c d : ℕ) (host port : List ℕ)
    → IsPlain (c ∷ host)
    → IsPlain (d ∷ port)
    → port_of ((c ∷ host) ++ b':' ∷ d ∷ port) ≡ d ∷ port
unfolding port_of
port_of_parts c d host port h p =
    rw
      (
        skip_colons_plain c (host ++ b':' ∷ d ∷ port) h.0,
        behind_token_until (c ∷ host) (d ∷ port) h,
        skip_colons_plain d port p.0,
        token_plain (d ∷ port) p,
      )
      refl

-- An argument `host:port` of two parts without colons gives these two parts, if the port is a number
-- from 1 to 65535.
endpoint_parts :
    (host port : List ℕ)
    → IsPlain host
    → IsPlain port
    → host ≢ []
    → pos 1 ≤ℤ atoi port
    → atoi port ≤ℤ pos 65535
    → endpoint ((host ++ b':' ∷ port) ∷ []) ≡ some record { host = host; port = port }
unfolding endpoint
endpoint_parts [] port h p n low high = absurd (n refl)
endpoint_parts (c ∷ host) [] h p n low high = absurd (unfold atoi in ground arith)
endpoint_parts (c ∷ host) (d ∷ port) h p n low high =
    let good : bad_port (d ∷ port) ≡ false = ground arith in
    rw
      (
        port_of_parts c d host port h p,
        good,
        host_of_plain c (host ++ b':' ∷ d ∷ port) h.0,
        token_until (c ∷ host) (d ∷ port) h,
      )
      refl
