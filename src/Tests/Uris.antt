-- ===== src/Tests/Uris.antt =====
-- URIs and lists of options.
use vx_pbx.Base.{◌+◌, ◌-◌, ◌≤◌, ◌<◌, true}
use vx_pbx.Base.Lists.{length, any}
use vx_pbx.Sip.Supported.{known_option, parse_sip_options}
use vx_pbx.Sip.Supported.Reads.{
  comma_list, unsupported, options_in, has_bit, parse_sip_options-fits, parse_sip_options-reads,
}
use vx_pbx.Base.{ℕ, ◌≡◌, refl, ◌&&◌, List, [], ◌∷◌, none, some, arith}
use vx_pbx.Base.Tests.{◌==◌, if◌then◌else◌}
use vx_pbx.Base.Cstr.{codes, is_digit, split_at}
use vx_pbx.Base.Tokens.{tokens}
use vx_pbx.Queue.Name.{same_name}
use vx_pbx.Sip.Uri.{Core, parsed_params, sip_uri_params_cmp, sip_uri_headers_cmp, sip_uri_cmp}
use vx_pbx.Sip.Uri.Rules.{rules}
use vx_pbx.Sip.Uri.Params.{sip_uri_params_cmp-rules}
use vx_pbx.Sip.Uri.Reflexive.{is_sip, agrees_with_itself, uri_params, sip_uri_cmp_refl}

-- Addresses begin with a digit, which is all that is kept of them.
abbrev core : Core ℕ
core = record {
  decode = λ t. t;
  parse = λ host. elim host [ [] ↦ none | c ∷ cs ↦ if is_digit c then some c else none ];
  same_sockaddr = λ a b. a == b;
}

abbrev one_ttl : List ℕ
one_ttl = codes "ttl=1"

abbrev two_ttls : List ℕ
two_ttls = codes "ttl=1;ttl=2"

-- The order of the texts matters.
one_and_two : sip_uri_params_cmp one_ttl two_ttls ≡ 0
unfolding sip_uri_params_cmp split_at same_name tokens
one_and_two = refl

two_and_one : sip_uri_params_cmp two_ttls one_ttl ≡ 1
unfolding sip_uri_params_cmp split_at same_name tokens
two_and_one = refl

-- A header that only the second URI has is not seen.
unseen_header : sip_uri_headers_cmp (codes "a=1&a=1") (codes "a=1&b=2") ≡ 0
unfolding sip_uri_headers_cmp split_at same_name tokens
unseen_header = refl

abbrev bob : List ℕ
bob = codes "sip:bob@example.com;param2=value2;param1=value1"

same_bob :
    sip_uri_cmp core (some bob) (some (codes "sip:bob@EXAMPLE.com;Param1=value1;param2=VALUE2")) ≡ 0
unfolding sip_uri_cmp split_at same_name tokens
same_bob = refl

other_bob : sip_uri_cmp core (some bob) (some (codes "sip:BOB@example.com")) ≡ 1
unfolding sip_uri_cmp split_at same_name tokens
other_bob = refl

maddr_missing : sip_uri_cmp core (some bob) (some (codes "sip:bob@example.com;maddr=1")) ≡ 1
unfolding sip_uri_cmp split_at same_name tokens
maddr_missing = refl

with_headers :
    sip_uri_cmp core (some (codes "sips:1.2.3.4?h=1")) (some (codes "sips:1.2.3.4;?h=2")) ≡ 1
unfolding sip_uri_cmp split_at same_name tokens
with_headers = refl

sip_uri_params_cmp-rules_example :
    sip_uri_params_cmp (codes "ttl=1;x") two_ttls
    ≡ (if rules (parsed_params (codes "ttl=1;x")) (parsed_params two_ttls) then 0 else 1)
sip_uri_params_cmp-rules_example = sip_uri_params_cmp-rules (codes "ttl=1;x") two_ttls

sip_uri_cmp_refl_example :
    sip_uri_cmp core (some bob) (some bob)
    ≡ (if is_sip bob && agrees_with_itself (uri_params bob) then 0 else 1)
sip_uri_cmp_refl_example = sip_uri_cmp_refl core (λ a. ground arith) bob

abbrev asked : List ℕ
asked = codes "Replaces,100REL,,x-own"

abbrev stripped : List ℕ → List ℕ
stripped t = t

asked_profile : (parse_sip_options stripped 64 [] asked).profile 1 ≡ true
unfolding parse_sip_options known_option same_name tokens
asked_profile = refl

asked_out : (parse_sip_options stripped 64 [] asked).out.text ≡ codes "100REL,x-own"
unfolding parse_sip_options known_option same_name tokens
asked_out = refl

-- The third option has no room.
asked_short : (parse_sip_options stripped 13 [] asked).out.text ≡ codes "100REL"
unfolding parse_sip_options known_option same_name tokens
asked_short = refl

asked_room : length (comma_list [] (unsupported (options_in stripped asked))) + 2 < 64
unfolding known_option same_name tokens
asked_room = omega arith

-- A second call for the same buffer writes over the options of the first, behind a comma.
asked_twice :
    (parse_sip_options stripped 64 (codes "100REL") (codes "x-own")).out.text ≡ codes ",x-own"
unfolding parse_sip_options known_option same_name tokens
asked_twice = refl

-- Without a buffer the profile is the same.
asked_for_profile : (parse_sip_options stripped 0 [] asked).profile 1 ≡ true
unfolding parse_sip_options known_option same_name tokens
asked_for_profile = refl

parse_sip_options-fits_example :
    length (parse_sip_options stripped 13 (codes "tdialog") asked).out.text ≤ 13 - 1
parse_sip_options-fits_example =
    parse_sip_options-fits stripped 13 (codes "tdialog") asked (omega arith)

parse_sip_options-reads_example :
    ((parse_sip_options stripped 0 [] asked).profile 1
      ≡ any (has_bit 1) (options_in stripped asked))
    × ((parse_sip_options stripped 64 [] asked).out.text
        ≡ comma_list [] (unsupported (options_in stripped asked)))
parse_sip_options-reads_example = parse_sip_options-reads stripped 0 [] asked 1 64 asked_room
