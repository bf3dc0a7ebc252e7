-- ===== src/Sip/Supported.antt =====
-- `parse_sip_options` and the table of the SIP options. `ast_strip` of Asterisk's core is an argument. A
-- profile is given by its bits. The buffer for unsupported options holds a text at first; a length of 0,
-- with an empty text, is no buffer.
pub mod Reads
use vx_pbx.Base.{ℕ, ◌+◌, Bool, true, false, ◌||◌, List, [], ◌∷◌, ◌++◌, Option, none, some}
use Prim.Native.String.{String}
use vx_pbx.Base.Tests.{ltb, ◌==◌, if◌then◌else◌}
use vx_pbx.Base.Lists.{length, take}
use vx_pbx.Base.Cstr.{codes}
use vx_pbx.Base.Tokens.{tokens}
use vx_pbx.Queue.Types.{Text}
use vx_pbx.Queue.Name.{same_name}
use vx_pbx.Queue.Roster.{is_empty}

-- The id is the number of its bit.
pub record SipOption : Type 0 where
  pub id : ℕ
  pub supported : Bool
  pub text : Text

abbrev sip_option : ℕ → Bool → String → SipOption
sip_option id supported text = record { id = id; supported = supported; text = codes text }

abbrev pub sip_options : List SipOption
sip_options =
    sip_option 1 false "100rel"
    ∷ sip_option 3 false "early-session"
    ∷ sip_option 11 false "eventlist"
    ∷ sip_option 17 false "from-change"
    ∷ sip_option 12 false "gruu"
    ∷ sip_option 15 false "histinfo"
    ∷ sip_option 4 false "join"
    ∷ sip_option 14 false "norefersub"
    ∷ sip_option 20 false "outbound"
    ∷ sip_option 5 false "path"
    ∷ sip_option 6 false "pref"
    ∷ sip_option 7 false "precondition"
    ∷ sip_option 8 false "privacy"
    ∷ sip_option 18 false "recipient-list-invite"
    ∷ sip_option 19 false "recipient-list-subscribe"
    ∷ sip_option 0 true "replaces"
    ∷ sip_option 0 true "replace"
    ∷ sip_option 16 false "resource-priority"
    ∷ sip_option 10 false "sec_agree"
    ∷ sip_option 9 false "sdp-anat"
    ∷ sip_option 2 true "timer"
    ∷ sip_option 13 false "tdialog"
    ∷ []

-- SIP_OPT_UNKNOWN.
abbrev pub sip_opt_unknown : ℕ
sip_opt_unknown = 21

unfoldable pub find_option : Text → List SipOption → Option SipOption
find_option next [] = none
find_option next (o ∷ os) = if same_name next o.text then some o else find_option next os

unfoldable pub known_option : Text → Option SipOption
unfolding find_option
known_option next = find_option next sip_options

-- The buffer: the text that `out` points to, and where `cur_out` stands in it.
pub record Buffer : Type 0 where
  pub text : Text
  pub cur_out : ℕ

-- The profile and the buffer.
pub record Parsed : Type 0 where
  pub profile : ℕ → Bool
  pub out : Buffer

abbrev pub set_bit : ℕ → (ℕ → Bool) → ℕ → Bool
set_bit id profile i = profile i || id == i

-- An option at `cur_out`, behind a comma where the buffer has a text, if there is room.
unfoldable pub add_unsupported : ℕ → Buffer → Text → Buffer
add_unsupported outlen out next =
    let item = if is_empty out.text then next else b',' ∷ next in
    if ltb (length out.text + length next + 2) outlen
    then record { text = take out.cur_out out.text ++ item; cur_out = out.cur_out + length item }
    else out

abbrev pub add_option : ℕ → Parsed → Text → Option SipOption → Parsed
add_option outlen s next none = record {
  profile = set_bit sip_opt_unknown s.profile;
  out = add_unsupported outlen s.out next;
}
add_option outlen s next (some o) = record {
  profile = set_bit o.id s.profile;
  out = if o.supported then s.out else add_unsupported outlen s.out next;
}

-- One round of the loop, for a stripped option.
unfoldable pub parse_option : ℕ → Parsed → Text → Parsed
unfolding add_unsupported
parse_option outlen s [] = s
parse_option outlen s (c ∷ cs) = add_option outlen s (c ∷ cs) (known_option (c ∷ cs))

unfoldable pub parse_all : (Text → Text) → ℕ → Parsed → List Text → Parsed
unfolding parse_option
parse_all strip outlen s [] = s
parse_all strip outlen s (t ∷ ts) = parse_all strip outlen (parse_option outlen s (strip t)) ts

abbrev pub ends_option : ℕ → Bool
ends_option c = c == b','

abbrev pub nothing_parsed : Text → Parsed
nothing_parsed unsupported = record {
  profile = λ _. false;
  out = record { text = unsupported; cur_out = 0 };
}

-- `unsupported` is the text in the buffer before.
unfoldable pub parse_sip_options : (Text → Text) → ℕ → Text → Text → Parsed
unfolding parse_all
parse_sip_options strip outlen unsupported [] = nothing_parsed unsupported
parse_sip_options strip outlen unsupported (c ∷ cs) =
    parse_all strip outlen (nothing_parsed unsupported) (tokens ends_option (c ∷ cs))
