-- ===== src/Sip/Supported/Reads.antt =====
-- What is read of a list of options.
use vx_pbx.Base.{
  ℕ, zero, suc, ◌+◌, ◌-◌, ◌≤◌, ◌<◌, ◌≡◌, refl, sym, subst, ap, ◌∙◌, Bool, true, false, ◌||◌, List,
  [], ◌∷◌, ◌++◌, map, Option, none, some, inl, inr, arith,
}
use vx_pbx.Base.Tests.{lt→ltb, ◌==◌, if◌then◌else◌, Bool-cases, or_false}
use vx_pbx.Base.Lists.{length, take, length-append, any}
use vx_pbx.Base.Tokens.{tokens}
use vx_pbx.Queue.Types.{Text}
use vx_pbx.Queue.Roster.{is_empty}
use vx_pbx.Sip.Supported.{
  SipOption, sip_opt_unknown, known_option, Buffer, Parsed, add_unsupported, add_option,
  parse_option, parse_all, ends_option, nothing_parsed, parse_sip_options,
}

abbrev pub id_of : Option SipOption → ℕ
id_of none = sip_opt_unknown
id_of (some o) = o.id

abbrev pub is_supported : Option SipOption → Bool
is_supported none = false
is_supported (some o) = o.supported

-- The options that are not blank.
abbrev pub filled : List Text → List Text
filled [] = []
filled (t ∷ ts) = if is_empty t then filled ts else t ∷ filled ts

abbrev pub options_in : (Text → Text) → Text → List Text
options_in strip [] = []
options_in strip (c ∷ cs) = filled (map strip (tokens ends_option (c ∷ cs)))

-- Those that are not supported.
abbrev pub unsupported : List Text → List Text
unsupported [] = []
unsupported (t ∷ ts) = if is_supported (known_option t) then unsupported ts else t ∷ unsupported ts

abbrev pub with_comma : Text → Text → Text
with_comma out t = if is_empty out then t else out ++ b',' ∷ t

-- A text with others behind it, between commas.
abbrev pub comma_list : Text → List Text → Text
comma_list out [] = out
comma_list out (t ∷ ts) = comma_list (with_comma out t) ts

length-take_le : (n : ℕ) (t : Text) → length (take n t) ≤ length t
length-take_le zero t = omega arith
length-take_le (suc n) [] = omega arith
length-take_le (suc n) (c ∷ t) = omega (arith, length-take_le n t)

take-length : (t : Text) → take (length t) t ≡ t
take-length [] = refl
take-length (c ∷ t) = ap (λ l. c ∷ l) (take-length t)

fits-add_unsupported :
    (outlen : ℕ) (out : Buffer) (next : Text)
    → length out.text ≤ outlen - 1
    → length (add_unsupported outlen out next).text ≤ outlen - 1
unfolding add_unsupported
fits-add_unsupported outlen out next h =
    let before = take out.cur_out out.text in
    ground (
      arith,
      length-take_le out.cur_out out.text,
      length-append before next,
      length-append before (b',' ∷ next),
    )

fits-add_option :
    (outlen : ℕ) (s : Parsed) (next : Text) (o : Option SipOption)
    → length s.out.text ≤ outlen - 1
    → length (add_option outlen s next o).out.text ≤ outlen - 1
fits-add_option outlen s next none h = fits-add_unsupported outlen s.out next h
fits-add_option outlen s next (some o) h = elim (Bool-cases o.supported) [
  | inl e ↦ rw e h
  | inr e ↦ rw e (fits-add_unsupported outlen s.out next h)
]

fits-parse_option :
    (outlen : ℕ) (s : Parsed) (next : Text)
    → length s.out.text ≤ outlen - 1
    → length (parse_option outlen s next).out.text ≤ outlen - 1
unfolding parse_option
fits-parse_option outlen s [] h = h
fits-parse_option outlen s (c ∷ cs) h = fits-add_option outlen s (c ∷ cs) (known_option (c ∷ cs)) h

fits-parse_all :
    (strip : Text → Text) (outlen : ℕ) (s : Parsed) (ts : List Text)
    → length s.out.text ≤ outlen - 1
    → length (parse_all strip outlen s ts).out.text ≤ outlen - 1
unfolding parse_all
fits-parse_all strip outlen s [] h = h
fits-parse_all strip outlen s (t ∷ ts) h =
    fits-parse_all strip outlen (parse_option outlen s (strip t)) ts
      (fits-parse_option outlen s (strip t) h)

-- A text that fits the buffer with its end before still does behind parse_sip_options, whatever the
-- options are; without a buffer it stays empty.
pub parse_sip_options-fits :
    (strip : Text → Text) (outlen : ℕ) (before options : Text)
    → length before ≤ outlen - 1
    → length (parse_sip_options strip outlen before options).out.text ≤ outlen - 1
unfolding parse_sip_options
parse_sip_options-fits strip outlen before [] h = h
parse_sip_options-fits strip outlen before (c ∷ cs) h =
    fits-parse_all strip outlen (nothing_parsed before) (tokens ends_option (c ∷ cs)) h

-- An option with this bit.
abbrev pub has_bit : ℕ → Text → Bool
has_bit i t = id_of (known_option t) == i

add_option-profile :
    (outlen : ℕ) (s : Parsed) (next : Text) (o : Option SipOption) (i : ℕ)
    → (add_option outlen s next o).profile i ≡ (s.profile i || id_of o == i)
add_option-profile outlen s next none i = refl
add_option-profile outlen s next (some o) i = refl

or_later : (a b c : Bool) → ((a || b) || c) ≡ (a || (if b then true else c))
or_later true b c = refl
or_later false true c = refl
or_later false false c = refl

parse_option-profile :
    (outlen : ℕ) (s : Parsed) (t : Text) (i : ℕ) (rest : List Text)
    → ((parse_option outlen s t).profile i || any (has_bit i) rest)
      ≡ (s.profile i || any (has_bit i) (if is_empty t then rest else t ∷ rest))
unfolding parse_option
parse_option-profile outlen s [] i rest = refl
parse_option-profile outlen s (c ∷ cs) i rest =
    let o = known_option (c ∷ cs) in
    ap (λ b. b || any (has_bit i) rest) (add_option-profile outlen s (c ∷ cs) o i)
    ∙ or_later (s.profile i) (id_of o == i) (any (has_bit i) rest)

parse_all-profile :
    (strip : Text → Text) (outlen : ℕ) (s : Parsed) (ts : List Text) (i : ℕ)
    → (parse_all strip outlen s ts).profile i
      ≡ (s.profile i || any (has_bit i) (filled (map strip ts)))
unfolding parse_all
parse_all-profile strip outlen s [] i = sym (or_false (s.profile i))
parse_all-profile strip outlen s (t ∷ ts) i =
    parse_all-profile strip outlen (parse_option outlen s (strip t)) ts i
    ∙ parse_option-profile outlen s (strip t) i (filled (map strip ts))

length-with_comma : (out t : Text) → length out ≤ length (with_comma out t)
length-with_comma [] t = omega arith
length-with_comma (c ∷ cs) t = omega (arith, length-append (c ∷ cs) (b',' ∷ t))

length-with_comma_option : (out t : Text) → length out + length t ≤ length (with_comma out t)
length-with_comma_option [] t = omega arith
length-with_comma_option (c ∷ cs) t = omega (arith, length-append (c ∷ cs) (b',' ∷ t))

length-comma_list : (out : Text) (ts : List Text) → length out ≤ length (comma_list out ts)
length-comma_list out [] = omega arith
length-comma_list out (t ∷ ts) =
    omega (arith, length-with_comma out t, length-comma_list (with_comma out t) ts)

appended :
    (out t : Text)
    → (out ++ (if is_empty out then t else b',' ∷ t) ≡ with_comma out t)
      × (length out + length (if is_empty out then t else b',' ∷ t)
          ≡ length (out ++ (if is_empty out then t else b',' ∷ t)))
appended [] t = (refl, omega arith)
appended (c ∷ cs) t = (refl, sym (length-append (c ∷ cs) (b',' ∷ t)))

-- `cur_out` stands at the end of the text.
abbrev IsAtEnd : Buffer → Type 0
IsAtEnd out = out.cur_out ≡ length out.text

add_unsupported-with_comma :
    (outlen : ℕ) (out : Buffer) (t : Text)
    → IsAtEnd out
    → length (with_comma out.text t) + 2 < outlen
    → ((add_unsupported outlen out t).text ≡ with_comma out.text t)
      × IsAtEnd (add_unsupported outlen out t)
unfolding add_unsupported
add_unsupported-with_comma outlen out t e h =
    let room : length out.text + length t + 2 < outlen =
      omega (arith, length-with_comma_option out.text t, h) in
    rw (lt→ltb (length out.text + length t + 2) outlen room, e, take-length out.text)
      (appended out.text t)

add_option-out :
    (outlen : ℕ) (s : Parsed) (t : Text) (o : Option SipOption) (rest : List Text)
    → IsAtEnd s.out
    → length (comma_list s.out.text (if is_supported o then rest else t ∷ rest)) + 2 < outlen
    → (comma_list (add_option outlen s t o).out.text rest
        ≡ comma_list s.out.text (if is_supported o then rest else t ∷ rest))
      × IsAtEnd (add_option outlen s t o).out
add_option-out outlen s t none rest e h =
    let (same, end) =
      add_unsupported-with_comma outlen s.out t e
        (omega (arith, length-comma_list (with_comma s.out.text t) rest, h)) in
    (ap (λ out. comma_list out rest) same, end)
add_option-out outlen s t (some o) rest e h = elim (Bool-cases o.supported) [
  | inl y ↦ rw y (refl, e)
  | inr y ↦
      let room =
        subst (λ b. length (comma_list s.out.text (if b then rest else t ∷ rest)) + 2 < outlen) y
          h in
      let (same, end) =
        add_unsupported-with_comma outlen s.out t e
          (omega (arith, length-comma_list (with_comma s.out.text t) rest, room)) in
      rw y (ap (λ out. comma_list out rest) same, end)
]

parse_option-out :
    (outlen : ℕ) (s : Parsed) (t : Text) (rest : List Text)
    → IsAtEnd s.out
    → length (comma_list s.out.text (unsupported (if is_empty t then rest else t ∷ rest))) + 2
      < outlen
    → (comma_list (parse_option outlen s t).out.text (unsupported rest)
        ≡ comma_list s.out.text (unsupported (if is_empty t then rest else t ∷ rest)))
      × IsAtEnd (parse_option outlen s t).out
unfolding parse_option
parse_option-out outlen s [] rest e h = (refl, e)
parse_option-out outlen s (c ∷ cs) rest e h =
    add_option-out outlen s (c ∷ cs) (known_option (c ∷ cs)) (unsupported rest) e h

parse_all-out :
    (strip : Text → Text) (outlen : ℕ) (s : Parsed) (ts : List Text)
    → IsAtEnd s.out
    → length (comma_list s.out.text (unsupported (filled (map strip ts)))) + 2 < outlen
    → (parse_all strip outlen s ts).out.text
      ≡ comma_list s.out.text (unsupported (filled (map strip ts)))
unfolding parse_all
parse_all-out strip outlen s [] e h = refl
parse_all-out strip outlen s (t ∷ ts) e h =
    let rest = filled (map strip ts) in
    let (same, end) = parse_option-out outlen s (strip t) rest e h in
    parse_all-out strip outlen (parse_option outlen s (strip t)) ts end
      (subst (λ x. length x + 2 < outlen) (sym same) h)
    ∙ same

-- With any buffer and with none, a bit of the profile is set exactly if an option that is not blank is
-- the one of that bit, which is the last one for options that are not in the table; and from an empty
-- buffer, the options that are not supported stand in it in order and between commas, where it has room
-- for two bytes more than these and their end.
pub parse_sip_options-reads :
    (strip : Text → Text) (size : ℕ) (before options : Text) (i outlen : ℕ)
    → length (comma_list [] (unsupported (options_in strip options))) + 2 < outlen
    → ((parse_sip_options strip size before options).profile i
        ≡ any (has_bit i) (options_in strip options))
      × ((parse_sip_options strip outlen [] options).out.text
          ≡ comma_list [] (unsupported (options_in strip options)))
unfolding parse_sip_options
parse_sip_options-reads strip size before [] i outlen h = (refl, refl)
parse_sip_options-reads strip size before (c ∷ cs) i outlen h =
    let ts = tokens ends_option (c ∷ cs) in
    (
      parse_all-profile strip size (nothing_parsed before) ts i,
      parse_all-out strip outlen (nothing_parsed []) ts refl h,
    )
