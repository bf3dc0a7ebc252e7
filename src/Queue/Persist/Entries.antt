-- ===== src/Queue/Persist/Entries.antt =====
-- What an entry of a dump is read as.
use vx_pbx.Base.{ℕ, ◌≡◌, refl, ap, ◌∙◌, Bool, true, false, [], ◌∷◌, ◌++◌, some, arith}
use vx_pbx.Base.Lists.{any}
use vx_pbx.Base.Int.{pos}
use vx_pbx.Base.Cstr.{is_digit, atoi}
use vx_pbx.Base.Decimal.{decimal, digits_value-decimal, AreDigits-decimal, atoi-digits, any-digits}
use vx_pbx.Base.Tokens.{tokens, tokens-append, tokens_plain, any-append}
use vx_pbx.Queue.Types.{Text, Member}
use vx_pbx.Queue.Roster.{is_empty}
use vx_pbx.Queue.Persist.{
  entry_of, Entry, is_semicolon, is_separator, numbers, flag_text, entry_from, parse_entry,
}

-- A text that a dump can hold.
abbrev pub IsPlain : Text → Type 0
IsPlain t = (is_empty t ≡ false) × (any is_semicolon t ≡ false) × (any is_separator t ≡ false)

abbrev pub HasPlainTexts : Member → Type 0
HasPlainTexts m = IsPlain m.interface × IsPlain m.membername × IsPlain m.state_interface

abbrev pub entry : Member → Entry
entry m = record {
  interface = m.interface;
  penalty = m.penalty;
  paused = m.paused;
  membername = m.membername;
  state_interface = m.state_interface;
}

no_semicolon : (c : ℕ) → is_digit c ≡ true → is_semicolon c ≡ false
no_semicolon c h = ground arith

no_separator : (c : ℕ) → is_digit c ≡ true → is_separator c ≡ false
no_separator c h = ground arith

semicolon_plain : (n : ℕ) → any is_semicolon (decimal n) ≡ false
semicolon_plain n = any-digits is_semicolon (decimal n) (AreDigits-decimal n) no_semicolon

atoi-decimal : (n : ℕ) → atoi (decimal n) ≡ pos n
atoi-decimal n = atoi-digits (decimal n) (AreDigits-decimal n) ∙ ap pos (digits_value-decimal n)

any-flag_text :
    (p : ℕ → Bool) (b : Bool) → p b'0' ≡ false → p b'1' ≡ false → any p (flag_text b) ≡ false
any-flag_text p true h k = rw k refl
any-flag_text p false h k = rw h refl

-- A part that has no semicolon is the first token.
tokens_first :
    (a b : Text)
    → any is_semicolon a ≡ false
    → tokens is_semicolon (a ++ b';' ∷ b) ≡ a ∷ tokens is_semicolon b
tokens_first a b h =
    tokens-append is_semicolon a b';' b refl
    ∙ ap (λ ts. ts ++ tokens is_semicolon b) (tokens_plain is_semicolon a h)

tokens-entry_of :
    (m : Member)
    → HasPlainTexts m
    → tokens is_semicolon (entry_of m)
      ≡ m.interface ∷ decimal m.penalty ∷ flag_text m.paused ∷ m.membername ∷ m.state_interface ∷ []
unfolding entry_of
tokens-entry_of m (i, n, s) =
    let last = tokens_plain is_semicolon m.state_interface s.1 in
    tokens_first m.interface _ i.1
    ∙ ap (λ ts. m.interface ∷ ts)
        (tokens_first (decimal m.penalty) _ (semicolon_plain m.penalty)
          ∙ ap (λ ts. decimal m.penalty ∷ ts)
              (tokens_first (flag_text m.paused) _ (any-flag_text is_semicolon m.paused refl refl)
                ∙ ap (λ ts. flag_text m.paused ∷ ts)
                    (tokens_first m.membername _ n.1 ∙ ap (λ ts. m.membername ∷ ts) last)))

numbers_lem :
    (erange : Text → Bool) (n : ℕ) (b : Bool)
    → ((t : Text) → erange t ≡ false)
    → numbers erange (some (decimal n)) (some (flag_text b)) ≡ some (n, b)
unfolding atoi
numbers_lem erange n true h = rw (h (decimal n), h (b'1' ∷ []), atoi-decimal n) refl
numbers_lem erange n false h = rw (h (decimal n), h (b'0' ∷ []), atoi-decimal n) refl

entry_from_lem :
    (erange : Text → Bool) (m : Member)
    → ((t : Text) → erange t ≡ false)
    → entry_from erange (
        m.interface
        ∷ decimal m.penalty
        ∷ flag_text m.paused
        ∷ m.membername
        ∷ m.state_interface
        ∷ [])
      ≡ some (entry m)
unfolding entry_from
entry_from_lem erange m h = rw (numbers_lem erange m.penalty m.paused h, entry_from) refl

pub parse_entry-entry_of :
    (erange : Text → Bool) (m : Member)
    → ((t : Text) → erange t ≡ false)
    → HasPlainTexts m
    → parse_entry erange (entry_of m) ≡ some (entry m)
unfolding parse_entry
parse_entry-entry_of erange m h p = rw (tokens-entry_of m p) (entry_from_lem erange m h)

pub any-entry_of : (m : Member) → HasPlainTexts m → any is_separator (entry_of m) ≡ false
unfolding entry_of
any-entry_of m (i, n, s) =
    let digits =
      any-digits is_separator (decimal m.penalty) (AreDigits-decimal m.penalty) no_separator in
    let flag = any-flag_text is_separator m.paused refl refl in
    any-append is_separator m.interface _ i.2 (
      any-append is_separator (decimal m.penalty) _ digits (
        any-append is_separator (flag_text m.paused) _ flag
          (any-append is_separator m.membername _ n.2 s.2)))

pub is_empty-append : (a b : Text) → is_empty a ≡ false → is_empty (a ++ b) ≡ false
is_empty-append [] b h = cc
is_empty-append (c ∷ a) b h = refl

pub is_empty-entry_of : (m : Member) → HasPlainTexts m → is_empty (entry_of m) ≡ false
unfolding entry_of
is_empty-entry_of m h = is_empty-append m.interface _ h.0.0
