-- ===== src/Queue/Persist/Dumped.antt =====
-- The text of a dump: the entries of the dynamic members.
use vx_pbx.Base.{◌≡◌, refl, sym, ap, ◌∙◌, false, List, [], ◌∷◌, ◌++◌, map, inl, inr}
use mathlib.Core.List.{append-nil, append_assoc}
use vx_pbx.Base.Tests.{if◌then◌else◌, Bool-cases}
use vx_pbx.Base.Lists.{All}
use vx_pbx.Base.Tokens.{tokens, tokens-append, tokens_plain}
use vx_pbx.Queue.Types.{Text, Member}
use vx_pbx.Queue.Roster.{is_empty}
use vx_pbx.Queue.Persist.{entry_of, append_entry, dump_all, is_separator}
use vx_pbx.Queue.Persist.Entries.{HasPlainTexts, any-entry_of, is_empty-entry_of, is_empty-append}

abbrev pub dynamic_members : List Member → List Member
dynamic_members [] = []
dynamic_members (m ∷ ms) = if m.dynamic then m ∷ dynamic_members ms else dynamic_members ms

abbrev pub AllPlain : List Member → Type 0
AllPlain ms = All HasPlainTexts ms

-- The entries of members, one behind the other.
unfoldable pub join : Text → List Member → Text
join value [] = value
join value (m ∷ ms) = join (append_entry value m) ms

pub dump_all-join :
    (value : Text) (ms : List Member) → dump_all value ms ≡ join value (dynamic_members ms)
unfolding dump_all join
dump_all-join value [] = refl
dump_all-join value (m ∷ ms) = elim (Bool-cases m.dynamic) [
  | inl d ↦ rw d (dump_all-join (append_entry value m) ms)
  | inr s ↦ rw s (dump_all-join value ms)
]

append_entry_more :
    (value : Text) (m : Member)
    → is_empty value ≡ false
    → append_entry value m ≡ value ++ b'|' ∷ entry_of m
unfolding append_entry
append_entry_more value m e = rw e refl

tokens-entry : (m : Member) → HasPlainTexts m → tokens is_separator (entry_of m) ≡ entry_of m ∷ []
tokens-entry m h = tokens_plain is_separator (entry_of m) (any-entry_of m h)

pub tokens-join :
    (value : Text) (ms : List Member)
    → is_empty value ≡ false
    → AllPlain ms
    → tokens is_separator (join value ms) ≡ tokens is_separator value ++ map entry_of ms
unfolding join
tokens-join value [] e h = sym (append-nil (tokens is_separator value))
tokens-join value (m ∷ ms) e h =
    let longer = append_entry value m in
    let same = append_entry_more value m e in
    let filled : is_empty longer ≡ false = rw same (is_empty-append value _ e) in
    let split : tokens is_separator longer ≡ tokens is_separator value ++ (entry_of m ∷ []) =
      ap (tokens is_separator) same
      ∙ (tokens-append is_separator value b'|' (entry_of m) refl
          ∙ ap (λ ts. tokens is_separator value ++ ts) (tokens-entry m h.0)) in
    tokens-join longer ms filled h.1
    ∙ (ap (λ ts. ts ++ map entry_of ms) split
        ∙ append_assoc (tokens is_separator value) (entry_of m ∷ []) (map entry_of ms))

-- The tokens of a whole dump, if somebody is in it.
pub tokens-dump :
    (m : Member) (ms : List Member)
    → AllPlain (m ∷ ms)
    → tokens is_separator (join [] (m ∷ ms)) ≡ map entry_of (m ∷ ms)
unfolding join append_entry
tokens-dump m ms h =
    tokens-join (entry_of m) ms (is_empty-entry_of m h.0) h.1
    ∙ ap (λ ts. ts ++ map entry_of ms) (tokens-entry m h.0)

pub is_empty-join :
    (value : Text) (ms : List Member) → is_empty value ≡ false → is_empty (join value ms) ≡ false
unfolding join
is_empty-join value [] e = e
is_empty-join value (m ∷ ms) e =
    is_empty-join (append_entry value m) ms
      (rw (append_entry_more value m e) (is_empty-append value _ e))
