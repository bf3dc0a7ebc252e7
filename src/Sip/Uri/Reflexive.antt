-- ===== src/Sip/Uri/Reflexive.antt =====
-- Comparing a URI with itself.
use vx_pbx.Base.{
  ℕ, ◌≡◌, refl, ◌∙◌, Bool, true, false, not, ◌&&◌, ◌||◌, List, [], ◌∷◌, Option, none, some, inl,
  inr, arith,
}
use vx_pbx.Base.Tests.{◌==◌, if◌then◌else◌, Bool-cases, Option-cases}
use vx_pbx.Base.Lists.{length, All}
use vx_pbx.Base.Cstr.{codes}
use vx_pbx.Base.Tokens.{push, tokens}
use vx_pbx.Queue.Types.{Text}
use vx_pbx.Queue.Name.{same_name_refl}
use vx_pbx.Queue.Roster.{is_empty}
use vx_pbx.Sip.Uri.{
  Param, parsed_params, ends_header, check_headers, sip_uri_headers_cmp, Core, Parts, parts_of,
  same_user, sip_uri_domain_cmp, parts_cmp, sip_uri_cmp, sip_uri_params_cmp,
}
use vx_pbx.Sip.Text.{
  same_text, cut, starts_with, strcasestr, same_text_refl, strcasestr-starts_with, strcasestr_later,
}
use vx_pbx.Sip.Uri.Rules.{all, agrees, has_param, must_names}
use vx_pbx.Sip.Uri.Params.{sip_uri_params_cmp-rules}

same_user_refl : (u : Option Text) → same_user u u ≡ true
unfolding same_user
same_user_refl none = refl
same_user_refl (some a) = same_text_refl a

-- The first token starts the text, and the others stand in it.
abbrev IsInside : Text → List Text → Type 0
IsInside s [] = All (λ t. strcasestr s t ≡ true) []
IsInside s (t ∷ ts) = (starts_with t s ≡ true) × All (λ u. strcasestr s u ≡ true) ts

All-later :
    (c : ℕ) (s : Text) (ts : List Text)
    → All (λ t. strcasestr s t ≡ true) ts
    → All (λ t. strcasestr (c ∷ s) t ≡ true) ts
All-later c s [] h = h
All-later c s (t ∷ ts) (h, k) = (strcasestr_later t c s h, All-later c s ts k)

All-IsInside : (s : Text) (ts : List Text) → IsInside s ts → All (λ t. strcasestr s t ≡ true) ts
All-IsInside s [] h = h
All-IsInside s (t ∷ ts) (h, k) = (strcasestr-starts_with t s h, k)

push-IsInside : (c : ℕ) (s : Text) (ts : List Text) → IsInside s ts → IsInside (c ∷ s) (push c ts)
unfolding starts_with
push-IsInside c s [] h = (ground arith, h)
push-IsInside c s (t ∷ ts) (h, k) = (ground arith, All-later c s ts k)

tokens-IsInside : (p : ℕ → Bool) (s : Text) → IsInside s (tokens p s)
unfolding tokens starts_with
tokens-IsInside p [] = (refl, tt)
tokens-IsInside p (c ∷ cs) = elim (Bool-cases (p c)) [
  | inl e ↦
      rw e
        (refl, All-later c cs (tokens p cs) (All-IsInside cs (tokens p cs) (tokens-IsInside p cs)))
  | inr e ↦ rw e (push-IsInside c cs (tokens p cs) (tokens-IsInside p cs))
]

check_headers-All :
    (s : Text) (hs : List Text) → All (λ t. strcasestr s t ≡ true) hs → check_headers s hs ≡ 0
unfolding check_headers
check_headers-All s [] h = refl
check_headers-All s (t ∷ ts) (h, k) = rw h (check_headers-All s ts k)

sip_uri_headers_cmp_refl : (s : Text) → sip_uri_headers_cmp s s ≡ 0
unfolding sip_uri_headers_cmp
sip_uri_headers_cmp_refl [] = refl
sip_uri_headers_cmp_refl (c ∷ cs) =
    let e : (length cs == length cs) ≡ true = ground arith in
    rw e (
      check_headers-All (c ∷ cs) (tokens ends_header (c ∷ cs)) (
        All-IsInside (c ∷ cs) (tokens ends_header (c ∷ cs)) (tokens-IsInside ends_header (c ∷ cs))))

-- Every parameter has the value of the first one of its name.
abbrev pub agrees_with_itself : List Param → Bool
agrees_with_itself ps = all (agrees ps) ps

all-true {ℓ} :
    {A : Type ℓ} (p : A → Bool) → ((x : A) → p x ≡ true) → (xs : List A) → all p xs ≡ true
all-true p h [] = refl
all-true p h (x ∷ xs) = rw (h x) (all-true p h xs)

or_not : (b : Bool) → (not b || b) ≡ true
or_not true = refl
or_not false = refl

and_true : (b : Bool) → (b && true) ≡ b
and_true true = refl
and_true false = refl

sip_uri_params_cmp_refl :
    (s : Text) → sip_uri_params_cmp s s ≡ (if agrees_with_itself (parsed_params s) then 0 else 1)
sip_uri_params_cmp_refl s =
    let ps = parsed_params s in
    sip_uri_params_cmp-rules s s
    ∙ rw
        (
          all-true (λ name. not (has_param name ps) || has_param name ps)
              (λ name. or_not (has_param name ps)) must_names,
          and_true (agrees_with_itself ps),
        )
        refl

-- A text that is a SIP or SIPS URI behind its decoding.
abbrev pub is_sip : Text → Bool
is_sip uri =
    let (scheme, rest) = cut b':' uri in
    (same_text scheme (codes "sip") || same_text scheme (codes "sips")) && not (is_empty rest)

-- The parameters of such a URI.
abbrev pub uri_params : Text → List Param
uri_params uri = parsed_params (parts_of (cut b':' uri).1).params

module _ {Sockaddr : Type 0} (core : Core Sockaddr)
    (h : (a : Sockaddr) → core.same_sockaddr a a ≡ true) where
  sip_uri_domain_cmp_refl : (host : Text) → sip_uri_domain_cmp core host host ≡ 0
  unfolding sip_uri_domain_cmp
  sip_uri_domain_cmp_refl host = elim (Option-cases (core.parse host)) [
    | inl e ↦ rw (e, same_name_refl host) refl
    | inr (a, e) ↦ rw (e, h a) refl
  ]

  parts_cmp_refl :
      (u : Parts)
      → parts_cmp core u u ≡ (if agrees_with_itself (parsed_params u.params) then 0 else 1)
  unfolding parts_cmp
  parts_cmp_refl u =
      rw (same_user_refl u.user, sip_uri_domain_cmp_refl u.host, sip_uri_headers_cmp_refl u.headers)
        (sip_uri_params_cmp_refl u.params)

  -- Where an address is the same as itself, a URI matches itself exactly if it is decoded to a SIP
  -- or SIPS URI with something behind the scheme, and each of its parameters has the value of the
  -- first one of its name.
  pub sip_uri_cmp_refl :
      (uri : Text)
      → sip_uri_cmp core (some uri) (some uri) ≡ (
          if is_sip (core.decode uri) && agrees_with_itself (uri_params (core.decode uri))
          then 0
          else 1)
  unfolding sip_uri_cmp
  sip_uri_cmp_refl uri =
      let parts = cut b':' (core.decode uri) in
      rw (same_text_refl parts.0) (elim (Bool-cases (same_text parts.0 (codes "sip"))) [
        | inl e ↦ rw e (elim (Bool-cases (is_empty parts.1)) [
          | inl k ↦ rw k refl
          | inr k ↦ rw k (parts_cmp_refl (parts_of parts.1))
        ])
        | inr e ↦ rw e (elim (Bool-cases (same_text parts.0 (codes "sips"))) [
          | inl g ↦ rw g (elim (Bool-cases (is_empty parts.1)) [
            | inl k ↦ rw k refl
            | inr k ↦ rw k (parts_cmp_refl (parts_of parts.1))
          ])
          | inr g ↦ rw g refl
        ])
      ])
