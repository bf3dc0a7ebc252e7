-- ===== src/Base/Tokens.antt =====
-- strsep, called until the text is used up.
use Prim.Native.Nat.{ℕ}
use mathlib.Core.Path.{◌≡◌, refl, ◌∙◌, ap}
use mathlib.Core.Logic.{◌≢◌}
use mathlib.Core.Bool.{Bool, true, false}
use mathlib.Core.List.{List, [], ◌∷◌, ◌++◌}
use native.Mathlib.Omega.{arith}
use mathlib.Core.Logic.{inl, inr}
use vx_pbx.Base.Tests.{Bool-cases, if◌then◌else◌}
use vx_pbx.Base.Lists.{any}

abbrev pub push : ℕ → List (List ℕ) → List (List ℕ)
push c [] = (c ∷ []) ∷ []
push c (t ∷ ts) = (c ∷ t) ∷ ts

-- The tokens of a text, one more than it has separators.
unfoldable pub tokens : (ℕ → Bool) → List ℕ → List (List ℕ)
tokens p [] = [] ∷ []
tokens p (c ∷ cs) = if p c then [] ∷ tokens p cs else push c (tokens p cs)

push-append : (c : ℕ) (ts us : List (List ℕ)) → ts ≢ [] → push c (ts ++ us) ≡ push c ts ++ us
push-append c [] us h = absurd (h refl)
push-append c (t ∷ ts) us h = refl

push-ne-nil : (c : ℕ) (ts : List (List ℕ)) → push c ts ≢ []
push-ne-nil c [] = λ e. cc
push-ne-nil c (t ∷ ts) = λ e. cc

tokens-ne-nil : (p : ℕ → Bool) (s : List ℕ) → tokens p s ≢ []
unfolding tokens
tokens-ne-nil p [] = λ e. cc
tokens-ne-nil p (c ∷ cs) = elim (Bool-cases (p c)) [
  | inl e ↦ rw e (λ z. cc)
  | inr e ↦ rw e (push-ne-nil c (tokens p cs))
]

-- A separator splits a text.
pub tokens-append :
    (p : ℕ → Bool) (a : List ℕ) (c : ℕ) (b : List ℕ)
    → p c ≡ true
    → tokens p (a ++ c ∷ b) ≡ tokens p a ++ tokens p b
unfolding tokens
tokens-append p [] c b h = rw h refl
tokens-append p (d ∷ a) c b h = elim (Bool-cases (p d)) [
  | inl e ↦ rw e (ap (λ ts. [] ∷ ts) (tokens-append p a c b h))
  | inr e ↦ rw e (
      ap (push d) (tokens-append p a c b h)
      ∙ push-append d (tokens p a) (tokens p b) (tokens-ne-nil p a))
]

pub tokens_plain : (p : ℕ → Bool) (a : List ℕ) → any p a ≡ false → tokens p a ≡ a ∷ []
unfolding tokens
tokens_plain p [] h = refl
tokens_plain p (c ∷ a) h = elim (Bool-cases (p c)) [
  | inl e ↦ cc
  | inr e ↦ let rest : any p a ≡ false = ground arith in rw e (ap (push c) (tokens_plain p a rest))
]

pub any-append :
    (p : ℕ → Bool) (a b : List ℕ) → any p a ≡ false → any p b ≡ false → any p (a ++ b) ≡ false
any-append p [] b h k = k
any-append p (c ∷ a) b h k = ground (arith, any-append p a b)
