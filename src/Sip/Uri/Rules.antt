-- ===== src/Sip/Uri/Rules.antt =====
-- The rules for the parameters of two URIs, and the names that they are about.
use vx_pbx.Base.{
  ◌≡◌, refl, ◌∙◌, Bool, true, false, not, ◌&&◌, ◌||◌, List, [], ◌∷◌, Option, none, some, inl, inr,
}
use vx_pbx.Base.Tests.{if◌then◌else◌, Bool-cases}
use vx_pbx.Base.Lists.{any}
use vx_pbx.Base.Cstr.{codes}
use vx_pbx.Queue.Types.{Text}
use vx_pbx.Queue.Name.{to_lower, same_name, same_name_sym, same_name_trans}
use vx_pbx.Sip.Uri.{Param}

abbrev pub all {ℓ} : {A : Type ℓ} → (A → Bool) → List A → Bool
all p [] = true
all p (x ∷ xs) = p x && all p xs

-- Whether a list has a parameter of that name.
abbrev pub has_param : Text → List Param → Bool
has_param name ps = any (λ p. same_name p.name name) ps

abbrev pub must_names : List Text
must_names = codes "maddr" ∷ codes "ttl" ∷ codes "user" ∷ codes "method" ∷ []

abbrev pub is_must : Text → Bool
is_must name = any (same_name name) must_names

-- The first parameter of that name.
abbrev pub counterpart : Text → List Param → Option Param
counterpart name [] = none
counterpart name (q ∷ qs) = if same_name name q.name then some q else counterpart name qs

abbrev pub agrees_with : Param → Option Param → Bool
agrees_with p none = not (is_must p.name)
agrees_with p (some q) = same_name p.value q.value

-- The value is that of the counterpart; where there is none, the parameter may miss.
abbrev pub agrees : List Param → Param → Bool
agrees bs p = agrees_with p (counterpart p.name bs)

abbrev pub rules : List Param → List Param → Bool
rules ps bs =
    all (agrees bs) ps && all (λ name. not (has_param name bs) || has_param name ps) must_names

-- A name is not two different ones.
other_name : (n a b : Text) → same_name a b ≡ false → same_name n a ≡ true → same_name n b ≡ false
other_name n a b h k = elim (Bool-cases (same_name n b)) [
  | inl e ↦ cc (same_name_trans a n b (same_name_sym a n ∙ k) e)
  | inr e ↦ e
]

-- A name is one of the must-match names, the others not, or none of them.
pub data Kind (name : Text) : Type 0 where
  maddr :
      same_name name (codes "maddr") ≡ true
      → same_name name (codes "ttl") ≡ false
      → same_name name (codes "user") ≡ false
      → same_name name (codes "method") ≡ false
      → Kind name
  ttl :
      same_name name (codes "maddr") ≡ false
      → same_name name (codes "ttl") ≡ true
      → same_name name (codes "user") ≡ false
      → same_name name (codes "method") ≡ false
      → Kind name
  user :
      same_name name (codes "maddr") ≡ false
      → same_name name (codes "ttl") ≡ false
      → same_name name (codes "user") ≡ true
      → same_name name (codes "method") ≡ false
      → Kind name
  method :
      same_name name (codes "maddr") ≡ false
      → same_name name (codes "ttl") ≡ false
      → same_name name (codes "user") ≡ false
      → same_name name (codes "method") ≡ true
      → Kind name
  free :
      same_name name (codes "maddr") ≡ false
      → same_name name (codes "ttl") ≡ false
      → same_name name (codes "user") ≡ false
      → same_name name (codes "method") ≡ false
      → Kind name

pub kind : (name : Text) → Kind name
unfolding same_name to_lower
kind name = elim (Bool-cases (same_name name (codes "maddr"))) [
  | inl a ↦
      Kind.maddr a (other_name name (codes "maddr") (codes "ttl") refl a)
        (other_name name (codes "maddr") (codes "user") refl a)
        (other_name name (codes "maddr") (codes "method") refl a)
  | inr a ↦ elim (Bool-cases (same_name name (codes "ttl"))) [
    | inl b ↦
        Kind.ttl a b (other_name name (codes "ttl") (codes "user") refl b)
          (other_name name (codes "ttl") (codes "method") refl b)
    | inr b ↦ elim (Bool-cases (same_name name (codes "user"))) [
      | inl c ↦ Kind.user a b c (other_name name (codes "user") (codes "method") refl c)
      | inr c ↦ elim (Bool-cases (same_name name (codes "method"))) [
        | inl d ↦ Kind.method a b c d
        | inr d ↦ Kind.free a b c d
      ]
    ]
  ]
]
