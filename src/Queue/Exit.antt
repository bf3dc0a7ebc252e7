-- ===== src/Queue/Exit.antt =====
-- Leaving a queue by digits: `valid_exit`. `can_match` is ast_canmatch_extension and `goes` the success
-- of ast_goto_if_exists, for the digits so far in the caller's context.
use vx_pbx.Base.{
  ℕ, ◌-◌, ◌<◌, ◌≡◌, refl, Bool, true, false, not, List, [], ◌∷◌, ◌++◌, arith, inl, inr,
}
use vx_pbx.Base.Tests.{if_keeps, ltb, if◌then◌else◌, Bool-cases}
use vx_pbx.Base.Lists.{length, length-append}
use vx_pbx.Queue.Types.{Text}
use vx_pbx.Queue.Roster.{is_empty}

-- The dialplan, as far as it is asked.
pub record Dialplan : Type 0 where
  pub can_match : Text → Text → Bool
  pub goes : Text → Text → Bool

-- `digits` and `valid_digits` of the caller.
pub record Dialed : Type 0 where
  pub digits : Text
  pub valid_digits : Bool

-- AST_MAX_EXTENSION
abbrev pub max_extension : ℕ
max_extension = 80

abbrev pub dialed_in : Dialplan → Text → Text → Dialed → Bool × Dialed
dialed_in dp context digits d =
    if is_empty context
    then (false, record d { digits = digits })
    else if not (dp.can_match context digits)
    then (false, record d { digits = [] })
    else if dp.goes context digits
    then (true, record { digits = digits; valid_digits = true })
    else (false, record d { digits = digits })

unfoldable pub valid_exit : Dialplan → Text → ℕ → Dialed → Bool × Dialed
valid_exit dp context digit d =
    if ltb (length d.digits) (max_extension - 2)
    then dialed_in dp context (d.digits ++ digit ∷ []) d
    else (false, record d { digits = [] })

-- The digits of a caller, until one leads out: whether it is left, and its fields.
unfoldable pub dial_all : Dialplan → Text → List ℕ → Dialed → Bool × Dialed
unfolding valid_exit
dial_all dp context [] d = (false, d)
dial_all dp context (c ∷ cs) d =
    let r = valid_exit dp context c d in
    let later = dial_all dp context cs r.1 in if r.0 then r else later

abbrev pub Fits : Dialed → Type 0
Fits d = length d.digits < max_extension

-- What a call leaves: the digits and their end fit the field, and a way out is one that exists.
abbrev pub IsExit : Dialplan → Text → Bool × Dialed → Type 0
IsExit dp context (left, d) =
    Fits d
    × (left ≡ true
        → (is_empty context ≡ false)
          × (is_empty d.digits ≡ false)
          × (dp.can_match context d.digits ≡ true)
          × (dp.goes context d.digits ≡ true)
          × (d.valid_digits ≡ true))

dialed_in-IsExit :
    (dp : Dialplan) (context : Text) (digits : Text) (d : Dialed)
    → length digits < max_extension
    → is_empty digits ≡ false
    → IsExit dp context (dialed_in dp context digits d)
dialed_in-IsExit dp context digits d h n = elim (Bool-cases (is_empty context)) [
  | inl e ↦ rw e (h, λ z. cc)
  | inr e ↦ rw e (elim (Bool-cases (dp.can_match context digits)) [
    | inl m ↦ rw m (elim (Bool-cases (dp.goes context digits)) [
      | inl g ↦ rw g (h, λ _. (refl, n, m, g, refl))
      | inr g ↦ rw g (h, λ z. cc)
    ])
    | inr m ↦ rw m (omega arith, λ z. cc)
  ])
]

is_empty-append_one : (s : Text) (c : ℕ) → is_empty (s ++ c ∷ []) ≡ false
is_empty-append_one [] c = refl
is_empty-append_one (x ∷ s) c = refl

valid_exit-IsExit :
    (dp : Dialplan) (context : Text) (digit : ℕ) (d : Dialed)
    → IsExit dp context (valid_exit dp context digit d)
unfolding valid_exit
valid_exit-IsExit dp context digit d =
    elim (Bool-cases (ltb (length d.digits) (max_extension - 2))) [
      | inl room ↦
          let fits : length d.digits < 78 = ground arith in
          rw room (
            dialed_in-IsExit dp context (d.digits ++ digit ∷ []) d
              (omega (arith, length-append d.digits (digit ∷ [])))
              (is_empty-append_one d.digits digit))
      | inr full ↦ rw full (omega arith, λ z. cc)
    ]

-- From digits that fit the field with their end, through every sequence of digits, they still fit; and
-- where one leads out, there is a context, the digits are not empty, and they are an extension there
-- that the caller goes to.
pub dial_all-IsExit :
    (dp : Dialplan) (context : Text) (cs : List ℕ) (d : Dialed)
    → Fits d
    → IsExit dp context (dial_all dp context cs d)
unfolding dial_all
dial_all-IsExit dp context [] d h = (h, λ z. cc)
dial_all-IsExit dp context (c ∷ cs) d h =
    let one = valid_exit-IsExit dp context c d in
    let r = valid_exit dp context c d in
    if_keeps (IsExit dp context) r.0 r (dial_all dp context cs r.1) one
      (dial_all-IsExit dp context cs r.1 one.0)
