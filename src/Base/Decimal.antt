-- ===== src/Base/Decimal.antt =====
-- `%d` of printf, for numbers that are not negative.
use Prim.Native.Nat.{ℕ, zero, suc, ◌+◌, ◌/◌, ◌%◌, ◌≤◌}
use mathlib.Core.Path.{◌≡◌, refl, ◌∙◌}
use mathlib.Core.Logic.{inl, inr}
use mathlib.Core.Bool.{Bool, true, false}
use mathlib.Core.List.{List, [], ◌∷◌}
use native.Mathlib.Omega.{arith}
use vx_pbx.Base.Tests.{◌==◌, if◌then◌else◌, Bool-cases}
use vx_pbx.Base.Lists.{any}
use vx_pbx.Base.Int.{pos}
use vx_pbx.Base.Cstr.{is_digit, is_space, digits_value, signed_value, atoi}

-- The digits of `n` before `out`; the fuel is enough where it is not below `n`.
unfoldable pub digits_before : ℕ → ℕ → List ℕ → List ℕ
digits_before zero n out = out
digits_before (suc f) n out = elim (n == 0) [
  | true ↦ out
  | false ↦ digits_before f (n / 10) ((b'0' + n % 10) ∷ out)
]

unfoldable pub decimal : ℕ → List ℕ
unfolding digits_before
decimal n = if n == 0 then b'0' ∷ [] else digits_before n n []

digits_value-digits_before :
    (f n : ℕ) (out : List ℕ) → n ≤ f → digits_value 0 (digits_before f n out) ≡ digits_value n out
unfolding digits_before
digits_value-digits_before zero n out h = let e : n ≡ 0 = omega arith in rw e refl
digits_value-digits_before (suc f) n out h = elim (Bool-cases (n == 0)) [
  | inl e ↦ let z : n ≡ 0 = ground arith in rw (z, digits_before) refl
  | inr e ↦
      rw (e, digits_before)
        (digits_value-digits_before f (n / 10) ((b'0' + n % 10) ∷ out) (ground arith)
          ∙ (unfold digits_value in ground arith))
]

pub digits_value-decimal : (n : ℕ) → digits_value 0 (decimal n) ≡ n
unfolding decimal
digits_value-decimal n = elim (Bool-cases (n == 0)) [
  | inl e ↦ rw e (unfold digits_value in ground arith)
  | inr e ↦ rw e (digits_value-digits_before n n [] (omega arith) ∙ (unfold digits_value in refl))
]

-- A text of digits, one at least.
abbrev pub AreDigits : List ℕ → Type 0
AreDigits [] = ⊥
AreDigits (c ∷ []) = is_digit c ≡ true
AreDigits (c ∷ d ∷ cs) = (is_digit c ≡ true) × AreDigits (d ∷ cs)

digit_last : (n : ℕ) → is_digit (b'0' + n % 10) ≡ true
digit_last n = ground arith

AreDigits-cons : (c : ℕ) (s : List ℕ) → is_digit c ≡ true → AreDigits s → AreDigits (c ∷ s)
AreDigits-cons c [] d h = absurd h
AreDigits-cons c (e ∷ s) d h = (d, h)

AreDigits-digits_before :
    (f n : ℕ) (out : List ℕ) → AreDigits out → AreDigits (digits_before f n out)
unfolding digits_before
AreDigits-digits_before zero n out h = h
AreDigits-digits_before (suc f) n out h = elim (Bool-cases (n == 0)) [
  | inl e ↦ rw (e, digits_before) h
  | inr e ↦
      rw (e, digits_before)
        (AreDigits-digits_before f (n / 10) ((b'0' + n % 10) ∷ out)
          (AreDigits-cons (b'0' + n % 10) out (digit_last n) h))
]

pub AreDigits-decimal : (n : ℕ) → AreDigits (decimal n)
unfolding decimal
AreDigits-decimal zero = refl
AreDigits-decimal (suc n) =
    let e : (suc n == 0) ≡ false = ground arith in
    rw (e, digits_before)
      (AreDigits-digits_before n (suc n / 10) ((b'0' + suc n % 10) ∷ []) (digit_last (suc n)))

first_digit : (c : ℕ) (s : List ℕ) → AreDigits (c ∷ s) → is_digit c ≡ true
first_digit c [] h = h
first_digit c (d ∷ s) h = h.0

pub atoi-digits : (s : List ℕ) → AreDigits s → atoi s ≡ pos (digits_value 0 s)
unfolding atoi signed_value
atoi-digits [] h = absurd h
atoi-digits (c ∷ s) h =
    let d = first_digit c s h in
    let space : is_space c ≡ false = ground arith in
    let minus : (c == b'-') ≡ false = ground arith in
    let plus : (c == b'+') ≡ false = ground arith in rw (space, minus, plus) refl

pub any-digits :
    (p : ℕ → Bool) (s : List ℕ)
    → AreDigits s
    → ((c : ℕ) → is_digit c ≡ true → p c ≡ false)
    → any p s ≡ false
any-digits p [] h k = absurd h
any-digits p (c ∷ []) h k = rw (k c h) refl
any-digits p (c ∷ d ∷ cs) h k = rw (k c h.0) (any-digits p (d ∷ cs) h.1 k)
