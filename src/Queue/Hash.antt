-- ===== src/Queue/Hash.antt =====
-- The hash of a member in its container: `compress_char` and `member_hash_fn`, against `member_cmp_fn`,
-- which compares without case (Queue.Name). A char is signed: a byte from 128 on is below 0. The shifts
-- are products.
use vx_pbx.Base.{
  ℕ, zero, suc, ◌+◌, ◌-◌, ◌*◌, ◌^◌, ◌≤◌, ◌<◌, ◌≡◌, refl, ap, true, ◌||◌, [], ◌∷◌, arith, inl, inr,
}
use native.Mathlib.Nat.{mul-le-mul_right}
use vx_pbx.Base.Tests.{ltb, leb, ◌==◌, if◌then◌else◌, Bool-cases}
use vx_pbx.Queue.Types.{Text}
use vx_pbx.Queue.Name.{same_name, to_lower}

unfoldable pub compress_char : ℕ → ℕ
compress_char c = if ltb c 32 || leb 128 c then 0 else if ltb 96 c then c - 64 else c - 32

-- `strchr(interface, '/')`, or the text itself where there is none.
unfoldable pub from_slash : Text → Text → Text
from_slash whole [] = whole
from_slash whole (c ∷ cs) = let later = from_slash whole cs in if c == b'/' then c ∷ cs else later

-- Five bytes at most, each six bits further up.
unfoldable pub hash_bytes : ℕ → ℕ → Text → ℕ
unfolding compress_char
hash_bytes zero weight cs = 0
hash_bytes (suc n) weight [] = 0
hash_bytes (suc n) weight (c ∷ cs) = compress_char c * weight + hash_bytes n (weight * 64) cs

unfoldable pub member_hash_fn : Text → ℕ
unfolding from_slash hash_bytes
member_hash_fn interface = hash_bytes 5 1 (from_slash interface interface)

compress_char-to_lower : (c d : ℕ) → to_lower c ≡ to_lower d → compress_char c ≡ compress_char d
unfolding compress_char to_lower
compress_char-to_lower c d e = ground arith

slash-to_lower : (c d : ℕ) → to_lower c ≡ to_lower d → (c == b'/') ≡ (d == b'/')
unfolding to_lower
slash-to_lower c d e = ground arith

same_head :
    (c d : ℕ) (cs ds : Text)
    → same_name (c ∷ cs) (d ∷ ds) ≡ true
    → (to_lower c ≡ to_lower d) × (same_name cs ds ≡ true)
unfolding same_name
same_head c d cs ds h = ground arith

from_slash-same_name :
    (v w a b : Text)
    → same_name v w ≡ true
    → same_name a b ≡ true
    → same_name (from_slash v a) (from_slash w b) ≡ true
unfolding from_slash
from_slash-same_name v w [] [] k h = k
from_slash-same_name v w [] (d ∷ ds) k h = unfold same_name in cc
from_slash-same_name v w (c ∷ cs) [] k h = unfold same_name in cc
from_slash-same_name v w (c ∷ cs) (d ∷ ds) k h =
    let (first, rest) = same_head c d cs ds h in
    let slash = slash-to_lower c d first in
    elim (Bool-cases (d == b'/')) [
      | inl s ↦ rw (slash, s) h
      | inr s ↦ rw (slash, s) (from_slash-same_name v w cs ds k rest)
    ]

hash_bytes-same_name :
    (n weight : ℕ) (a b : Text)
    → same_name a b ≡ true
    → hash_bytes n weight a ≡ hash_bytes n weight b
unfolding hash_bytes
hash_bytes-same_name zero weight a b h = refl
hash_bytes-same_name (suc n) weight [] [] h = refl
hash_bytes-same_name (suc n) weight [] (d ∷ ds) h = unfold same_name in cc
hash_bytes-same_name (suc n) weight (c ∷ cs) [] h = unfold same_name in cc
hash_bytes-same_name (suc n) weight (c ∷ cs) (d ∷ ds) h =
    let (first, rest) = same_head c d cs ds h in
    rw (compress_char-to_lower c d first)
      (ap (λ x. compress_char d * weight + x) (hash_bytes-same_name n (weight * 64) cs ds rest))

compress_char_bounds : (c : ℕ) → compress_char c ≤ 64
unfolding compress_char
compress_char_bounds c = ground arith

-- What `n` bytes add up to at most.
abbrev most : ℕ → ℕ → ℕ
most zero weight = 0
most (suc n) weight = 64 * weight + most n (weight * 64)

hash_bytes_bounds : (n weight : ℕ) (cs : Text) → hash_bytes n weight cs ≤ most n weight
unfolding hash_bytes
hash_bytes_bounds zero weight cs = omega arith
hash_bytes_bounds (suc n) weight [] = omega arith
hash_bytes_bounds (suc n) weight (c ∷ cs) =
    let here = mul-le-mul_right weight (compress_char_bounds c) in
    let rest = hash_bytes_bounds n (weight * 64) cs in omega (arith, here, rest)

-- Interfaces that the container takes for the same have the same hash, and every hash fits an int.
pub member_hash_fn-same_name :
    (a b : Text)
    → same_name a b ≡ true
    → (member_hash_fn a ≡ member_hash_fn b) × (member_hash_fn a < 2 ^ 31)
unfolding member_hash_fn
member_hash_fn-same_name a b h = (
  hash_bytes-same_name 5 1 (from_slash a a) (from_slash b b) (from_slash-same_name a b a b h h),
  omega (arith, hash_bytes_bounds 5 1 (from_slash a a)),
)
