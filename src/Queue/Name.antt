-- ===== src/Queue/Name.antt =====
-- `strcasecmp(a, b) == 0` on the bytes of two C strings, in the C locale.
use vx_pbx.Base.{ℕ, ◌+◌, ◌≡◌, refl, Bool, true, false, ◌&&◌, [], ◌∷◌, arith}
use vx_pbx.Base.Tests.{leb, ◌==◌, if◌then◌else◌}
use vx_pbx.Queue.Types.{Text}

unfoldable pub to_lower : ℕ → ℕ
to_lower c = if leb b'A' c && leb c b'Z' then c + 32 else c

unfoldable pub same_name : Text → Text → Bool
unfolding to_lower
same_name [] [] = true
same_name (c ∷ cs) (d ∷ ds) = to_lower c == to_lower d && same_name cs ds
same_name _ _ = false

pub same_name_refl : (a : Text) → same_name a a ≡ true
unfolding same_name
same_name_refl [] = refl
same_name_refl (c ∷ cs) = ground (arith, same_name_refl cs)

pub same_name_sym : (a b : Text) → same_name a b ≡ same_name b a
unfolding same_name
same_name_sym [] [] = refl
same_name_sym [] (d ∷ ds) = refl
same_name_sym (c ∷ cs) [] = refl
same_name_sym (c ∷ cs) (d ∷ ds) = ground (arith, same_name_sym cs ds)

pub same_name_trans :
    (a b c : Text) → same_name a b ≡ true → same_name b c ≡ true → same_name a c ≡ true
unfolding same_name
same_name_trans [] [] c h k = k
same_name_trans (x ∷ a) (y ∷ b) (z ∷ c) h k = ground (arith, same_name_trans a b c)
same_name_trans [] (y ∷ b) c h k = ground arith
same_name_trans (x ∷ a) [] c h k = ground arith
same_name_trans (x ∷ a) (y ∷ b) [] h k = ground arith
