-- ===== src/Sip/Text.antt =====
-- What the parser uses of <string.h> besides Base.Cstr.
use vx_pbx.Base.{ℕ, ◌≡◌, refl, Bool, true, false, ◌&&◌, ◌||◌, [], ◌∷◌, Option, none, some, arith}
use vx_pbx.Base.Tests.{◌==◌}
use vx_pbx.Base.Cstr.{split_at}
use vx_pbx.Queue.Types.{Text}
use vx_pbx.Queue.Name.{to_lower}
use vx_pbx.Queue.Roster.{is_empty}

-- `strcmp(a, b) == 0`.
unfoldable pub same_text : Text → Text → Bool
same_text [] [] = true
same_text (c ∷ cs) (d ∷ ds) = c == d && same_text cs ds
same_text _ _ = false

-- `strcasestr`.
unfoldable pub starts_with : Text → Text → Bool
unfolding to_lower
starts_with [] s = true
starts_with (c ∷ cs) [] = false
starts_with (c ∷ cs) (d ∷ ds) = to_lower c == to_lower d && starts_with cs ds

unfoldable pub strcasestr : Text → Text → Bool
unfolding starts_with
strcasestr [] part = is_empty part
strcasestr (c ∷ cs) part = starts_with part (c ∷ cs) || strcasestr cs part

-- What stands before the first `c`, and what stands behind it, empty where there is no `c`.
abbrev pub cut_from : Text → Option (Text × Text) → Text × Text
cut_from s none = (s, [])
cut_from s (some parts) = parts

abbrev pub cut : ℕ → Text → Text × Text
cut c s = cut_from s (split_at c s)

pub same_text_refl : (a : Text) → same_text a a ≡ true
unfolding same_text
same_text_refl [] = refl
same_text_refl (c ∷ cs) = ground (arith, same_text_refl cs)

pub strcasestr-starts_with : (part s : Text) → starts_with part s ≡ true → strcasestr s part ≡ true
unfolding strcasestr starts_with
strcasestr-starts_with [] [] h = refl
strcasestr-starts_with (c ∷ cs) [] h = h
strcasestr-starts_with part (d ∷ ds) h = rw h refl

pub strcasestr_later :
    (part : Text) (c : ℕ) (s : Text) → strcasestr s part ≡ true → strcasestr (c ∷ s) part ≡ true
unfolding strcasestr
strcasestr_later part c s h = ground arith
