-- ===== src/Queue/Settings/Spelling.antt =====
-- The case of a parameter's name decides nothing.
use vx_pbx.Base.{◌≡◌, refl, Bool, true, [], ◌∷◌, arith}
use vx_pbx.Queue.Types.{Text}
use vx_pbx.Queue.Name.{same_name, same_name_sym, same_name_trans}
use vx_pbx.Queue.Settings.{Answers, QueueConfig}
use vx_pbx.Queue.Settings.Plain.{ParamTable}
use vx_pbx.Queue.Settings.Params.{set_in, params, queue_set_param}

same_name-left : (a b c : Text) → same_name a b ≡ true → same_name a c ≡ same_name b c
same_name-left a b c h =
    ground (arith, same_name_trans a b c, same_name_trans b a c, same_name_sym a b)

set_in-same_name :
    (table : ParamTable) (a b val : Text) (q : QueueConfig)
    → same_name a b ≡ true
    → set_in table a val q ≡ set_in table b val q
unfolding set_in
set_in-same_name [] a b val q h = refl
set_in-same_name ((name, branch) ∷ rest) a b val q h =
    rw (same_name-left a b name h, set_in-same_name rest a b val q h) refl

-- Two spellings of a parameter that differ in case alone set the same.
queue_set_param-same_name :
    (w : Answers) (a b val : Text) (failunknown : Bool) (q : QueueConfig)
    → same_name a b ≡ true
    → queue_set_param w a val failunknown q ≡ queue_set_param w b val failunknown q
unfolding queue_set_param
queue_set_param-same_name w a b val failunknown q h =
    set_in-same_name (params w failunknown) a b val q h
