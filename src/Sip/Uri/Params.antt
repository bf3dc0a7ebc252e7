-- ===== src/Sip/Uri/Params.antt =====
-- The comparison of the parameters against the rules that it follows.
use vx_pbx.Base.{
  ℕ, ◌≡◌, refl, ap, ◌∙◌, Bool, true, false, not, ◌&&◌, ◌||◌, List, [], ◌∷◌, Option, none, some, inl,
  inr, arith,
}
use vx_pbx.Base.Tests.{if◌then◌else◌, Bool-cases, Option-cases, or_false}
use vx_pbx.Base.Cstr.{codes}
use vx_pbx.Queue.Types.{Text}
use vx_pbx.Queue.Name.{same_name}
use vx_pbx.Sip.Uri.{
  Param, parsed_params, Matches, no_matches, match_param, check_must, check_param, check_params,
  is_unanswered, check_rest, sip_uri_params_cmp,
}
use vx_pbx.Sip.Uri.Rules.{
  all, has_param, must_names, is_must, counterpart, agrees, rules, Kind, kind,
}

-- The flags, once a matched parameter of that name has been seen.
abbrev mark : Matches → Text → Matches
mark f name = record {
  maddr = same_name name (codes "maddr") || f.maddr;
  ttl = same_name name (codes "ttl") || f.ttl;
  user = same_name name (codes "user") || f.user;
  method = same_name name (codes "method") || f.method;
}

abbrev seen : Matches → List Param → Matches
seen f ps = record {
  maddr = has_param (codes "maddr") ps || f.maddr;
  ttl = has_param (codes "ttl") ps || f.ttl;
  user = has_param (codes "user") ps || f.user;
  method = has_param (codes "method") ps || f.method;
}

or_true : (b : Bool) → (b || true) ≡ true
or_true true = refl
or_true false = refl

check_must_lem :
    (name : Text) (matched : Bool) (f : Matches)
    → check_must name matched f
      ≡ (if not (is_must name) || matched then some (mark f name) else none)
unfolding check_must
check_must_lem name matched f = elim (kind name) [
  | Kind.maddr a b c d ↦ rw (a, b, c, d) refl
  | Kind.ttl a b c d ↦ rw (a, b, c, d) refl
  | Kind.user a b c d ↦ rw (a, b, c, d) refl
  | Kind.method a b c d ↦ rw (a, b, c, d) refl
  | Kind.free a b c d ↦ rw (a, b, c, d) refl
]

abbrev matched_with : Param → Option Param → Option Bool
matched_with p none = some false
matched_with p (some q) = if same_name p.value q.value then some true else none

match_param_lem :
    (p : Param) (bs : List Param) → match_param p bs ≡ matched_with p (counterpart p.name bs)
unfolding match_param
match_param_lem p [] = refl
match_param_lem p (q ∷ qs) = elim (Bool-cases (same_name p.name q.name)) [
  | inl e ↦ rw e refl
  | inr e ↦ rw e (match_param_lem p qs)
]

check_param_lem :
    (f : Matches) (bs : List Param) (p : Param)
    → check_param f bs p ≡ (if agrees bs p then some (mark f p.name) else none)
unfolding check_param
check_param_lem f bs p =
    rw (check_param, match_param_lem p bs)
      (elim (Option-cases (counterpart p.name bs)) [
        | inl e ↦ rw e (check_must_lem p.name false f ∙ rw (or_false (not (is_must p.name))) refl)
        | inr (q, e) ↦ rw e (elim (Bool-cases (same_name p.value q.value)) [
          | inl v ↦ rw v (check_must_lem p.name true f ∙ rw (or_true (not (is_must p.name))) refl)
          | inr v ↦ rw v refl
        ])
      ])

or_if : (a b c : Bool) → (a || (b || c)) ≡ ((if b then true else a) || c)
or_if true true c = refl
or_if true false c = refl
or_if false true c = refl
or_if false false c = refl

seen-mark : (f : Matches) (p : Param) (ps : List Param) → seen (mark f p.name) ps ≡ seen f (p ∷ ps)
seen-mark f p ps =
    rw
      (
        or_if (has_param (codes "maddr") ps) (same_name p.name (codes "maddr")) f.maddr,
        or_if (has_param (codes "ttl") ps) (same_name p.name (codes "ttl")) f.ttl,
        or_if (has_param (codes "user") ps) (same_name p.name (codes "user")) f.user,
        or_if (has_param (codes "method") ps) (same_name p.name (codes "method")) f.method,
      )
      refl

check_params_lem :
    (f : Matches) (bs ps : List Param)
    → check_params f bs ps ≡ (if all (agrees bs) ps then some (seen f ps) else none)
unfolding check_params
check_params_lem f bs [] = refl
check_params_lem f bs (p ∷ ps) =
    rw (check_params, check_param_lem f bs p)
      (elim (Bool-cases (agrees bs p)) [
        | inl e ↦ rw e (
            check_params_lem (mark f p.name) bs ps
            ∙ ap (λ g. if all (agrees bs) ps then some g else none) (seen-mark f p ps))
        | inr e ↦ rw e refl
      ])

-- Whether every must-match parameter of a list has its flag.
abbrev covers : Matches → List Param → Bool
covers f qs =
    (not (has_param (codes "maddr") qs) || f.maddr)
    && ((not (has_param (codes "ttl") qs) || f.ttl)
        && ((not (has_param (codes "user") qs) || f.user)
            && ((not (has_param (codes "method") qs) || f.method) && true)))

covers_cons :
    (f : Matches) (q : Param) (qs : List Param)
    → covers f (q ∷ qs) ≡ (if is_unanswered f q.name then false else covers f qs)
covers_cons f q qs = elim (kind q.name) [
  | Kind.maddr a b c d ↦ ground arith
  | Kind.ttl a b c d ↦ ground arith
  | Kind.user a b c d ↦ ground arith
  | Kind.method a b c d ↦ ground arith
  | Kind.free a b c d ↦ ground arith
]

check_rest_lem : (f : Matches) (qs : List Param) → check_rest f qs ≡ (if covers f qs then 0 else 1)
unfolding check_rest
check_rest_lem f [] = refl
check_rest_lem f (q ∷ qs) = rw (covers_cons f q qs) (elim (Bool-cases (is_unanswered f q.name)) [
  | inl e ↦ rw e refl
  | inr e ↦ rw e (check_rest_lem f qs)
])

-- The two loops.
abbrev compared : List Param → List Param → ℕ
compared ps bs = elim (check_params no_matches bs ps) [ none ↦ 1 | some f ↦ check_rest f bs ]

covers-seen :
    (ps bs : List Param)
    → covers (seen no_matches ps) bs
      ≡ all (λ name. not (has_param name bs) || has_param name ps) must_names
covers-seen ps bs =
    rw
      (
        or_false (has_param (codes "maddr") ps),
        or_false (has_param (codes "ttl") ps),
        or_false (has_param (codes "user") ps),
        or_false (has_param (codes "method") ps),
      )
      refl

compared_lem : (ps bs : List Param) → compared ps bs ≡ (if rules ps bs then 0 else 1)
compared_lem ps bs =
    rw (compared, check_params_lem no_matches bs ps)
      (elim (Bool-cases (all (agrees bs) ps)) [
        | inl e ↦ rw e (
            check_rest_lem (seen no_matches ps) bs
            ∙ ap (λ c. if c then 0 else 1) (covers-seen ps bs))
        | inr e ↦ rw e refl
      ])

-- Two texts of parameters match exactly if every parameter of the first has the value of the first
-- parameter of its name in the second, or has none of that name there and is not maddr, ttl, user or
-- method, and the first has those of these four names that the second has.
pub sip_uri_params_cmp-rules :
    (input1 input2 : Text)
    → sip_uri_params_cmp input1 input2
      ≡ (if rules (parsed_params input1) (parsed_params input2) then 0 else 1)
unfolding sip_uri_params_cmp
sip_uri_params_cmp-rules [] [] = refl
sip_uri_params_cmp-rules [] (d ∷ ds) = compared_lem (parsed_params []) (parsed_params (d ∷ ds))
sip_uri_params_cmp-rules (c ∷ cs) input2 =
    compared_lem (parsed_params (c ∷ cs)) (parsed_params input2)
