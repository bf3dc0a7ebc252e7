-- ===== src/Sip/Uri.antt =====
-- `sip_uri_cmp` and its helpers, on C strings. NULL and an empty text are the same to them. A result is
-- 0 for a match and 1 for none; where the source passes on another number than 0, it is 1 here.
pub mod Rules
pub mod Params
pub mod Reflexive
use vx_pbx.Base.{ℕ, Bool, true, false, not, ◌&&◌, ◌||◌, List, [], ◌∷◌, map, Option, none, some}
use vx_pbx.Base.Tests.{◌==◌, if◌then◌else◌, bit}
use vx_pbx.Base.Lists.{length}
use vx_pbx.Base.Cstr.{codes, split_at}
use vx_pbx.Base.Tokens.{tokens}
use vx_pbx.Queue.Types.{Text}
use vx_pbx.Queue.Name.{to_lower, same_name}
use vx_pbx.Queue.Roster.{is_empty}
use vx_pbx.Sip.Text.{strcasestr, same_text, cut}

-- A parameter, split at its first `=`.
pub record Param : Type 0 where
  pub name : Text
  pub value : Text

abbrev pub param_from : Text → Option (Text × Text) → Param
param_from t none = record { name = t; value = [] }
param_from t (some (name, value)) = record { name = name; value = value }

abbrev pub param : Text → Param
param t = param_from t (split_at b'=' t)

abbrev pub ends_param : ℕ → Bool
ends_param c = c == b';'

-- The parameters of a text; an empty one has none.
unfoldable pub parsed_params : Text → List Param
parsed_params [] = []
parsed_params (c ∷ cs) = map param (tokens ends_param (c ∷ cs))

-- maddrmatch, ttlmatch, usermatch, methodmatch.
pub record Matches : Type 0 where
  pub maddr : Bool
  pub ttl : Bool
  pub user : Bool
  pub method : Bool

abbrev pub no_matches : Matches
no_matches = record { maddr = false; ttl = false; user = false; method = false }

-- The inner loop: whether the parameter is matched; `none` is `goto fail`.
unfoldable pub match_param : Param → List Param → Option Bool
match_param p [] = some false
match_param p (q ∷ qs) =
    let rest = match_param p qs in
    if same_name p.name q.name
    then (if same_name p.value q.value then some true else none)
    else rest

-- The check of the 'must-match' parameters.
unfoldable pub check_must : Text → Bool → Matches → Option Matches
check_must name matched f =
    if same_name name (codes "maddr")
    then (if matched then some record f { maddr = true } else none)
    else if same_name name (codes "ttl")
    then (if matched then some record f { ttl = true } else none)
    else if same_name name (codes "user")
    then (if matched then some record f { user = true } else none)
    else if same_name name (codes "method")
    then (if matched then some record f { method = true } else none)
    else some f

-- One round of the loop over the first parameters.
unfoldable pub check_param : Matches → List Param → Param → Option Matches
unfolding match_param check_must
check_param f bs p = elim (match_param p bs) [
  | none ↦ none
  | some matched ↦ check_must p.name matched f
]

unfoldable pub check_params : Matches → List Param → List Param → Option Matches
unfolding check_param
check_params f bs [] = some f
check_params f bs (p ∷ ps) = elim (check_param f bs p) [
  | none ↦ none
  | some f' ↦ check_params f' bs ps
]

-- Whether a parameter of the second text is a must-match one that the first does not have.
abbrev pub is_unanswered : Matches → Text → Bool
is_unanswered f name =
    (same_name name (codes "maddr") && not f.maddr)
    || (same_name name (codes "ttl") && not f.ttl)
    || (same_name name (codes "user") && not f.user)
    || (same_name name (codes "method") && not f.method)

-- The loop over the second parameters.
unfoldable pub check_rest : Matches → List Param → ℕ
check_rest f [] = 0
check_rest f (q ∷ qs) = let rest = check_rest f qs in if is_unanswered f q.name then 1 else rest

unfoldable pub sip_uri_params_cmp : Text → Text → ℕ
unfolding parsed_params check_params check_rest
sip_uri_params_cmp input1 input2 =
    if is_empty input1 && is_empty input2
    then 0
    else (elim (check_params no_matches (parsed_params input2) (parsed_params input1)) [
      | none ↦ 1
      | some f ↦ check_rest f (parsed_params input2)
    ])

abbrev pub ends_header : ℕ → Bool
ends_header c = c == b'&'

-- The loop over the first headers.
unfoldable pub check_headers : Text → List Text → ℕ
unfolding strcasestr
check_headers headers2 [] = 0
check_headers headers2 (h ∷ hs) =
    let rest = check_headers headers2 hs in if strcasestr headers2 h then rest else 1

unfoldable pub sip_uri_headers_cmp : Text → Text → ℕ
unfolding check_headers
sip_uri_headers_cmp [] [] = 0
sip_uri_headers_cmp [] (d ∷ ds) = 1
sip_uri_headers_cmp (c ∷ cs) [] = 1
sip_uri_headers_cmp (c ∷ cs) (d ∷ ds) =
    if length cs == length ds then check_headers (d ∷ ds) (tokens ends_header (c ∷ cs)) else 1

-- What the core of Asterisk provides: `ast_uri_decode`, `ast_sockaddr_parse` and whether
-- `ast_sockaddr_cmp` is 0.
pub record Core (Sockaddr : Type 0) : Type 0 where
  pub decode : Text → Text
  pub parse : Text → Option Sockaddr
  pub same_sockaddr : Sockaddr → Sockaddr → Bool

-- The parts of what stands behind the scheme. `user` is `none` where there is no `@`.
pub record Parts : Type 0 where
  pub user : Option Text
  pub host : Text
  pub params : Text
  pub headers : Text

-- Headers are cut off the parameters, or off the host where these are missing or empty.
unfoldable pub address_parts : Option Text → Text → Parts
address_parts user address =
    let (host, parameters) = cut b';' address in
    if is_empty parameters
    then record { user = user; host = (cut b'?' host).0; params = []; headers = (cut b'?' host).1 }
    else record {
      user = user;
      host = host;
      params = (cut b'?' parameters).0;
      headers = (cut b'?' parameters).1;
    }

unfoldable pub parts_of : Text → Parts
unfolding address_parts
parts_of uri = elim (split_at b'@' uri) [
  | none ↦ address_parts none uri
  | some (user, address) ↦ address_parts (some user) address
]

unfoldable pub same_user : Option Text → Option Text → Bool
unfolding same_text
same_user none none = true
same_user (some a) (some b) = same_text a b
same_user _ _ = false

module _ {Sockaddr : Type 0} (core : Core Sockaddr) where
  abbrev pub domains_cmp : Text → Text → Option Sockaddr → Option Sockaddr → ℕ
  domains_cmp host1 host2 none none = bit (not (same_name host1 host2))
  domains_cmp host1 host2 (some a) (some b) = bit (not (core.same_sockaddr a b))
  domains_cmp host1 host2 _ _ = 1

  unfoldable pub sip_uri_domain_cmp : Text → Text → ℕ
  sip_uri_domain_cmp host1 host2 = domains_cmp host1 host2 (core.parse host1) (core.parse host2)

  -- The comparison behind the schemes.
  unfoldable pub parts_cmp : Parts → Parts → ℕ
  unfolding same_user sip_uri_domain_cmp sip_uri_headers_cmp sip_uri_params_cmp
  parts_cmp u v =
      if not (same_user u.user v.user)
      then 1
      else if not (sip_uri_domain_cmp u.host v.host == 0)
      then 1
      else if not (sip_uri_headers_cmp u.headers v.headers == 0)
      then 1
      else sip_uri_params_cmp u.params v.params

  unfoldable pub decoded_cmp : Text × Text → Text × Text → ℕ
  unfolding same_text parts_of parts_cmp
  decoded_cmp (scheme1, uri1) (scheme2, uri2) =
      if not (same_text scheme1 scheme2)
      then 1
      else if not (same_text scheme1 (codes "sip")) && not (same_text scheme1 (codes "sips"))
      then 1
      else if is_empty uri1 || is_empty uri2
      then 1
      else parts_cmp (parts_of uri1) (parts_of uri2)

  -- `none` is NULL.
  unfoldable pub sip_uri_cmp : Option Text → Option Text → ℕ
  unfolding decoded_cmp
  sip_uri_cmp none _ = 1
  sip_uri_cmp (some a) none = 1
  sip_uri_cmp (some a) (some b) = decoded_cmp (cut b':' (core.decode a)) (cut b':' (core.decode b))
