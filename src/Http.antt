-- ===== src/Http.antt =====
-- src/http.rs: the bearer tokens of the HTTP transport, the scopes that they grant, and the `Host`
-- allowlist. Tokens and header values are texts; a header that is no visible ASCII is `none`.
pub mod Resolve
pub mod Scopes
pub mod Hosts
use ruoqa_mcp.Common.{
  ℕ, zero, suc, ◌+◌, ◌-◌, ◌*◌, ◌/◌, ◌%◌, ◌^◌, ◌≤◌, ◌<◌, min, max, String, ◌≡◌, refl, sym, ap, ◌∙◌,
  subst, ◌≢◌, ◌↔◌, ◌⊎◌, inl, inr, Bool, true, false, ◌&&◌, ◌||◌, not, Option, none, some, List, [],
  ◌∷◌, ◌++◌, map, reverse, append-nil, append_assoc, arith, str_eq, eq_iff, ltb, leb, ◌==◌,
  if◌then◌else◌, ltb→lt, lt→ltb, leb→le, ==_iff, Bool-cases, Option-cases, is_some, is_none,
  unwrap_or, length, get_elem?, take, drop, replicate, any, all, length-append, All, All-append,
  take-append-drop, length-take, length-drop, take_append, drop_append, length-map, filter_map,
  filter, Result, ok, err, ◌>>=◌, ◌>>◌, map_err, ok_or, is_ok, Result-cases,
}
use ruoqa_mcp.Common.Text.{Text, codes, text_eq, trim, is_empty, split_once, eq_ignore_ascii_case}

abbrev pub min_token_len : ℕ
min_token_len = 32

abbrev pub loopback_hosts : List Text
loopback_hosts = codes "localhost" ∷ codes "127.0.0.1" ∷ codes "::1" ∷ []

pub data Scope : Type 0 where
  read write : Scope

pub record HttpEnv : Type 0 where
  pub token : Option Text
  pub read_token : Option Text

-- `HttpEnv::from_env`: an empty value counts as unset.
abbrev nonempty : Option Text → Option Text
nonempty none = none
nonempty (some []) = none
nonempty (some (c ∷ s)) = some (c ∷ s)

unfoldable pub from_env : (String → Option Text) → HttpEnv
from_env var = record {
  token = nonempty (var "OPENQA_MCP_HTTP_TOKEN");
  read_token = nonempty (var "OPENQA_MCP_HTTP_READ_TOKEN");
}

-- `HttpEnv::is_empty`.
unfoldable pub no_tokens : HttpEnv → Bool
no_tokens env = is_none env.token && is_none env.read_token

pub data AuthConfigError : Type 0 where
  no_token insecure_with_token : AuthConfigError
  too_short not_printable : String → AuthConfigError
  tokens_equal allowed_hosts_without_http : AuthConfigError

pub record HttpAuth : Type 0 where
  pub write : Option Text
  pub read : Option Text
  pub insecure : Bool

-- `u8::is_ascii_graphic`.
abbrev pub is_ascii_graphic : ℕ → Bool
is_ascii_graphic b = leb 33 b && leb b 126

unfoldable pub validate : String → Option Text → Result (Option Text) AuthConfigError
validate var none = ok none
validate var (some token) =
    if not (all is_ascii_graphic token)
    then err (not_printable var)
    else (if ltb (length token) min_token_len then err (too_short var) else ok (some token))

abbrev pub same_token : Option Text → Option Text → Bool
same_token (some w) (some r) = text_eq w r
same_token _ _ = false

-- The checks on the two tokens together.
unfoldable pub combine : Option Text → Option Text → Bool → Result HttpAuth AuthConfigError
combine w r insecure =
    if same_token w r
    then err tokens_equal
    else (if insecure && not (is_none w && is_none r)
        then err insecure_with_token
        else (if not insecure && (is_none w && is_none r)
            then err no_token
            else ok (record { write = w; read = r; insecure = insecure })))

unfoldable pub resolve : HttpEnv → Bool → Result HttpAuth AuthConfigError
unfolding combine
resolve env insecure = do
  w ← validate "OPENQA_MCP_HTTP_TOKEN" env.token
  r ← validate "OPENQA_MCP_HTTP_READ_TOKEN" env.read_token
  combine w r insecure

-- `matches`: a token that is not configured never matches.
unfoldable pub matches : Option Text → Text → Bool
matches none candidate = false
matches (some token) candidate = text_eq token candidate

abbrev nonblank : Text → Option Text
nonblank [] = none
nonblank (c ∷ s) = some (c ∷ s)

unfoldable pub bearer_token : Text → Option Text
bearer_token header = elim (split_once 32 header) [
  | none ↦ none
  | some (scheme, token) ↦
      if eq_ignore_ascii_case scheme (codes "Bearer") then nonblank (trim token) else none
]

abbrev pub presented : Option Text → Option Text
presented none = none
presented (some header) = bearer_token header

abbrev granted : Bool → Bool → Option Scope
granted true _ = some write
granted false true = some read
granted false false = none

-- Both comparisons are made, and then the scope is chosen.
abbrev pub scope_of_token : HttpAuth → Option Text → Option Scope
scope_of_token auth none = none
scope_of_token auth (some token) = granted (matches auth.write token) (matches auth.read token)

unfoldable pub scope_for : HttpAuth → Option Text → Option Scope
scope_for auth header = scope_of_token auth (presented header)

-- `allowed_hosts`: its loop over the configured names.
add_hosts : List Text → List Text → List Text
add_hosts hosts [] = hosts
add_hosts hosts (host ∷ configured) =
    add_hosts (if any (λ h. text_eq h host) hosts then hosts else hosts ++ host ∷ []) configured

unfoldable pub allowed_hosts : List Text → List Text
unfolding add_hosts
allowed_hosts configured = add_hosts loopback_hosts configured

-- What the middleware makes of a request: it is passed on with the scope in its extensions, or
-- answered with this status.
pub data Passed : Type 0 where
  next : Option Scope → Passed
  refused : ℕ → Passed

unfoldable pub authenticate : HttpAuth → Option Text → Passed
authenticate auth header =
    if auth.insecure
    then next none
    else (elim (scope_for auth header) [ some scope ↦ next (some scope) | none ↦ refused 401 ])
