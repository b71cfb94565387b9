-- ===== src/Tests/Access.antt =====
-- Two tokens, two tools, and the requests that may call them.
use ruoqa_mcp.Common.{
  ℕ, ◌≡◌, refl, sym, ap, ◌∙◌, ◌⊎◌, inl, inr, true, false, Option, none, some, List, [], ◌∷◌, arith,
  ok,
}
use ruoqa_mcp.Common.Text.{Text, codes}
use ruoqa_mcp.Http.{
  HttpEnv, HttpAuth, Scope, read, write, presented, bearer_token, matches, scope_for, resolve,
  combine, validate, authenticate, allowed_hosts,
}
use ruoqa_mcp.Http.Resolve.{IsSound, resolve-IsSound, resolve_complete}
use ruoqa_mcp.Http.Scopes.{scope_for_iff, authenticate_passes}
use ruoqa_mcp.Http.Hosts.{has, allowed_hosts_lem}
use ruoqa_mcp.Server.{Tool, is_read_only, authorize, list_tools, http_call}
use ruoqa_mcp.Server.Access.{Listed, http_call_iff, list_tools-callable}

abbrev write_token : Text
write_token = codes "wwwwwwwwwwwwwwwwwwwwwwwwwwwwwwww"

abbrev read_token : Text
read_token = codes "rrrrrrrrrrrrrrrrrrrrrrrrrrrrrrrrr"

abbrev two_tokens : HttpAuth
two_tokens = record { write = some write_token; read = some read_token; insecure = false }

abbrev two_tokens_env : HttpEnv
two_tokens_env = record { token = some write_token; read_token = some read_token }

abbrev read_header : Text
read_header = codes "bearer  rrrrrrrrrrrrrrrrrrrrrrrrrrrrrrrrr "

abbrev initial : Option Text → ℕ
initial none = 0
initial (some []) = 0
initial (some (c ∷ s)) = c

abbrev no_scope : Option Scope
no_scope = none

abbrev get_job : Tool
get_job = record { name = "get_job"; annotations = some (some true) }

abbrev cancel_job : Tool
cancel_job = record { name = "cancel_job"; annotations = none }

abbrev two_tools : List Tool
two_tools = get_job ∷ cancel_job ∷ []

http_call_iff_example : http_call two_tokens two_tools "get_job" (some read_header) ≡ some (ok tt)
unfolding bearer_token is_read_only
http_call_iff_example =
    (http_call_iff two_tokens two_tools "get_job" (some read_header) {t = get_job} refl refl).1
      (read_token, refl, inr (refl, refl))

list_tools-callable_example : Listed get_job (get_job ∷ [])
unfolding list_tools is_read_only authorize
list_tools-callable_example =
    (list_tools-callable two_tools (some read) get_job refl refl).1 (inl refl, refl)

scope_for_iff_example : scope_for two_tokens (some read_header) ≡ some read
unfolding bearer_token
scope_for_iff_example =
    (scope_for_iff two_tokens (some read_header)).1.1
      (read_token, refl, refl, λ h. absurd (omega (arith, ap initial h)))

resolve-IsSound_example : IsSound two_tokens_env false two_tokens
unfolding resolve combine validate
resolve-IsSound_example = resolve-IsSound two_tokens_env false refl

resolve_complete_example : resolve two_tokens_env false ≡ ok two_tokens
resolve_complete_example = resolve_complete two_tokens_env false two_tokens (record {
  same_write = refl;
  same_read = refl;
  same_flag = refl;
  strong_write = (refl, omega arith);
  strong_read = (refl, omega arith);
  distinct = λ t p q. absurd (omega (arith, ap initial (p ∙ sym q)));
  insecure_iff = (λ h. absurd (cc), λ h. absurd (ground arith));
})

authenticate_passes_example :
    ((two_tokens.insecure ≡ true) × (some read ≡ no_scope))
    ⊎ ((t : Text) × (presented (some read_header) ≡ some t)
        × (((some read ≡ some write) × (two_tokens.write ≡ some t))
            ⊎ ((some read ≡ some read) × (two_tokens.read ≡ some t))))
unfolding authenticate scope_for bearer_token matches
authenticate_passes_example = authenticate_passes two_tokens (some read_header) (some read) refl

allowed_hosts_lem_example : has (codes "mcp.local") (allowed_hosts (codes "mcp.local" ∷ [])) ≡ true
allowed_hosts_lem_example = (allowed_hosts_lem (codes "mcp.local" ∷ [])).1 (codes "mcp.local")
