-- ===== src/Server/Access.antt =====
-- Who sees and who may call a tool.
use ruoqa_mcp.Common.{
  ℕ, String, ◌≡◌, refl, sym, ap, ◌∙◌, subst, ◌≢◌, ◌↔◌, ◌⊎◌, inl, inr, true, false, Option, none,
  some, List, [], ◌∷◌, arith, Bool-cases, filter, Result, ok,
}
use ruoqa_mcp.Http.{Scope, read, write, HttpAuth, authenticate, matches, presented, scope_for}
use ruoqa_mcp.Http.Scopes.{matches_iff, scope_for_iff}
use ruoqa_mcp.Server.{
  Tool, is_read_only, get_tool, Denied, scope_allows, authorize, list_tools, visible, http_call,
}

-- The scope lets a caller use this tool.
abbrev pub MayCall : Option Scope → Tool → Type 0
MayCall scope t = (scope ≡ some write) ⊎ ((scope ≡ some read) × (is_read_only t ≡ true))

scope_allows_iff :
    (scope : Option Scope) (t : Tool) → (scope_allows scope (some t) ≡ ok tt) ↔ MayCall scope t
scope_allows_iff (some write) t = (λ h. inl refl, λ h. refl)
scope_allows_iff (some read) t = elim (Bool-cases (is_read_only t)) [
  | inl e ↦ (λ h. inr (refl, e), λ h. ground arith)
  | inr e ↦ (λ h. absurd (ground arith), λ h. absurd (ground arith))
]
scope_allows_iff none t = (λ h. absurd (cc), λ h. absurd (ground arith))

authorize_iff :
    (tools : List Tool) (name : String) (scope : Option Scope) {t : Tool}
    → get_tool tools name ≡ some t
    → (authorize true tools name scope ≡ ok tt) ↔ MayCall scope t
unfolding authorize
authorize_iff tools name scope {t = t} e =
    subst (λ o. (scope_allows scope o ≡ ok tt) ↔ MayCall scope t) (sym e) (scope_allows_iff scope t)

-- Membership in the list of tools.
abbrev pub Listed : Tool → List Tool → Type 0
Listed t [] = ⊥
Listed t (u ∷ us) = (t ≡ u) ⊎ Listed t us

Listed-filter :
    (t : Tool) (ts : List Tool)
    → Listed t (filter is_read_only ts) ↔ (Listed t ts × (is_read_only t ≡ true))
Listed-filter t [] = (λ h. absurd h, λ h. absurd (h.0))
Listed-filter t (u ∷ us) = elim (Bool-cases (is_read_only u)) [
  | inl e ↦
      subst
        (λ b.
          Listed t (elim b [ true ↦ u ∷ filter is_read_only us | false ↦ filter is_read_only us ])
          ↔ (Listed t (u ∷ us) × (is_read_only t ≡ true)))
        (sym e)
        (
          (λ h. elim h [
            | inl p ↦ (inl p, ap is_read_only p ∙ e)
            | inr l ↦ let (m, r) = (Listed-filter t us).0 l in (inr m, r)
          ]),
          λ (h, r). elim h [ inl p ↦ inl p | inr l ↦ inr ((Listed-filter t us).1 (l, r)) ],
        )
  | inr e ↦
      subst
        (λ b.
          Listed t (elim b [ true ↦ u ∷ filter is_read_only us | false ↦ filter is_read_only us ])
          ↔ (Listed t (u ∷ us) × (is_read_only t ≡ true)))
        (sym e)
        (
          (λ h. let (m, r) = (Listed-filter t us).0 h in (inr m, r)),
          λ (h, r). elim h [
            | inl p ↦ absurd (clash (sym r ∙ ap is_read_only p ∙ e))
            | inr l ↦ (Listed-filter t us).1 (l, r)
          ],
        )
]
  where
    clash : true ≢ false
    clash h = absurd (cc)

visible-callable :
    (tools : List Tool) (scope : Option Scope) (t : Tool) {ts : List Tool}
    → visible scope tools ≡ ok ts
    → Listed t ts ↔ (Listed t tools × MayCall scope t)
visible-callable tools (some write) t {ts = ts} h =
    let e : tools ≡ ts = cc in
    subst (λ us. Listed t us ↔ (Listed t tools × MayCall (some write) t)) e
      (λ l. (l, inl refl), λ p. p.0)
visible-callable tools (some read) t {ts = ts} h =
    let e : filter is_read_only tools ≡ ts = cc in
    let (to, from) = Listed-filter t tools in
    subst (λ us. Listed t us ↔ (Listed t tools × MayCall (some read) t)) e
      (
        (λ l. let (m, r) = to l in (m, inr (refl, r))),
        λ (l, m). from (l, elim m [ inl p ↦ absurd (cc) | inr (p, r) ↦ r ]),
      )
visible-callable tools none t h = absurd (cc)

-- `list_tools` and `authorize` agree: where the scopes are enforced and the principal is answered
-- at all, a tool is in the list exactly when it is registered and this principal may call it.
pub list_tools-callable :
    (tools : List Tool) (scope : Option Scope) (t : Tool) {ts : List Tool}
    → get_tool tools t.name ≡ some t
    → list_tools true tools scope ≡ ok ts
    → Listed t ts ↔ (Listed t tools × (authorize true tools t.name scope ≡ ok tt))
unfolding list_tools
list_tools-callable tools scope t e h =
    let (to, from) = visible-callable tools scope t h in
    let (may, can) = authorize_iff tools t.name scope e in
    ((λ l. let (m, c) = to l in (m, can c)), λ (m, a). from (m, may a))

-- The token gives access to this tool.
abbrev pub Admits : HttpAuth → List ℕ → Tool → Type 0
Admits auth token t =
    (auth.write ≡ some token) ⊎ ((auth.read ≡ some token) × (is_read_only t ≡ true))

abbrev answered : List Tool → String → Option Scope → Option (Result (Unit {0}) Denied)
answered tools name none = none
answered tools name (some scope) = some (authorize true tools name (some scope))

http_call_scoped :
    (auth : HttpAuth) (tools : List Tool) (name : String) (header : Option (List ℕ))
    → auth.insecure ≡ false
    → http_call auth tools name header ≡ answered tools name (scope_for auth header)
unfolding http_call authenticate
http_call_scoped auth tools name header e = ground arith

answered_iff :
    (tools : List Tool) (name : String) (o : Option Scope) {t : Tool}
    → get_tool tools name ≡ some t
    → (answered tools name o ≡ some (ok tt)) ↔ MayCall o t
answered_iff tools name none g = (λ h. absurd (cc), λ h. absurd (ground arith))
answered_iff tools name (some scope) g =
    let (may, can) = authorize_iff tools name (some scope) g in
    (λ h. may (cc), λ m. ap some (can m))

-- Over HTTP with authentication, a call of a registered tool is authorized exactly for a request
-- that presents the write token, or the read token where the tool says that it is read-only.
pub http_call_iff :
    (auth : HttpAuth) (tools : List Tool) (name : String) (header : Option (List ℕ)) {t : Tool}
    → auth.insecure ≡ false
    → get_tool tools name ≡ some t
    → (http_call auth tools name header ≡ some (ok tt))
      ↔ ((token : List ℕ) × (presented header ≡ some token) × Admits auth token t)
http_call_iff auth tools name header {t = t} e g =
    let ((to_write, of_write), (to_read, of_read)) = scope_for_iff auth header in
    let (may, can) = answered_iff tools name (scope_for auth header) g in
    let same = http_call_scoped auth tools name header e in
    (
      (λ h. elim (may (sym same ∙ h)) [
        | inl w ↦ let (token, p, m) = to_write w in (token, p, inl m)
        | inr (r, ro) ↦ let (token, p, m, _) = to_read r in (token, p, inr (m, ro))
      ]),
      λ (token, p, a).
          same
          ∙ can (elim a [
            | inl w ↦ inl (of_write (token, p, w))
            | inr (r, ro) ↦ elim (Bool-cases (matches auth.write token)) [
              | inl m ↦ inl (of_write (token, p, (matches_iff auth.write token).0 m))
              | inr m ↦
                  inr (of_read (token, p, r, λ w. cc (m, (matches_iff auth.write token).1 w)), ro)
            ]
          ]),
    )
