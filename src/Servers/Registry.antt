-- ===== src/Servers/Registry.antt =====
-- The selectors of a registry.
use ruoqa_mcp.Common.{
  ◌≤◌, ◌≡◌, refl, sym, ap, ◌∙◌, subst, ◌⊎◌, inl, inr, false, ◌&&◌, ◌||◌, Option, none, some, List,
  [], ◌∷◌, ◌++◌, arith, ltb, Bool-cases, Option-cases, is_some, length, any, Result, ok, ◌>>=◌,
  map_err, >>=-eq-ok,
}
use ruoqa_mcp.Common.Text.{Text, text_eq}
use ruoqa_mcp.Http.Hosts.{has, NoneTwice, NoneTwice-push}
use ruoqa_mcp.Servers.{
  Url, canonical_id, alias_for, EnvConfig, client_error, split_servers, insert_unique, insert_alias,
  add_server, add_servers, build_registry,
}

abbrev pub selectors {ℓ} : {C : Type ℓ} → List (Text × C) → List Text
selectors [] = []
selectors ((id, c) ∷ rest) = id ∷ selectors rest

selectors-append :
    {C : Type 0} (xs : List (Text × C)) (id : Text) (c : C)
    → selectors (xs ++ (id, c) ∷ []) ≡ selectors xs ++ id ∷ []
selectors-append [] id c = refl
selectors-append ((i, d) ∷ xs) id c = ap (λ r. i ∷ r) (selectors-append xs id c)

has-selectors :
    {C : Type 0} (id : Text) (xs : List (Text × C))
    → has id (selectors xs) ≡ any (λ c. text_eq c.0 id) xs
has-selectors id [] = refl
has-selectors id ((i, d) ∷ xs) = ap (λ b. text_eq i id || b) (has-selectors id xs)

module _ {Client E : Type 0} (base_url : Client → Url) (build_one : Text → Result Client E) where
  insert_unique-NoneTwice :
      (clients : List (Text × Client)) (id : Text) (client : Client) {out : List (Text × Client)}
      → insert_unique base_url build_one clients id client ≡ ok out
      → NoneTwice (selectors clients)
      → NoneTwice (selectors out)
  unfolding insert_unique
  insert_unique-NoneTwice clients id client {out = out} h v =
      elim (Bool-cases (any (λ c. text_eq c.0 id) clients)) [
        | inl e ↦ absurd (ground arith)
        | inr e ↦
            let same : clients ++ (id, client) ∷ [] ≡ out = ground arith in
            subst (λ o. NoneTwice (selectors o)) same
              (subst NoneTwice (sym (selectors-append clients id client))
                (NoneTwice-push (selectors clients) id (has-selectors id clients ∙ e) v))
      ]

  insert_alias-NoneTwice :
      (clients : List (Text × Client)) (alias : Option Text) (client : Client)
      {out : List (Text × Client)}
      → insert_alias base_url build_one clients alias client ≡ ok out
      → NoneTwice (selectors clients)
      → NoneTwice (selectors out)
  insert_alias-NoneTwice clients none client {out = out} h v =
      let same : clients ≡ out = cc in subst (λ o. NoneTwice (selectors o)) same v
  insert_alias-NoneTwice clients (some alias) client h v =
      insert_unique-NoneTwice clients alias client h v

  add_server-NoneTwice :
      (clients : List (Text × Client)) (server : Text) {out : List (Text × Client)}
      → add_server base_url build_one clients server ≡ ok out
      → NoneTwice (selectors clients)
      → NoneTwice (selectors out)
  unfolding add_server
  add_server-NoneTwice clients server h v =
      let (client, _, h') =
        >>=-eq-ok (map_err (client_error server) (build_one server))
          (λ client.
            insert_unique base_url build_one clients (canonical_id (base_url client)) client
            >>= λ cs. insert_alias base_url build_one cs (alias_for (base_url client)) client)
          h in
      let (mid, a, b) =
        >>=-eq-ok (insert_unique base_url build_one clients (canonical_id (base_url client)) client)
          (λ cs. insert_alias base_url build_one cs (alias_for (base_url client)) client) h' in
      insert_alias-NoneTwice mid (alias_for (base_url client)) client b
        (insert_unique-NoneTwice clients (canonical_id (base_url client)) client a v)

  add_servers-NoneTwice :
      (clients : List (Text × Client)) (servers : List Text) {out : List (Text × Client)}
      → add_servers base_url build_one clients servers ≡ ok out
      → NoneTwice (selectors clients)
      → NoneTwice (selectors out)
  add_servers-NoneTwice clients [] {out = out} h v =
      let same : clients ≡ out = cc in subst (λ o. NoneTwice (selectors o)) same v
  add_servers-NoneTwice clients (server ∷ servers) h v =
      let (mid, a, b) = >>=-eq-ok (add_server base_url build_one clients server) _ h in
      add_servers-NoneTwice mid servers b (add_server-NoneTwice clients server a v)

  -- In a registry that is built, no selector, canonical id or alias, names two servers; and two
  -- or more servers are accepted only without credentials and user name in the environment.
  pub build_registry-NoneTwice :
      (env : EnvConfig) {clients : List (Text × Client)}
      → build_registry base_url build_one env ≡ ok clients
      → NoneTwice (selectors clients)
        × ((length (split_servers env.server) ≤ 1)
            ⊎ ((env.api_key_set ≡ false) × (env.api_secret_set ≡ false) × (env.username ≡ none)))
  unfolding build_registry
  build_registry-NoneTwice env {clients = clients} h =
      let several = ltb 1 (length (split_servers env.server)) in
      elim (Bool-cases (several && (env.api_key_set || env.api_secret_set))) [
        | inl e ↦ absurd (ground arith)
        | inr e ↦ elim (Bool-cases (several && is_some env.username)) [
          | inl f ↦ absurd (ground arith)
          | inr f ↦ (
            add_servers-NoneTwice [] (split_servers env.server) (ground arith) tt,
            single_or_plain env e f,
          )
        ]
      ]
    where
      single_or_plain :
          (env : EnvConfig)
          → (ltb 1 (length (split_servers env.server)) && (env.api_key_set || env.api_secret_set))
            ≡ false
          → (ltb 1 (length (split_servers env.server)) && is_some env.username) ≡ false
          → (length (split_servers env.server) ≤ 1)
            ⊎ ((env.api_key_set ≡ false) × (env.api_secret_set ≡ false) × (env.username ≡ none))
      single_or_plain env e f = elim (Bool-cases (ltb 1 (length (split_servers env.server)))) [
        | inr few ↦ inl (ground arith)
        | inl several ↦ elim (Option-cases env.username) [
          | inl none_set ↦ inr (ground arith, ground arith, none_set)
          | inr (name, set) ↦ absurd (ground arith)
        ]
      ]
