-- ===== src/Servers.antt =====
-- The servers and their selectors: src/servers.rs. A client of the `ruoqa` library and the building
-- of one are parameters; a client has a base URL, of which the host and the printed port count.
pub mod Registry
use ruoqa_mcp.Common.{
  ℕ, zero, suc, ◌+◌, ◌-◌, ◌*◌, ◌/◌, ◌%◌, ◌^◌, ◌≤◌, ◌<◌, min, max, String, ◌≡◌, refl, sym, ap, ◌∙◌,
  subst, ◌≢◌, ◌↔◌, ◌⊎◌, inl, inr, Bool, true, false, ◌&&◌, ◌||◌, not, Option, none, some, List, [],
  ◌∷◌, ◌++◌, map, reverse, append-nil, append_assoc, arith, str_eq, eq_iff, ltb, leb, ◌==◌,
  if◌then◌else◌, ltb→lt, lt→ltb, leb→le, ==_iff, Bool-cases, Option-cases, is_some, is_none,
  unwrap_or, length, get_elem?, take, drop, replicate, any, all, length-append, All, All-append,
  take-append-drop, length-take, length-drop, take_append, drop_append, length-map, filter_map,
  filter, Result, ok, err, ◌>>=◌, ◌>>◌, map_err, ok_or, is_ok, Result-cases, >>=-eq-ok,
}
use ruoqa_mcp.Common.Text.{Text, text_eq, codes, split, trim}

pub record Url : Type 0 where
  pub host : Option Text
  pub port : Option Text

abbrev pub aliases : List (Text × Text)
aliases = (codes "openqa.suse.de", codes "osd") ∷ (codes "openqa.opensuse.org", codes "o3") ∷ []

abbrev nonempty_text : Text → Bool
nonempty_text [] = false
nonempty_text (c ∷ s) = true

abbrev or_implicit : List Text → List Text
or_implicit [] = [] ∷ []
or_implicit (e ∷ es) = e ∷ es

-- 44 is a comma and 59 a semicolon.
unfoldable pub split_servers : Option Text → List Text
split_servers raw =
    or_implicit
      (filter nonempty_text (map trim (split (λ c. c == 44 || c == 59) (unwrap_or raw []))))

abbrev with_port : Text → Option Text → Text
with_port host none = host
with_port host (some port) = host ++ 58 ∷ port

unfoldable pub canonical_id : Url → Text
canonical_id url = elim url.host [ none ↦ [] | some host ↦ with_port host url.port ]

abbrev find_alias : Option Text → List (Text × Text) → Option Text
find_alias none table = none
find_alias (some host) [] = none
find_alias (some host) ((h, alias) ∷ table) =
    let later = find_alias (some host) table in if text_eq host h then some alias else later

unfoldable pub alias_for : Url → Option Text
alias_for url = elim url.port [ some port ↦ none | none ↦ find_alias url.host aliases ]

-- What `build_registry` reads of it; the other fields are for the building of a client.
pub record EnvConfig : Type 0 where
  pub server : Option Text
  pub api_key_set : Bool
  pub api_secret_set : Bool
  pub username : Option Text

pub data ServerConfigError (E : Type 0) : Type 0 where
  ambiguous_credentials ambiguous_username : ServerConfigError E
  duplicate_server_id : Text → ServerConfigError E
  client_error : Text → E → ServerConfigError E

module _ {Client E : Type 0} (base_url : Client → Url) (build_one : Text → Result Client E) where
  abbrev pub ServerMap : Type 0
  ServerMap = List (Text × Client)

  -- `ServerRegistry::resolve`.
  abbrev pub lookup : Text → List (Text × Client) → Option Client
  lookup selector [] = none
  lookup selector ((id, c) ∷ rest) =
      let later = lookup selector rest in if text_eq id selector then some c else later

  unfoldable pub insert_unique :
      List (Text × Client) → Text → Client → Result (List (Text × Client)) (ServerConfigError E)
  insert_unique clients id client =
      if any (λ c. text_eq c.0 id) clients
      then err (duplicate_server_id id)
      else ok (clients ++ (id, client) ∷ [])

  abbrev pub insert_alias :
      List (Text × Client)
      → Option Text
      → Client
      → Result (List (Text × Client)) (ServerConfigError E)
  insert_alias clients none client = ok clients
  insert_alias clients (some alias) client = insert_unique clients alias client

  -- One entry of the loop.
  unfoldable pub add_server :
      List (Text × Client) → Text → Result (List (Text × Client)) (ServerConfigError E)
  add_server clients server = map_err (client_error server) (build_one server) >>= λ client.
      insert_unique clients (canonical_id (base_url client)) client >>= λ clients.
      insert_alias clients (alias_for (base_url client)) client

  abbrev pub add_servers :
      List (Text × Client) → List Text → Result (List (Text × Client)) (ServerConfigError E)
  add_servers clients [] = ok clients
  add_servers clients (server ∷ servers) =
      add_server clients server >>= λ clients. add_servers clients servers

  unfoldable pub build_registry : EnvConfig → Result (List (Text × Client)) (ServerConfigError E)
  build_registry env =
      let entries = split_servers env.server in
      let several = ltb 1 (length entries) in
      if several && (env.api_key_set || env.api_secret_set)
      then err ambiguous_credentials
      else (if several && is_some env.username
          then err ambiguous_username
          else add_servers [] entries)

  -- `ServerRegistry::resolve_id`.
  unfoldable pub resolve_id : List (Text × Client) → Text → Option Text
  resolve_id clients selector = elim (lookup selector clients) [
    | none ↦ none
    | some c ↦ some (canonical_id (base_url c))
  ]
