-- ===== src/Tests/Config.antt =====
-- A long error body, and two servers.
use ruoqa_mcp.Common.{
  ℕ, ◌≤◌, ◌<◌, String, ◌≡◌, refl, ◌↔◌, ◌⊎◌, true, false, none, some, List, [], ◌∷◌, length, take,
  Result, ok, is_ok,
}
use ruoqa_mcp.Common.Text.{Text, codes}
use ruoqa_mcp.Otel.Proto.{Bytes}
use ruoqa_mcp.Error.{request, truncate, is_char_boundary, classify, kind_of, status_kind}
use ruoqa_mcp.Error.Classes.{shown_kind, truncate_lem, classify-kind_of}
use ruoqa_mcp.Http.Hosts.{NoneTwice}
use ruoqa_mcp.Servers.{
  Url, EnvConfig, split_servers, canonical_id, alias_for, insert_unique, add_server, build_registry,
}
use ruoqa_mcp.Servers.Registry.{selectors, build_registry-NoneTwice}

-- `aé` in three bytes, cut to two.
abbrev two_chars : Bytes
two_chars = 97 ∷ 0xc3 ∷ 0xa9 ∷ []

truncate_lem_example :
    (n : ℕ) × (truncate two_chars 2 ≡ take n two_chars)
    × ((is_char_boundary two_chars n ≡ true) ⊎ (n ≡ length two_chars))
    × (length (truncate two_chars 2) ≤ 2)
    × ((truncate two_chars 2 ≡ two_chars) ⊎ (2 < length two_chars))
truncate_lem_example = truncate_lem two_chars 2

abbrev not_found_kind : String
not_found_kind = "not_found"

classify-kind_of_example :
    (shown_kind (classify [] (request 404 two_chars)) ≡ not_found_kind)
    × ((is_ok (classify [] (request 404 two_chars)) ≡ false) ↔ (not_found_kind ≡ "internal"))
unfolding kind_of status_kind
classify-kind_of_example = classify-kind_of [] (request 404 two_chars)

-- The building of a client, for the test: its URL is the entry.
abbrev entry_url : Text → Url
entry_url host = record { host = some host; port = none }

abbrev always : Text → Result Text ℕ
always server = ok server

abbrev two_servers_env : EnvConfig
two_servers_env = record {
  server = some (codes "openqa.suse.de, a.b");
  api_key_set = false;
  api_secret_set = false;
  username = none;
}

abbrev three_selectors : List (Text × Text)
three_selectors =
    (codes "openqa.suse.de", codes "openqa.suse.de")
    ∷ (codes "osd", codes "openqa.suse.de")
    ∷ (codes "a.b", codes "a.b")
    ∷ []

build_registry-NoneTwice_example :
    NoneTwice (selectors three_selectors)
    × ((length (split_servers two_servers_env.server) ≤ 1)
        ⊎ ((two_servers_env.api_key_set ≡ false)
            × (two_servers_env.api_secret_set ≡ false)
            × (two_servers_env.username ≡ none)))
unfolding build_registry split_servers canonical_id alias_for insert_unique add_server
build_registry-NoneTwice_example =
    build_registry-NoneTwice entry_url always two_servers_env {clients = three_selectors} refl
