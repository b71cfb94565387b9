-- ===== src/Tools.antt =====
-- What the tools share: the builders of queries and forms (src/query.rs, src/form.rs) and the limits
-- of src/tools/mod.rs. A text is its bytes. The serializer of `form_urlencoded` is a parameter.
pub mod Write
pub mod Requests
pub mod Read
pub mod Queries
pub mod Summary
use ruoqa_mcp.Common.{
  ℕ, zero, suc, ◌+◌, ◌-◌, ◌*◌, ◌/◌, ◌%◌, ◌^◌, ◌≤◌, ◌<◌, min, max, String, ◌≡◌, refl, sym, ap, ◌∙◌,
  subst, ◌≢◌, ◌↔◌, ◌⊎◌, inl, inr, Bool, true, false, ◌&&◌, ◌||◌, not, Option, none, some, List, [],
  ◌∷◌, ◌++◌, map, reverse, append-nil, append_assoc, arith, str_eq, eq_iff, ltb, leb, ◌==◌,
  if◌then◌else◌, ltb→lt, lt→ltb, leb→le, ==_iff, Bool-cases, Option-cases, is_some, is_none,
  unwrap_or, length, get_elem?, take, drop, replicate, any, all, length-append, all-append, All,
  All-append, take-append-drop, length-take, length-drop, take_append, drop_append, length-map,
  filter_map, filter, Result, ok, err, ◌>>=◌, ◌>>◌, map_err, ok_or, is_ok, Result-cases, >>=-eq-ok,
}
use ruoqa_mcp.Common.Text.{Text, codes}
use ruoqa_mcp.Common.Int.{ℤ}
use ruoqa_mcp.Common.Decimal.{show_i64}

-- The arguments that a tool refuses; a constructor holds what the message names.
pub data Invalid : Type 0 where
  too_few too_many : Text → ℕ → ℕ → Invalid
  unknown_server : Text → Invalid
  duplicates_required : Text → Text → Invalid
  both_upcase : Text → Text → Text → Invalid
  bad_name : Invalid
  no_filter : Invalid

abbrev pub max_ids : ℕ
max_ids = 500

abbrev pub max_restart_jobs : ℕ
max_restart_jobs = 500

abbrev pub max_extra_entries : ℕ
max_extra_entries = 100

unfoldable pub bounded : Text → ℕ → ℕ → ℕ → Result (Unit {0}) Invalid
bounded field len least most =
    if ltb len least
    then err (too_few field least len)
    else (if ltb most len then err (too_many field most len) else ok tt)

unfoldable pub api : Text → Text
api path = codes "/api/v1/" ++ path

-- The pairs of a query, and of a form.
abbrev pub Query : Type 0
Query = List (Text × Text)

abbrev pub Form : Type 0
Form = List (Text × Text)

-- Query.

abbrev pub push : Text → Option Text → Query → Query
push key none query = query
push key (some value) query = query ++ (key, value) ∷ []

abbrev pub pairs_of : Text → List ℤ → List (Text × Text)
pairs_of key [] = []
pairs_of key (value ∷ values) = (key, show_i64 value) ∷ pairs_of key values

abbrev pub push_all : Text → Option (List ℤ) → Query → Query
push_all key none query = query
push_all key (some values) query = query ++ pairs_of key values

abbrev pub is_empty : Query → Bool
is_empty [] = true
is_empty (pair ∷ pairs) = false

-- 63 is the question mark.
unfoldable pub finish : (List (Text × Text) → Text) → Text → Query → Text
finish serialize path [] = path
finish serialize path query = path ++ 63 ∷ serialize query

-- Form.

abbrev pub push_field : Text → Text → Form → Form
push_field key value form = form ++ (key, value) ∷ []

abbrev pub push_opt : Text → Option Text → Form → Form
push_opt key none form = form
push_opt key (some value) form = push_field key value form

abbrev pub push_each : Text → List ℤ → Form → Form
push_each key values form = form ++ pairs_of key values

-- A request to openQA, with the form it carries, if any.
pub data Method : Type 0 where
  get post put delete : Method

pub record Request : Type 0 where
  pub method : Method
  pub path : Text
  pub form : Option Form
