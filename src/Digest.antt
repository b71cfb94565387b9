-- ===== src/Digest.antt =====
-- The digest of a job's log: `get_job_log_errors` of src/tools/read.rs with what it takes from
-- src/tools/artifact.rs, and the readers of a job's details there. Fetching a file and compiling the
-- caller's patterns are parameters, as are the patterns, each the Boolean function of a line. The
-- time stamp that opens a line of the log is a pattern too.
pub mod Log
pub mod Tiers
pub mod Modules
use ruoqa_mcp.Common.{
  ℕ, zero, suc, ◌+◌, ◌-◌, ◌*◌, ◌/◌, ◌%◌, ◌^◌, ◌≤◌, ◌<◌, min, max, String, ◌≡◌, refl, sym, ap, ◌∙◌,
  subst, ◌≢◌, ◌↔◌, ◌⊎◌, inl, inr, Bool, true, false, ◌&&◌, ◌||◌, not, Option, none, some, List, [],
  ◌∷◌, ◌++◌, map, reverse, append-nil, append_assoc, arith, str_eq, eq_iff, ltb, leb, ◌==◌,
  if◌then◌else◌, ltb→lt, lt→ltb, leb→le, ==_iff, Bool-cases, Option-cases, is_some, is_none,
  unwrap_or, length, get_elem?, take, drop, replicate, any, all, length-append, all-append, All,
  All-append, take-append-drop, length-take, length-drop, take_append, drop_append, length-map,
  filter_map, filter, filter_kept, filter_left_out, Result, ok, err, ◌>>=◌, ◌>>◌, map_err, ok_or,
  is_ok, Result-cases, >>=-eq-ok, ok-injective, ok_or-eq-ok, >>-eq-ok, if_err_lem, if_none_lem,
}
use ruoqa_mcp.Common.Text.{Text, codes, starts_with}
use ruoqa_mcp.Common.Int.{ℤ}
use ruoqa_mcp.Common.Decimal.{show_i64, show_u64}
use ruoqa_mcp.Common.Json.{Json, get, as_str, as_u64, as_array}
use ruoqa_mcp.Artifact.{
  MatchHit, lines, truncate_line, digest_max_line_chars, ScanResult, scan_markers, tail_hits,
}

abbrev pub digest_max_hits : ℕ
digest_max_hits = 15

abbrev pub digest_context_lines : ℕ
digest_context_lines = 1

abbrev pub digest_tail_lines : ℕ
digest_tail_lines = 30

abbrev pub digest_max_modules : ℕ
digest_max_modules = 10

abbrev pub digest_max_stack_frames : ℕ
digest_max_stack_frames = 10

-- Job details.

abbrev and_then {ℓ κ} : {A : Type ℓ} {B : Type κ} → Option A → (A → Option B) → Option B
and_then none f = none
and_then (some a) f = f a

-- `details.get("job").unwrap_or(details)`.
abbrev pub job_of : Json → Json
job_of details = unwrap_or (get "job" details) details

abbrev pub str_at : String → Json → String
str_at key v = unwrap_or (and_then (get key v) as_str) ""

abbrev pub array_at : String → Json → Option (List Json)
array_at key v = and_then (get key v) as_array

pub record FailedStep : Type 0 where
  pub num : ℕ
  pub title : String
  pub result : String
  pub url : Text

pub record FailedModule : Type 0 where
  pub name : String
  pub result : String
  pub steps : List FailedStep

abbrev pub has_failed : String → Bool
has_failed result = str_eq result "failed" || str_eq result "softfailed"

abbrev pub step_failed : String → Bool
step_failed result = str_eq result "fail" || str_eq result "softfail"

-- 47 is a slash.
abbrev step_url : Text → ℤ → String → ℕ → Text
step_url base_url job_id name num =
    base_url
    ++ (codes "tests/"
        ++ (show_i64 job_id ++ (codes "#step/" ++ (codes name ++ 47 ∷ show_u64 num))))

abbrev failed_step_with : Text → ℤ → String → Json → Option String → Option FailedStep
failed_step_with base_url job_id name d none = none
failed_step_with base_url job_id name d (some result) =
    let num = unwrap_or (and_then (get "num" d) as_u64) 0 in
    if step_failed result
    then some (record {
      num = num;
      title = str_at "title" d;
      result = result;
      url = step_url base_url job_id name num;
    })
    else none

abbrev pub failed_step : Text → ℤ → String → Json → Option FailedStep
failed_step base_url job_id name d =
    failed_step_with base_url job_id name d (and_then (get "result" d) as_str)

abbrev pub failed_module : Text → ℤ → Json → FailedModule
failed_module base_url job_id m = record {
  name = str_at "name" m;
  result = str_at "result" m;
  steps =
      filter_map (failed_step base_url job_id (str_at "name" m))
        (unwrap_or (array_at "details" m) []);
}

-- The loop over the modules, with those found so far.
abbrev pub modules_loop : Text → ℤ → List Json → List FailedModule → List FailedModule
modules_loop base_url job_id [] modules = modules
modules_loop base_url job_id (m ∷ results) modules = elim (has_failed (str_at "result" m)) [
  | false ↦ modules_loop base_url job_id results modules
  | true ↦ elim (leb digest_max_modules (length modules)) [
    | true ↦ modules
    | false ↦ modules_loop base_url job_id results (modules ++ failed_module base_url job_id m ∷ [])
  ]
]

unfoldable pub failed_modules : Json → ℤ → Text → List FailedModule
failed_modules details job_id base_url =
    modules_loop base_url job_id (unwrap_or (array_at "testresults" (job_of details)) []) []

abbrev find {ℓ} : {A : Type ℓ} → (A → Bool) → List A → Option A
find p [] = none
find p (x ∷ xs) = elim (p x) [ true ↦ some x | false ↦ find p xs ]

abbrev is_str : String → Option String → Bool
is_str name none = false
is_str name (some s) = str_eq s name

abbrev is_num : ℕ → Option ℕ → Bool
is_num step none = false
is_num step (some n) = n == step

unfoldable pub find_step : Json → String → ℕ → Option Json
find_step details name step = and_then (array_at "testresults" (job_of details)) (λ modules.
    and_then (find (λ m. is_str name (and_then (get "name" m) as_str)) modules) (λ m.
      and_then (array_at "details" m)
        (λ steps. find (λ d. is_num step (and_then (get "num" d) as_u64)) steps)))

abbrev lists_name : String → Option (List Json) → Bool
lists_name name none = false
lists_name name (some vs) = any (λ v. is_str name (as_str v)) vs

unfoldable pub has_log : Json → String → Bool
has_log details name =
    lists_name name (array_at "logs" (job_of details))
    || lists_name name (array_at "ulogs" (job_of details))

pub record LogFile : Type 0 where
  pub name : String
  pub kind : String

abbrev log_file : String → Json → Option LogFile
log_file kind v = and_then (as_str v) (λ name. some (record { name = name; kind = kind }))

unfoldable pub details_logs : Json → List LogFile
details_logs value =
    filter_map (log_file "result") (unwrap_or (array_at "logs" (job_of value)) [])
    ++ filter_map (log_file "ulog") (unwrap_or (array_at "ulogs" (job_of value)) [])
