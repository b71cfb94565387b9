-- ===== src/Tools/Summary.antt =====
-- The summary of a list of jobs, src/summary.rs, and the reply of the two job lists of
-- src/tools/read.rs that may carry it. A map of the summary is a list of entries with different
-- keys, and the summary is the record of what its JSON object holds.
pub mod Buckets
use ruoqa_mcp.Common.{
  ℕ, zero, suc, ◌+◌, ◌-◌, ◌*◌, ◌/◌, ◌%◌, ◌^◌, ◌≤◌, ◌<◌, min, max, String, ◌≡◌, refl, sym, ap, ◌∙◌,
  subst, ◌≢◌, ◌↔◌, ◌⊎◌, inl, inr, Bool, true, false, ◌&&◌, ◌||◌, not, Option, none, some, List, [],
  ◌∷◌, ◌++◌, map, reverse, append-nil, append_assoc, arith, str_eq, eq_iff, ltb, leb, ◌==◌,
  if◌then◌else◌, ltb→lt, lt→ltb, leb→le, ==_iff, Bool-cases, Option-cases, is_some, is_none,
  unwrap_or, length, get_elem?, take, drop, replicate, any, all, length-append, all-append, All,
  All-append, take-append-drop, length-take, length-drop, take_append, drop_append, length-map,
  filter_map, filter, filter_kept, filter_left_out, Result, ok, err, ◌>>=◌, ◌>>◌, map_err, ok_or,
  is_ok, Result-cases, >>=-eq-ok, ok-injective, ok_or-eq-ok, >>-eq-ok, if_err_lem, if_none_lem,
}
use ruoqa_mcp.Common.Json.{Json, get, as_str, as_array, as_object, get_field, Fields}
use ruoqa_mcp.Otel.Metrics.{entry, add_one}

-- One job in a bucket.
pub record Brief : Type 0 where
  pub id : Json
  pub test : Json
  pub arch : Option String

pub record Summary : Type 0 where
  pub total : ℕ
  pub by_result : List (String × ℕ)
  pub by_state : List (String × ℕ)
  pub by_arch : List (String × ℕ)
  pub jobs : List (String × List Brief)

abbrev and_str : Option Json → Option String
and_str none = none
and_str (some v) = as_str v

abbrev not_empty : Option String → Option String
not_empty none = none
not_empty (some s) = if str_eq s "" then none else some s

abbrev pub text_at : String → Json → Option String
text_at key job = not_empty (and_str (get key job))

abbrev settings_arch : Option Json → Option String
settings_arch none = none
settings_arch (some settings) = elim (as_object settings) [
  | none ↦ none
  | some fields ↦ not_empty (and_str (get_field "ARCH" fields))
]

abbrev pub arch_of : Json → Option String
arch_of job = settings_arch (get "settings" job)

-- The bucket of a job: its result, unless it has none, else its state.
abbrev bucket_key : Option String → Option String → String
bucket_key none state = unwrap_or state "unknown"
bucket_key (some r) state = if str_eq r "none" then unwrap_or state "unknown" else r

abbrev pub bucket_of : Json → String
bucket_of job = bucket_key (text_at "result" job) (text_at "state" job)

abbrev pub brief : Json → Brief
brief job = record {
  id = unwrap_or (get "id" job) Json.null;
  test = unwrap_or (get "test" job) Json.null;
  arch = arch_of job;
}

abbrev counted : Option String → List (String × ℕ) → List (String × ℕ)
counted none counts = counts
counted (some key) counts = entry str_eq key 0 add_one counts

abbrev pub pushed : Brief → List Brief → List Brief
pushed b bs = bs ++ b ∷ []

abbrev pub add_job : Json → Summary → Summary
add_job job s = record {
  total = s.total;
  by_result = counted (text_at "result" job) s.by_result;
  by_state = counted (text_at "state" job) s.by_state;
  by_arch = counted (arch_of job) s.by_arch;
  jobs = entry str_eq (bucket_of job) [] (pushed (brief job)) s.jobs;
}

abbrev pub add_jobs : List Json → Summary → Summary
add_jobs [] s = s
add_jobs (job ∷ jobs) s = add_jobs jobs (add_job job s)

unfoldable pub summarize_jobs : List Json → Summary
summarize_jobs jobs =
    add_jobs jobs
      (record { total = length jobs; by_result = []; by_state = []; by_arch = []; jobs = [] })

-- `jobs_array`: the shape that openQA should have replied with, or nothing.
abbrev jobs_field : Json → Option (List Json)
jobs_field value = elim (get "jobs" value) [ none ↦ none | some v ↦ as_array v ]

abbrev bare_or_field : Option (List Json) → Json → Option (List Json)
bare_or_field (some jobs) value = some jobs
bare_or_field none value = jobs_field value

unfoldable pub jobs_array : Bool → Json → Option (List Json)
jobs_array allow_top_level_array value =
    if allow_top_level_array then bare_or_field (as_array value) value else jobs_field value

-- What a job list answers: the reply, its summary, or an internal error for another shape.
pub data JobsAnswer : Type 0 where
  whole : Json → JobsAnswer
  summarized : Summary → JobsAnswer
  wrong_shape : JobsAnswer

abbrev summary_of : Option (List Json) → JobsAnswer
summary_of none = wrong_shape
summary_of (some jobs) = summarized (summarize_jobs jobs)

unfoldable pub answer_jobs : Bool → Bool → Json → JobsAnswer
answer_jobs allow_top_level_array summary value =
    if summary then summary_of (jobs_array allow_top_level_array value) else whole value
