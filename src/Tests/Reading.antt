-- ===== src/Tests/Reading.antt =====
-- A reading tool, a digest and a summary.
use ruoqa_mcp.Common.{
  ℕ, String, ◌≡◌, refl, false, Option, none, some, List, [], ◌∷◌, Result, ok, ◌>>=◌,
}
use ruoqa_mcp.Common.Text.{Text, codes}
use ruoqa_mcp.Common.Int.{pos}
use ruoqa_mcp.Common.Decimal.{show_i64, show_u64}
use ruoqa_mcp.Common.Json.{Json, object, array, string, field, end, cons, nil, number, unsigned}
use ruoqa_mcp.Tools.{Request, get, api, finish}
use ruoqa_mcp.Tools.Requests.{request_json, resolve_server}
use ruoqa_mcp.Tools.Queries.{get_job}
use ruoqa_mcp.Tools.Queries.Reading.{ApiRead, get_job_call, IsRead, route-IsRead}
use ruoqa_mcp.Artifact.{lines}
use ruoqa_mcp.Digest.{failed_module, failed_modules}
use ruoqa_mcp.Digest.Log.{test_died, Patterns, default_file, contains, get_job_log_errors}
use ruoqa_mcp.Digest.Tiers.{tiered, get_job_log_errors_lem}
use ruoqa_mcp.Digest.Modules.{failed_modules_lem}
use ruoqa_mcp.Tools.Summary.{brief, summarize_jobs}
use ruoqa_mcp.Tools.Summary.Buckets.{bucket, bucket-summarize_jobs}

abbrev one_server : Text → Option ℕ
one_server selector = some 7

abbrev no_query : List (Text × Text) → Text
no_query pairs = codes "q"

abbrev no_double : ℕ → Text
no_double bits = []

abbrev job_call : ApiRead
job_call =
    get_job_call
      (record { server = codes "osd"; job_id = pos 12; ancestors = none; descendants = some false })

abbrev job_request : Request
job_request = request_json get (codes "/api/v1/jobs/12")

route-IsRead_example : (one_server (codes "osd") ≡ some 7) × IsRead job_request
unfolding get_job resolve_server api finish show_i64 show_u64
route-IsRead_example =
    route-IsRead one_server no_query no_double job_call {client = 7} {request = job_request} refl

-- A death, and something like an error before it.
abbrev fetch : String → Result Text ℕ
fetch name = ok (codes "error\nTest died\n")

abbrev patterns : Patterns
patterns = record {
  tap_markers = contains (codes "not ok");
  fatal_markers = contains (codes "died");
  noise_markers = contains (codes "error");
  timestamped = contains (codes "[");
}

get_job_log_errors_lem_example :
    (get_job_log_errors patterns fetch (pos 12) [] none none none >>= tiered patterns fetch)
    ≡ ok (test_died, default_file)
unfolding lines
get_job_log_errors_lem_example = get_job_log_errors_lem patterns fetch (pos 12) [] none none

abbrev module_of : String → String → Json
module_of name result = object (field "name" (string name) (field "result" (string result) end))

abbrev details : Json
details = object (
    field "testresults"
      (array (cons (module_of "boot" "passed") (cons (module_of "ssh" "failed") nil))) end)

failed_modules_lem_example :
    failed_modules details (pos 12) [] ≡ failed_module [] (pos 12) (module_of "ssh" "failed") ∷ []
failed_modules_lem_example = failed_modules_lem details (pos 12) []

abbrev job_in : ℕ → String → Json
job_in id result = object (field "id" (number (unsigned id)) (field "result" (string result) end))

abbrev three_jobs : List Json
three_jobs = job_in 1 "failed" ∷ job_in 2 "passed" ∷ job_in 3 "failed" ∷ []

bucket-summarize_jobs_example :
    (bucket "failed" (summarize_jobs three_jobs)
      ≡ brief (job_in 1 "failed") ∷ brief (job_in 3 "failed") ∷ [])
    × ((summarize_jobs three_jobs).total ≡ 3)
bucket-summarize_jobs_example = bucket-summarize_jobs three_jobs "failed"
