-- ===== src/Tests/Tools.antt =====
-- Requests of the mutating tools.
use ruoqa_mcp.Common.{
  ℕ, ◌≤◌, ◌≡◌, refl, ◌⊎◌, Bool, true, false, Option, none, some, List, [], ◌∷◌, ◌++◌, arith, length,
  any, all, ok, err, is_ok,
}
use ruoqa_mcp.Common.Text.{Text, codes}
use ruoqa_mcp.Common.Int.{pos}
use ruoqa_mcp.Common.Decimal.{show_i64, show_u64}
use ruoqa_mcp.Tools.{Request, no_filter, post, api, bounded}
use ruoqa_mcp.Tools.Write.{TriggerIsos, CancelJobs, RestartJobs, check_extra_keys, refused_name}
use ruoqa_mcp.Tools.Requests.{
  path_segment, resolve_server, trigger_isos, iso_form, cancel_jobs, restart_jobs, request_form,
}
use ruoqa_mcp.Tools.Requests.IsoNames.{keys, no_two, same_field}
use ruoqa_mcp.Tools.Requests.IsoKeys.{is_ok-trigger_isos}
use ruoqa_mcp.Tools.Requests.Segment.{
  Encodes, encoded, percent_decode, segment_char, path_segment_lem,
}
use ruoqa_mcp.Tools.Requests.Filters.{filters, is_set, wanted, cancel_jobs_lem}
use ruoqa_mcp.Tools.Requests.Restart.{sent_ids, restart_jobs_lem}

-- A registry of one server, whose client is a number.
abbrev one_server : Text → Option ℕ
one_server selector = some 7

-- `build` and `Build` are one field to openQA.
abbrev twice_build : TriggerIsos
twice_build = record {
  server = codes "osd";
  distri = codes "sle";
  version = codes "15";
  flavor = codes "Online";
  arch = codes "x86_64";
  extra = some ((codes "build", codes "1") ∷ (codes "Build", codes "2") ∷ []);
}

build_refused : is_ok (trigger_isos one_server twice_build) ≡ false
unfolding trigger_isos resolve_server bounded check_extra_keys
build_refused = refl

-- `async` and `ASYNC` are two fields to openQA, and refused all the same.
abbrev twice_async : TriggerIsos
twice_async = record twice_build {
  extra = some ((codes "async", codes "1") ∷ (codes "ASYNC", codes "2") ∷ []);
}

async_kept : no_two same_field (keys (iso_form twice_async)) ≡ true
unfolding iso_form
async_kept = refl

is_ok-trigger_isos_example : is_ok (trigger_isos one_server twice_async) ≡ false
unfolding iso_form
is_ok-trigger_isos_example = is_ok-trigger_isos one_server twice_async

-- An encoder as the library documents it.
abbrev encode : Text → (ℕ → Bool) → Text
encode [] set = []
encode (b ∷ s) set = encoded set b ++ encode s set

encode-Encodes : Encodes encode
unfolding Encodes
encode-Encodes = (λ set. refl, λ b s set. refl)

-- The name `a/..` is sent as `a%2F..`.
path_segment_lem_example :
    (percent_decode (codes "a%2F..") ≡ codes "a/..")
    × (all segment_char (codes "a%2F..") ≡ true)
    × (refused_name (percent_decode (codes "a%2F..")) ≡ false)
unfolding path_segment
path_segment_lem_example =
    path_segment_lem encode encode-Encodes (codes "a/..") {segment = codes "a%2F.."} (ground arith)
      refl

abbrev blank_filters : CancelJobs
blank_filters = record {
  server = codes "osd";
  state = some (codes " ");
  result = none;
  distri = none;
  version = none;
  build = none;
  test = none;
  arch = none;
  machine = none;
  groupid = none;
  group = some [];
}

abbrev joined : List (Text × Text) → Text
joined [] = []
joined ((k, v) ∷ ps) = k ++ 61 ∷ v ++ 38 ∷ joined ps

cancel_jobs_lem_example :
    ((any is_set (filters blank_filters) ≡ false)
      × (cancel_jobs one_server joined blank_filters ≡ err no_filter))
    ⊎ ((any is_set (filters blank_filters) ≡ true)
        × (cancel_jobs one_server joined blank_filters
            ≡ ok (
              7,
              record {
                method = post;
                path = codes "/api/v1/jobs/cancel?" ++ joined (wanted blank_filters);
                form = none;
              },
            )))
cancel_jobs_lem_example = cancel_jobs_lem one_server joined blank_filters {client = 7} refl

abbrev two_jobs : RestartJobs
two_jobs = record {
  server = codes "osd";
  job_ids = pos 12 ∷ pos 3 ∷ [];
  force = some (pos 1);
  prio = none;
}

abbrev restart_request : Request
restart_request =
    request_form post (codes "/api/v1/jobs/restart")
      ((codes "jobs", codes "12") ∷ (codes "jobs", codes "3") ∷ (codes "force", codes "1") ∷ [])

restart_jobs_lem_example :
    (one_server two_jobs.server ≡ some 7)
    × (1 ≤ length two_jobs.job_ids)
    × (length two_jobs.job_ids ≤ 500)
    × (restart_request.method ≡ post)
    × (sent_ids restart_request.form ≡ two_jobs.job_ids)
unfolding restart_jobs resolve_server bounded api show_i64 show_u64
restart_jobs_lem_example =
    restart_jobs_lem one_server two_jobs {client = 7} {request = restart_request}
      (ground arith, (ground arith, tt)) refl
