-- ===== src/Tests/Fetching.antt =====
-- A tail of a log that is written while it is read.
use ruoqa_mcp.Common.{
  ℕ, zero, suc, ◌≤◌, ◌≡◌, refl, ◌⊎◌, Bool, true, false, Option, none, some, List, [], ◌∷◌, Result,
  ok,
}
use ruoqa_mcp.Otel.Proto.{Bytes}
use ruoqa_mcp.Common.Text.{Text, codes}
use ruoqa_mcp.Common.Int.{pos}
use ruoqa_mcp.Common.Decimal.{show_i64, show_u64}
use ruoqa_mcp.Fetch.{
  Response, Probe, read_capped, check_not_bounced, probe, parse_content_range_total,
  validate_filename, requested, artifact_path, tail_range, fetch_tail,
}
use ruoqa_mcp.Artifact.{
  Sniff, tail_window, slice, lines, last_n_lines, drop_partial_first_line, sniff,
}
use ruoqa_mcp.Otel.Env.{parse_number}
use ruoqa_mcp.Fetch.Decode.{TarEntry}
use ruoqa_mcp.Fetch.JobLog.{GetJobLog, log_content, get_job_log, ceiling_of, max_artifact_bytes}
use ruoqa_mcp.Fetch.JobLog.Bound.{get_job_log_lem}
use ruoqa_mcp.Fetch.Tail.{Ends, fetch_tail_lem}

abbrev as_is : Text → (ℕ → Bool) → Text
as_is name keep = name

abbrev same_path : Text → Result Text Text
same_path path = ok path

abbrev grown : Response
grown = record {
  path = codes "/tests/12/file/autoinst-log.txt";
  status = 206;
  etag = some (codes "b");
  last_modified = none;
  content_range = none;
  chunks = some (codes "x") ∷ some (codes "yz") ∷ [];
}

abbrev serve : ℕ → Text → Option Text → Result Response Text
serve n url range = ok grown

abbrev seen : Probe
seen = record {
  size = some 9000;
  etag = some (codes "a");
  last_modified = none;
  body = codes "w";
  complete = false;
  url = codes "/tests/12/file/autoinst-log.txt";
}

abbrev log_txt : Text
log_txt = codes "autoinst-log.txt"

second_answer :
    fetch_tail as_is same_path serve 0 (pos 12) log_txt seen 8192 100
    ≡ some (ok (record { bytes = codes "xyz"; changed_during_read = true }), 2)
unfolding fetch_tail artifact_path requested check_not_bounced read_capped show_i64 show_u64
second_answer = refl

fetch_tail_lem_example :
    (k : ℕ) × ((k ≡ 0) ⊎ (k ≡ 1))
    × Ends as_is same_path serve seen 100
        (artifact_path as_is same_path serve (pos 12) log_txt)
        (tail_range as_is same_path serve seen 8192)
        0
        k
        (fetch_tail as_is same_path serve 0 (pos 12) log_txt seen 8192 100)
fetch_tail_lem_example = fetch_tail_lem as_is same_path serve 0 (pos 12) log_txt seen 8192 100

abbrev probed : Response
probed = record {
  path = codes "/tests/12/file/autoinst-log.txt";
  status = 206;
  etag = some (codes "a");
  last_modified = none;
  content_range = some (codes "bytes 0-511/9000");
  chunks = some (codes "w") ∷ [];
}

-- Two lines, the first of them cut.
abbrev last_lines : Response
last_lines = record grown { chunks = some (codes "x") ∷ some (10 ∷ codes "yz") ∷ [] }

abbrev serve_log : ℕ → Text → Option Text → Result Response Text
serve_log zero url range = ok probed
serve_log (suc n) url range = ok last_lines

abbrev no_decoder : Sniff → Bytes → List Bytes × Bool
no_decoder format bytes = ([], false)

abbrev no_archive : Bytes → Option (List (Option TarEntry))
no_archive bytes = none

abbrev ascii : Bytes → Option Text
ascii bytes = some bytes

abbrev no_pattern : Text → Option (Text → Bool)
no_pattern pattern = none

abbrev last_five : GetJobLog
last_five = record {
  job_id = pos 12;
  filename = log_txt;
  member = none;
  max_bytes = some 100000;
  tail_lines = some 5;
  grep = none;
  context_lines = none;
  max_matches = none;
}

last_five_read :
    get_job_log as_is same_path serve_log no_decoder no_archive ascii no_pattern last_five
    ≡ ok (log_content 4 9000 (codes "yz") true)
unfolding get_job_log validate_filename probe fetch_tail artifact_path requested check_not_bounced
    read_capped show_i64 show_u64 tail_window slice lines last_n_lines drop_partial_first_line sniff
    parse_content_range_total parse_number
last_five_read = refl

get_job_log_lem_example :
    (4 ≤ ceiling_of (some 100000))
    × (ceiling_of (some 100000) ≤ max_artifact_bytes)
    × ((true ≡ false) ⊎ ((n : ℕ) × (last_five.tail_lines ≡ some n)))
get_job_log_lem_example =
    get_job_log_lem as_is same_path serve_log no_decoder no_archive ascii no_pattern last_five
      last_five_read
