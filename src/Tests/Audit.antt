-- ===== src/Tests/Audit.antt =====
-- The audit stream: a small directory, two records, and a call's arguments.
use ruoqa_mcp.Common.{
  ℕ, suc, ◌<◌, ◌≡◌, refl, ◌≢◌, true, false, Option, none, some, List, [], ◌∷◌, arith, length, All,
  ok,
}
use ruoqa_mcp.Common.Json.{Json, Fields, end, field, number, unsigned, string, get}
use ruoqa_mcp.Otel.Proto.{Bytes}
use ruoqa_mcp.Audit.Disk.{update}
use ruoqa_mcp.Audit.Sink.{Sink, World, line_bytes, append}
use ruoqa_mcp.Audit.Sink.Append.{Appended, append_lem}
use ruoqa_mcp.Audit.Sink.Lost.{append_all, Refused, append_all_lost}
use ruoqa_mcp.Audit.Record.{
  Record, new_record, stdio, no_scope, write_scope, session_open, closed_writes, capture_args,
}
use ruoqa_mcp.Audit.Record.Capture.{IsCaptured, get-capture_args}
use ruoqa_mcp.Audit.Auditor.{Auditor, refuses, is_disabled, write}
use ruoqa_mcp.Audit.Auditor.Sequence.{write_op, refused_op, run, IsSequenced, run-IsSequenced}
use ruoqa_mcp.Audit.Auditor.Gate.{persists, outage, write_refuses}

abbrev small_sink : Sink
small_sink = record { file = 0; len = 3; fsync = true; rotate_max_bytes = 4; rotate_keep = 2 }

abbrev one_file : ℕ → Option ℕ
one_file = update (λ _. none) 0 (some 0)

abbrev one_file_world : World
one_file_world = record {
  sink = small_sink;
  disk = record {
    names = one_file;
    contents = update (λ _. []) 0 (120 ∷ 121 ∷ 10 ∷ []);
    fresh = 1;
    faults = [];
  };
}

one_file-apart : (k : ℕ) → one_file (suc k) ≢ some 0
one_file-apart k h = ground arith

one_file-bounded : (k f : ℕ) → one_file k ≡ some f → f < 1
one_file-bounded k f h = ground arith

append_lem_example :
    (w : World) × (append (122 ∷ []) one_file_world ≡ (ok tt, w))
    × Appended one_file_world (line_bytes (122 ∷ [])) w
append_lem_example = append_lem (122 ∷ []) one_file_world (record {
  live = refl;
  len = refl;
  apart = one_file-apart;
  bounded = one_file-bounded;
  faults = refl;
  keep = omega arith;
})

abbrev lost_world : World
lost_world = record {
  sink = small_sink;
  disk = record {
    names = update (λ _. none) 1 (some 0);
    contents = λ _. [];
    fresh = 1;
    faults = [];
  };
}

abbrev two_lines : List Bytes
two_lines = (97 ∷ []) ∷ (98 ∷ []) ∷ []

append_all_lost_example :
    All Refused (append_all two_lines lost_world).0
    × (length (append_all two_lines lost_world).0 ≡ 2)
    × ((append_all two_lines lost_world).1.disk.names 1 ≡ none)
append_all_lost_example =
    append_all_lost two_lines lost_world 0
      (record { live = refl; faults = refl; keep = omega arith }) (refl, (refl, tt)) (omega arith)
      (omega arith)

-- A serialiser that writes the number of a record.
abbrev number_only : Record → Bytes
number_only r = r.seq ∷ []

abbrev bridged : Auditor
bridged = record {
  sink = none;
  disk = lost_world.disk;
  gap = none;
  has_otlp = true;
  failing = false;
  fail_mode = closed_writes;
  seq = 1;
  process_session = "p1-0";
  exported = [];
}

abbrev opened : Record
opened = new_record "s" stdio no_scope session_open

run-IsSequenced_example : IsSequenced number_only (
    run number_only
      (write_op "t1" "t1" false opened ∷ refused_op "t2" ∷ write_op "t3" "t3" true opened ∷ [])
      bridged)
run-IsSequenced_example =
    run-IsSequenced number_only
      (write_op "t1" "t1" false opened ∷ refused_op "t2" ∷ write_op "t3" "t3" true opened ∷ [])
      bridged (record { otlp = refl; chain = refl; bodies = tt })

write_refuses_example :
    (refuses (write number_only "t1" "t1" false opened bridged) write_scope ≡ true)
    × ((write number_only "t1" "t1" false opened bridged).gap
        ≡ some (record { count = 1; since = "t1"; refused = 0 }))
unfolding is_disabled persists outage
write_refuses_example = write_refuses number_only "t1" "t1" false opened bridged write_scope refl

abbrev two_arguments : Fields
two_arguments = field "job_id" (number (unsigned 7)) (field "settings" (string "secret") end)

get-capture_args_example :
    (o : Json) × (c : Json) × (capture_args (some two_arguments) ≡ some o)
    × (get "settings" o ≡ some c)
    × IsCaptured "settings" (string "secret") c
get-capture_args_example = get-capture_args "settings" two_arguments refl
