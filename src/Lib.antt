-- ===== src/Lib.antt =====
-- ruoqa-mcp: an MCP server for openQA. A client lists and calls tools; each call goes through the
-- HTTP authentication, the authorization by scope and the audit gate to openQA, and leaves an audit
-- record and telemetry behind. The parts that are modelled, and the files that model them:
--
-- * src/http.rs, in Http: the two bearer tokens and their checks at start-up (`resolve`, `validate`),
--   the scope of a request (`scope_for`), the middleware (`authenticate`) and the host allowlist.
-- * src/server.rs, in Server: which tools a scope lists and calls (`list_tools`, `authorize`), the
--   scope that is recorded (`record_scope`), the gate (`gate`) and the outcome of a call.
-- * src/audit.rs, in Audit: Audit/Disk is the part of the file system that the sink uses, with a
--   fault for each call to come; Audit/Sink is the rotating file (`append`, `rotate`); Audit/Record
--   the records, the capture of arguments and the configuration; Audit/Auditor the numbering, the
--   outages and the gate, one step for each section under the lock. The serialiser is a parameter.
-- * src/otel/proto.rs, in Otel/Proto: the wire format, against a reader that knows nothing of it
--   (Otel/Proto/Reader).
-- * src/otel/pipeline.rs, in Otel/Pipeline: the bounded queue, the export task as steps on events,
--   the retries and the drop counters. The collector is a parameter, a function from the number of
--   a POST and its body to a reply. An export is one step.
-- * src/otel/traces.rs, in Otel/Traces: hexadecimal ids, `traceparent` and sampling. A `&str` is its
--   UTF-8 bytes, and a slice that cuts a character is the outcome `panicked`.
-- * src/tools/artifact.rs, in Artifact: the handling of log text (`slice`, `grep_lines`,
--   `scan_markers`, `tail_hits`). A compiled pattern is the Boolean function of a line.
-- * src/error.rs, in Error: the kinds of failures and the cut of a body. src/servers.rs, in Servers:
--   the entries of `OPENQA_SERVER`, their selectors and the registry; a client is a parameter.
--
-- * src/server.rs, `call_tool`, in Calls: one call through the gate, the dispatch and the streams that
--   are told of it; the tools and what they change are a parameter, a function on a world.
-- * src/tools/write.rs, in Tools: Tools has the builders of queries and forms (src/query.rs,
--   src/form.rs), Tools/Write the arguments and their checks, Tools/Requests each tool up to the
--   request that it sends. The percent encoder and the serializer are parameters.
-- * src/otel/metrics.rs, in Otel/Metrics: the registry, its histograms (Otel/Metrics/Recording) and
--   the encoders; src/otel/logs.rs and the encoders of src/otel/traces.rs, in Otel/Records.
-- * src/otel/env.rs, in Otel/Env: the variables, read through a lookup function, and in
--   Otel/Env/Resolve the configuration that they make. The parsers of libraries are parameters.
-- * src/tools/read.rs, in Tools/Read (the arguments) and Tools/Queries (each tool of one request, up
--   to the request); its `get_job_log_errors`, with the readers of job details of
--   src/tools/artifact.rs, in Digest: the tiers, over a parameter that fetches a file.
-- * src/summary.rs, with the two job lists that reply with it, in Tools/Summary.
-- * src/tools/artifact.rs, its requests, in Fetch: `probe`, `fetch_tail`, `fetch_bytes` and the capped
--   reading of a body. A body is the list of its chunks, and the client is a parameter. Fetch/Decode
--   has the capped decompression and the archives, over the decoders and the tar parser, and
--   Fetch/JobLog `get_job_log` and `list_job_log_members` of src/tools/read.rs over all of these.
--
-- Numbers are natural numbers, and a counter of 64 bits wraps where it is increased. Text is a list
-- of code points or of bytes. The retry loop runs on three rounds of fuel, which are enough since
-- the third attempt returns, and the digits of a number on 20, which are enough for 64 bits. `fetch_tail`
-- has the two attempts of its source, and the second one returns. All other loops are structural or
-- on an accessible argument.
--
-- Not modelled: `list_job_logs`, `get_step_needles` and `list_servers`, the sending of a request
-- and the heartbeat, the rmcp service and its router, TLS and clients, the decoders of compressed
-- files and the tar parser, the command line.
pub mod Common
pub mod Otel
pub mod Http
pub mod Audit
pub mod Server
pub mod Calls
pub mod Artifact
pub mod Digest
pub mod Fetch
pub mod Tests
pub mod Tools
pub mod Error
pub mod Servers
