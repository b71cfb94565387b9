-- ===== src/Fetch/JobLog.antt =====
-- `get_job_log` and `list_job_log_members` of src/tools/read.rs, at the server that was resolved, over
-- the requests, decoders and archives of Fetch. Decoding UTF-8 and compiling a pattern are parameters.
pub mod Reads
pub mod Bound
use ruoqa_mcp.Common.{
  ℕ, zero, suc, ◌+◌, ◌-◌, ◌*◌, ◌/◌, ◌%◌, ◌^◌, ◌≤◌, ◌<◌, min, max, String, ◌≡◌, refl, sym, ap, ◌∙◌,
  subst, ◌≢◌, ◌↔◌, ◌⊎◌, inl, inr, Bool, true, false, ◌&&◌, ◌||◌, not, Option, none, some, List, [],
  ◌∷◌, ◌++◌, map, reverse, append-nil, append_assoc, arith, str_eq, eq_iff, ltb, leb, ◌==◌,
  if◌then◌else◌, ltb→lt, lt→ltb, leb→le, ==_iff, Bool-cases, Option-cases, is_some, is_none,
  unwrap_or, length, get_elem?, take, drop, replicate, any, all, length-append, all-append, All,
  All-append, take-append-drop, length-take, length-drop, take_append, drop_append, length-map,
  filter_map, filter, filter_kept, filter_left_out, Result, ok, err, ◌>>=◌, ◌>>◌, map_err, ok_or,
  is_ok, Result-cases, >>=-eq-ok, ok-injective, ok_or-eq-ok, >>-eq-ok, if_err_lem, if_none_lem,
}
use ruoqa_mcp.Common.Text.{Text}
use ruoqa_mcp.Common.Int.{ℤ}
use ruoqa_mcp.Otel.Proto.{Bytes}
use ruoqa_mcp.Artifact.{
  Sniff, gzip, xz, tar, plain, sniff, tail_window, drop_partial_first_line, GrepMatches, Sliced,
  sliced_text, sliced_matches, slice,
}
use ruoqa_mcp.Fetch.{
  Bail, bad_pattern, panicked, is_archive, unsupported_media, validate_filename, validate_member,
  Response, Probe, TailFetch, probe, fetch_decoded, fetch_bytes, fetch_tail, artifact_path,
}
use ruoqa_mcp.Fetch.Decode.{TarMember, TarEntry, decompress, tar_members, extract_tar_member}

abbrev pub max_artifact_bytes : ℕ
max_artifact_bytes = 32 * 1024 * 1024

abbrev pub max_archive_members : ℕ
max_archive_members = 5000

abbrev pub probe_window : ℕ
probe_window = 512

abbrev pub default_max_matches : ℕ
default_max_matches = 100

pub record GetJobLog : Type 0 where
  pub job_id : ℤ
  pub filename : Text
  pub member : Option Text
  pub max_bytes : Option ℕ
  pub tail_lines : Option ℕ
  pub grep : Option Text
  pub context_lines : Option ℕ
  pub max_matches : Option ℕ

-- What was read: the text, the bytes behind it, and the size that is reported.
pub record LogText : Type 0 where
  pub text : Text
  pub transferred : ℕ
  pub size : ℕ
  pub changed_during_read : Bool

pub data LogAnswer : Type 0 where
  log_content : ℕ → ℕ → Text → Bool → LogAnswer
  log_matches : GrepMatches → LogAnswer

abbrev pub ceiling_of : Option ℕ → ℕ
ceiling_of none = max_artifact_bytes
ceiling_of (some m) = min m max_artifact_bytes

abbrev pub is_tar : Sniff → Bool
is_tar tar = true
is_tar _ = false

abbrev pub is_plain : Sniff → Bool
is_plain plain = true
is_plain _ = false

abbrev pub at_least : ℕ → Option ℕ → ℕ
at_least len none = len
at_least len (some s) = max s len

abbrev pub answer_of : LogText → Sliced → LogAnswer
answer_of t (sliced_text content) = log_content t.transferred t.size content t.changed_during_read
answer_of t (sliced_matches m) = log_matches m

abbrev pub member_checked : {E : Type 0} → Option Text → Result (Unit {0}) (Bail E)
member_checked none = ok tt
member_checked (some member) = validate_member member

-- The second attempt of `fetch_tail` always returns.
abbrev pub tail_result :
    {E : Type 0} → Option (Result TailFetch (Bail E) × ℕ) → Result TailFetch (Bail E)
tail_result none = err panicked
tail_result (some (result, n)) = result

module _ {E : Type 0} (utf8_percent_encode : Text → (ℕ → Bool) → Text)
    (prepare : Text → Result Text E) (execute : ℕ → Text → Option Text → Result Response E)
    (decode : Sniff → Bytes → List Bytes × Bool) (entries : Bytes → Option (List (Option TarEntry)))
    (from_utf8 : Bytes → Option Text) (compile : Text → Option (Text → Bool)) where
  abbrev pub decoded : ℤ → Text → Probe → ℕ → Result Bytes (Bail E)
  decoded job_id filename p ceiling =
      fetch_decoded utf8_percent_encode prepare execute (decompress decode) 1 job_id filename p
        ceiling

  unfoldable pub list_job_log_members : ℤ → Text → Result (List TarMember × Bool) (Bail E)
  list_job_log_members job_id filename =
      validate_filename filename
      >> (probe utf8_percent_encode prepare execute 0 job_id filename probe_window
            max_artifact_bytes
          >>= λ p. decoded job_id filename p max_artifact_bytes >>= λ content.
              tar_members entries content max_archive_members)

  abbrev pub member_bytes : Text → Option Text → Bytes → ℕ → Result Bytes (Bail E)
  member_bytes filename (some member) content ceiling =
      extract_tar_member entries content member ceiling
  member_bytes filename none content ceiling =
      if is_tar (sniff content) then err (is_archive filename) else ok content

  abbrev pub text_of : Text → ℕ → Bytes → Result Text (Bail E)
  text_of url size bytes = ok_or (from_utf8 bytes) (unsupported_media url size)

  -- An archive or a compressed file.
  abbrev pub read_decoded : GetJobLog → Probe → ℕ → Result LogText (Bail E)
  read_decoded args p ceiling = decoded args.job_id args.filename p ceiling >>= λ content.
      member_bytes args.filename args.member content ceiling >>= λ bytes.
      text_of p.url (length bytes) bytes >>= λ text. ok (record {
        text = text;
        transferred = length bytes;
        size = at_least (length bytes) p.size;
        changed_during_read = false;
      })

  abbrev pub read_tail : GetJobLog → Probe → ℕ → ℕ → Result LogText (Bail E)
  read_tail args p ceiling n =
      tail_result (
        fetch_tail utf8_percent_encode prepare execute 1 args.job_id args.filename p
          (tail_window n p.size ceiling) ceiling)
      >>= λ tail. text_of p.url (unwrap_or p.size (length tail.bytes)) tail.bytes >>= λ text.
          ok (record {
            text = drop_partial_first_line text;
            transferred = length tail.bytes;
            size = unwrap_or p.size (length tail.bytes);
            changed_during_read = tail.changed_during_read;
          })

  abbrev pub raw_bytes : GetJobLog → Probe → ℕ → Result Bytes (Bail E)
  raw_bytes args p ceiling =
      if p.complete
      then ok p.body
      else fetch_bytes utf8_percent_encode prepare execute 1
          (artifact_path utf8_percent_encode prepare execute args.job_id args.filename) ceiling

  abbrev pub read_whole : GetJobLog → Probe → ℕ → Result LogText (Bail E)
  read_whole args p ceiling = raw_bytes args p ceiling >>= λ raw.
      text_of p.url (length raw) raw >>= λ text. ok (record {
        text = text;
        transferred = length raw;
        size = unwrap_or p.size (length raw);
        changed_during_read = false;
      })

  abbrev pub read_plain : GetJobLog → Probe → ℕ → Option ℕ → Result LogText (Bail E)
  read_plain args p ceiling none = read_whole args p ceiling
  read_plain args p ceiling (some n) =
      if p.complete then read_whole args p ceiling else read_tail args p ceiling n

  abbrev pub read_log : GetJobLog → Probe → ℕ → Result LogText (Bail E)
  read_log args p ceiling =
      if is_some args.member || not (is_plain (sniff p.body))
      then read_decoded args p ceiling
      else read_plain args p ceiling args.tail_lines

  abbrev pub sliced : GetJobLog → LogText → Result LogAnswer (Bail E)
  sliced args t =
      ok_or
        (slice compile t.text args.tail_lines args.grep (unwrap_or args.context_lines 0)
          (unwrap_or args.max_matches default_max_matches))
        bad_pattern
      >>= λ s. ok (answer_of t s)

  unfoldable pub get_job_log : GetJobLog → Result LogAnswer (Bail E)
  get_job_log args =
      let ceiling = ceiling_of args.max_bytes in
      validate_filename args.filename
      >> (member_checked args.member
          >> (probe utf8_percent_encode prepare execute 0 args.job_id args.filename probe_window
                ceiling
              >>= λ p. read_log args p ceiling >>= λ t. sliced args t))
