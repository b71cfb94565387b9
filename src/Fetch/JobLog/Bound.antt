-- ===== src/Fetch/JobLog/Bound.antt =====
-- How much of a log is returned at most.
use ruoqa_mcp.Common.{
  ℕ, ◌≤◌, ◌≡◌, refl, subst, ◌⊎◌, inl, inr, Bool, true, false, ◌||◌, not, Option, none, some, List,
  if◌then◌else◌, is_some, unwrap_or, length, Result, ok, ok_or, >>=-eq-ok, ok-injective, >>-eq-ok,
  if_err_lem,
}
use ruoqa_mcp.Common.Text.{Text}
use ruoqa_mcp.Common.Int.{ℤ}
use ruoqa_mcp.Otel.Proto.{Bytes}
use ruoqa_mcp.Artifact.{Sniff, sniff, tail_window, slice, Sliced, sliced_text, sliced_matches}
use ruoqa_mcp.Fetch.{
  Bail, validate_filename, is_archive, Response, Probe, changed, probe, fetch_decoded, fetch_bytes,
  fetch_tail, artifact_path,
}
use ruoqa_mcp.Fetch.Decode.{TarEntry, decompress}
use ruoqa_mcp.Fetch.JobLog.{
  is_tar, is_plain, at_least, answer_of, member_checked, probe_window, default_max_matches,
  GetJobLog, LogText, log_content, ceiling_of, max_artifact_bytes, tail_result, decoded,
  member_bytes, read_decoded, read_tail, raw_bytes, read_whole, read_plain, read_log, get_job_log,
}
use ruoqa_mcp.Fetch.JobLog.Reads.{
  decompress_bound, extract_bound, ceiling_of_lem, probe_bound, raw_bound, tail_bound, Fits,
}

module _ {E : Type 0} (utf8_percent_encode : Text → (ℕ → Bool) → Text)
    (prepare : Text → Result Text E) (execute : ℕ → Text → Option Text → Result Response E)
    (decode : Sniff → Bytes → List Bytes × Bool) (entries : Bytes → Option (List (Option TarEntry)))
    (from_utf8 : Bytes → Option Text) (compile : Text → Option (Text → Bool)) where
  decoded_bound :
      (job_id : ℤ) (filename : Text) (p : Probe) (ceiling : ℕ) {b : Bytes}
      → Fits ceiling p
      → decoded utf8_percent_encode prepare execute decode entries from_utf8 compile job_id filename
          p ceiling
        ≡ ok b
      → length b ≤ ceiling
  unfolding fetch_decoded
  decoded_bound job_id filename p ceiling fits e =
      let path = artifact_path utf8_percent_encode prepare execute job_id filename in
      let (raw, read, e) =
        >>=-eq-ok
          (if p.complete
            then ok p.body
            else fetch_bytes utf8_percent_encode prepare execute 1 path ceiling)
          (λ raw. decompress decode raw (sniff p.body) ceiling) e in
      decompress_bound decode raw (sniff p.body) ceiling
        (raw_bound utf8_percent_encode prepare execute p path ceiling p.complete refl fits read) e

  -- What is read is within the ceiling, and only a tail may have changed meanwhile.
  abbrev Bounded : GetJobLog → ℕ → LogText → Type 0
  Bounded args ceiling t =
      (t.transferred ≤ ceiling)
      × ((t.changed_during_read ≡ false) ⊎ ((n : ℕ) × (args.tail_lines ≡ some n)))

  still :
      (args : GetJobLog) (ceiling : ℕ) (text : Text) (transferred size : ℕ) {t : LogText}
      → transferred ≤ ceiling
      → ◌≡◌ {A = Result LogText (Bail E)}
          (ok (record {
            text = text;
            transferred = transferred;
            size = size;
            changed_during_read = false;
          }))
          (ok t)
      → Bounded args ceiling t
  still args ceiling text transferred size fits e =
      subst (Bounded args ceiling) (ok-injective e) (fits, inl refl)

  member_bound :
      (filename : Text) (member : Option Text) (content : Bytes) (ceiling : ℕ) {b : Bytes}
      → length content ≤ ceiling
      → member_bytes utf8_percent_encode prepare execute decode entries from_utf8 compile filename
          member content ceiling
        ≡ ok b
      → length b ≤ ceiling
  member_bound filename (some member) content ceiling fits e =
      extract_bound entries content member ceiling e
  member_bound filename none content ceiling fits e =
      let (_, same) = if_err_lem (is_tar (sniff content)) (is_archive filename) (ok content) e in
      subst (λ b. length b ≤ ceiling) (ok-injective same) fits

  read_whole_bound :
      (args : GetJobLog) (p : Probe) (ceiling : ℕ) {t : LogText}
      → Fits ceiling p
      → read_whole utf8_percent_encode prepare execute decode entries from_utf8 compile args p
          ceiling
        ≡ ok t
      → Bounded args ceiling t
  read_whole_bound args p ceiling fits e =
      let (raw, read, e) =
        >>=-eq-ok
          (raw_bytes utf8_percent_encode prepare execute decode entries from_utf8 compile args p
            ceiling)
          _ e in
      let (text, _, e) = >>=-eq-ok (ok_or (from_utf8 raw) _) _ e in
      still args ceiling text (length raw) (unwrap_or p.size (length raw))
        (raw_bound utf8_percent_encode prepare execute p _ ceiling p.complete refl fits read) e

  read_decoded_bound :
      (args : GetJobLog) (p : Probe) (ceiling : ℕ) {t : LogText}
      → Fits ceiling p
      → read_decoded utf8_percent_encode prepare execute decode entries from_utf8 compile args p
          ceiling
        ≡ ok t
      → Bounded args ceiling t
  read_decoded_bound args p ceiling fits e =
      let (content, read, e) =
        >>=-eq-ok
          (decoded utf8_percent_encode prepare execute decode entries from_utf8 compile args.job_id
            args.filename p ceiling)
          _ e in
      let (bytes, taken, e) =
        >>=-eq-ok
          (member_bytes utf8_percent_encode prepare execute decode entries from_utf8 compile
            args.filename args.member content ceiling)
          _ e in
      let (text, _, e) = >>=-eq-ok (ok_or (from_utf8 bytes) _) _ e in
      still args ceiling text (length bytes) (at_least (length bytes) p.size)
        (member_bound args.filename args.member content ceiling
          (decoded_bound args.job_id args.filename p ceiling fits read) taken)
        e

  read_tail_bound :
      (args : GetJobLog) (p : Probe) (ceiling n : ℕ) {t : LogText}
      → args.tail_lines ≡ some n
      → read_tail utf8_percent_encode prepare execute decode entries from_utf8 compile args p
          ceiling n
        ≡ ok t
      → Bounded args ceiling t
  read_tail_bound args p ceiling n asked e =
      let (tail, read, e) =
        >>=-eq-ok
          (tail_result (
            fetch_tail utf8_percent_encode prepare execute 1 args.job_id args.filename p
              (tail_window n p.size ceiling) ceiling))
          _ e in
      let (text, _, e) = >>=-eq-ok (ok_or (from_utf8 tail.bytes) _) _ e in
      subst (Bounded args ceiling) (ok-injective e) (
        tail_bound utf8_percent_encode prepare execute args.job_id args.filename p
            (tail_window n p.size ceiling) ceiling read,
        inr (n, asked),
      )

  read_plain_bound :
      (args : GetJobLog) (p : Probe) (ceiling : ℕ) (lines : Option ℕ) {t : LogText}
      → Fits ceiling p
      → args.tail_lines ≡ lines
      → read_plain utf8_percent_encode prepare execute decode entries from_utf8 compile args p
          ceiling lines
        ≡ ok t
      → Bounded args ceiling t
  read_plain_bound args p ceiling none fits asked e = read_whole_bound args p ceiling fits e
  read_plain_bound args p ceiling (some n) {t = t} fits asked e = by_completeness p.complete e
    where
      by_completeness :
          (complete : Bool)
          → (if complete
              then read_whole utf8_percent_encode prepare execute decode entries from_utf8 compile
                  args p ceiling
              else read_tail utf8_percent_encode prepare execute decode entries from_utf8 compile
                  args p ceiling n)
            ≡ ok t
          → Bounded args ceiling t
      by_completeness true e = read_whole_bound args p ceiling fits e
      by_completeness false e = read_tail_bound args p ceiling n asked e

  read_log_bound :
      (args : GetJobLog) (p : Probe) (ceiling : ℕ) {t : LogText}
      → Fits ceiling p
      → read_log utf8_percent_encode prepare execute decode entries from_utf8 compile args p ceiling
        ≡ ok t
      → Bounded args ceiling t
  read_log_bound args p ceiling {t = t} fits e =
      by_format (is_some args.member || not (is_plain (sniff p.body))) e
    where
      by_format :
          (packed : Bool)
          → (if packed
              then read_decoded utf8_percent_encode prepare execute decode entries from_utf8 compile
                  args p ceiling
              else read_plain utf8_percent_encode prepare execute decode entries from_utf8 compile
                  args p ceiling args.tail_lines)
            ≡ ok t
          → Bounded args ceiling t
      by_format true e = read_decoded_bound args p ceiling fits e
      by_format false e = read_plain_bound args p ceiling args.tail_lines fits refl e

  answer_bound :
      (args : GetJobLog) (ceiling : ℕ) (t : LogText) (s : Sliced) {bytes size : ℕ} {content : Text}
      {changed : Bool}
      → Bounded args ceiling t
      → answer_of t s ≡ log_content bytes size content changed
      → (bytes ≤ ceiling) × ((changed ≡ false) ⊎ ((n : ℕ) × (args.tail_lines ≡ some n)))
  answer_bound args ceiling t (sliced_text shown) {bytes = bytes} {changed = changed} (bound, still)
        e =
      let b : t.transferred ≡ bytes = cc in
      let c : t.changed_during_read ≡ changed = cc in
      (
        subst (λ n. n ≤ ceiling) b bound,
        subst (λ f. (f ≡ false) ⊎ ((n : ℕ) × (args.tail_lines ≡ some n))) c still,
      )
  answer_bound args ceiling t (sliced_matches m) bounded e = absurd (cc)

  -- A log that is returned stands for no more bytes than the caller's ceiling, and never for more than
  -- the server's own, whichever way it was fetched and decoded; it is reported to have changed
  -- meanwhile only where its last lines were asked for.
  pub get_job_log_lem :
      (args : GetJobLog) {bytes size : ℕ} {content : Text} {changed : Bool}
      → get_job_log utf8_percent_encode prepare execute decode entries from_utf8 compile args
        ≡ ok (log_content bytes size content changed)
      → (bytes ≤ ceiling_of args.max_bytes)
        × (ceiling_of args.max_bytes ≤ max_artifact_bytes)
        × ((changed ≡ false) ⊎ ((n : ℕ) × (args.tail_lines ≡ some n)))
  unfolding get_job_log
  get_job_log_lem args e =
      let ceiling = ceiling_of args.max_bytes in
      let (_, e) = >>-eq-ok (validate_filename args.filename) _ e in
      let (_, e) = >>-eq-ok (member_checked args.member) _ e in
      let (p, probed, e) =
        >>=-eq-ok
          (probe utf8_percent_encode prepare execute 0 args.job_id args.filename probe_window
            ceiling)
          _ e in
      let (t, read, e) =
        >>=-eq-ok
          (read_log utf8_percent_encode prepare execute decode entries from_utf8 compile args p
            ceiling)
          _ e in
      let (s, _, e) =
        >>=-eq-ok
          (ok_or
            (slice compile t.text args.tail_lines args.grep (unwrap_or args.context_lines 0)
              (unwrap_or args.max_matches default_max_matches))
            _)
          _ e in
      let bounded =
        read_log_bound args p ceiling
          (probe_bound utf8_percent_encode prepare execute 0 args.job_id args.filename probe_window
            ceiling probed)
          read in
      let (bound, still) = answer_bound args ceiling t s bounded (ok-injective e) in
      (bound, ceiling_of_lem args.max_bytes, still)
