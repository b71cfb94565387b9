-- ===== src/Fetch.antt =====
-- Reading artifacts over HTTP, src/tools/artifact.rs: the paths, the probe, the tail with its second
-- attempt, and the capped reading of a body. A text is its bytes. Parameters are
-- the path of the URL that the client prepares for a path, its reply to the n-th request, with its
-- range, the percent encoder and the decompressor.
pub mod Tail
pub mod Decode
pub mod JobLog
use ruoqa_mcp.Common.{
  ℕ, zero, suc, ◌+◌, ◌-◌, ◌*◌, ◌/◌, ◌%◌, ◌^◌, ◌≤◌, ◌<◌, min, max, String, ◌≡◌, refl, sym, ap, ◌∙◌,
  subst, ◌≢◌, ◌↔◌, ◌⊎◌, inl, inr, Bool, true, false, ◌&&◌, ◌||◌, not, Option, none, some, List, [],
  ◌∷◌, ◌++◌, map, reverse, append-nil, append_assoc, arith, str_eq, eq_iff, ltb, leb, ◌==◌,
  if◌then◌else◌, ltb→lt, lt→ltb, leb→le, ==_iff, Bool-cases, Option-cases, is_some, is_none,
  unwrap_or, length, get_elem?, take, drop, replicate, any, all, length-append, all-append, All,
  All-append, take-append-drop, length-take, length-drop, take_append, drop_append, length-map,
  filter_map, filter, filter_kept, filter_left_out, Result, ok, err, ◌>>=◌, ◌>>◌, map_err, ok_or,
  is_ok, Result-cases, >>=-eq-ok, ok-injective, ok_or-eq-ok, >>-eq-ok, if_err_lem, if_none_lem,
}
use ruoqa_mcp.Common.Text.{Text, codes, text_eq, starts_with, split, trim}
use ruoqa_mcp.Common.Int.{ℤ}
use ruoqa_mcp.Common.Decimal.{show_i64, show_u64}
use ruoqa_mcp.Otel.Proto.{Bytes}
use ruoqa_mcp.Otel.Env.{parse_number}
use ruoqa_mcp.Tools.Write.{segment_set}
use ruoqa_mcp.Artifact.{Sniff, sniff}
use ruoqa_mcp.Digest.Log.{contains}

abbrev pub error_body_preview_bytes : ℕ
error_body_preview_bytes = 8 * 1024

-- Why a tool stops: the errors that this code makes, or one of the client's.
pub data Bail (E : Type 0) : Type 0 where
  bounced : Text → Text → Bail E
  refused_status : ℕ → Bytes → Bail E
  too_large : ℕ → Bail E
  broken : Bail E
  from_client : E → Bail E
  bad_filename bad_member : Text → Bail E
  decoded_too_large : ℕ → Bail E
  undecodable bad_pattern panicked : Bail E
  is_archive no_member : Text → Bail E
  unsupported_media : Text → ℕ → Bail E

-- 92 is a backslash, 47 a slash.
unfoldable pub validate_filename : {E : Type 0} → Text → Result (Unit {0}) (Bail E)
validate_filename name =
    if text_eq name []
      || (any (λ c. c == 47) name || (any (λ c. c == 92) name || contains (codes "..") name))
    then err (bad_filename name)
    else ok tt

unfoldable pub validate_member : {E : Type 0} → Text → Result (Unit {0}) (Bail E)
validate_member name =
    if text_eq name [] || any (λ part. text_eq part (codes "..")) (split (λ c. c == 47) name)
    then err (bad_member name)
    else ok tt

unfoldable pub is_png : Bytes → Bool
is_png bytes = starts_with (0x89 ∷ 80 ∷ 78 ∷ 71 ∷ 13 ∷ 10 ∷ 26 ∷ 10 ∷ []) bytes

-- A response: where it ended up, and its body in chunks, `none` for a broken connection.
pub record Response : Type 0 where
  pub path : Text
  pub status : ℕ
  pub etag : Option Text
  pub last_modified : Option Text
  pub content_range : Option Text
  pub chunks : List (Option Bytes)

pub record Probe : Type 0 where
  pub size : Option ℕ
  pub etag : Option Text
  pub last_modified : Option Text
  pub body : Bytes
  pub complete : Bool
  pub url : Text

pub record TailFetch : Type 0 where
  pub bytes : Bytes
  pub changed_during_read : Bool

-- The part behind the last slash, as a number.
abbrev last_of {ℓ} : {A : Type ℓ} → List A → Option A
last_of [] = none
last_of (x ∷ xs) = elim (last_of xs) [ none ↦ some x | some y ↦ some y ]

abbrev number_in : Option Text → Option ℕ
number_in none = none
number_in (some part) = parse_number (trim part)

unfoldable pub parse_content_range_total : Text → Option ℕ
parse_content_range_total value = number_in (last_of (split (λ c. c == 47) value))

abbrev total_of : Option Text → Option ℕ
total_of none = none
total_of (some range) = parse_content_range_total range

-- The loop of `read_truncated`.
abbrev read_truncated_from : ℕ → Bytes → List (Option Bytes) → Bytes
read_truncated_from limit buf [] = take limit buf
read_truncated_from limit buf (none ∷ chunks) = take limit buf
read_truncated_from limit buf (some chunk ∷ chunks) =
    let rest = read_truncated_from limit (buf ++ chunk) chunks in
    if ltb (length buf) limit then rest else take limit buf

abbrev pub is_success : ℕ → Bool
is_success status = leb 200 status && ltb status 300

abbrev pub opt_text_eq : Option Text → Option Text → Bool
opt_text_eq none none = true
opt_text_eq (some s) (some t) = text_eq s t
opt_text_eq _ _ = false

-- The file is another one than what the probe saw.
abbrev pub changed : Probe → Response → Bool
changed probe resp =
    is_some probe.etag && not (opt_text_eq probe.etag resp.etag)
    || is_some probe.last_modified && not (opt_text_eq probe.last_modified resp.last_modified)

module _ {E : Type 0} where
  -- The loop of `read_capped`, with what has been read.
  abbrev pub read_capped_from : ℕ → Bytes → List (Option Bytes) → Result Bytes (Bail E)
  read_capped_from limit buf [] = ok buf
  read_capped_from limit buf (none ∷ chunks) = err broken
  read_capped_from limit buf (some chunk ∷ chunks) =
      let rest = read_capped_from limit (buf ++ chunk) chunks in
      if ltb (limit - length buf) (length chunk) then err (too_large limit) else rest

  unfoldable pub read_capped : ℕ → List (Option Bytes) → Result Bytes (Bail E)
  read_capped limit chunks = read_capped_from limit [] chunks

  unfoldable pub check_not_bounced : Text → Response → Result (Unit {0}) (Bail E)
  check_not_bounced path resp =
      if text_eq resp.path path then ok tt else err (bounced path resp.path)

  -- A response that may be read: from where it was asked for, and a success.
  abbrev pub accepted : Text → Response → Result (Unit {0}) (Bail E)
  accepted path resp =
      check_not_bounced path resp
      >> (if is_success resp.status
          then ok tt
          else err (
              refused_status resp.status
                (read_truncated_from error_body_preview_bytes [] resp.chunks)))

module _ {E : Type 0} (utf8_percent_encode : Text → (ℕ → Bool) → Text)
    (prepare : Text → Result Text E) (execute : ℕ → Text → Option Text → Result Response E) where
  unfoldable pub artifact_path : ℤ → Text → Text
  artifact_path job_id filename =
      codes "/tests/"
      ++ (show_i64 job_id ++ (codes "/file/" ++ utf8_percent_encode filename segment_set))

  unfoldable pub test_image_path : ℤ → Text → Text
  test_image_path job_id filename =
      codes "/tests/"
      ++ (show_i64 job_id ++ (codes "/images/" ++ utf8_percent_encode filename segment_set))

  abbrev pub answered : ℕ → Text → Option Text → Result Response (Bail E)
  answered n url range =
      map_err from_client (execute n url range) >>= λ resp. accepted url resp >> ok resp

  -- The n-th request, up to a response whose body may be read.
  unfoldable pub requested : ℕ → Text → Option Text → Result Response (Bail E)
  requested n path range = map_err from_client (prepare path) >>= λ url. answered n url range

  -- The two kinds of reply to a probe.
  abbrev pub part_of : ℕ → Text → Response → Result Probe (Bail E)
  part_of probe_bytes url resp = read_capped (probe_bytes + 1024) resp.chunks >>= λ body.
      ok (record {
        size = total_of resp.content_range;
        etag = resp.etag;
        last_modified = resp.last_modified;
        body = body;
        complete = false;
        url = url;
      })

  abbrev pub whole_of : ℕ → Text → Response → Result Probe (Bail E)
  whole_of ceiling url resp = read_capped ceiling resp.chunks >>= λ body. ok (record {
    size = some (length body);
    etag = resp.etag;
    last_modified = resp.last_modified;
    body = body;
    complete = true;
    url = url;
  })

  abbrev pub probe_of : ℕ → ℕ → Text → Response → Result Probe (Bail E)
  probe_of probe_bytes ceiling url resp =
      if resp.status == 206 then part_of probe_bytes url resp else whole_of ceiling url resp

  unfoldable pub probe : ℕ → ℤ → Text → ℕ → ℕ → Result Probe (Bail E)
  probe n job_id filename probe_bytes ceiling =
      map_err from_client (prepare (artifact_path job_id filename)) >>= λ url.
      answered n url (some (codes "bytes=0-" ++ show_u64 (probe_bytes - 1))) >>= λ resp.
      probe_of probe_bytes ceiling url resp

  unfoldable pub fetch_bytes : ℕ → Text → ℕ → Result Bytes (Bail E)
  fetch_bytes n path ceiling = requested n path none >>= λ resp. read_capped ceiling resp.chunks

  -- `fetch_all`, and the decompression of what was probed or is fetched as a whole.
  unfoldable pub fetch_decoded :
      (Bytes → Sniff → ℕ → Result Bytes (Bail E)) → ℕ → ℤ → Text → Probe → ℕ → Result Bytes (Bail E)
  fetch_decoded decompress n job_id filename p ceiling =
      (if p.complete then ok p.body else fetch_bytes n (artifact_path job_id filename) ceiling)
      >>= λ raw. decompress raw (sniff p.body) ceiling

  -- One attempt that is not retried.
  abbrev pub take_tail : Probe → ℕ → Response → Result TailFetch (Bail E)
  take_tail p ceiling resp = read_capped ceiling resp.chunks >>= λ bytes.
      ok (record { bytes = bytes; changed_during_read = changed p resp })

  abbrev pub after_get :
      Probe
      → ℕ
      → Bool
      → ℕ
      → Option (Result TailFetch (Bail E) × ℕ)
      → Result Response (Bail E)
      → Option (Result TailFetch (Bail E) × ℕ)
  after_get p ceiling first n retry (err why) = some (err why, n + 1)
  after_get p ceiling first n retry (ok resp) =
      if changed p resp && first then retry else some (take_tail p ceiling resp, n + 1)

  -- The loop over the attempts left, `none` where it runs out of them.
  abbrev pub tail_loop :
      Text → Text → Probe → ℕ → ℕ → Bool → ℕ → Option (Result TailFetch (Bail E) × ℕ)
  tail_loop path range p ceiling zero first n = none
  tail_loop path range p ceiling (suc rounds) first n =
      after_get p ceiling first n (tail_loop path range p ceiling rounds false (n + 1))
        (requested n path (some range))

  abbrev pub tail_range : Probe → ℕ → Text
  tail_range p window = codes "bytes=" ++ (show_u64 (unwrap_or p.size window - window) ++ codes "-")

  -- The result, and the number of the next attempt.
  unfoldable pub fetch_tail : ℕ → ℤ → Text → Probe → ℕ → ℕ → Option (Result TailFetch (Bail E) × ℕ)
  fetch_tail n job_id filename p window ceiling =
      tail_loop (artifact_path job_id filename) (tail_range p window) p ceiling 2 true n
