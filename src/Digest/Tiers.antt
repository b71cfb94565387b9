-- ===== src/Digest/Tiers.antt =====
-- Which tier a digest comes from.
use ruoqa_mcp.Common.{
  String, ◌≡◌, refl, sym, ap, ◌∙◌, Bool, true, false, Option, none, some, List, [], ◌∷◌, arith, ltb,
  if◌then◌else◌, any, Result, ok, err, ◌>>=◌,
}
use mathlib.Core.Path.{ap₂}
use ruoqa_mcp.Common.Text.{Text}
use ruoqa_mcp.Common.Int.{ℤ}
use ruoqa_mcp.Common.Json.{Json}
use ruoqa_mcp.Artifact.{lines}
use ruoqa_mcp.Artifact.Scan.{count, scan_markers_lem}
use ruoqa_mcp.Digest.{digest_max_hits, digest_context_lines, FailedModule}
use ruoqa_mcp.Digest.Log.{
  Tier, tap, test_died, generic, tail, Digest, Patterns, serial_file, default_file, scanned, reply,
  from_tail, log_tiers, scan_log, serial_first, without_markers, has_serial, modules_of,
  location_at, position_of, get_job_log_errors,
}

abbrev pub matches_any : (Text → Bool) → Text → Bool
matches_any set text = any set (lines text)

-- A stage: a tier, the file that it reads and the pattern that it looks for.
abbrev pub Stage : Type 0
Stage = Tier × String × (Text → Bool)

-- The stages of a log, and of a call without markers of its own.
abbrev pub log_stages : Patterns → String → List Stage
log_stages patterns source =
    (test_died, source, patterns.fatal_markers) ∷ (generic, source, patterns.noise_markers) ∷ []

abbrev pub stages : Patterns → Option String → Bool → List Stage
stages patterns (some filename) serial = log_stages patterns filename
stages patterns none false = log_stages patterns default_file
stages patterns none true =
    (tap, serial_file, patterns.tap_markers) ∷ log_stages patterns default_file

module _ {Bail : Type 0} (patterns : Patterns) (fetch : String → Result Text Bail) where
  -- The first stage whose file has a matching line, or the tail of the last one's file; a file that
  -- cannot be read on the way ends the search.
  abbrev pub first_stage : String → List Stage → Result (Tier × String) Bail
  first_stage last [] = ok (tail, last)
  first_stage last ((tier, source, set) ∷ rest) =
      let later = first_stage source rest in
      fetch source >>= λ text. if matches_any set text then ok (tier, source) else later

  abbrev pub tier_of : Digest → Tier × String
  tier_of d = (d.tier, d.source)

  any-count : (set : Text → Bool) (ls : List Text) → ltb 0 (count set ls) ≡ any set ls
  any-count set [] = refl
  any-count set (l ∷ ls) = ground (arith, any-count set ls)

  scanned_hits :
      (set : Text → Bool) (text : Text)
      → ltb 0 ((scanned set text).hit_count) ≡ matches_any set text
  scanned_hits set text =
      let (_, _, _, h) = scan_markers_lem text set digest_context_lines digest_max_hits in
      ap (λ n. ltb 0 n) h ∙ any-count set (lines text)

  log_tiers_lem :
      (source : String) (text : Text) (failed : Option (List FailedModule))
      → tier_of (log_tiers patterns fetch source text failed) ≡ (
          if matches_any patterns.fatal_markers text
          then (test_died, source)
          else (if matches_any patterns.noise_markers text
              then (generic, source)
              else (tail, source)))
  log_tiers_lem source text failed =
      by_hits _ _ (scanned_hits patterns.fatal_markers text)
        (scanned_hits patterns.noise_markers text)
    where
      chosen : Bool → Bool → Digest
      chosen fatal noise =
          if fatal
          then record (reply patterns fetch test_died source patterns.fatal_markers text failed) {
            location =
                location_at patterns.timestamped text
                  (position_of 0 patterns.fatal_markers (lines text));
          }
          else (if noise
              then reply patterns fetch generic source patterns.noise_markers text failed
              else from_tail patterns fetch source text failed)

      by_hits :
          (fatal noise : Bool) {f n : Bool}
          → fatal ≡ f
          → noise ≡ n
          → tier_of (chosen fatal noise)
            ≡ (if f then (test_died, source) else (if n then (generic, source) else (tail, source)))
      by_hits fatal noise {f = f} {n = n} p q = ap₂ (λ a b. tier_of (chosen a b)) p q ∙ by_flags f n
        where
          by_flags :
              (f n : Bool)
              → tier_of (chosen f n) ≡ (
                  if f
                  then (test_died, source)
                  else (if n then (generic, source) else (tail, source)))
          by_flags true n = refl
          by_flags false true = refl
          by_flags false false = refl

  -- The second stage of a log, over the text that the first one has read.
  abbrev second : String → Result Text Bail → Result (Tier × String) Bail
  second source r = r >>= λ text.
      if matches_any patterns.noise_markers text then ok (generic, source) else ok (tail, source)

  abbrev pub tiered : Digest → Result (Tier × String) Bail
  tiered d = ok (tier_of d)

  abbrev answered : Tier × String → Result (Tier × String) Bail
  answered t = ok t

  pushed :
      (source : String) (f n : Bool)
      → answered
          (if f then (test_died, source) else (if n then (generic, source) else (tail, source)))
        ≡ (if f
            then answered (test_died, source)
            else (if n then answered (generic, source) else answered (tail, source)))
  pushed source true n = refl
  pushed source false true = refl
  pushed source false false = refl

  abbrev wrapped : Digest → Result Digest Bail
  wrapped d = ok d

  scan_log_lem :
      (source last : String) (failed : Option (List FailedModule))
      → (scan_log patterns fetch source failed >>= tiered)
        ≡ first_stage last (log_stages patterns source)
  scan_log_lem source last failed = by_text (fetch source) (fetch source) refl
    where
      by_text :
          (r again : Result Text Bail)
          → again ≡ r
          → ((r >>= λ text. wrapped (log_tiers patterns fetch source text failed)) >>= tiered) ≡ (
              r >>= λ text.
              if matches_any patterns.fatal_markers text
              then ok (test_died, source)
              else second source again)
      by_text (err why) again e = refl
      by_text (ok text) again e =
          ap answered (log_tiers_lem source text failed)
          ∙ pushed source (matches_any patterns.fatal_markers text)
              (matches_any patterns.noise_markers text)
          ∙ ap
              (λ r.
                if matches_any patterns.fatal_markers text
                then answered (test_died, source)
                else second source r)
              (sym e)

  -- Without markers of the caller's own, the digest comes from the first stage whose file has a
  -- matching line: the serial terminal, where no file is asked for and the job has one, then the
  -- log for a death, then the log for anything like an error; and from the log's tail if none has.
  -- A file that cannot be read on the way is the answer.
  pub get_job_log_errors_lem :
      (job_id : ℤ) (base_url : Text) (filename : Option String) (details : Option Json)
      → (get_job_log_errors patterns fetch job_id base_url none filename details >>= tiered)
        ≡ first_stage default_file (stages patterns filename (has_serial details))
  unfolding get_job_log_errors
  get_job_log_errors_lem job_id base_url filename details =
      by_call filename (has_serial details) (modules_of job_id base_url details)
    where
      by_call :
          (filename : Option String) (serial : Bool) (failed : Option (List FailedModule))
          → (without_markers patterns fetch filename serial failed >>= tiered)
            ≡ first_stage default_file (stages patterns filename serial)
      by_call (some name) serial failed = scan_log_lem name default_file failed
      by_call none false failed = scan_log_lem default_file default_file failed
      by_call none true failed = by_serial (fetch serial_file)
        where
          first : Bool → Text → Result Digest Bail
          first b text =
              if b
              then wrapped (reply patterns fetch tap serial_file patterns.tap_markers text failed)
              else scan_log patterns fetch default_file failed

          by_match :
              (b : Bool) (text : Text)
              → (first b text >>= tiered) ≡ (
                  if b
                  then ok (tap, serial_file)
                  else first_stage serial_file (log_stages patterns default_file))
          by_match true text = refl
          by_match false text = scan_log_lem default_file serial_file failed

          by_serial :
              (r : Result Text Bail)
              → ((r >>= serial_first patterns fetch failed) >>= tiered) ≡ (
                  r >>= λ text.
                  if matches_any patterns.tap_markers text
                  then ok (tap, serial_file)
                  else first_stage serial_file (log_stages patterns default_file))
          by_serial (err why) = refl
          by_serial (ok text) =
              ap (λ b. first b text >>= tiered) (scanned_hits patterns.tap_markers text)
              ∙ by_match (matches_any patterns.tap_markers text) text
