-- ===== src/Digest/Log.antt =====
-- The tiers of the digest, `get_job_log_errors` of src/tools/read.rs, and the context of a death.
use ruoqa_mcp.Common.{
  ℕ, zero, suc, ◌+◌, String, Bool, true, false, ◌||◌, not, Option, none, some, List, [], ◌∷◌, ◌++◌,
  ltb, leb, if◌then◌else◌, unwrap_or, length, take, drop, Result, ok, ◌>>=◌,
}
use ruoqa_mcp.Common.Text.{Text, codes, starts_with}
use ruoqa_mcp.Common.Int.{ℤ}
use ruoqa_mcp.Common.Json.{Json}
use ruoqa_mcp.Artifact.{
  lines, truncate_line, digest_max_line_chars, ScanResult, scan_markers, tail_hits,
}
use ruoqa_mcp.Digest.{
  digest_max_hits, digest_context_lines, digest_tail_lines, digest_max_stack_frames, FailedModule,
  failed_modules, has_log,
}

-- `TAIL_ALWAYS`.
abbrev pub tail_always : Bool
tail_always = false

unfoldable pub with_tail : ScanResult → Text → ScanResult
with_tail scan text =
    if tail_always
    then record scan { hits = scan.hits ++ tail_hits text digest_tail_lines }
    else scan

-- `str::contains`.
abbrev pub contains : Text → Text → Bool
contains part [] = starts_with part []
contains part (c ∷ s) = starts_with part (c ∷ s) || contains part s

-- `find` from the end, and the elements after the first that `p` accepts.
abbrev find_last {ℓ} : {A : Type ℓ} → (A → Bool) → List A → Option A
find_last p [] = none
find_last p (x ∷ xs) = elim (find_last p xs) [
  | some y ↦ some y
  | none ↦ elim (p x) [ true ↦ some x | false ↦ none ]
]

abbrev after_first {ℓ} : {A : Type ℓ} → (A → Bool) → List A → List A
after_first p [] = []
after_first p (x ∷ xs) = elim (p x) [ true ↦ xs | false ↦ after_first p xs ]

abbrev take_while {ℓ} : {A : Type ℓ} → (A → Bool) → List A → List A
take_while p [] = []
take_while p (x ∷ xs) = elim (p x) [ true ↦ x ∷ take_while p xs | false ↦ [] ]

pub record DiedContext : Type 0 where
  pub step : Option Text
  pub stack : List Text

abbrev context_of : Option Text → List Text → Option DiedContext
context_of none [] = none
context_of step stack = some (record { step = step; stack = stack })

abbrev shortened : Option Text → Option Text
shortened none = none
shortened (some l) = some (truncate_line l digest_max_line_chars)

unfoldable pub died_context : (Text → Bool) → Text → ℕ → Option DiedContext
died_context timestamped text zero = none
died_context timestamped text (suc hit_idx) =
    let ls = lines text in
    if leb (length ls) hit_idx
    then none
    else context_of (shortened (find_last (contains (codes "[step:")) (take hit_idx ls))) (
        take digest_max_stack_frames (
          take_while (λ l. not (timestamped l))
            (after_first (contains (codes "--- # stack trace")) (drop hit_idx ls))))

pub data Tier : Type 0 where
  custom tap test_died generic tail : Tier

-- The reply, beside the job's id.
pub record Digest : Type 0 where
  pub tier : Tier
  pub source : String
  pub scan : ScanResult
  pub failed : Option (List FailedModule)
  pub location : Option DiedContext

-- `Iterator::position`.
abbrev pub position_of {ℓ} : {A : Type ℓ} → ℕ → (A → Bool) → List A → Option ℕ
position_of i p [] = none
position_of i p (x ∷ xs) = elim (p x) [ true ↦ some i | false ↦ position_of (suc i) p xs ]

abbrev pub location_at : (Text → Bool) → Text → Option ℕ → Option DiedContext
location_at timestamped text none = none
location_at timestamped text (some idx) = died_context timestamped text (idx + 1)

abbrev pub serial_file : String
serial_file = "serial_terminal.txt"

abbrev pub default_file : String
default_file = "autoinst-log.txt"

abbrev pub scanned : (Text → Bool) → Text → ScanResult
scanned set text = scan_markers text set digest_context_lines digest_max_hits

-- The patterns that the code compiles itself.
pub record Patterns : Type 0 where
  pub tap_markers : Text → Bool
  pub fatal_markers : Text → Bool
  pub noise_markers : Text → Bool
  pub timestamped : Text → Bool

abbrev pub has_serial : Option Json → Bool
has_serial none = false
has_serial (some details) = has_log details serial_file

abbrev pub modules_of : ℤ → Text → Option Json → Option (List FailedModule)
modules_of job_id base_url none = none
modules_of job_id base_url (some details) = some (failed_modules details job_id base_url)

-- The modules are left out where none has failed.
abbrev shown_modules : Option (List FailedModule) → Option (List FailedModule)
shown_modules none = none
shown_modules (some []) = none
shown_modules (some (m ∷ modules)) = some (m ∷ modules)

-- `fetch` gives the text of a file, or why it was not read.
module _ {Bail : Type 0} (patterns : Patterns) (fetch : String → Result Text Bail) where
  abbrev pub reply : Tier → String → (Text → Bool) → Text → Option (List FailedModule) → Digest
  reply tier source set text failed = record {
    tier = tier;
    source = source;
    scan = with_tail (scanned set text) text;
    failed = shown_modules failed;
    location = none;
  }

  abbrev pub from_tail : String → Text → Option (List FailedModule) → Digest
  from_tail source text failed = record {
    tier = tail;
    source = source;
    scan = record {
      hits = tail_hits text digest_tail_lines;
      hit_count = 0;
      more_hits = false;
      total_lines = length (lines text);
    };
    failed = shown_modules failed;
    location = none;
  }

  -- The tiers over the log: a death, then anything that looks like an error, then the tail.
  abbrev pub log_tiers : String → Text → Option (List FailedModule) → Digest
  log_tiers source text failed =
      if ltb 0 ((scanned patterns.fatal_markers text).hit_count)
      then record (reply test_died source patterns.fatal_markers text failed) {
        location =
            location_at patterns.timestamped text
              (position_of 0 patterns.fatal_markers (lines text));
      }
      else (if ltb 0 ((scanned patterns.noise_markers text).hit_count)
          then reply generic source patterns.noise_markers text failed
          else from_tail source text failed)

  abbrev pub scan_log : String → Option (List FailedModule) → Result Digest Bail
  scan_log source failed = fetch source >>= λ text. ok (log_tiers source text failed)

  -- The serial terminal comes first, where it is there and has a match.
  abbrev pub serial_first : Option (List FailedModule) → Text → Result Digest Bail
  serial_first failed text =
      let otherwise = scan_log default_file failed in
      if ltb 0 ((scanned patterns.tap_markers text).hit_count)
      then ok (reply tap serial_file patterns.tap_markers text failed)
      else otherwise

  abbrev pub without_markers :
      Option String → Bool → Option (List FailedModule) → Result Digest Bail
  without_markers (some filename) serial failed = scan_log filename failed
  without_markers none true failed = fetch serial_file >>= λ text. serial_first failed text
  without_markers none false failed = scan_log default_file failed

  abbrev pub with_markers :
      Option (Text → Bool) → Option String → Bool → Option (List FailedModule) → Result Digest Bail
  with_markers (some set) filename serial failed =
      let source = unwrap_or filename default_file in
      fetch source >>= λ text. ok (reply custom source set text failed)
  with_markers none filename serial failed = without_markers filename serial failed

  -- The digest, the arguments checked and the job's details read where that succeeded.
  unfoldable pub get_job_log_errors :
      ℤ → Text → Option (Text → Bool) → Option String → Option Json → Result Digest Bail
  get_job_log_errors job_id base_url custom_set filename details =
      with_markers custom_set filename (has_serial details) (modules_of job_id base_url details)
