-- ===== src/Fetch/JobLog/Reads.antt =====
-- How many bytes each way of reading an artifact gives at most.
use ruoqa_mcp.Common.{
  ℕ, ◌+◌, ◌-◌, ◌≤◌, ◌≡◌, sym, ap, ◌∙◌, subst, ◌⊎◌, inl, inr, Bool, true, false, Option, none, some,
  List, ◌++◌, arith, ◌==◌, if◌then◌else◌, length, Result, ok, map_err, ok_or, >>=-eq-ok,
  ok-injective,
}
use ruoqa_mcp.Common.Text.{Text, codes}
use ruoqa_mcp.Common.Decimal.{show_u64}
use ruoqa_mcp.Common.Int.{ℤ}
use ruoqa_mcp.Otel.Proto.{Bytes}
use ruoqa_mcp.Artifact.{Sniff, gzip, xz, tar, plain}
use ruoqa_mcp.Fetch.{
  Bail, undecodable, from_client, read_capped, part_of, whole_of, answered, Response, Probe,
  TailFetch, requested, probe, fetch_bytes, fetch_tail, artifact_path,
}
use ruoqa_mcp.Fetch.Tail.{read_capped_lem, fetch_tail_lem, Ends}
use ruoqa_mcp.Fetch.Decode.{
  TarEntry, decompress, extract_tar_member, extract_from, copy_lem, extract_from_lem,
}
use ruoqa_mcp.Fetch.JobLog.{ceiling_of, max_artifact_bytes, tail_result}

module _ {E : Type 0} where
  pub read_capped_bound :
      (ceiling : ℕ) (chunks : List (Option Bytes)) {b : Bytes}
      → read_capped {E = E} ceiling chunks ≡ ok b
      → length b ≤ ceiling
  read_capped_bound ceiling chunks e =
      let (_, _, _, bound) = read_capped_lem {E = E} ceiling chunks e in bound

  pub decompress_bound :
      (decode : Sniff → Bytes → List Bytes × Bool) (raw : Bytes) (format : Sniff) (ceiling : ℕ)
      {b : Bytes}
      → length raw ≤ ceiling
      → decompress {E = E} decode raw format ceiling ≡ ok b
      → length b ≤ ceiling
  unfolding decompress
  decompress_bound decode raw plain ceiling fits e =
      subst (λ b. length b ≤ ceiling) (ok-injective e) fits
  decompress_bound decode raw tar ceiling fits e =
      subst (λ b. length b ≤ ceiling) (ok-injective e) fits
  decompress_bound decode raw gzip ceiling fits e = copy_lem _ _ _ (ground (arith)) e
  decompress_bound decode raw xz ceiling fits e = copy_lem _ _ _ (ground (arith)) e

  pub extract_bound :
      (entries : Bytes → Option (List (Option TarEntry))) (content member : Bytes) (ceiling : ℕ)
      {b : Bytes}
      → extract_tar_member {E = E} entries content member ceiling ≡ ok b
      → length b ≤ ceiling
  unfolding extract_tar_member
  extract_bound entries content member ceiling e =
      let (es, _, e) =
        >>=-eq-ok (ok_or (entries content) undecodable) (extract_from member ceiling) e in
      extract_from_lem member ceiling es e

-- The ceiling of a call is never above the server's own.
pub ceiling_of_lem : (o : Option ℕ) → ceiling_of o ≤ max_artifact_bytes
ceiling_of_lem none = ground (arith)
ceiling_of_lem (some m) = ground (arith)

-- A body that counts as the whole artifact is within the ceiling.
abbrev pub Fits : ℕ → Probe → Type 0
Fits ceiling p = (p.complete ≡ false) ⊎ (length p.body ≤ ceiling)

module _ {E : Type 0} (utf8_percent_encode : Text → (ℕ → Bool) → Text)
    (prepare : Text → Result Text E) (execute : ℕ → Text → Option Text → Result Response E) where
  pub fetch_bytes_bound :
      (n : ℕ) (path : Text) (ceiling : ℕ) {b : Bytes}
      → fetch_bytes utf8_percent_encode prepare execute n path ceiling ≡ ok b
      → length b ≤ ceiling
  unfolding fetch_bytes
  fetch_bytes_bound n path ceiling e =
      let (resp, _, e) =
        >>=-eq-ok (requested utf8_percent_encode prepare execute n path none) _ e in
      read_capped_bound ceiling resp.chunks e

  by_status :
      (window ceiling : ℕ) (url : Text) (resp : Response) (partial : Bool) {p : Probe}
      → (if partial
          then part_of utf8_percent_encode prepare execute window url resp
          else whole_of utf8_percent_encode prepare execute ceiling url resp)
        ≡ ok p
      → Fits ceiling p
  by_status window ceiling url resp true e =
      let (body, _, e) = >>=-eq-ok (read_capped {E = E} (window + 1024) resp.chunks) _ e in
      inl (ap (λ p. p.complete) (sym (ok-injective e)))
  by_status window ceiling url resp false e =
      let (body, read, e) = >>=-eq-ok (read_capped {E = E} ceiling resp.chunks) _ e in
      inr (
        subst (λ p. length p.body ≤ ceiling) (ok-injective e)
          (read_capped_bound ceiling resp.chunks read))

  pub probe_bound :
      (n : ℕ) (job_id : ℤ) (filename : Text) (window ceiling : ℕ) {p : Probe}
      → probe utf8_percent_encode prepare execute n job_id filename window ceiling ≡ ok p
      → Fits ceiling p
  unfolding probe
  probe_bound n job_id filename window ceiling e =
      let (url, _, e) =
        >>=-eq-ok
          (map_err from_client
            (prepare (artifact_path utf8_percent_encode prepare execute job_id filename)))
          _ e in
      let (resp, _, e) =
        >>=-eq-ok
          (answered utf8_percent_encode prepare execute n url
            (some (codes "bytes=0-" ++ show_u64 (window - 1))))
          _ e in
      by_status window ceiling url resp (resp.status == 206) e

  pub raw_bound :
      (p : Probe) (path : Text) (ceiling : ℕ) (complete : Bool) {b : Bytes}
      → p.complete ≡ complete
      → Fits ceiling p
      → (if complete
          then ok p.body
          else fetch_bytes utf8_percent_encode prepare execute 1 path ceiling)
        ≡ ok b
      → length b ≤ ceiling
  raw_bound p path ceiling true is (inl partial) e = absurd (cc)
  raw_bound p path ceiling true is (inr fits) e =
      subst (λ b. length b ≤ ceiling) (ok-injective e) fits
  raw_bound p path ceiling false is fits e = fetch_bytes_bound 1 path ceiling e

  pub answered_tail_bound :
      (p : Probe) (ceiling : ℕ) (path range : Text) (n k : ℕ)
      (out : Option (Result TailFetch (Bail E) × ℕ)) {tail : TailFetch}
      → Ends utf8_percent_encode prepare execute p ceiling path range n k out
      → tail_result out ≡ ok tail
      → length tail.bytes ≤ ceiling
  answered_tail_bound p ceiling path range n k out (inl (why, o)) e =
      let wrong = sym (ap tail_result o) ∙ e in absurd (cc)
  answered_tail_bound p ceiling path range n k out (inr (resp, cs, _, _, bound, _, o)) e =
      subst (λ t. length t.bytes ≤ ceiling) (ok-injective (sym (ap tail_result o) ∙ e)) bound

  pub tail_bound :
      (job_id : ℤ) (filename : Text) (p : Probe) (window ceiling : ℕ) {tail : TailFetch}
      → tail_result
          (fetch_tail utf8_percent_encode prepare execute 1 job_id filename p window ceiling)
        ≡ ok tail
      → length tail.bytes ≤ ceiling
  tail_bound job_id filename p window ceiling e =
      let (k, _, ends) =
        fetch_tail_lem utf8_percent_encode prepare execute 1 job_id filename p window ceiling in
      answered_tail_bound p ceiling _ _ 1 k _ ends e
