-- ===== src/Error/Classes.antt =====
-- The two classifications of an error, and the preview of a body.
use ruoqa_mcp.Common.{
  ℕ, zero, suc, ◌≤◌, ◌<◌, String, ◌≡◌, refl, sym, ap, ◌∙◌, subst, ◌≢◌, ◌↔◌, ◌⊎◌, inl, inr, Bool,
  true, false, ◌&&◌, [], append-nil, arith, str_eq, eq_iff, leb, ◌==◌, if◌then◌else◌, leb→le,
  Bool-cases, length, take, length-take, take_append, Result, ok, err, is_ok,
}
use ruoqa_mcp.Otel.Proto.{Bytes}
use ruoqa_mcp.Error.{
  ClientError, request, connection, deadline_exceeded, body_too_large, invalid_body, internal,
  ToolError, status_kind, is_char_boundary, boundary_below, truncate, tool_error, classify, kind_of,
}

boundary_below-le : (s : Bytes) (n : ℕ) → boundary_below s n ≤ n
boundary_below-le s zero = omega arith
boundary_below-le s (suc n) = ground (arith, boundary_below-le s n)

boundary_below-boundary : (s : Bytes) (n : ℕ) → is_char_boundary s (boundary_below s n) ≡ true
boundary_below-boundary s zero = refl
boundary_below-boundary s (suc n) = elim (Bool-cases (is_char_boundary s (suc n))) [
  | inl e ↦
      subst (λ b. is_char_boundary s (if b then suc n else boundary_below s n) ≡ true) (sym e) e
  | inr e ↦
      subst (λ b. is_char_boundary s (if b then suc n else boundary_below s n) ≡ true) (sym e)
        (boundary_below-boundary s n)
]

-- A truncated text is a prefix of the text that ends at the end of a character, at most
-- `max_bytes` long; a text that is no longer than that is not touched.
pub truncate_lem :
    (s : Bytes) (max_bytes : ℕ)
    → (n : ℕ) × (truncate s max_bytes ≡ take n s)
      × ((is_char_boundary s n ≡ true) ⊎ (n ≡ length s))
      × (length (truncate s max_bytes) ≤ max_bytes)
      × ((truncate s max_bytes ≡ s) ⊎ (max_bytes < length s))
unfolding truncate
truncate_lem s m = elim (Bool-cases (leb (length s) m)) [
  | inl e ↦
      let same : truncate s m ≡ s = ap (λ b. if b then s else take (boundary_below s m) s) e in
      (
        length s,
        same ∙ sym (subst (λ x. take (length s) x ≡ s) (append-nil s) (take_append s [])),
        inr refl,
        omega (arith, ap length same, leb→le (length s) m e),
        inl same,
      )
  | inr e ↦
      let n = boundary_below s m in
      let cut : truncate s m ≡ take n s =
        ap (λ b. if b then s else take (boundary_below s m) s) e in
      (
        n,
        cut,
        inl (boundary_below-boundary s m),
        omega (arith, ap length cut, length-take n s, boundary_below-le s m),
        inr (ground arith),
      )
]

-- The kind that a classified error shows the caller.
abbrev pub shown_kind : Result ToolError Bytes → String
shown_kind (ok e) = e.kind
shown_kind (err message) = "internal"

differs : (s t : String) → str_eq s t ≡ false → s ≢ t
differs s t e h = cc (e, (eq_iff s t).1 h)

-- An error that is not of the protocol, under a kind that is not `internal`.
tool_kind : (kind : String) → str_eq kind "internal" ≡ false → (true ≡ false) ↔ (kind ≡ "internal")
tool_kind kind e = (λ h. absurd (cc), λ h. absurd (differs kind "internal" e h))

either_kind :
    (c : Bool) (a b : String)
    → str_eq a "internal" ≡ false
    → str_eq b "internal" ≡ false
    → str_eq (if c then a else b) "internal" ≡ false
either_kind true a b p q = p
either_kind false a b p q = q

status_kind-not_internal : (status : ℕ) → str_eq (status_kind status) "internal" ≡ false
unfolding status_kind
status_kind-not_internal status = either_kind (status == 401) "unauthorized" _ refl (
    either_kind (status == 403) "forbidden" _ refl (
      either_kind (status == 404) "not_found" _ refl (
        either_kind (status == 429) "rate_limited" _ refl
          (either_kind (leb 400 status && leb status 499) "bad_request" "server_error" refl refl))))

-- The label of the diagnostics is the kind that the caller is shown, and `internal` exactly where
-- the error is one of the protocol.
pub classify-kind_of :
    (message : Bytes) (e : ClientError)
    → (shown_kind (classify message e) ≡ kind_of e)
      × ((is_ok (classify message e) ≡ false) ↔ (kind_of e ≡ "internal"))
unfolding classify kind_of tool_error
classify-kind_of message (request status body) =
    (refl, tool_kind (status_kind status) (status_kind-not_internal status))
classify-kind_of message connection = (refl, tool_kind "connection" refl)
classify-kind_of message deadline_exceeded = (refl, tool_kind "timeout" refl)
classify-kind_of message body_too_large = (refl, tool_kind "response_too_large" refl)
classify-kind_of message invalid_body = (refl, tool_kind "invalid_response" refl)
classify-kind_of message internal = (refl, (λ h. refl, λ h. refl))
