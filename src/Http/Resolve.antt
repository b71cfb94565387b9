-- ===== src/Http/Resolve.antt =====
-- Which credentials `resolve` accepts.
use ruoqa_mcp.Common.{
  ◌≤◌, String, ◌≡◌, refl, sym, ap, ◌∙◌, ◌≢◌, ◌↔◌, inl, inr, Bool, true, false, Option, none, some,
  arith, Bool-cases, length, all, ok, >>=-eq-ok,
}
use mathlib.Core.Option.{some-injective}
use ruoqa_mcp.Common.Text.{Text, text_eq, text_eq_sound, text_eq_refl}
use ruoqa_mcp.Http.{
  HttpEnv, HttpAuth, min_token_len, is_ascii_graphic, validate, same_token, combine, resolve,
}

-- A token that can be sent as a bearer credential and is too long to guess.
abbrev pub IsStrong : Option Text → Type 0
IsStrong none = Unit
IsStrong (some t) = (all is_ascii_graphic t ≡ true) × (min_token_len ≤ length t)

-- Two different strong tokens, one, or none; and none exactly when authentication is off.
pub record IsSound (env : HttpEnv) (insecure : Bool) (auth : HttpAuth) : Type 0 where
  pub same_write : auth.write ≡ env.token
  pub same_read : auth.read ≡ env.read_token
  pub same_flag : auth.insecure ≡ insecure
  pub strong_write : IsStrong auth.write
  pub strong_read : IsStrong auth.read
  pub distinct : (t : Text) → auth.write ≡ some t → auth.read ≢ some t
  pub insecure_iff : (auth.insecure ≡ true) ↔ ((auth.write ≡ none) × (auth.read ≡ none))

validate-eq-ok :
    (var : String) (token : Option Text) {t : Option Text}
    → validate var token ≡ ok t
    → (t ≡ token) × IsStrong token
unfolding validate
validate-eq-ok var none h = ground arith
validate-eq-ok var (some s) h = ground arith

validate_of_IsStrong :
    (var : String) (token : Option Text) → IsStrong token → validate var token ≡ ok token
unfolding validate
validate_of_IsStrong var none h = refl
validate_of_IsStrong var (some s) h = ground arith

same_token-distinct :
    (w r : Option Text) → same_token w r ≡ false → (t : Text) → w ≡ some t → r ≢ some t
same_token-distinct none r h t e k = cc
same_token-distinct (some a) none h t e k = cc
same_token-distinct (some a) (some b) h t e k =
    let same : a ≡ b = some-injective a t e ∙ sym (some-injective b t k) in
    let yes_same : text_eq a b ≡ true = rw same (text_eq_refl b) in cc

combine_sound :
    (w r : Option Text) (insecure : Bool) {auth : HttpAuth}
    → combine w r insecure ≡ ok auth
    → (same_token w r ≡ false)
      × (auth ≡ record { write = w; read = r; insecure = insecure })
      × ((insecure ≡ true) ↔ ((w ≡ none) × (r ≡ none)))
unfolding combine
combine_sound none none true h = ground arith
combine_sound none none false h = ground arith
combine_sound none (some b) insecure h = ground arith
combine_sound (some a) r insecure h = ground arith

-- Credentials that `resolve` accepts are the environment's own, each strong, the two distinct, and
-- there is none exactly when authentication is switched off.
pub resolve-IsSound :
    (env : HttpEnv) (insecure : Bool) {auth : HttpAuth}
    → resolve env insecure ≡ ok auth
    → IsSound env insecure auth
unfolding resolve
resolve-IsSound env insecure h =
    let (w, vw, h') = >>=-eq-ok (validate "OPENQA_MCP_HTTP_TOKEN" env.token) _ h in
    let (r, vr, h'') = >>=-eq-ok (validate "OPENQA_MCP_HTTP_READ_TOKEN" env.read_token) _ h' in
    let (ew, sw) = validate-eq-ok _ env.token vw in
    let (er, sr) = validate-eq-ok _ env.read_token vr in
    let (d, ea, i) = combine_sound w r insecure h'' in
    rw ea (record {
      same_write = ew;
      same_read = er;
      same_flag = refl;
      strong_write = rw ew sw;
      strong_read = rw er sr;
      distinct = same_token-distinct w r d;
      insecure_iff = i;
    })

same_token_of_distinct :
    (w r : Option Text) → ((t : Text) → w ≡ some t → r ≢ some t) → same_token w r ≡ false
same_token_of_distinct none r h = refl
same_token_of_distinct (some a) none h = refl
same_token_of_distinct (some a) (some b) h = elim (Bool-cases (text_eq a b)) [
  | inl e ↦ absurd (h b (ap some (text_eq_sound a b e)) refl)
  | inr e ↦ e
]

combine_complete :
    (w r : Option Text) (insecure : Bool)
    → same_token w r ≡ false
    → ((insecure ≡ true) ↔ ((w ≡ none) × (r ≡ none)))
    → combine w r insecure ≡ ok (record { write = w; read = r; insecure = insecure })
unfolding combine
combine_complete none none true d i = refl
combine_complete none none false d i = absurd (cc (i.1 (refl, refl)))
combine_complete none (some b) true d i = absurd (cc ((i.0 refl).1))
combine_complete none (some b) false d i = refl
combine_complete (some a) r true d i = absurd (cc ((i.0 refl).0))
combine_complete (some a) r false d i = rw d refl

-- And every two tokens that meet these conditions are accepted.
pub resolve_complete :
    (env : HttpEnv) (insecure : Bool) (auth : HttpAuth)
    → IsSound env insecure auth
    → resolve env insecure ≡ ok auth
unfolding resolve
resolve_complete env insecure auth v =
    rw
      (
        ← v.same_write,
        ← v.same_read,
        validate_of_IsStrong _ auth.write v.strong_write,
        validate_of_IsStrong _ auth.read v.strong_read,
        ← v.same_flag,
      )
      (combine_complete auth.write auth.read auth.insecure
        (same_token_of_distinct auth.write auth.read v.distinct) v.insecure_iff)
