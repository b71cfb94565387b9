-- ===== src/Http/Scopes.antt =====
-- Which scope a request is granted, and what the middleware lets through.
use mathlib.Core.Option.{some-injective}
use ruoqa_mcp.Common.{
  ◌≡◌, refl, sym, ap, ◌∙◌, ◌≢◌, ◌↔◌, ◌⊎◌, inl, inr, Bool, true, false, Option, none, some, arith,
  Bool-cases, Option-cases,
}
use ruoqa_mcp.Common.Text.{Text, text_eq_sound, text_eq_refl}
use ruoqa_mcp.Http.{
  HttpAuth, Scope, read, write, matches, presented, granted, scope_of_token, scope_for,
  authenticate, next,
}

pub matches_iff : (token : Option Text) (t : Text) → (matches token t ≡ true) ↔ (token ≡ some t)
unfolding matches
matches_iff none t = (λ h. absurd (cc), λ h. absurd (cc))
matches_iff (some s) t =
    (λ h. ap some (text_eq_sound s t h), λ h. rw (some-injective s t h) (text_eq_refl t))

granted_write_iff : (w r : Bool) → (granted w r ≡ some write) ↔ (w ≡ true)
granted_write_iff true r = ground arith
granted_write_iff false true = ground arith
granted_write_iff false false = ground arith

granted_read_iff : (w r : Bool) → (granted w r ≡ some read) ↔ ((w ≡ false) × (r ≡ true))
granted_read_iff true r = ground arith
granted_read_iff false true = ground arith
granted_read_iff false false = ground arith

-- What a presented token, if any, is worth.
abbrev Worth : HttpAuth → Option Text → Option Scope → Type 0
Worth auth p scope =
    ((scope ≡ some write) ↔ ((t : Text) × (p ≡ some t) × (auth.write ≡ some t)))
    × ((scope ≡ some read)
        ↔ ((t : Text) × (p ≡ some t) × (auth.read ≡ some t) × (auth.write ≢ some t)))

scope_of_token-Worth : (auth : HttpAuth) (p : Option Text) → Worth auth p (scope_of_token auth p)
scope_of_token-Worth auth none =
    ((λ h. absurd (cc), λ (t, e, _). absurd (cc)), (λ h. absurd (cc), λ (t, e, _, _). absurd (cc)))
scope_of_token-Worth auth (some s) =
    let (wt, wf) = matches_iff auth.write s in
    let (rt, rf) = matches_iff auth.read s in
    let (gw, wg) = granted_write_iff (matches auth.write s) (matches auth.read s) in
    let (gr, rg) = granted_read_iff (matches auth.write s) (matches auth.read s) in
    (
      (λ h. (s, refl, wt (gw h)), λ (t, e, k). wg (wf (k ∙ sym e))),
      (
        λ h. (s, refl, rt ((gr h).1), λ k. cc ((gr h).0, wf k)),
        λ (t, e, k, l). rg (not_matching t e l, rf (k ∙ sym e)),
      ),
    )
  where
    not_matching : (t : Text) → some s ≡ some t → auth.write ≢ some t → matches auth.write s ≡ false
    not_matching t e l = elim (Bool-cases (matches auth.write s)) [
      | inl m ↦ absurd (l ((matches_iff auth.write s).0 m ∙ e))
      | inr m ↦ m
    ]

-- The write scope is granted exactly to a bearer of the write token, and the read scope exactly to
-- a bearer of the read token that is not the write token as well.
pub scope_for_iff :
    (auth : HttpAuth) (header : Option Text)
    → ((scope_for auth header ≡ some write)
        ↔ ((t : Text) × (presented header ≡ some t) × (auth.write ≡ some t)))
      × ((scope_for auth header ≡ some read) ↔ (
          (t : Text) × (presented header ≡ some t) × (auth.read ≡ some t) × (auth.write ≢ some t)))
unfolding scope_for
scope_for_iff auth header = scope_of_token-Worth auth (presented header)

-- What the middleware passes on carries no scope only where authentication is off, and else the
-- scope of the configured token that the request presents.
pub authenticate_passes :
    (auth : HttpAuth) (header : Option Text) (scope : Option Scope)
    → authenticate auth header ≡ next scope
    → ((auth.insecure ≡ true) × (scope ≡ none))
      ⊎ ((t : Text) × (presented header ≡ some t)
          × (((scope ≡ some write) × (auth.write ≡ some t))
              ⊎ ((scope ≡ some read) × (auth.read ≡ some t))))
unfolding authenticate
authenticate_passes auth header scope h = elim (Bool-cases auth.insecure) [
  | inl off ↦ inl (off, ground arith)
  | inr required ↦ elim (Option-cases (scope_for auth header)) [
    | inl e ↦ absurd (ground arith)
    | inr (read, e) ↦
        let (t, p, k, _) = (scope_for_iff auth header).1.0 e in inr (t, p, inr (ground arith, k))
    | inr (write, e) ↦
        let (t, p, k) = (scope_for_iff auth header).0.0 e in inr (t, p, inl (ground arith, k))
  ]
]
