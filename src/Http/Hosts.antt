-- ===== src/Http/Hosts.antt =====
-- The `Host` allowlist.
use ruoqa_mcp.Common.{
  ◌≡◌, refl, ap, ◌∙◌, inl, inr, Bool, true, false, ◌||◌, List, [], ◌∷◌, ◌++◌, arith, Bool-cases,
  any,
}
use ruoqa_mcp.Common.Text.{Text, text_eq, text_eq_sound}
use ruoqa_mcp.Http.{loopback_hosts, add_hosts, allowed_hosts}

abbrev pub has : Text → List Text → Bool
has host hosts = any (λ h. text_eq h host) hosts

-- No host stands twice.
abbrev pub NoneTwice : List Text → Type 0
NoneTwice [] = Unit
NoneTwice (h ∷ hosts) = (has h hosts ≡ false) × NoneTwice hosts

has-append : (host : Text) (xs ys : List Text) → has host (xs ++ ys) ≡ (has host xs || has host ys)
has-append host [] ys = refl
has-append host (x ∷ xs) ys = ground (arith, has-append host xs ys)

pub text_eq_comm : (s t : Text) → text_eq s t ≡ text_eq t s
text_eq_comm [] [] = refl
text_eq_comm [] (b ∷ t) = refl
text_eq_comm (a ∷ s) [] = refl
text_eq_comm (a ∷ s) (b ∷ t) = ground (arith, text_eq_comm s t)

pub NoneTwice-push :
    (xs : List Text) (host : Text)
    → has host xs ≡ false
    → NoneTwice xs
    → NoneTwice (xs ++ host ∷ [])
NoneTwice-push [] host h v = (refl, tt)
NoneTwice-push (x ∷ xs) host h (n, v) = (
  rw (has-append x xs (host ∷ []), text_eq_comm host x) (ground arith),
  NoneTwice-push xs host (ground arith) v,
)

has_same : (a b : Text) (xs : List Text) → text_eq a b ≡ true → has a xs ≡ has b xs
has_same a b xs e = ap (λ t. has t xs) (text_eq_sound a b e)

add_hosts_lem :
    (hosts configured : List Text)
    → NoneTwice hosts
    → NoneTwice (add_hosts hosts configured)
      × ((h : Text) → has h (add_hosts hosts configured) ≡ (has h hosts || has h configured))
unfolding add_hosts
add_hosts_lem hosts [] v = (v, λ h. ground arith)
add_hosts_lem hosts (c ∷ cs) v = elim (Bool-cases (has c hosts)) [
  | inl old ↦
      let (w, k) = add_hosts_lem hosts cs v in rw old (w, λ h. k h ∙ known hosts c h (has h cs) old)
  | inr new ↦
      let (w, k) = add_hosts_lem (hosts ++ c ∷ []) cs (NoneTwice-push hosts c new v) in
      rw new (w, λ h. k h ∙ rw has-append (ground arith))
]
  where
    known :
        (hs : List Text) (c h : Text) (b : Bool)
        → has c hs ≡ true
        → (has h hs || b) ≡ (has h hs || (text_eq c h || b))
    known hs c h b old = ground (arith, has_same c h hs)

-- The allowlist holds the loopback names and the configured ones, nothing else, and none twice.
pub allowed_hosts_lem :
    (configured : List Text)
    → NoneTwice (allowed_hosts configured)
      × ((h : Text) → has h (allowed_hosts configured) ≡ (has h loopback_hosts || has h configured))
unfolding allowed_hosts
allowed_hosts_lem configured = add_hosts_lem loopback_hosts configured (refl, (refl, (refl, tt)))
