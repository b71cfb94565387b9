-- ===== src/Tools/Requests/IsoKeys.antt =====
-- The keys of the form that `trigger_isos` posts.
use ruoqa_mcp.Common.{
  ℕ, ◌≡◌, refl, sym, ap, ◌∙◌, inl, inr, Bool, true, false, ◌&&◌, ◌||◌, not, Option, none, some,
  List, [], ◌∷◌, ◌++◌, append-nil, arith, leb, if◌then◌else◌, Option-cases, is_some, unwrap_or,
  length, any, Result, ok, err, ◌>>◌, is_ok,
}
use ruoqa_mcp.Common.Text.{Text, codes}
use ruoqa_mcp.Http.Hosts.{has, text_eq_comm}
use ruoqa_mcp.Tools.{bounded, max_extra_entries, Invalid}
use ruoqa_mcp.Tools.Write.{
  TriggerIsos, upcase, seen_key, reserved_iso_keys, check_keys, check_extra_keys, collision,
}
use ruoqa_mcp.Tools.Requests.IsoNames.{
  keys, upcased, distinct, no_two, same_field, kept_apart, distinct-upcased,
}
use ruoqa_mcp.Tools.Requests.{iso_form, push_entries, check_extra, resolve_server, trigger_isos}

abbrev uppers : List (Text × Text) → List Text
uppers [] = []
uppers ((u, k) ∷ seen) = u ∷ uppers seen

-- A key is one of those.
abbrev meets : List Text → List Text → Bool
meets taken ks = any (λ k. has k taken) ks

meets_cons : (t : Text) (taken ks : List Text) → meets (t ∷ taken) ks ≡ (has t ks || meets taken ks)
meets_cons t taken [] = refl
meets_cons t taken (k ∷ ks) = rw (meets_cons t taken ks, text_eq_comm t k) (ground arith)

meets_nil : (ks : List Text) → meets [] ks ≡ false
meets_nil [] = refl
meets_nil (k ∷ ks) = meets_nil ks

is_some-seen_key :
    (u : Text) (seen : List (Text × Text)) → is_some (seen_key u seen) ≡ has u (uppers seen)
is_some-seen_key u [] = refl
is_some-seen_key u ((t, k) ∷ seen) = ground (arith, is_some-seen_key u seen)

is_ok-one_key :
    (reserved : Bool) (old : Option Text) (why : Invalid) (k u : Text)
    (rest : Result (Unit {0}) Invalid)
    → is_ok (if reserved then err why else collision k u old >> rest)
      ≡ (not reserved && (not (is_some old) && is_ok rest))
is_ok-one_key true old why k u rest = refl
is_ok-one_key false none why k u rest = refl
is_ok-one_key false (some o) why k u rest = refl

is_ok-check_keys :
    (seen extra : List (Text × Text))
    → is_ok (check_keys seen extra) ≡ (
        not (meets reserved_iso_keys (upcased extra))
        && (not (meets (uppers seen) (upcased extra)) && distinct (upcased extra)))
is_ok-check_keys seen [] = refl
is_ok-check_keys seen ((k, v) ∷ extra) =
    is_ok-one_key (has (upcase k) reserved_iso_keys) (seen_key (upcase k) seen) _ k (upcase k) _
    ∙ rw
        (
          is_some-seen_key (upcase k) seen,
          is_ok-check_keys ((upcase k, k) ∷ seen) extra,
          meets_cons (upcase k) (uppers seen) (upcased extra),
        )
        (regroup (has (upcase k) reserved_iso_keys) (has (upcase k) (uppers seen))
          (meets reserved_iso_keys (upcased extra)) (has (upcase k) (upcased extra))
          (meets (uppers seen) (upcased extra)) (distinct (upcased extra)))
  where
    regroup :
        (a b c d e f : Bool)
        → (not a && (not b && (not c && (not (d || e) && f))))
          ≡ (not (a || c) && (not (b || e) && (not d && f)))
    regroup true b c d e f = refl
    regroup false true true d e f = refl
    regroup false true false d e f = refl
    regroup false false true d e f = refl
    regroup false false false true true f = refl
    regroup false false false true false f = refl
    regroup false false false false e f = refl

is_ok-check_extra_keys :
    (extra : List (Text × Text))
    → is_ok (check_extra_keys extra) ≡ distinct (reserved_iso_keys ++ upcased extra)
unfolding check_extra_keys
is_ok-check_extra_keys extra =
    rw
      (
        is_ok-check_keys [] extra,
        meets_nil (upcased extra),
        meets_cons (codes "DISTRI") (codes "VERSION" ∷ codes "FLAVOR" ∷ codes "ARCH" ∷ [])
            (upcased extra),
        meets_cons (codes "VERSION") (codes "FLAVOR" ∷ codes "ARCH" ∷ []) (upcased extra),
        meets_cons (codes "FLAVOR") (codes "ARCH" ∷ []) (upcased extra),
        meets_cons (codes "ARCH") [] (upcased extra),
        meets_nil (upcased extra),
      )
      (ground arith)

upcased-push_entries :
    (extra form : List (Text × Text))
    → upcased (push_entries extra form) ≡ upcased form ++ upcased extra
upcased-push_entries [] form = sym (append-nil (upcased form))
upcased-push_entries ((k, v) ∷ extra) form =
    upcased-push_entries extra (form ++ (k, v) ∷ []) ∙ last form k v (upcased extra)
  where
    last :
        (form : List (Text × Text)) (k v : Text) (more : List Text)
        → upcased (form ++ (k, v) ∷ []) ++ more ≡ upcased form ++ upcase k ∷ more
    last [] k v more = refl
    last ((j, w) ∷ form) k v more = ap (λ r. upcase j ∷ r) (last form k v more)

upcased-iso_form :
    (args : TriggerIsos)
    → upcased (iso_form args) ≡ reserved_iso_keys ++ upcased (unwrap_or args.extra [])
unfolding iso_form
upcased-iso_form args = upcased-push_entries (unwrap_or args.extra []) _

is_ok-check_extra :
    (extra : Option (List (Text × Text)))
    → is_ok (check_extra extra) ≡ distinct (reserved_iso_keys ++ upcased (unwrap_or extra []))
is_ok-check_extra none = refl
is_ok-check_extra (some extra) = is_ok-check_extra_keys extra

is_ok-both :
    {A : Type 0} (a b : Result (Unit {0}) Invalid) (x : A)
    → is_ok (a >> (b >> ok x)) ≡ (is_ok a && is_ok b)
is_ok-both (ok u) (ok w) x = refl
is_ok-both (ok u) (err e) x = refl
is_ok-both (err e) b x = refl

trigger_isos_folded :
    {Client : Type 0} (resolve : Text → Option Client) (args : TriggerIsos)
    → is_ok (trigger_isos resolve args) ≡ (
        is_some (resolve args.server)
        && (leb (length (unwrap_or args.extra [])) max_extra_entries
            && distinct (upcased (iso_form args))))
unfolding trigger_isos resolve_server bounded
trigger_isos_folded resolve args = elim (Option-cases (resolve args.server)) [
  | inl e ↦ rw e refl
  | inr (c, e) ↦
      rw (e, upcased-iso_form args, sym (is_ok-check_extra args.extra))
        (is_ok-both _ (check_extra args.extra) _
          ∙ ap (λ b. b && is_ok (check_extra args.extra))
              (at_most (length (unwrap_or args.extra []))))
]
  where
    at_most :
        (n : ℕ) → is_ok (bounded (codes "extra") n 0 max_extra_entries) ≡ leb n max_extra_entries
    at_most n = ground arith

-- The products of an ISO are scheduled exactly if the server is configured, there are at most 100
-- extra entries, no two fields of the form that would be sent are the same to openQA, which upcases
-- every key but `async` and `scheduled_product_clone_id`, and no two are the same but for the case
-- of letters although openQA keeps them apart.
pub is_ok-trigger_isos :
    {Client : Type 0} (resolve : Text → Option Client) (args : TriggerIsos)
    → is_ok (trigger_isos resolve args) ≡ (
        is_some (resolve args.server)
        && (leb (length (unwrap_or args.extra [])) max_extra_entries
            && (no_two same_field (keys (iso_form args))
                && no_two kept_apart (keys (iso_form args)))))
is_ok-trigger_isos resolve args =
    trigger_isos_folded resolve args
    ∙ ap
        (λ b.
          is_some (resolve args.server)
          && (leb (length (unwrap_or args.extra [])) max_extra_entries && b))
        (distinct-upcased (iso_form args))
