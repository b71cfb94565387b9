-- ===== src/Tools/Requests/Restart.antt =====
-- The ids that `restart_jobs` sends.
use ruoqa_mcp.Common.{
  ℕ, ◌≤◌, ◌≡◌, refl, sym, ap, ◌∙◌, inl, inr, true, false, Option, none, some, List, [], ◌∷◌, ◌++◌,
  map, arith, ltb, Bool-cases, length, All, Result, ok, ◌>>◌, >>=-eq-ok, ok-injective, ok_or-eq-ok,
}
use ruoqa_mcp.Common.Text.{Text, codes, text_eq}
use ruoqa_mcp.Common.Int.{ℤ, IsI64}
use ruoqa_mcp.Common.Decimal.{read_i64, read_i64-show_i64}
use ruoqa_mcp.Tools.{Form, Invalid, Request, push_opt, pairs_of, post, unknown_server, bounded}
use ruoqa_mcp.Tools.Write.{RestartJobs}
use ruoqa_mcp.Tools.Requests.{restart_jobs, resolve_server, shown}

-- The values of a field that repeats.
abbrev pub field_values : Text → Form → List Text
field_values key [] = []
field_values key ((k, v) ∷ form) = elim (text_eq k key) [
  | true ↦ v ∷ field_values key form
  | false ↦ field_values key form
]

abbrev pub sent_ids : Option Form → List ℤ
sent_ids none = []
sent_ids (some form) = map read_i64 (field_values (codes "jobs") form)

ids_pairs_of :
    (ids : List ℤ)
    → All IsI64 ids
    → map read_i64 (field_values (codes "jobs") (pairs_of (codes "jobs") ids)) ≡ ids
ids_pairs_of [] h = refl
ids_pairs_of (z ∷ ids) (p, h) = rw (read_i64-show_i64 z p, ids_pairs_of ids h) refl

field_values_last :
    (key v : Text) (form : Form)
    → text_eq key (codes "jobs") ≡ false
    → field_values (codes "jobs") (form ++ (key, v) ∷ []) ≡ field_values (codes "jobs") form
field_values_last key v [] e = ap (λ b. elim b [ true ↦ v ∷ [] | false ↦ [] ]) e
field_values_last key v ((k, w) ∷ form) e =
    ap (λ r. elim (text_eq k (codes "jobs")) [ true ↦ w ∷ r | false ↦ r ])
      (field_values_last key v form e)

push_opt_other :
    (key : Text) (value : Option Text) (form : Form)
    → text_eq key (codes "jobs") ≡ false
    → field_values (codes "jobs") (push_opt key value form) ≡ field_values (codes "jobs") form
push_opt_other key none form e = refl
push_opt_other key (some v) form e = field_values_last key v form e

bounded_ok :
    {A : Type 0} (field : Text) (n least most : ℕ) (rest : Result A Invalid) {a : A}
    → (bounded field n least most >> rest) ≡ ok a
    → (least ≤ n) × (n ≤ most) × (rest ≡ ok a)
unfolding bounded
bounded_ok field n least most rest e = elim (Bool-cases (ltb n least)) [
  | inl few ↦ absurd (ground arith)
  | inr enough ↦ elim (Bool-cases (ltb most n)) [
    | inl many ↦ absurd (ground arith)
    | inr fits ↦ (ground arith, ground arith, ground arith)
  ]
]

-- A restart that is sent is for 1 to 500 jobs, and the form carries the id of each, in order.
pub restart_jobs_lem :
    {Client : Type 0} (resolve : Text → Option Client) (args : RestartJobs) {client : Client}
    {request : Request}
    → All IsI64 args.job_ids
    → restart_jobs resolve args ≡ ok (client, request)
    → (resolve args.server ≡ some client)
      × (1 ≤ length args.job_ids)
      × (length args.job_ids ≤ 500)
      × (request.method ≡ post)
      × (sent_ids request.form ≡ args.job_ids)
unfolding restart_jobs resolve_server bounded
restart_jobs_lem resolve args h e =
    let (c, found, sent) = >>=-eq-ok (resolve_server resolve args.server) _ e in
    let (least, most, same) = bounded_ok (codes "job_ids") (length args.job_ids) 1 500 _ sent in
    let reply = ok-injective same in
    (
      ok_or-eq-ok (resolve args.server) (unknown_server args.server) found
          ∙ ap some (ap (λ r. r.0) reply),
      least,
      most,
      sym (ap (λ r. r.1.method) reply),
      sym (ap (λ r. sent_ids r.1.form) reply)
          ∙ ap (λ vs. map read_i64 vs)
              (push_opt_other (codes "prio") (shown args.prio) _ refl
                ∙ push_opt_other (codes "force") (shown args.force) _ refl)
          ∙ ids_pairs_of args.job_ids h,
    )
