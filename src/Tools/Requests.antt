-- ===== src/Tools/Requests.antt =====
-- The bodies of the 15 mutating tools, src/tools/write.rs, up to the request that each sends: the
-- client it goes to and what it says, or the refusal.
pub mod IsoNames
pub mod IsoKeys
pub mod Segment
pub mod Filters
pub mod Restart
use ruoqa_mcp.Common.{
  ℕ, zero, suc, ◌+◌, ◌-◌, ◌*◌, ◌/◌, ◌%◌, ◌^◌, ◌≤◌, ◌<◌, min, max, String, ◌≡◌, refl, sym, ap, ◌∙◌,
  subst, ◌≢◌, ◌↔◌, ◌⊎◌, inl, inr, Bool, true, false, ◌&&◌, ◌||◌, not, Option, none, some, List, [],
  ◌∷◌, ◌++◌, map, reverse, append-nil, append_assoc, arith, str_eq, eq_iff, ltb, leb, ◌==◌,
  if◌then◌else◌, ltb→lt, lt→ltb, leb→le, ==_iff, Bool-cases, Option-cases, is_some, is_none,
  unwrap_or, length, get_elem?, take, drop, replicate, any, all, length-append, all-append, All,
  All-append, take-append-drop, length-take, length-drop, take_append, drop_append, length-map,
  filter_map, filter, Result, ok, err, ◌>>=◌, ◌>>◌, map_err, ok_or, is_ok, Result-cases, >>=-eq-ok,
}
use ruoqa_mcp.Common.Text.{Text, codes}
use ruoqa_mcp.Common.Int.{ℤ}
use ruoqa_mcp.Common.Decimal.{show_i64}
use ruoqa_mcp.Tools.{
  Invalid, unknown_server, bad_name, no_filter, max_restart_jobs, max_extra_entries, bounded, api,
  Query, Form, push, finish, push_field, push_opt, push_each, Method, get, post, put, delete,
  Request, is_empty as no_pairs,
}
use ruoqa_mcp.Tools.Write.{
  RestartJobs, JobId, JobComment, TriggerIsos, DuplicateJob, SetJobPriority, CancelJobs,
  GroupComment, ParentGroupComment, UpdateJobComment, DeleteJobComment, CreateBug,
  CancelScheduledProduct, nonblank, check_extra_keys, segment_set, refused_name,
}

abbrev pub shown : Option ℤ → Option Text
shown none = none
shown (some n) = some (show_i64 n)

-- `request_json` and `request_form`.
abbrev pub request_json : Method → Text → Request
request_json m p = record { method = m; path = p; form = none }

abbrev pub request_form : Method → Text → Form → Request
request_form m p f = record { method = m; path = p; form = some f }

-- A path with a number between two pieces, and that of a comment.
abbrev pub numbered : String → ℤ → String → Text
numbered front n back = codes front ++ (show_i64 n ++ codes back)

abbrev pub comment_path : ℤ → ℤ → Text
comment_path job_id comment_id = numbered "jobs/" job_id "/comments/" ++ show_i64 comment_id

unfoldable pub cancel_query : CancelJobs → Query
cancel_query args = push (codes "group") (nonblank args.group) (
    push (codes "groupid") (shown args.groupid) (
      push (codes "machine") (nonblank args.machine) (
        push (codes "arch") (nonblank args.arch) (
          push (codes "test") (nonblank args.test) (
            push (codes "build") (nonblank args.build) (
              push (codes "version") (nonblank args.version) (
                push (codes "distri") (nonblank args.distri) (
                  push (codes "result") (nonblank args.result)
                    (push (codes "state") (nonblank args.state) [])))))))))

abbrev pub push_entries : List (Text × Text) → Form → Form
push_entries [] form = form
push_entries ((k, v) ∷ extra) form = push_entries extra (push_field k v form)

unfoldable pub iso_form : TriggerIsos → Form
iso_form args = push_entries (unwrap_or args.extra []) (
    push_field (codes "ARCH") args.arch (
      push_field (codes "FLAVOR") args.flavor
        (push_field (codes "VERSION") args.version (push_field (codes "DISTRI") args.distri []))))

abbrev pub check_extra : Option (List (Text × Text)) → Result (Unit {0}) Invalid
check_extra none = ok tt
check_extra (some extra) = check_extra_keys extra

unfoldable pub path_segment : (Text → (ℕ → Bool) → Text) → Text → Result Text Invalid
path_segment utf8_percent_encode value =
    if refused_name value then err bad_name else ok (utf8_percent_encode value segment_set)

-- `resolve` is that of the registry.
module _ {Client : Type 0} (resolve : Text → Option Client) where
  unfoldable pub resolve_server : Text → Result Client Invalid
  resolve_server selector = ok_or (resolve selector) (unknown_server selector)

  -- The request, to the server that the arguments name.
  abbrev pub to_server : Text → Request → Result (Client × Request) Invalid
  to_server server request = resolve_server server >>= λ client. ok (client, request)

  unfoldable pub restart_jobs : RestartJobs → Result (Client × Request) Invalid
  restart_jobs args = resolve_server args.server >>= λ client.
      bounded (codes "job_ids") (length args.job_ids) 1 max_restart_jobs
      >> ok (
        client,
        request_form post (api (codes "jobs/restart")) (
            push_opt (codes "prio") (shown args.prio) (
              push_opt (codes "force") (shown args.force)
                (push_each (codes "jobs") args.job_ids []))),
      )

  unfoldable pub cancel_job : JobId → Result (Client × Request) Invalid
  cancel_job args =
      to_server args.server (request_json post (api (numbered "jobs/" args.job_id "/cancel")))

  unfoldable pub add_job_comment : JobComment → Result (Client × Request) Invalid
  add_job_comment args = to_server args.server (
      request_form post (api (numbered "jobs/" args.job_id "/comments"))
        (push_field (codes "text") args.text []))

  unfoldable pub trigger_isos : TriggerIsos → Result (Client × Request) Invalid
  trigger_isos args = resolve_server args.server >>= λ client.
      bounded (codes "extra") (length (unwrap_or args.extra [])) 0 max_extra_entries
      >> (check_extra args.extra
          >> ok (client, request_form post (api (codes "isos")) (iso_form args)))

  unfoldable pub delete_job : JobId → Result (Client × Request) Invalid
  delete_job args =
      to_server args.server (request_json delete (api (numbered "jobs/" args.job_id "")))

  unfoldable pub duplicate_job : DuplicateJob → Result (Client × Request) Invalid
  duplicate_job args = to_server args.server (
      request_form post (api (numbered "jobs/" args.job_id "/duplicate")) (
        push_opt (codes "dup_type_auto") (shown args.dup_type_auto)
          (push_opt (codes "prio") (shown args.prio) [])))

  unfoldable pub set_job_priority : SetJobPriority → Result (Client × Request) Invalid
  set_job_priority args = to_server args.server (
      request_form post (api (numbered "jobs/" args.job_id "/prio"))
        (push_field (codes "prio") (show_i64 args.prio) []))

  unfoldable pub cancel_jobs :
      (List (Text × Text) → Text) → CancelJobs → Result (Client × Request) Invalid
  cancel_jobs serialize args = resolve_server args.server >>= λ client.
      if no_pairs (cancel_query args)
      then err no_filter
      else ok (
        client,
        request_json post (finish serialize (api (codes "jobs/cancel")) (cancel_query args)),
      )

  unfoldable pub add_group_comment : GroupComment → Result (Client × Request) Invalid
  add_group_comment args = to_server args.server (
      request_form post (api (numbered "groups/" args.group_id "/comments"))
        (push_field (codes "text") args.text []))

  unfoldable pub add_parent_group_comment : ParentGroupComment → Result (Client × Request) Invalid
  add_parent_group_comment args = to_server args.server (
      request_form post (api (numbered "parent_groups/" args.parent_group_id "/comments"))
        (push_field (codes "text") args.text []))

  unfoldable pub update_job_comment : UpdateJobComment → Result (Client × Request) Invalid
  update_job_comment args = to_server args.server (
      request_form put (api (comment_path args.job_id args.comment_id))
        (push_field (codes "text") args.text []))

  unfoldable pub delete_job_comment : DeleteJobComment → Result (Client × Request) Invalid
  delete_job_comment args =
      to_server args.server (request_json delete (api (comment_path args.job_id args.comment_id)))

  unfoldable pub create_bug : CreateBug → Result (Client × Request) Invalid
  create_bug args = to_server args.server (
      request_form post (api (codes "bugs"))
        (push_opt (codes "title") args.title (push_field (codes "bugid") args.bugid [])))

  unfoldable pub cancel_scheduled_product :
      (Text → (ℕ → Bool) → Text) → CancelScheduledProduct → Result (Client × Request) Invalid
  cancel_scheduled_product utf8_percent_encode args = resolve_server args.server >>= λ client.
      path_segment utf8_percent_encode args.name >>= λ name.
      ok (client, request_json post (api (codes "isos/" ++ (name ++ codes "/cancel"))))
