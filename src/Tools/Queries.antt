-- ===== src/Tools/Queries.antt =====
-- The reading tools that send one request, src/tools/read.rs, up to that request. The serializer of
-- queries, the printing of a double and the registry are parameters. What the two job lists make of
-- the reply is in Tools/Summary.
pub mod Reading
use ruoqa_mcp.Common.{
  ℕ, zero, suc, ◌+◌, ◌-◌, ◌*◌, ◌/◌, ◌%◌, ◌^◌, ◌≤◌, ◌<◌, min, max, String, ◌≡◌, refl, sym, ap, ◌∙◌,
  subst, ◌≢◌, ◌↔◌, ◌⊎◌, inl, inr, Bool, true, false, ◌&&◌, ◌||◌, not, Option, none, some, List, [],
  ◌∷◌, ◌++◌, map, reverse, append-nil, append_assoc, arith, str_eq, eq_iff, ltb, leb, ◌==◌,
  if◌then◌else◌, ltb→lt, lt→ltb, leb→le, ==_iff, Bool-cases, Option-cases, is_some, is_none,
  unwrap_or, length, get_elem?, take, drop, replicate, any, all, length-append, all-append, All,
  All-append, take-append-drop, length-take, length-drop, take_append, drop_append, length-map,
  filter_map, filter, filter_kept, filter_left_out, Result, ok, err, ◌>>=◌, ◌>>◌, map_err, ok_or,
  is_ok, Result-cases, >>=-eq-ok, ok-injective, ok_or-eq-ok, >>-eq-ok, if_err_lem, if_none_lem,
}
use ruoqa_mcp.Common.Text.{Text, codes}
use ruoqa_mcp.Common.Int.{ℤ, pos}
use ruoqa_mcp.Common.Decimal.{show_i64}
use ruoqa_mcp.Tools.{Invalid, max_ids, bounded, api, Query, push, push_all, finish, get, Request}
use ruoqa_mcp.Tools.Write.{JobId}
use ruoqa_mcp.Tools.Read.{
  ListJobsArgs, ListJobsOverviewArgs, GetJob, FindJobsBySetting, JobStatus, GroupId, BuildResults,
  AssetId, Search, ScheduledProductId, ParentGroupId, ServerOnly, ListWorkers,
}
use ruoqa_mcp.Tools.Requests.{request_json, numbered, shown, resolve_server, to_server}

-- `then_some(1)`, and `i64::from` of a flag.
abbrev pub set_only : Option Bool → Option ℤ
set_only (some true) = some (pos 1)
set_only _ = none

abbrev pub flag : Option Bool → Option ℤ
flag none = none
flag (some true) = some (pos 1)
flag (some false) = some (pos 0)

abbrev pub length_of : Option (List ℤ) → ℕ
length_of none = 0
length_of (some ids) = length ids

unfoldable pub list_jobs_query : ListJobsArgs → Query
list_jobs_query args = push_all (codes "ids") args.ids (
    push (codes "offset") (shown args.offset) (
      push (codes "limit") (shown args.limit) (
        push (codes "latest") (shown args.latest) (
          push (codes "group") args.group (
            push (codes "groupid") (shown args.groupid) (
              push (codes "machine") args.machine (
                push (codes "arch") args.arch (
                  push (codes "test") args.test (
                    push (codes "build") args.build (
                      push (codes "version") args.version (
                        push (codes "distri") args.distri (
                          push (codes "result") args.result
                            (push (codes "state") args.state [])))))))))))))

unfoldable pub list_jobs_overview_query : ListJobsOverviewArgs → Query
list_jobs_overview_query args = push_all (codes "ids") args.ids (
    push (codes "limit") (shown args.limit) (
      push (codes "latest") (shown args.latest) (
        push (codes "group") args.group (
          push (codes "groupid") (shown args.groupid) (
            push (codes "machine") args.machine (
              push (codes "arch") args.arch (
                push (codes "test") args.test (
                  push (codes "build") args.build (
                    push (codes "version") args.version (
                      push (codes "distri") args.distri (
                        push (codes "result") args.result
                          (push (codes "state") args.state []))))))))))))

module _ {Client : Type 0} (resolve : Text → Option Client) (serialize : List (Text × Text) → Text)
    (show_f64 : ℕ → Text) where
  -- A GET of a path with a query, to the server that the arguments name.
  abbrev pub get_query : Text → Text → Query → Result (Client × Request) Invalid
  get_query server path query =
      to_server resolve server (request_json get (finish serialize (api path) query))

  abbrev pub get_path : Text → Text → Result (Client × Request) Invalid
  get_path server path = to_server resolve server (request_json get (api path))

  -- The same, once the number of ids has been checked.
  abbrev pub get_bounded : Text → Option (List ℤ) → Text → Query → Result (Client × Request) Invalid
  get_bounded server ids path query = resolve_server resolve server >>= λ client.
      bounded (codes "ids") (length_of ids) 0 max_ids
      >> ok (client, request_json get (finish serialize (api path) query))

  unfoldable pub list_jobs : ListJobsArgs → Result (Client × Request) Invalid
  list_jobs args = get_bounded args.server args.ids (codes "jobs") (list_jobs_query args)

  unfoldable pub list_jobs_overview : ListJobsOverviewArgs → Result (Client × Request) Invalid
  list_jobs_overview args =
      get_bounded args.server args.ids (codes "jobs/overview") (list_jobs_overview_query args)

  unfoldable pub get_job : GetJob → Result (Client × Request) Invalid
  get_job args = get_query args.server (numbered "jobs/" args.job_id "") (
      push (codes "descendants") (shown (set_only args.descendants))
        (push (codes "ancestors") (shown (set_only args.ancestors)) []))

  unfoldable pub find_jobs_by_setting : FindJobsBySetting → Result (Client × Request) Invalid
  find_jobs_by_setting args =
      get_query args.server (codes "job_settings/jobs")
        (push (codes "list_value") (some args.list_value) (push (codes "key") (some args.key) []))

  unfoldable pub get_job_status : JobStatus → Result (Client × Request) Invalid
  get_job_status args =
      get_query args.server (numbered "experimental/jobs/" args.job_id "/status")
        (push (codes "follow") (shown args.follow) [])

  abbrev shown_double : Option ℕ → Option Text
  shown_double none = none
  shown_double (some bits) = some (show_f64 bits)

  unfoldable pub get_job_group_build_results : BuildResults → Result (Client × Request) Invalid
  get_job_group_build_results args =
      get_query args.server (numbered "job_groups/" args.group_id "/build_results") (
        push (codes "show_tags") (shown args.show_tags) (
          push (codes "only_tagged") (shown args.only_tagged) (
            push (codes "time_limit_days") (shown_double args.time_limit_days)
              (push (codes "limit_builds") (shown args.limit_builds) []))))

  unfoldable pub list_workers : ListWorkers → Result (Client × Request) Invalid
  list_workers args = get_query args.server (codes "workers") (
      push (codes "offset") (shown args.offset) (
        push (codes "limit") (shown args.limit)
          (push (codes "reserved") (shown (flag args.reserved)) [])))

  unfoldable pub search : Search → Result (Client × Request) Invalid
  search args =
      get_query args.server (codes "experimental/search") (push (codes "q") (some args.q) [])

  unfoldable pub list_machines : ServerOnly → Result (Client × Request) Invalid
  list_machines args = get_path args.server (codes "machines")

  unfoldable pub list_test_suites : ServerOnly → Result (Client × Request) Invalid
  list_test_suites args = get_path args.server (codes "test_suites")

  unfoldable pub list_products : ServerOnly → Result (Client × Request) Invalid
  list_products args = get_path args.server (codes "products")

  unfoldable pub list_job_groups : ServerOnly → Result (Client × Request) Invalid
  list_job_groups args = get_path args.server (codes "job_groups")

  unfoldable pub list_parent_groups : ServerOnly → Result (Client × Request) Invalid
  list_parent_groups args = get_path args.server (codes "parent_groups")

  unfoldable pub list_assets : ServerOnly → Result (Client × Request) Invalid
  list_assets args = get_path args.server (codes "assets")

  unfoldable pub list_bugs : ServerOnly → Result (Client × Request) Invalid
  list_bugs args = get_path args.server (codes "bugs")

  unfoldable pub get_iso_job_stats : ServerOnly → Result (Client × Request) Invalid
  get_iso_job_stats args = get_path args.server (codes "isos/job_stats")

  unfoldable pub get_job_comments : JobId → Result (Client × Request) Invalid
  get_job_comments args = get_path args.server (numbered "jobs/" args.job_id "/comments")

  unfoldable pub get_job_details : JobId → Result (Client × Request) Invalid
  get_job_details args = get_path args.server (numbered "jobs/" args.job_id "/details")

  unfoldable pub get_job_group : GroupId → Result (Client × Request) Invalid
  get_job_group args = get_path args.server (numbered "job_groups/" args.group_id "")

  unfoldable pub list_job_group_jobs : GroupId → Result (Client × Request) Invalid
  list_job_group_jobs args = get_path args.server (numbered "job_groups/" args.group_id "/jobs")

  unfoldable pub get_parent_group : GroupId → Result (Client × Request) Invalid
  get_parent_group args = get_path args.server (numbered "parent_groups/" args.group_id "")

  unfoldable pub get_asset : AssetId → Result (Client × Request) Invalid
  get_asset args = get_path args.server (numbered "assets/" args.asset_id "")

  unfoldable pub get_scheduled_product : ScheduledProductId → Result (Client × Request) Invalid
  get_scheduled_product args = get_path args.server (numbered "isos/" args.scheduled_product_id "")

  unfoldable pub list_group_comments : GroupId → Result (Client × Request) Invalid
  list_group_comments args = get_path args.server (numbered "groups/" args.group_id "/comments")

  unfoldable pub list_parent_group_comments : ParentGroupId → Result (Client × Request) Invalid
  list_parent_group_comments args =
      get_path args.server (numbered "parent_groups/" args.parent_group_id "/comments")
