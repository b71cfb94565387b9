-- ===== src/Tools/Queries/Reading.antt =====
-- What the reading tools of one request to the API send. These are the tools of src/tools/read.rs but
-- for `list_job_logs`, `list_job_log_members`, `get_job_log`, `get_job_log_errors` and
-- `get_step_needles`, which send several or ask for paths outside the API, and `list_servers`, which
-- sends none.
use ruoqa_mcp.Common.{
  ℕ, ◌≡◌, refl, ap, ◌∙◌, subst, true, Option, none, some, List, [], ◌∷◌, Result, ok, >>=-eq-ok,
  ok-injective, ok_or-eq-ok, >>-eq-ok,
}
use ruoqa_mcp.Common.Text.{Text, codes, starts_with}
use ruoqa_mcp.Common.Int.{ℤ}
use ruoqa_mcp.Tools.{Invalid, max_ids, bounded, api, Query, finish, get, Request, unknown_server}
use ruoqa_mcp.Tools.Write.{JobId}
use ruoqa_mcp.Tools.Read.{
  ListJobsArgs, ListJobsOverviewArgs, GetJob, FindJobsBySetting, JobStatus, GroupId, BuildResults,
  AssetId, Search, ScheduledProductId, ParentGroupId, ServerOnly, ListWorkers,
}
use ruoqa_mcp.Tools.Requests.{request_json, resolve_server, to_server}
use ruoqa_mcp.Tools.Queries.{
  list_jobs, list_jobs_overview, get_job, find_jobs_by_setting, get_job_status,
  get_job_group_build_results, list_workers, search, list_machines, list_test_suites, list_products,
  list_job_groups, list_parent_groups, list_assets, list_bugs, get_iso_job_stats, get_job_comments,
  get_job_details, get_job_group, list_job_group_jobs, get_parent_group, get_asset,
  get_scheduled_product, list_group_comments, list_parent_group_comments, get_bounded, length_of,
}

-- A call of one of these 25 tools, with its arguments.
pub data ApiRead : Type 0 where
  list_jobs_call : ListJobsArgs → ApiRead
  list_jobs_overview_call : ListJobsOverviewArgs → ApiRead
  get_job_call : GetJob → ApiRead
  find_jobs_by_setting_call : FindJobsBySetting → ApiRead
  get_job_status_call : JobStatus → ApiRead
  get_job_group_build_results_call : BuildResults → ApiRead
  list_workers_call : ListWorkers → ApiRead
  search_call : Search → ApiRead
  list_machines_call : ServerOnly → ApiRead
  list_test_suites_call : ServerOnly → ApiRead
  list_products_call : ServerOnly → ApiRead
  list_job_groups_call : ServerOnly → ApiRead
  list_parent_groups_call : ServerOnly → ApiRead
  list_assets_call : ServerOnly → ApiRead
  list_bugs_call : ServerOnly → ApiRead
  get_iso_job_stats_call : ServerOnly → ApiRead
  get_job_comments_call : JobId → ApiRead
  get_job_details_call : JobId → ApiRead
  get_job_group_call : GroupId → ApiRead
  list_job_group_jobs_call : GroupId → ApiRead
  get_parent_group_call : GroupId → ApiRead
  get_asset_call : AssetId → ApiRead
  get_scheduled_product_call : ScheduledProductId → ApiRead
  list_group_comments_call : GroupId → ApiRead
  list_parent_group_comments_call : ParentGroupId → ApiRead

abbrev pub server_of : ApiRead → Text
server_of (list_jobs_call args) = args.server
server_of (list_jobs_overview_call args) = args.server
server_of (get_job_call args) = args.server
server_of (find_jobs_by_setting_call args) = args.server
server_of (get_job_status_call args) = args.server
server_of (get_job_group_build_results_call args) = args.server
server_of (list_workers_call args) = args.server
server_of (search_call args) = args.server
server_of (list_machines_call args) = args.server
server_of (list_test_suites_call args) = args.server
server_of (list_products_call args) = args.server
server_of (list_job_groups_call args) = args.server
server_of (list_parent_groups_call args) = args.server
server_of (list_assets_call args) = args.server
server_of (list_bugs_call args) = args.server
server_of (get_iso_job_stats_call args) = args.server
server_of (get_job_comments_call args) = args.server
server_of (get_job_details_call args) = args.server
server_of (get_job_group_call args) = args.server
server_of (list_job_group_jobs_call args) = args.server
server_of (get_parent_group_call args) = args.server
server_of (get_asset_call args) = args.server
server_of (get_scheduled_product_call args) = args.server
server_of (list_group_comments_call args) = args.server
server_of (list_parent_group_comments_call args) = args.server

-- A request that reads: a GET without a form, below the root of the API.
pub record IsRead (r : Request) : Type 0 where
  pub method : r.method ≡ get
  pub form : r.form ≡ none
  pub path : starts_with (codes "/api/v1/") r.path ≡ true

request_json-IsRead :
    (p : Text) → starts_with (codes "/api/v1/") p ≡ true → IsRead (request_json get p)
request_json-IsRead p h = record { method = refl; form = refl; path = h }

api_prefix : (p : Text) → starts_with (codes "/api/v1/") (api p) ≡ true
unfolding api
api_prefix p = refl

finish_prefix :
    (serialize : List (Text × Text) → Text) (p : Text) (query : Query)
    → starts_with (codes "/api/v1/") (finish serialize (api p) query) ≡ true
unfolding api finish
finish_prefix serialize p [] = refl
finish_prefix serialize p (q ∷ qs) = refl

module _ {Client : Type 0} (resolve : Text → Option Client) (serialize : List (Text × Text) → Text)
    (show_f64 : ℕ → Text) where
  -- The tool of a call.
  abbrev pub route : ApiRead → Result (Client × Request) Invalid
  route (list_jobs_call args) = list_jobs resolve serialize show_f64 args
  route (list_jobs_overview_call args) = list_jobs_overview resolve serialize show_f64 args
  route (get_job_call args) = get_job resolve serialize show_f64 args
  route (find_jobs_by_setting_call args) = find_jobs_by_setting resolve serialize show_f64 args
  route (get_job_status_call args) = get_job_status resolve serialize show_f64 args
  route (get_job_group_build_results_call args) =
      get_job_group_build_results resolve serialize show_f64 args
  route (list_workers_call args) = list_workers resolve serialize show_f64 args
  route (search_call args) = search resolve serialize show_f64 args
  route (list_machines_call args) = list_machines resolve serialize show_f64 args
  route (list_test_suites_call args) = list_test_suites resolve serialize show_f64 args
  route (list_products_call args) = list_products resolve serialize show_f64 args
  route (list_job_groups_call args) = list_job_groups resolve serialize show_f64 args
  route (list_parent_groups_call args) = list_parent_groups resolve serialize show_f64 args
  route (list_assets_call args) = list_assets resolve serialize show_f64 args
  route (list_bugs_call args) = list_bugs resolve serialize show_f64 args
  route (get_iso_job_stats_call args) = get_iso_job_stats resolve serialize show_f64 args
  route (get_job_comments_call args) = get_job_comments resolve serialize show_f64 args
  route (get_job_details_call args) = get_job_details resolve serialize show_f64 args
  route (get_job_group_call args) = get_job_group resolve serialize show_f64 args
  route (list_job_group_jobs_call args) = list_job_group_jobs resolve serialize show_f64 args
  route (get_parent_group_call args) = get_parent_group resolve serialize show_f64 args
  route (get_asset_call args) = get_asset resolve serialize show_f64 args
  route (get_scheduled_product_call args) = get_scheduled_product resolve serialize show_f64 args
  route (list_group_comments_call args) = list_group_comments resolve serialize show_f64 args
  route (list_parent_group_comments_call args) =
      list_parent_group_comments resolve serialize show_f64 args

  to_server-IsRead :
      (server p : Text) {client : Client} {request : Request}
      → starts_with (codes "/api/v1/") p ≡ true
      → to_server resolve server (request_json get p) ≡ ok (client, request)
      → (resolve server ≡ some client) × IsRead request
  unfolding resolve_server
  to_server-IsRead server p h e =
      let (c, found, made) = >>=-eq-ok (resolve_server resolve server) _ e in
      let same = ok-injective made in
      (
        ok_or-eq-ok (resolve server) (unknown_server server) found ∙ ap some (ap (λ t. t.0) same),
        subst IsRead (ap (λ t. t.1) same) (request_json-IsRead p h),
      )

  bounded-IsRead :
      (server p : Text) (ids : Option (List ℤ)) (query : Query) {client : Client}
      {request : Request}
      → get_bounded resolve serialize show_f64 server ids p query ≡ ok (client, request)
      → (resolve server ≡ some client) × IsRead request
  unfolding resolve_server
  bounded-IsRead server p ids query e =
      let (c, found, checked) = >>=-eq-ok (resolve_server resolve server) _ e in
      let (_, made) = >>-eq-ok (bounded (codes "ids") (length_of ids) 0 max_ids) _ checked in
      let same = ok-injective made in
      (
        ok_or-eq-ok (resolve server) (unknown_server server) found ∙ ap some (ap (λ t. t.0) same),
        subst IsRead (ap (λ t. t.1) same) (request_json-IsRead _ (finish_prefix serialize p query)),
      )

  -- Each of the 25 reading tools of one request to the API, whatever its arguments, sends nothing but
  -- a GET without a form, to a path below `/api/v1/`, and to the server that its caller named. The
  -- tools on a job's log files and needles and `list_servers` are not among them.
  pub route-IsRead :
      (call : ApiRead) {client : Client} {request : Request}
      → route call ≡ ok (client, request)
      → (resolve (server_of call) ≡ some client) × IsRead request
  unfolding list_jobs list_jobs_overview get_job find_jobs_by_setting get_job_status
      get_job_group_build_results list_workers search list_machines list_test_suites list_products
      list_job_groups list_parent_groups list_assets list_bugs get_iso_job_stats get_job_comments
      get_job_details get_job_group list_job_group_jobs get_parent_group get_asset
      get_scheduled_product list_group_comments list_parent_group_comments
  route-IsRead (list_jobs_call args) e = bounded-IsRead args.server _ args.ids _ e
  route-IsRead (list_jobs_overview_call args) e = bounded-IsRead args.server _ args.ids _ e
  route-IsRead (get_job_call args) e =
      to_server-IsRead args.server _ (finish_prefix serialize _ _) e
  route-IsRead (find_jobs_by_setting_call args) e =
      to_server-IsRead args.server _ (finish_prefix serialize _ _) e
  route-IsRead (get_job_status_call args) e =
      to_server-IsRead args.server _ (finish_prefix serialize _ _) e
  route-IsRead (get_job_group_build_results_call args) e =
      to_server-IsRead args.server _ (finish_prefix serialize _ _) e
  route-IsRead (list_workers_call args) e =
      to_server-IsRead args.server _ (finish_prefix serialize _ _) e
  route-IsRead (search_call args) e = to_server-IsRead args.server _ (finish_prefix serialize _ _) e
  route-IsRead (list_machines_call args) e = to_server-IsRead args.server _ (api_prefix _) e
  route-IsRead (list_test_suites_call args) e = to_server-IsRead args.server _ (api_prefix _) e
  route-IsRead (list_products_call args) e = to_server-IsRead args.server _ (api_prefix _) e
  route-IsRead (list_job_groups_call args) e = to_server-IsRead args.server _ (api_prefix _) e
  route-IsRead (list_parent_groups_call args) e = to_server-IsRead args.server _ (api_prefix _) e
  route-IsRead (list_assets_call args) e = to_server-IsRead args.server _ (api_prefix _) e
  route-IsRead (list_bugs_call args) e = to_server-IsRead args.server _ (api_prefix _) e
  route-IsRead (get_iso_job_stats_call args) e = to_server-IsRead args.server _ (api_prefix _) e
  route-IsRead (get_job_comments_call args) e = to_server-IsRead args.server _ (api_prefix _) e
  route-IsRead (get_job_details_call args) e = to_server-IsRead args.server _ (api_prefix _) e
  route-IsRead (get_job_group_call args) e = to_server-IsRead args.server _ (api_prefix _) e
  route-IsRead (list_job_group_jobs_call args) e = to_server-IsRead args.server _ (api_prefix _) e
  route-IsRead (get_parent_group_call args) e = to_server-IsRead args.server _ (api_prefix _) e
  route-IsRead (get_asset_call args) e = to_server-IsRead args.server _ (api_prefix _) e
  route-IsRead (get_scheduled_product_call args) e = to_server-IsRead args.server _ (api_prefix _) e
  route-IsRead (list_group_comments_call args) e = to_server-IsRead args.server _ (api_prefix _) e
  route-IsRead (list_parent_group_comments_call args) e =
      to_server-IsRead args.server _ (api_prefix _) e
