-- ===== src/Tools/Requests/Filters.antt =====
-- The filters of `cancel_jobs`.
use ruoqa_mcp.Common.{
  ◌≡◌, refl, sym, ap, ◌⊎◌, inl, inr, Bool, true, false, not, Option, none, some, List, [], ◌∷◌,
  ◌++◌, map, append-nil, append_assoc, arith, if◌then◌else◌, Bool-cases, any, filter, filter_kept,
  filter_left_out, Result, ok, err,
}
use ruoqa_mcp.Common.Text.{Text, codes, trim, is_empty}
use ruoqa_mcp.Common.Int.{ℤ}
use ruoqa_mcp.Common.Decimal.{show_i64}
use ruoqa_mcp.Tools.{
  Query, push, finish, api, no_filter, post, Invalid, Request, is_empty as no_pairs,
}
use ruoqa_mcp.Tools.Write.{CancelJobs, nonblank}
use ruoqa_mcp.Tools.Requests.{cancel_query, resolve_server, cancel_jobs, shown, request_json}

-- A filter: by a text, or by the id of a group.
pub data Filter : Type 0 where
  by_text : Text → Option Text → Filter
  by_id : Text → Option ℤ → Filter

abbrev pub filters : CancelJobs → List Filter
filters args =
    by_text (codes "state") args.state
    ∷ by_text (codes "result") args.result
    ∷ by_text (codes "distri") args.distri
    ∷ by_text (codes "version") args.version
    ∷ by_text (codes "build") args.build
    ∷ by_text (codes "test") args.test
    ∷ by_text (codes "arch") args.arch
    ∷ by_text (codes "machine") args.machine
    ∷ by_id (codes "groupid") args.groupid
    ∷ by_text (codes "group") args.group
    ∷ []

-- A filter that counts: a text that is not blank, or an id.
abbrev pub is_set : Filter → Bool
is_set (by_text key none) = false
is_set (by_text key (some value)) = not (is_empty (trim value))
is_set (by_id key none) = false
is_set (by_id key (some id)) = true

abbrev pub pair : Filter → Text × Text
pair (by_text key none) = (key, [])
pair (by_text key (some value)) = (key, value)
pair (by_id key none) = (key, [])
pair (by_id key (some id)) = (key, show_i64 id)

-- The pairs that openQA should get.
abbrev pub wanted : CancelJobs → List (Text × Text)
wanted args = map pair (filter is_set (filters args))

abbrev add_filters : List Filter → Query → Query
add_filters [] query = query
add_filters (by_text key value ∷ fs) query = add_filters fs (push key (nonblank value) query)
add_filters (by_id key value ∷ fs) query = add_filters fs (push key (shown value) query)

add_filters_lem :
    (fs : List Filter) (query : Query) → add_filters fs query ≡ query ++ map pair (filter is_set fs)
add_filters_lem [] query = sym (append-nil query)
add_filters_lem (by_text key none ∷ fs) query = add_filters_lem fs query
add_filters_lem (by_text key (some v) ∷ fs) query = elim (Bool-cases (is_empty (trim v))) [
  | inl e ↦
      rw
        (
          e,
          add_filters_lem fs query,
          filter_left_out is_set {x = by_text key (some v)} fs (ap not e),
        )
        refl
  | inr e ↦
      rw
        (
          e,
          filter_kept is_set {x = by_text key (some v)} fs (ap not e),
          add_filters_lem fs (query ++ (key, v) ∷ []),
          append_assoc query ((key, v) ∷ []) (map pair (filter is_set fs)),
        )
        refl
]
add_filters_lem (by_id key none ∷ fs) query = add_filters_lem fs query
add_filters_lem (by_id key (some n) ∷ fs) query =
    rw
      (
        add_filters_lem fs (query ++ (key, show_i64 n) ∷ []),
        append_assoc query ((key, show_i64 n) ∷ []) (map pair (filter is_set fs)),
      )
      refl

cancel_query_lem : (args : CancelJobs) → cancel_query args ≡ wanted args
unfolding cancel_query
cancel_query_lem args = add_filters_lem (filters args) []

no_pairs-filter : (fs : List Filter) → no_pairs (map pair (filter is_set fs)) ≡ not (any is_set fs)
no_pairs-filter [] = refl
no_pairs-filter (f ∷ fs) = elim (Bool-cases (is_set f)) [
  | inl e ↦ rw (filter_kept is_set {x = f} fs e, e) refl
  | inr e ↦ rw (filter_left_out is_set {x = f} fs e, e, no_pairs-filter fs) refl
]

-- At a configured server, the jobs to cancel are never all of them: without a filter that is set
-- and not blank the call is refused, and else the request says these filters, in order, and no others.
pub cancel_jobs_lem :
    {Client : Type 0} (resolve : Text → Option Client) (serialize : List (Text × Text) → Text)
    (args : CancelJobs) {client : Client}
    → resolve args.server ≡ some client
    → ((any is_set (filters args) ≡ false) × (cancel_jobs resolve serialize args ≡ err no_filter))
      ⊎ ((any is_set (filters args) ≡ true)
          × (cancel_jobs resolve serialize args
              ≡ ok (
                client,
                record {
                  method = post;
                  path = codes "/api/v1/jobs/cancel?" ++ serialize (wanted args);
                  form = none;
                },
              )))
unfolding cancel_jobs resolve_server finish api
cancel_jobs_lem {Client = Client} resolve serialize args {client = client} e =
    rw (e, cancel_query_lem args)
      (by_pairs (wanted args) (any is_set (filters args)) (no_pairs-filter (filters args)))
  where
    sent : Text → Result (Client × Request) Invalid
    sent path = ok (client, request_json post path)

    by_pairs :
        (query : Query) (set : Bool)
        → no_pairs query ≡ not set
        → let answer =
            if no_pairs query
            then err no_filter
            else sent (finish serialize (api (codes "jobs/cancel")) query) in
          ((set ≡ false) × (answer ≡ err no_filter))
          ⊎ ((set ≡ true) × (answer ≡ sent (codes "/api/v1/jobs/cancel?" ++ serialize query)))
    by_pairs [] true h = absurd (ground arith)
    by_pairs [] false h = inl (refl, refl)
    by_pairs (p ∷ query) true h = inr (refl, refl)
    by_pairs (p ∷ query) false h = absurd (ground arith)
