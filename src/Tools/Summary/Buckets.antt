-- ===== src/Tools/Summary/Buckets.antt =====
-- The buckets of a summary.
use ruoqa_mcp.Common.{
  String, ◌≡◌, refl, sym, ap, ◌∙◌, inl, inr, Bool, true, List, [], ◌∷◌, ◌++◌, map, append-nil,
  append_assoc, str_eq, eq_iff, Bool-cases, length, filter, filter_kept, filter_left_out,
}
use ruoqa_mcp.Common.Json.{Json}
use ruoqa_mcp.Otel.Metrics.Maps.{value_of, value_of-entry_same, value_of-entry_other}
use ruoqa_mcp.Tools.Summary.{
  Brief, Summary, bucket_of, brief, pushed, add_job, add_jobs, summarize_jobs,
}

str_eq_sound : (a b : String) → str_eq a b ≡ true → a ≡ b
str_eq_sound a b h = (eq_iff a b).0 h

-- The jobs that a bucket lists.
abbrev pub bucket : String → Summary → List Brief
bucket key s = value_of str_eq key [] s.jobs

abbrev pub in_bucket : String → Json → Bool
in_bucket key job = str_eq (bucket_of job) key

bucket-add_jobs :
    (jobs : List Json) (s : Summary) (key : String)
    → bucket key (add_jobs jobs s) ≡ bucket key s ++ map brief (filter (in_bucket key) jobs)
bucket-add_jobs [] s key = sym (append-nil (bucket key s))
bucket-add_jobs (job ∷ jobs) s key = elim (Bool-cases (in_bucket key job)) [
  | inl e ↦
      bucket-add_jobs jobs (add_job job s) key
      ∙ ap (λ bs. bs ++ map brief (filter (in_bucket key) jobs))
          (value_of-entry_same str_eq str_eq_sound [] (pushed (brief job)) (bucket_of job) key
            s.jobs e)
      ∙ append_assoc (bucket key s) (brief job ∷ []) (map brief (filter (in_bucket key) jobs))
      ∙ ap (λ js. bucket key s ++ map brief js) (sym (filter_kept (in_bucket key) {x = job} jobs e))
  | inr e ↦
      bucket-add_jobs jobs (add_job job s) key
      ∙ ap (λ bs. bs ++ map brief (filter (in_bucket key) jobs))
          (value_of-entry_other str_eq str_eq_sound [] (pushed (brief job)) (bucket_of job) key
            s.jobs e)
      ∙ ap (λ js. bucket key s ++ map brief js)
          (sym (filter_left_out (in_bucket key) {x = job} jobs e))
]

total-add_jobs : (jobs : List Json) (s : Summary) → (add_jobs jobs s).total ≡ s.total
total-add_jobs [] s = refl
total-add_jobs (job ∷ jobs) s = total-add_jobs jobs (add_job job s)

-- A summary lists every job under its own key and under no other, in the order of the reply, and
-- its total is the number of the jobs.
pub bucket-summarize_jobs :
    (jobs : List Json) (key : String)
    → (bucket key (summarize_jobs jobs) ≡ map brief (filter (in_bucket key) jobs))
      × ((summarize_jobs jobs).total ≡ length jobs)
unfolding summarize_jobs
bucket-summarize_jobs jobs key = (bucket-add_jobs jobs _ key, total-add_jobs jobs _)
