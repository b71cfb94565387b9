-- ===== src/Digest/Modules.antt =====
-- The failed modules of a job.
use ruoqa_mcp.Common.{
  ℕ, zero, suc, ◌+◌, ◌≡◌, refl, sym, ap, ◌∙◌, Bool, true, false, List, [], ◌∷◌, ◌++◌, map,
  append-nil, append_assoc, arith, leb, unwrap_or, length, take, length-append, filter,
}
use ruoqa_mcp.Common.Text.{Text}
use ruoqa_mcp.Common.Int.{ℤ}
use ruoqa_mcp.Common.Json.{Json}
use ruoqa_mcp.Digest.{
  digest_max_modules, job_of, array_at, str_at, has_failed, FailedModule, failed_module,
  modules_loop, failed_modules,
}

abbrev pub failing : Json → Bool
failing m = has_failed (str_at "result" m)

take-nil : {A : Type 0} (n : ℕ) → take {A = A} n [] ≡ []
take-nil zero = refl
take-nil (suc n) = refl

modules_loop_lem :
    (base_url : Text) (job_id : ℤ) (results : List Json) (modules : List FailedModule) (room : ℕ)
    → length modules + room ≡ digest_max_modules
    → modules_loop base_url job_id results modules
      ≡ modules ++ map (failed_module base_url job_id) (take room (filter failing results))
modules_loop_lem base_url job_id [] modules room h =
    sym (append-nil modules)
    ∙ ap (λ ms. modules ++ map (failed_module base_url job_id) ms) (sym (take-nil room))
modules_loop_lem base_url job_id (m ∷ results) modules room h =
    by_result (λ ms. modules_loop_lem base_url job_id results ms) (failing m) room h
  where
    next : List FailedModule
    next = modules ++ failed_module base_url job_id m ∷ []

    full : Bool → List FailedModule
    full b = elim b [ true ↦ modules | false ↦ modules_loop base_url job_id results next ]

    by_result :
        ((ms : List FailedModule) (room : ℕ)
          → length ms + room ≡ digest_max_modules
          → modules_loop base_url job_id results ms
            ≡ ms ++ map (failed_module base_url job_id) (take room (filter failing results)))
        → (b : Bool) (room : ℕ) → length modules + room ≡ digest_max_modules
        → elim b as (λ _. List FailedModule) [
          | false ↦ modules_loop base_url job_id results modules
          | true ↦ full (leb digest_max_modules (length modules))
        ]
          ≡ modules
            ++ map (failed_module base_url job_id) (
                take room (elim b as (λ _. List Json) [
                  | true ↦ m ∷ filter failing results
                  | false ↦ filter failing results
                ]))
    by_result rest false room h = rest modules room h
    by_result rest true zero h =
        let none_left : leb digest_max_modules (length modules) ≡ true = ground arith in
        ap full none_left ∙ sym (append-nil modules)
    by_result rest true (suc room) h =
        let some_left : leb digest_max_modules (length modules) ≡ false = ground arith in
        ap full some_left
        ∙ rest next room
            (omega (arith, length-append modules (failed_module base_url job_id m ∷ [])))
        ∙ append_assoc modules (failed_module base_url job_id m ∷ [])
            (map (failed_module base_url job_id) (take room (filter failing results)))

-- The failed and softly failed modules that a digest reports are the first ten of them, in the order
-- of the job.
pub failed_modules_lem :
    (details : Json) (job_id : ℤ) (base_url : Text)
    → failed_modules details job_id base_url
      ≡ map
          (failed_module base_url job_id)
          (take 10 (filter failing (unwrap_or (array_at "testresults" (job_of details)) [])))
unfolding failed_modules
failed_modules_lem details job_id base_url =
    modules_loop_lem base_url job_id (unwrap_or (array_at "testresults" (job_of details)) []) [] 10
      refl
