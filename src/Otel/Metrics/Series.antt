-- ===== src/Otel/Metrics/Series.antt =====
-- The series of a registry after a run of calls, and what is collected of them.
use ruoqa_mcp.Common.{
  ℕ, zero, suc, ◌+◌, ◌^◌, ◌≤◌, ◌<◌, ◌≡◌, refl, sym, ap, ◌∙◌, inl, inr, Bool, true, false, ◌&&◌,
  none, some, List, [], ◌∷◌, ◌++◌, arith, ltb, leb, ◌==◌, if◌then◌else◌, Bool-cases, length,
  get_elem?, replicate, All,
}
use ruoqa_mcp.Otel.Metrics.{
  bounds, CallKey, DurKey, Hist, default_hist, Registry, new_registry, add_one, position, bucket_of,
  call_key_eq, dur_key_eq, entry, Call, call_key, dur_key,
}
use ruoqa_mcp.Otel.Metrics.Maps.{number_of}
use ruoqa_mcp.Otel.Metrics.Counts.{
  calls_of, hist_of, is_call, durations, sum, nth, replay_lem, calls_of-record_calls,
  hist_of-record_calls,
}
use ruoqa_mcp.Otel.Metrics.Recording.{
  record_sample, record_call, record_calls, sum_metric, histogram_metric, collect,
}

-- The bucket of an index holds the durations above the bound before it and up to its own bound.
abbrev above : ℕ → ℕ → List ℕ → Bool
above zero ms bs = true
above (suc i) ms bs = elim (get_elem? bs i) [ none ↦ false | some bound ↦ ltb bound ms ]

abbrev up_to : ℕ → ℕ → List ℕ → Bool
up_to i ms bs = elim (get_elem? bs i) [ none ↦ true | some bound ↦ leb ms bound ]

abbrev pub in_bucket : ℕ → ℕ → Bool
in_bucket i ms = above i ms bounds && up_to i ms bounds

Ascending : List ℕ → Type 0
Ascending [] = Unit
Ascending (b ∷ bs) = All (λ c. b ≤ c) bs × Ascending bs

none_above :
    (b ms : ℕ) (bs : List ℕ) (i : ℕ) → All (λ c. b ≤ c) bs → ms ≤ b → above (suc i) ms bs ≡ false
none_above b ms [] i h k = refl
none_above b ms (c ∷ bs) zero (p, h) k = ground arith
none_above b ms (c ∷ bs) (suc i) (p, h) k = none_above b ms bs i h k

suc_eq : (a b : ℕ) → (suc a == suc b) ≡ (a == b)
suc_eq a b = ground arith

exceeds : (b ms : ℕ) → leb ms b ≡ false → ltb b ms ≡ true
exceeds b ms e = ground arith

position_iff :
    (ms : ℕ) (bs : List ℕ) (i : ℕ)
    → Ascending bs
    → (position ms bs == i) ≡ (above i ms bs && up_to i ms bs)
unfolding Ascending
position_iff ms [] zero h = refl
position_iff ms [] (suc i) h = ground arith
position_iff ms (b ∷ bs) zero (p, h) = ground arith
position_iff ms (b ∷ bs) (suc zero) (p, h) = elim (Bool-cases (leb ms b)) [
  | inl e ↦ rw e (ground arith)
  | inr e ↦ rw e (
      suc_eq (position ms bs) 0
      ∙ position_iff ms bs zero h
      ∙ ap (λ b. b && up_to 0 ms bs) (sym (exceeds b ms e)))
]
position_iff ms (b ∷ bs) (suc (suc i)) (p, h) = elim (Bool-cases (leb ms b)) [
  | inl e ↦ rw (e, none_above b ms bs i p (ground arith)) (ground arith)
  | inr e ↦ rw e (suc_eq (position ms bs) (suc i) ∙ position_iff ms bs (suc i) h)
]

bucket_of_iff : (ms i : ℕ) → (bucket_of ms == i) ≡ in_bucket i ms
unfolding bucket_of Ascending
bucket_of_iff ms i = position_iff ms bounds i (ground arith)

number_of_same :
    (p q : ℕ → Bool) (same : (n : ℕ) → p n ≡ q n) (ns : List ℕ) → number_of p ns ≡ number_of q ns
number_of_same p q same [] = refl
number_of_same p q same (n ∷ ns) = rw (same n, number_of_same p q same ns) refl

length-durations : (key : DurKey) (cs : List Call) → length (durations key cs) ≤ length cs
length-durations key [] = omega arith
length-durations key (c ∷ cs) =
    counted (dur_key_eq (dur_key c) key) c.duration_ms (durations key cs) (length cs)
      (length-durations key cs)
  where
    counted :
        (b : Bool) (n : ℕ) (ns : List ℕ) (m : ℕ)
        → length ns ≤ m
        → length (elim b as (λ _. List ℕ) [ true ↦ n ∷ ns | false ↦ ns ]) ≤ suc m
    counted true n ns m h = omega arith
    counted false n ns m h = omega arith

nth-zeros : (i n : ℕ) → nth i (replicate n 0) ≡ 0
nth-zeros i zero = refl
nth-zeros zero (suc n) = refl
nth-zeros (suc i) (suc n) = nth-zeros i n

abbrev pub is_nil {ℓ} : {A : Type ℓ} → List A → Bool
is_nil [] = true
is_nil (x ∷ xs) = false

is_nil-entry :
    {K V : Type 0} (eq : K → K → Bool) (key : K) (default : V) (change : V → V) (es : List (K × V))
    → is_nil (entry eq key default change es) ≡ false
is_nil-entry eq key default change [] = refl
is_nil-entry eq key default change ((k, v) ∷ es) = ground arith

module _ (as_f64 : ℕ → ℕ) (add_f64 : ℕ → ℕ → ℕ) where
  -- After fewer than 2^64 calls each counter is the number of the calls under its key; each
  -- histogram counts the calls of its series, each of its buckets those whose duration lies above
  -- the bound before it and up to its own, and the buckets add up to the count.
  pub record_calls_lem :
      (start : ℕ) (cs : List Call) (key : CallKey) (series : DurKey) (bucket : ℕ)
      → length cs < 2 ^ 64
      → let r = record_calls as_f64 add_f64 cs (new_registry start) in
        let hist = hist_of series r in
        (calls_of key r ≡ number_of (is_call key) cs)
        × (hist.count ≡ length (durations series cs))
        × (sum hist.buckets ≡ hist.count)
        × (nth bucket hist.buckets ≡ number_of (in_bucket bucket) (durations series cs))
  unfolding new_registry
  record_calls_lem start cs key series bucket h =
      let fold = hist_of-record_calls as_f64 add_f64 cs (new_registry start) series in
      let (c, s, n) =
        replay_lem as_f64 add_f64 (durations series cs) default_hist bucket (omega arith)
          (omega arith) (omega (arith, length-durations series cs)) in
      let counted : (hist_of series (record_calls as_f64 add_f64 cs (new_registry start))).count
          ≡ length (durations series cs) =
        omega (arith, ap (λ t. t.count) fold, c) in
      (
        calls_of-record_calls as_f64 add_f64 cs (new_registry start) key (omega arith)
            ∙ omega arith,
        counted,
        ap (λ t. sum t.buckets) fold ∙ s ∙ omega arith ∙ sym counted,
        ap (λ t. nth bucket t.buckets) fold
            ∙ n
            ∙ omega (arith, nth-zeros bucket 16)
            ∙ number_of_same (λ ms. bucket_of ms == bucket) (in_bucket bucket)
                (λ ms. bucket_of_iff ms bucket) (durations series cs),
      )

  length-collect :
      (now : ℕ) (r : Registry)
      → length (collect as_f64 add_f64 now r)
        ≡ (if is_nil r.state.calls then 0 else 1) + (if is_nil r.state.duration then 0 else 1)
  unfolding collect
  length-collect now r = by_entries r.start_time_unix_nano r.state.calls r.state.duration
    where
      by_entries :
          (start : ℕ) (calls : List (CallKey × ℕ)) (duration : List (DurKey × Hist))
          → length (
              sum_metric as_f64 add_f64 start now calls
              ++ histogram_metric as_f64 add_f64 start now duration)
            ≡ (if is_nil calls then 0 else 1) + (if is_nil duration then 0 else 1)
      by_entries start [] [] = refl
      by_entries start (c ∷ cs) [] = refl
      by_entries start [] (d ∷ ds) = refl
      by_entries start (c ∷ cs) (d ∷ ds) = refl

  filled :
      (cs : List Call) (r : Registry)
      → is_nil r.state.calls ≡ false
      → is_nil r.state.duration ≡ false
      → (is_nil (record_calls as_f64 add_f64 cs r).state.calls ≡ false)
        × (is_nil (record_calls as_f64 add_f64 cs r).state.duration ≡ false)
  unfolding record_call
  filled [] r a b = (a, b)
  filled (c ∷ cs) r a b =
      let a' = is_nil-entry call_key_eq (call_key c) 0 add_one r.state.calls in
      let b' =
        is_nil-entry dur_key_eq (dur_key c) default_hist
          (record_sample as_f64 add_f64 c.duration_ms) r.state.duration in
      filled cs (record_call as_f64 add_f64 c r) a' b'

  -- A collection yields both metrics once a call has been recorded, and nothing before.
  pub length-collect-record_calls :
      (start now : ℕ) (cs : List Call)
      → length (collect as_f64 add_f64 now (record_calls as_f64 add_f64 cs (new_registry start)))
        ≡ (if is_nil cs then 0 else 2)
  unfolding new_registry record_call
  length-collect-record_calls start now [] = length-collect now (new_registry start)
  length-collect-record_calls start now (c ∷ cs) =
      let r = record_call as_f64 add_f64 c (new_registry start) in
      let (a, b) = filled cs r refl refl in
      length-collect now (record_calls as_f64 add_f64 cs r) ∙ rw (a, b) refl
