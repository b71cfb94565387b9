-- ===== src/Otel/Metrics/Counts.antt =====
-- What the registry counts, against the list of the calls.
use ruoqa_mcp.Common.{
  ℕ, zero, suc, ◌+◌, ◌^◌, ◌≤◌, ◌<◌, ◌≡◌, refl, sym, ap, ◌∙◌, inl, inr, Bool, true, false, List, [],
  ◌∷◌, arith, ◌==◌, if◌then◌else◌, Bool-cases, length,
}
use ruoqa_mcp.Otel.Metrics.{
  bounds, bucket_count, CallKey, DurKey, Hist, default_hist, Registry, add_one, position, bucket_of,
  add_at, call_key_eq, dur_key_eq, Call, call_key, dur_key,
}
use ruoqa_mcp.Otel.Metrics.Maps.{
  value_of, number_of, value_of-entry_same, value_of-entry_other, call_key_eq_sound,
  dur_key_eq_sound,
}
use ruoqa_mcp.Otel.Metrics.Recording.{record_sample, record_call, record_calls}

abbrev pub calls_of : CallKey → Registry → ℕ
calls_of key r = value_of call_key_eq key 0 r.state.calls

abbrev pub hist_of : DurKey → Registry → Hist
hist_of key r = value_of dur_key_eq key default_hist r.state.duration

abbrev pub is_call : CallKey → Call → Bool
is_call key c = call_key_eq (call_key c) key

-- The durations of the calls of a series, in order.
abbrev pub durations : DurKey → List Call → List ℕ
durations key [] = []
durations key (c ∷ cs) = elim (dur_key_eq (dur_key c) key) [
  | true ↦ c.duration_ms ∷ durations key cs
  | false ↦ durations key cs
]

abbrev pub sum : List ℕ → ℕ
sum [] = 0
sum (n ∷ ns) = n + sum ns

abbrev pub nth : ℕ → List ℕ → ℕ
nth i [] = 0
nth zero (n ∷ ns) = n
nth (suc i) (n ∷ ns) = nth i ns

length-add_at : (j : ℕ) (ns : List ℕ) → length (add_at j ns) ≡ length ns
length-add_at j [] = refl
length-add_at zero (n ∷ ns) = refl
length-add_at (suc j) (n ∷ ns) = ap suc (length-add_at j ns)

position_le : (ms : ℕ) (bs : List ℕ) → position ms bs ≤ length bs
position_le ms [] = omega arith
position_le ms (b ∷ bs) = ground (arith, position_le ms bs)

bucket_of_lt : (ms : ℕ) → bucket_of ms < bucket_count
unfolding bucket_of
bucket_of_lt ms = omega (arith, position_le ms bounds)

module _ (as_f64 : ℕ → ℕ) (add_f64 : ℕ → ℕ → ℕ) where
  abbrev pub replay : List ℕ → Hist → Hist
  replay [] h = h
  replay (ms ∷ mss) h = replay mss (record_sample as_f64 add_f64 ms h)

  calls_of-record_call :
      (c : Call) (r : Registry) (key : CallKey)
      → calls_of key r + 1 < 2 ^ 64
      → calls_of key (record_call as_f64 add_f64 c r)
        ≡ (if is_call key c then 1 else 0) + calls_of key r
  unfolding record_call
  calls_of-record_call c r key h = elim (Bool-cases (is_call key c)) [
    | inl e ↦
        value_of-entry_same call_key_eq call_key_eq_sound 0 add_one (call_key c) key r.state.calls e
        ∙ rw e (omega arith)
    | inr e ↦
        value_of-entry_other call_key_eq call_key_eq_sound 0 add_one (call_key c) key r.state.calls
          e
        ∙ rw e (omega arith)
  ]

  pub calls_of-record_calls :
      (cs : List Call) (r : Registry) (key : CallKey)
      → calls_of key r + length cs < 2 ^ 64
      → calls_of key (record_calls as_f64 add_f64 cs r)
        ≡ number_of (is_call key) cs + calls_of key r
  calls_of-record_calls [] r key h = omega arith
  calls_of-record_calls (c ∷ cs) r key h =
      let one = calls_of-record_call c r key (omega arith) in
      calls_of-record_calls cs (record_call as_f64 add_f64 c r) key (ground (arith, one))
      ∙ ground (arith, one)

  pub hist_of-record_calls :
      (cs : List Call) (r : Registry) (key : DurKey)
      → hist_of key (record_calls as_f64 add_f64 cs r) ≡ replay (durations key cs) (hist_of key r)
  unfolding record_call
  hist_of-record_calls [] r key = refl
  hist_of-record_calls (c ∷ cs) r key = elim (Bool-cases (dur_key_eq (dur_key c) key)) [
    | inl e ↦
        hist_of-record_calls cs (record_call as_f64 add_f64 c r) key
        ∙ ap (replay (durations key cs)) (
            value_of-entry_same dur_key_eq dur_key_eq_sound default_hist
              (record_sample as_f64 add_f64 c.duration_ms) (dur_key c) key r.state.duration e)
        ∙ ap
            (λ b.
              replay (elim b [ true ↦ c.duration_ms ∷ durations key cs | false ↦ durations key cs ])
                (hist_of key r))
            (sym e)
    | inr e ↦
        hist_of-record_calls cs (record_call as_f64 add_f64 c r) key
        ∙ ap (replay (durations key cs)) (
            value_of-entry_other dur_key_eq dur_key_eq_sound default_hist
              (record_sample as_f64 add_f64 c.duration_ms) (dur_key c) key r.state.duration e)
        ∙ ap
            (λ b.
              replay (elim b [ true ↦ c.duration_ms ∷ durations key cs | false ↦ durations key cs ])
                (hist_of key r))
            (sym e)
  ]

  -- One histogram over the durations of its calls.
  nth-add_at :
      (i j : ℕ) (ns : List ℕ)
      → sum ns + 1 < 2 ^ 64
      → j < length ns
      → (nth i (add_at j ns) ≡ (if j == i then 1 else 0) + nth i ns)
        × (sum (add_at j ns) ≡ sum ns + 1)
  nth-add_at i j [] h k = absurd (omega arith)
  nth-add_at zero zero (n ∷ ns) h k = (omega arith, omega arith)
  nth-add_at (suc i) zero (n ∷ ns) h k = (ground arith, omega arith)
  nth-add_at zero (suc j) (n ∷ ns) h k =
      let (a, b) = nth-add_at zero j ns (omega arith) (omega arith) in
      (ground arith, omega (arith, b))
  nth-add_at (suc i) (suc j) (n ∷ ns) h k =
      let (a, b) = nth-add_at i j ns (omega arith) (omega arith) in
      (ground (arith, a), omega (arith, b))

  pub replay_lem :
      (mss : List ℕ) (h : Hist) (i : ℕ)
      → length h.buckets ≡ bucket_count
      → sum h.buckets ≡ h.count
      → h.count + length mss < 2 ^ 64
      → ((replay mss h).count ≡ length mss + h.count)
        × (sum (replay mss h).buckets ≡ length mss + h.count)
        × (nth i (replay mss h).buckets ≡ number_of (λ ms. bucket_of ms == i) mss + nth i h.buckets)
  unfolding record_sample
  replay_lem [] h i l e b = (omega arith, omega (arith, e), omega arith)
  replay_lem (ms ∷ mss) h i l e b =
      let place = bucket_of_lt ms in
      let (at, all_of) =
        nth-add_at i (bucket_of ms) h.buckets (omega (arith, e)) (omega (arith, l, place)) in
      let (c, s, n) =
        replay_lem mss (record_sample as_f64 add_f64 ms h) i
          (length-add_at (bucket_of ms) h.buckets ∙ l) (all_of ∙ omega arith) (omega arith) in
      (omega (arith, c), omega (arith, s), omega (arith, n, at))
