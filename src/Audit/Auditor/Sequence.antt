-- ===== src/Audit/Auditor/Sequence.antt =====
-- The numbers of the records that the OTLP bridge is handed.
use ruoqa_mcp.Common.{
  ℕ, String, ◌≡◌, refl, sym, ap, ◌∙◌, subst, Bool, true, false, Option, none, some, List, [], ◌∷◌,
  ◌++◌, if◌then◌else◌, unwrap_or, All, All-append,
}
use ruoqa_mcp.Otel.Proto.{Bytes}
use ruoqa_mcp.Audit.Sink.{Sink}
use ruoqa_mcp.Audit.Record.{Transport, Record}
use ruoqa_mcp.Audit.Auditor.{
  Gap, Auditor, increment, refused, append_line, enqueue, gap_record, close_gap, update_gap,
  is_disabled, recover, write_record, write,
}

-- What a running server does with its auditor.
pub data Op : Type 0 where
  write_op : String → String → Bool → Record → Op
  refused_op : String → Op

-- The records are numbered from `s` on, each number one more than that before it, and `t` is next.
abbrev pub Chain : ℕ → List (Record × Bytes) → ℕ → Type 0
Chain s [] t = s ≡ t
Chain s (e ∷ es) t = (e.0.seq ≡ s) × Chain (increment s) es t

Chain-snoc :
    (s : ℕ) (es : List (Record × Bytes)) (t : ℕ) (e : Record × Bytes)
    → Chain s es t
    → e.0.seq ≡ t
    → Chain s (es ++ e ∷ []) (increment t)
Chain-snoc s [] t e p q = (q ∙ sym p, ap increment p)
Chain-snoc s (f ∷ es) t e (p, c) q = (p, Chain-snoc (increment s) es t e c q)

module _ (to_json : Record → Bytes) where
  unfoldable pub step : Op → Auditor → Auditor
  step (write_op ts now delivering r) a = write to_json ts now delivering r a
  step (refused_op now) a = refused now a

  abbrev pub run : List Op → Auditor → Auditor
  run [] a = a
  run (op ∷ ops) a = run ops (step op a)

  abbrev Bodies : List (Record × Bytes) → Type 0
  Bodies = All (λ e. e.1 ≡ to_json e.0)

  -- The records went out under the numbers 1, 2, 3 and so on, without a gap and in order, and
  -- each with its own line as the body.
  pub record IsSequenced (a : Auditor) : Type 0 where
    pub otlp : a.has_otlp ≡ true
    pub chain : Chain 1 a.exported a.seq
    pub bodies : Bodies a.exported

  -- The fields of the auditor that the numbers stand on.
  record SameNumbers (a b : Auditor) : Type 0 where
    otlp : b.has_otlp ≡ a.has_otlp
    exported : b.exported ≡ a.exported
    seq : b.seq ≡ a.seq

  append_line-SameNumbers :
      (line : Bytes) (a : Auditor) (s : Option Sink) → SameNumbers a ((append_line line a s).1)
  append_line-SameNumbers line a none = record { otlp = refl; exported = refl; seq = refl }
  append_line-SameNumbers line a (some s) = record { otlp = refl; exported = refl; seq = refl }

  enqueue-IsSequenced :
      (r : Record) (a b : Auditor)
      → IsSequenced a
      → b.has_otlp ≡ a.has_otlp
      → b.exported ≡ a.exported
      → b.seq ≡ increment a.seq
      → r.seq ≡ a.seq
      → IsSequenced (enqueue r (to_json r) b)
  enqueue-IsSequenced r a b i o e q n =
      let p : b.has_otlp ≡ true = o ∙ i.otlp in
      let es = b.exported ++ (r, to_json r) ∷ [] in
      subst (λ x. IsSequenced (if x then record b { exported = es } else b)) (sym p)
        (record {
          otlp = p;
          chain =
              subst (λ xs. Chain 1 (xs ++ (r, to_json r) ∷ []) b.seq) (sym e)
                (subst (λ t. Chain 1 (a.exported ++ (r, to_json r) ∷ []) t) (sym q)
                  (Chain-snoc 1 a.exported a.seq (r, to_json r) i.chain n));
          bodies =
              All-append (λ x. x.1 ≡ to_json x.0) b.exported ((r, to_json r) ∷ [])
                (subst Bodies (sym e) i.bodies) (refl, tt);
        })

  emit-IsSequenced :
      (r : Record) (a : Auditor)
      → IsSequenced a
      → r.seq ≡ a.seq
      → IsSequenced (
          enqueue r
            (to_json r)
            ((append_line (to_json r) (record a { seq = increment a.seq }) a.sink).1))
  emit-IsSequenced r a i n =
      let b = (append_line (to_json r) (record a { seq = increment a.seq }) a.sink).1 in
      let m = append_line-SameNumbers (to_json r) (record a { seq = increment a.seq }) a.sink in
      enqueue-IsSequenced r a b i m.otlp m.exported m.seq n

  close_gap-IsSequenced :
      (transport : Transport) (now : String) (gap : Gap) (a : Auditor)
      → IsSequenced a
      → IsSequenced (close_gap to_json transport now gap a)
  unfolding close_gap gap_record
  close_gap-IsSequenced transport now gap a i =
      emit-IsSequenced (gap_record to_json a.process_session transport now a.seq gap) a i refl

  recover-IsSequenced :
      (transport : Transport) (now : String) (g : Option Gap) (a : Auditor)
      → IsSequenced a
      → IsSequenced (recover to_json transport now g a)
  recover-IsSequenced transport now none a i = record {
    otlp = i.otlp;
    chain = i.chain;
    bodies = i.bodies;
  }
  recover-IsSequenced transport now (some gap) a i =
      close_gap-IsSequenced transport now gap (record a { failing = false; gap = none })
        (record { otlp = i.otlp; chain = i.chain; bodies = i.bodies })

  update_gap-IsSequenced :
      (persisted : Bool) (transport : Transport) (ts now : String) (a : Auditor)
      → IsSequenced a
      → IsSequenced (update_gap to_json persisted transport ts now a)
  unfolding update_gap
  update_gap-IsSequenced false transport ts now a i = record {
    otlp = i.otlp;
    chain = i.chain;
    bodies = i.bodies;
  }
  update_gap-IsSequenced true transport ts now a i = recover-IsSequenced transport now a.gap a i

  write_record-IsSequenced :
      (ts now : String) (delivering : Bool) (r : Record) (a : Auditor)
      → IsSequenced a
      → IsSequenced (write_record to_json ts now delivering r a)
  unfolding write_record
  write_record-IsSequenced ts now delivering r a i =
      let r' = record r { seq = a.seq; ts = ts } in
      let p = append_line (to_json r') (record a { seq = increment a.seq }) a.sink in
      update_gap-IsSequenced (unwrap_or p.0 delivering) r.transport ts now
        (enqueue r' (to_json r') (p.1)) (emit-IsSequenced r' a i refl)

  write-IsSequenced :
      (ts now : String) (delivering : Bool) (r : Record) (a : Auditor)
      → IsSequenced a
      → IsSequenced (write to_json ts now delivering r a)
  unfolding write
  write-IsSequenced ts now delivering r a i =
      elim (is_disabled to_json a)
        as (λ b. IsSequenced (if b then a else write_record to_json ts now delivering r a)) [
          | true ↦ i
          | false ↦ write_record-IsSequenced ts now delivering r a i
        ]

  step-IsSequenced : (op : Op) (a : Auditor) → IsSequenced a → IsSequenced (step op a)
  unfolding step refused
  step-IsSequenced (write_op ts now delivering r) a i = write-IsSequenced ts now delivering r a i
  step-IsSequenced (refused_op now) a i = record {
    otlp = i.otlp;
    chain = i.chain;
    bodies = i.bodies;
  }

  -- Whatever is written and refused, with sinks and collectors that work or fail: the records
  -- that a bridged auditor exports are numbered one after the other from 1 on, in the order of
  -- the export, its counter is at the next number, and each body is the line of its record.
  pub run-IsSequenced : (ops : List Op) (a : Auditor) → IsSequenced a → IsSequenced (run ops a)
  run-IsSequenced [] a i = i
  run-IsSequenced (op ∷ ops) a i = run-IsSequenced ops (step op a) (step-IsSequenced op a i)
