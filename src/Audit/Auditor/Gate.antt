-- ===== src/Audit/Auditor/Gate.antt =====
-- The fail-closed gate after a write.
use ruoqa_mcp.Common.{
  ℕ, String, ◌≡◌, refl, ap, ◌∙◌, subst, Bool, true, false, ◌&&◌, not, Option, none, some, [], ◌∷◌,
  ◌++◌, if◌then◌else◌, unwrap_or, is_ok,
}
use ruoqa_mcp.Otel.Proto.{Bytes}
use ruoqa_mcp.Audit.Sink.{Sink, append}
use ruoqa_mcp.Audit.Record.{Transport, RecordScope, FailMode, Record}
use ruoqa_mcp.Audit.Auditor.{
  Gap, Auditor, increment, refuses, covers, append_line, enqueue, gap_record, close_gap, update_gap,
  is_disabled, recover, write_record, write,
}

module _ (to_json : Record → Bytes) where
  -- Whether a line reaches its destination: the file where there is one, else the collector.
  unfoldable pub persists : Auditor → Bool → Bytes → Bool
  persists a delivering line = elim a.sink [
    | none ↦ delivering
    | some s ↦ is_ok ((append line (record { sink = s; disk = a.disk })).0)
  ]

  -- The outage that is open after a write: a failure opens one or adds to it, a success ends it.
  unfoldable pub outage : Bool → String → Option Gap → Option Gap
  outage true ts gap = none
  outage false ts none = some (record { count = 1; since = ts; refused = 0 })
  outage false ts (some g) = some (record g { count = increment g.count })

  -- The line of a record with its number and its time filled in.
  abbrev pub stamped : String → Auditor → Record → Record
  stamped ts a r = record r { seq = a.seq; ts = ts }

  -- The fields that the gate reads.
  record SameGate (a b : Auditor) : Type 0 where
    failing : b.failing ≡ a.failing
    mode : b.fail_mode ≡ a.fail_mode
    gap : b.gap ≡ a.gap

  append_line-SameGate :
      (line : Bytes) (a : Auditor) (s : Option Sink) → SameGate a (append_line line a s).1
  append_line-SameGate line a none = record { failing = refl; mode = refl; gap = refl }
  append_line-SameGate line a (some s) = record { failing = refl; mode = refl; gap = refl }

  enqueue-SameGate : (r : Record) (line : Bytes) (a : Auditor) → SameGate a (enqueue r line a)
  enqueue-SameGate r line a =
      elim a.has_otlp
        as (λ b.
          SameGate a (if b then record a { exported = a.exported ++ (r, line) ∷ [] } else a)) [
            | true ↦ record { failing = refl; mode = refl; gap = refl }
            | false ↦ record { failing = refl; mode = refl; gap = refl }
          ]

  SameGate-trans : {a b c : Auditor} → SameGate a b → SameGate b c → SameGate a c
  SameGate-trans p q = record {
    failing = q.failing ∙ p.failing;
    mode = q.mode ∙ p.mode;
    gap = q.gap ∙ p.gap;
  }

  -- A write as the gate sees it.
  record IsWritten (a b : Auditor) (persisted : Bool) (ts : String) : Type 0 where
    failing : b.failing ≡ not persisted
    mode : b.fail_mode ≡ a.fail_mode
    gap : b.gap ≡ outage persisted ts a.gap

  close_gap-SameGate :
      (transport : Transport) (now : String) (g : Gap) (a : Auditor)
      → SameGate a (close_gap to_json transport now g a)
  unfolding close_gap
  close_gap-SameGate transport now g a =
      let r = gap_record to_json a.process_session transport now a.seq g in
      let b = record a { seq = increment a.seq } in
      SameGate-trans (record { failing = refl; mode = refl; gap = refl })
        (SameGate-trans (append_line-SameGate (to_json r) b a.sink)
          (enqueue-SameGate r (to_json r) ((append_line (to_json r) b a.sink).1)))

  recover-IsWritten :
      (transport : Transport) (ts now : String) (g : Option Gap) (a : Auditor)
      → a.gap ≡ g
      → IsWritten a (recover to_json transport now g a) true ts
  unfolding outage
  recover-IsWritten transport ts now none a e = record { failing = refl; mode = refl; gap = e }
  recover-IsWritten transport ts now (some g) a e =
      let m = close_gap-SameGate transport now g (record a { failing = false; gap = none }) in
      record { failing = m.failing; mode = m.mode; gap = m.gap }

  outage_opened :
      (ts : String) (g : Option Gap)
      → (let gap : Gap = unwrap_or g (record { count = 0; since = ts; refused = 0 }) in
          some (record gap { count = increment gap.count }))
        ≡ outage false ts g
  unfolding outage
  outage_opened ts none = refl
  outage_opened ts (some g) = refl

  update_gap-IsWritten :
      (persisted : Bool) (transport : Transport) (ts now : String) (a : Auditor)
      → IsWritten a (update_gap to_json persisted transport ts now a) persisted ts
  unfolding update_gap
  update_gap-IsWritten false transport ts now a = record {
    failing = refl;
    mode = refl;
    gap = outage_opened ts a.gap;
  }
  update_gap-IsWritten true transport ts now a = recover-IsWritten transport ts now a.gap a refl

  append_line-persists :
      (line : Bytes) (a : Auditor) (delivering : Bool) (n : ℕ)
      → unwrap_or ((append_line line (record a { seq = n }) a.sink).0) delivering
        ≡ persists a delivering line
  unfolding persists
  append_line-persists line a delivering n =
      elim a.sink
        as (λ s. unwrap_or ((append_line line (record a { seq = n }) s).0) delivering ≡ elim s [
          | none ↦ delivering
          | some s ↦ is_ok ((append line (record { sink = s; disk = a.disk })).0)
        ]) [ none ↦ refl | some s ↦ refl ]

  write_record-IsWritten :
      (ts now : String) (delivering : Bool) (r : Record) (a : Auditor)
      → IsWritten a
          (write_record to_json ts now delivering r a)
          (persists a delivering (to_json (stamped ts a r)))
          ts
  unfolding write_record
  write_record-IsWritten ts now delivering r a =
      let r' = stamped ts a r in
      let line = to_json r' in
      let b = record a { seq = increment a.seq } in
      let p = append_line line b a.sink in
      let c = enqueue r' line (p.1) in
      let ok? = unwrap_or (p.0) delivering in
      let m =
        SameGate-trans (append_line-SameGate line b a.sink) (enqueue-SameGate r' line (p.1)) in
      let u = update_gap-IsWritten ok? r.transport ts now c in
      subst (λ x. IsWritten a (write_record to_json ts now delivering r a) x ts)
        (append_line-persists line a delivering (increment a.seq))
        (record {
          failing = u.failing;
          mode = u.mode ∙ m.mode;
          gap = u.gap ∙ ap (λ g. outage ok? ts g) m.gap;
        })

  write_enabled :
      (ts now : String) (delivering : Bool) (r : Record) (a : Auditor)
      → is_disabled to_json a ≡ false
      → write to_json ts now delivering r a ≡ write_record to_json ts now delivering r a
  unfolding write
  write_enabled ts now delivering r a e =
      ap (λ b. if b then a else write_record to_json ts now delivering r a) e

  refuses_lem :
      (a : Auditor) (scope : RecordScope) (f : Bool) (mode : FailMode)
      → a.failing ≡ f
      → a.fail_mode ≡ mode
      → refuses a scope ≡ (f && covers mode scope)
  unfolding refuses
  refuses_lem a scope true mode p q =
      ap (λ b. if b then covers a.fail_mode scope else false) p ∙ ap (λ m. covers m scope) q
  refuses_lem a scope false mode p q = ap (λ b. if b then covers a.fail_mode scope else false) p

  -- After a write by an auditor that has a sink or a producer, the gate refuses a call exactly
  -- when that record did not reach its destination (the file where there is one, else the
  -- collector) and the fail mode covers the call's scope; and an outage is open exactly then: a
  -- failure opens one at its time or adds one to its count, a success ends it.
  pub write_refuses :
      (ts now : String) (delivering : Bool) (r : Record) (a : Auditor) (scope : RecordScope)
      → is_disabled to_json a ≡ false
      → (refuses (write to_json ts now delivering r a) scope
          ≡ (not (persists a delivering (to_json (stamped ts a r))) && covers a.fail_mode scope))
        × ((write to_json ts now delivering r a).gap
            ≡ outage (persists a delivering (to_json (stamped ts a r))) ts a.gap)
  write_refuses ts now delivering r a scope e =
      let p = persists a delivering (to_json (stamped ts a r)) in
      let w = write_record-IsWritten ts now delivering r a in
      let same = write_enabled ts now delivering r a e in
      (
        ap (λ b. refuses b scope) same
            ∙ refuses_lem (write_record to_json ts now delivering r a) scope (not p) a.fail_mode
                w.failing w.mode,
        ap (λ b. b.gap) same ∙ w.gap,
      )
