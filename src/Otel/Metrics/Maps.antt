-- ===== src/Otel/Metrics/Maps.antt =====
-- The maps of the registry: lookup after an update.
use ruoqa_mcp.Common.{
  ℕ, ◌+◌, ◌≡◌, refl, sym, ap, ◌∙◌, subst, inl, inr, Bool, true, false, Option, none, some, List, [],
  ◌∷◌, arith, if◌then◌else◌, Bool-cases,
}
use ruoqa_mcp.Common.Text.{Text, text_eq_sound}
use ruoqa_mcp.Otel.Metrics.{CallKey, DurKey, opt_eq, call_key_eq, dur_key_eq, entry}

-- The value of a key, or the default.
abbrev pub value_of {ℓ κ} : {K : Type ℓ} {V : Type κ} → (K → K → Bool) → K → V → List (K × V) → V
value_of eq key default [] = default
value_of eq key default ((k, v) ∷ es) =
    let rest = value_of eq key default es in if eq k key then v else rest

-- How many keys of a list are this one.
abbrev pub number_of {ℓ} : {A : Type ℓ} → (A → Bool) → List A → ℕ
number_of p [] = 0
number_of p (x ∷ xs) = (if p x then 1 else 0) + number_of p xs

module _ {K V : Type 0} (eq : K → K → Bool) (sound : (a b : K) → eq a b ≡ true → a ≡ b)
    (default : V) (change : V → V) where
  value_of_hit :
      (k : K) (v : V) (key : K) (es : List (K × V))
      → eq k key ≡ true
      → value_of eq key default ((k, v) ∷ es) ≡ v
  value_of_hit k v key es e = ap (λ b. if b then v else value_of eq key default es) e

  value_of_miss :
      (k : K) (v : V) (key : K) (es : List (K × V))
      → eq k key ≡ false
      → value_of eq key default ((k, v) ∷ es) ≡ value_of eq key default es
  value_of_miss k v key es e = ap (λ b. if b then v else value_of eq key default es) e

  entry_hit :
      (k : K) (v : V) (key : K) (es : List (K × V))
      → eq k key ≡ true
      → entry eq key default change ((k, v) ∷ es) ≡ (k, change v) ∷ es
  entry_hit k v key es e =
      ap (λ b. if b then (k, change v) ∷ es else (k, v) ∷ entry eq key default change es) e

  entry_miss :
      (k : K) (v : V) (key : K) (es : List (K × V))
      → eq k key ≡ false
      → entry eq key default change ((k, v) ∷ es) ≡ (k, v) ∷ entry eq key default change es
  entry_miss k v key es e =
      ap (λ b. if b then (k, change v) ∷ es else (k, v) ∷ entry eq key default change es) e

  -- The entry that is updated has the changed value.
  pub value_of-entry_same :
      (key other : K) (es : List (K × V))
      → eq key other ≡ true
      → value_of eq other default (entry eq key default change es)
        ≡ change (value_of eq other default es)
  value_of-entry_same key other [] e = value_of_hit key (change default) other [] e
  value_of-entry_same key other ((k, v) ∷ es) e = elim (Bool-cases (eq k key)) [
    | inl h ↦
        let g : eq k other ≡ true = subst (λ x. eq x other ≡ true) (sym (sound k key h)) e in
        ap (value_of eq other default) (entry_hit k v key es h)
        ∙ value_of_hit k (change v) other es g
        ∙ ap change (sym (value_of_hit k v other es g))
    | inr h ↦
        let g : eq k other ≡ false = subst (λ x. eq k x ≡ false) (sound key other e) h in
        ap (value_of eq other default) (entry_miss k v key es h)
        ∙ value_of_miss k v other (entry eq key default change es) g
        ∙ value_of-entry_same key other es e
        ∙ ap change (sym (value_of_miss k v other es g))
  ]

  -- The others keep theirs.
  pub value_of-entry_other :
      (key other : K) (es : List (K × V))
      → eq key other ≡ false
      → value_of eq other default (entry eq key default change es) ≡ value_of eq other default es
  value_of-entry_other key other [] e = value_of_miss key (change default) other [] e
  value_of-entry_other key other ((k, v) ∷ es) e = elim (Bool-cases (eq k key)) [
    | inl h ↦
        let g : eq k other ≡ false = subst (λ x. eq x other ≡ false) (sym (sound k key h)) e in
        ap (value_of eq other default) (entry_hit k v key es h)
        ∙ value_of_miss k (change v) other es g
        ∙ sym (value_of_miss k v other es g)
    | inr h ↦
        ap (value_of eq other default) (entry_miss k v key es h)
        ∙ ap (λ r. if eq k other then v else r) (value_of-entry_other key other es e)
  ]

opt_eq_sound : (a b : Option Text) → opt_eq a b ≡ true → a ≡ b
opt_eq_sound none none h = refl
opt_eq_sound (some s) (some t) h = ap some (text_eq_sound s t h)
opt_eq_sound none (some t) h = absurd (ground arith)
opt_eq_sound (some s) none h = absurd (ground arith)

pub call_key_eq_sound : (a b : CallKey) → call_key_eq a b ≡ true → a ≡ b
call_key_eq_sound a b h =
    let t : a.tool ≡ b.tool = text_eq_sound a.tool b.tool (ground arith) in
    let s : a.server ≡ b.server = opt_eq_sound a.server b.server (ground arith) in
    let o : a.outcome ≡ b.outcome = text_eq_sound a.outcome b.outcome (ground arith) in
    let e : a.error_kind ≡ b.error_kind = opt_eq_sound a.error_kind b.error_kind (ground arith) in
    cc

pub dur_key_eq_sound : (a b : DurKey) → dur_key_eq a b ≡ true → a ≡ b
dur_key_eq_sound a b h =
    let t : a.tool ≡ b.tool = text_eq_sound a.tool b.tool (ground arith) in
    let s : a.server ≡ b.server = opt_eq_sound a.server b.server (ground arith) in cc
