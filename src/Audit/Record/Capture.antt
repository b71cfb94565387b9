-- ===== src/Audit/Record/Capture.antt =====
-- What the capture policy of src/audit.rs lets into a record.
use ruoqa_mcp.Common.{
  ℕ, ◌<◌, String, ◌≡◌, refl, sym, ap, ◌∙◌, subst, ◌⊎◌, inl, inr, true, false, some, arith, str_eq,
  eq_iff, ltb, if◌then◌else◌, ltb→lt, Bool-cases,
}
use ruoqa_mcp.Common.Json.{
  Json, null, bool, number, string, array, object, Fields, end, field, unsigned, get, get_field,
  length_items,
}
use ruoqa_mcp.Audit.Record.{
  args_max_array, summary_len, summarize, capture_allowed, is_allowed, capture_fields, capture_args,
}

-- Nothing but a length.
abbrev pub length_only : ℕ → Json
length_only n = object (field "_len" (number (unsigned n)) end)

abbrev pub IsLong : Json → Type 0
IsLong (array vs) = args_max_array < length_items vs
IsLong _ = ⊥

-- A captured argument: verbatim if its name is on the list and it is no long array, else only
-- its length. An object on the list is verbatim too, as in `capture_allowed`; the comment on
-- `capture_args` speaks of scalars and short arrays alone.
abbrev pub IsCaptured : String → Json → Json → Type 0
IsCaptured key value c =
    ((is_allowed key ≡ true) × (IsLong value → ⊥) × (c ≡ value))
    ⊎ ((is_allowed key ≡ false) ⊎ IsLong value) × (c ≡ length_only (summary_len value))

abbrev capture : String → Json → Json
capture key value = if is_allowed key then capture_allowed value else summarize value

capture_allowed-IsCaptured :
    (key : String) (value : Json)
    → is_allowed key ≡ true
    → IsCaptured key value (capture_allowed value)
unfolding capture_allowed summarize
capture_allowed-IsCaptured key (array vs) e =
    elim (Bool-cases (ltb args_max_array (length_items vs))) [
      | inl c ↦ inr (inr (ltb→lt args_max_array (length_items vs) c), ground arith)
      | inr c ↦ inl (e, (λ l. ground arith), ground arith)
    ]
capture_allowed-IsCaptured key null e = inl (e, (λ l. l), refl)
capture_allowed-IsCaptured key (bool b) e = inl (e, (λ l. l), refl)
capture_allowed-IsCaptured key (number n) e = inl (e, (λ l. l), refl)
capture_allowed-IsCaptured key (string s) e = inl (e, (λ l. l), refl)
capture_allowed-IsCaptured key (object fs) e = inl (e, (λ l. l), refl)

capture-IsCaptured : (key : String) (value : Json) → IsCaptured key value (capture key value)
unfolding summarize
capture-IsCaptured key value = elim (Bool-cases (is_allowed key)) [
  | inl e ↦
      subst (λ b. IsCaptured key value (if b then capture_allowed value else summarize value))
        (sym e) (capture_allowed-IsCaptured key value e)
  | inr e ↦
      subst (λ b. IsCaptured key value (if b then capture_allowed value else summarize value))
        (sym e) (inr (inl e, refl))
]

get_field-capture_fields :
    (k : String) (fs : Fields) {v : Json}
    → get_field k fs ≡ some v
    → get_field k (capture_fields fs) ≡ some (capture k v)
get_field-capture_fields k end h = absurd (cc)
get_field-capture_fields k (field j u fs) {v = v} h = elim (Bool-cases (str_eq j k)) [
  | inl e ↦
      let q : some u ≡ some v = sym (ap (λ b. if b then some u else get_field k fs) e) ∙ h in
      let r : u ≡ v = cc in
      ap (λ b. if b then some (capture j u) else get_field k (capture_fields fs)) e
      ∙ ap (λ n. some (capture n u)) ((eq_iff j k).0 e)
      ∙ ap (λ x. some (capture k x)) r
  | inr e ↦
      ap (λ b. if b then some (capture j u) else get_field k (capture_fields fs)) e
      ∙ get_field-capture_fields k fs (sym (ap (λ b. if b then some u else get_field k fs) e) ∙ h)
]

some_captured :
    (key : String) (fs : Fields) {v : Json}
    → get_field key fs ≡ some v
    → capture_args (some fs) ≡ some (object (capture_fields fs))
unfolding capture_args
some_captured key end h = absurd (cc)
some_captured key (field j u fs) h = refl

-- Every argument of a call is in its record, under its own name: verbatim if that name is on the
-- allow-list and the value is no array of more than 20 elements, so an object of any size with all
-- that it holds as well, and otherwise as nothing but its length.
pub get-capture_args :
    (key : String) (args : Fields) {value : Json}
    → get_field key args ≡ some value
    → (o : Json) × (c : Json) × (capture_args (some args) ≡ some o)
      × (get key o ≡ some c)
      × IsCaptured key value c
get-capture_args key args {value = value} h = (
  object (capture_fields args),
  capture key value,
  some_captured key args h,
  get_field-capture_fields key args h,
  capture-IsCaptured key value,
)
