-- ===== src/Otel/Proto/Attributes.antt =====
-- `write_attributes` and the messages below it, read back field by field.
use ruoqa_mcp.Common.{
  ℕ, ◌≡◌, refl, sym, ap, ◌∙◌, inl, inr, true, false, some, List, [], ◌∷◌, ◌++◌, map, append-nil,
  append_assoc, arith, ◌==◌, ==_iff, Bool-cases, All,
}
use ruoqa_mcp.Common.Int.{cast_unsigned}
use ruoqa_mcp.Otel.Proto.{
  Bytes, write_varint, write_tag, write_bytes, write_string, write_value, write_any_value,
  write_key_value, write_attributes, Value, str, int, bool, double, is_zero_double, wire_varint,
  wire_fixed64, le_bytes,
}
use ruoqa_mcp.Otel.Proto.Reader.{read_message, Payload, len, key_value_of, attributes_of, ◌>>=◌}
use ruoqa_mcp.Otel.Proto.Varint.{write_varint-append}
use ruoqa_mcp.Otel.Proto.Frames.{
  IsFieldNumber, write_tag-append, chunk, Appends, write_message-chunk, write_bytes-chunk,
}
use ruoqa_mcp.Otel.Proto.Values.{
  Parses, Parses-nil, Parses-read_message, Parses-chunk, member, IsWireValue, Parses-write_value,
  value_of-member_fields,
}

tagged_varint-Appends : (field wire v : ℕ) → Appends (λ b. write_varint (write_tag b field wire) v)
tagged_varint-Appends field wire v b =
    write_varint-append (write_tag b field wire) v
    ∙ ap (λ t. t ++ write_varint [] v) (write_tag-append b field wire)
    ∙ append_assoc b (write_tag [] field wire) (write_varint [] v)
    ∙ ap (λ t. b ++ t) (sym (write_varint-append (write_tag [] field wire) v))

pub write_value-Appends : (v : Value) → Appends (write_value v)
unfolding write_value
write_value-Appends (str []) b = sym (append-nil b)
write_value-Appends (str (c ∷ s)) b =
    write_bytes-chunk b 1 c s ∙ ap (λ t. b ++ t) (sym (write_bytes-chunk [] 1 c s))
write_value-Appends (bool true) b = tagged_varint-Appends 2 wire_varint 1 b
write_value-Appends (bool false) b = sym (append-nil b)
write_value-Appends (int i) b = elim (Bool-cases (cast_unsigned i == 0)) [
  | inl z ↦ rw z (sym (append-nil b))
  | inr z ↦ rw z (tagged_varint-Appends 3 wire_varint (cast_unsigned i) b)
]
write_value-Appends (double d) b = elim (Bool-cases (is_zero_double d)) [
  | inl z ↦ rw z (sym (append-nil b))
  | inr z ↦
      rw z (ap (λ t. t ++ le_bytes 8 d) (write_tag-append b 4 wire_fixed64) ∙ append_assoc b _ _)
]

-- `AnyValue`, `KeyValue` and the attributes, as the chunks that are appended.
pub write_any_value-chunk :
    (buf : Bytes) (field : ℕ) (v : Value)
    → write_any_value buf field v ≡ buf ++ chunk field (write_value v [])
unfolding write_any_value
write_any_value-chunk buf field v = write_message-chunk buf field _ (write_value-Appends v)

pub write_string-Appends : (field : ℕ) (s : Bytes) → Appends (λ b. write_string b field s)
unfolding write_string
write_string-Appends field [] b = sym (append-nil b)
write_string-Appends field (c ∷ s) b =
    write_bytes-chunk b field c s ∙ ap (λ t. b ++ t) (sym (write_bytes-chunk [] field c s))

abbrev pub key_value_body : Bytes → Value → Bytes → Bytes
key_value_body key v b = write_any_value (write_string b 1 key) 2 v

key_value_body-Appends : (key : Bytes) (v : Value) → Appends (key_value_body key v)
key_value_body-Appends key v b =
    write_any_value-chunk (write_string b 1 key) 2 v
    ∙ ap (λ t. t ++ chunk 2 (write_value v [])) (write_string-Appends 1 key b)
    ∙ append_assoc b _ _
    ∙ ap (λ t. b ++ t) (sym (write_any_value-chunk (write_string [] 1 key) 2 v))

pub write_key_value-chunk :
    (buf : Bytes) (field : ℕ) (key : Bytes) (v : Value)
    → write_key_value buf field key v ≡ buf ++ chunk field (key_value_body key v [])
unfolding write_key_value
write_key_value-chunk buf field key v =
    write_message-chunk buf field _ (key_value_body-Appends key v)

-- A key is there unless it is empty.
abbrev key_fields : Bytes → List (ℕ × Payload) → List (ℕ × Payload)
key_fields [] fs = fs
key_fields (c ∷ s) fs = (1, len (c ∷ s)) ∷ fs

Parses-key_value_body :
    (key : Bytes) (v : Value)
    → Parses (key_value_body key v []) (key_fields key ((2, len (write_value v [])) ∷ []))
unfolding write_string
Parses-key_value_body [] v =
    rw (write_any_value-chunk [] 2 v, ← append-nil (chunk 2 (write_value v [])))
      (Parses-chunk 2 (write_value v []) [] (omega arith) Parses-nil)
Parses-key_value_body (c ∷ s) v =
    rw (write_any_value-chunk (write_bytes [] 1 (c ∷ s)) 2 v, write_bytes-chunk [] 1 c s)
      (Parses-chunk 1 (c ∷ s) (chunk 2 (write_value v [])) (omega arith) (
        rw (← append-nil (chunk 2 (write_value v [])))
          (Parses-chunk 2 (write_value v []) [] (omega arith) Parses-nil)))

key_value_of-body :
    (key : Bytes) (v : Value)
    → IsWireValue v
    → (read_message (key_value_body key v []) >>= key_value_of) ≡ some (key, member v)
unfolding key_value_of
key_value_of-body [] v h =
    rw
      (
        Parses-read_message _ (Parses-key_value_body [] v),
        Parses-read_message _ (Parses-write_value v h),
        value_of-member_fields v h,
      )
      refl
key_value_of-body (c ∷ s) v h =
    rw
      (
        Parses-read_message _ (Parses-key_value_body (c ∷ s) v),
        Parses-read_message _ (Parses-write_value v h),
        value_of-member_fields v h,
      )
      refl

abbrev pub AttributesFit : List (Bytes × Value) → Type 0
AttributesFit attrs = All (λ a. IsWireValue a.1) attrs

abbrev attribute_chunks : ℕ → List (Bytes × Value) → Bytes
attribute_chunks field [] = []
attribute_chunks field ((key, v) ∷ attrs) =
    chunk field (key_value_body key v []) ++ attribute_chunks field attrs

abbrev attribute_fields : ℕ → List (Bytes × Value) → List (ℕ × Payload)
attribute_fields field [] = []
attribute_fields field ((key, v) ∷ attrs) =
    (field, len (key_value_body key v [])) ∷ attribute_fields field attrs

pub write_attributes-chunks :
    (buf : Bytes) (field : ℕ) (attrs : List (Bytes × Value))
    → write_attributes buf field attrs ≡ buf ++ attribute_chunks field attrs
unfolding write_attributes
write_attributes-chunks buf field [] = sym (append-nil buf)
write_attributes-chunks buf field ((key, v) ∷ attrs) =
    write_attributes-chunks (write_key_value buf field key v) field attrs
    ∙ ap (λ t. t ++ attribute_chunks field attrs) (write_key_value-chunk buf field key v)
    ∙ append_assoc buf _ _

Parses-attribute_chunks :
    (field : ℕ) (attrs : List (Bytes × Value))
    → IsFieldNumber field
    → Parses (attribute_chunks field attrs) (attribute_fields field attrs)
Parses-attribute_chunks field [] f = Parses-nil
Parses-attribute_chunks field ((key, v) ∷ attrs) f =
    Parses-chunk field _ (attribute_chunks field attrs) f (Parses-attribute_chunks field attrs f)

attributes_of-fields :
    (field : ℕ) (attrs : List (Bytes × Value))
    → AttributesFit attrs
    → attributes_of field (attribute_fields field attrs) ≡ some (map (λ a. (a.0, member a.1)) attrs)
unfolding attributes_of
attributes_of-fields field [] h = refl
attributes_of-fields field ((key, v) ∷ attrs) (h, hs) =
    rw ((==_iff field field).1 refl, key_value_of-body key v h, attributes_of-fields field attrs hs)
      refl

-- The attributes that the writer appends are read back in order under their keys, each with its
-- value; only a value that is zero or empty is missing.
pub attributes-write_attributes :
    (field : ℕ) (attrs : List (Bytes × Value))
    → IsFieldNumber field
    → AttributesFit attrs
    → (read_message (write_attributes [] field attrs) >>= attributes_of field)
      ≡ some (map (λ a. (a.0, member a.1)) attrs)
attributes-write_attributes field attrs f h =
    rw
      (
        write_attributes-chunks [] field attrs,
        Parses-read_message _ (Parses-attribute_chunks field attrs f),
      )
      (attributes_of-fields field attrs h)
