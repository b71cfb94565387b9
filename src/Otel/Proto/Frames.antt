-- ===== src/Otel/Proto/Frames.antt =====
-- Tags and length-delimited fields: what each writer appends, and that the reader takes it back.
use ruoqa_mcp.Common.{
  ℕ, suc, ◌+◌, ◌-◌, ◌*◌, ◌/◌, ◌%◌, ◌^◌, ◌<◌, ◌≡◌, refl, ap, some, [], ◌∷◌, ◌++◌, append_assoc,
  arith, length, length-append, take_append, drop_append,
}
use ruoqa_mcp.Otel.Proto.{
  Bytes, write_varint, write_tag, write_message, write_bytes, splice_at, wire_len,
}
use ruoqa_mcp.Otel.Proto.Reader.{read_varint, read_field, read_payload, Payload, len}
use ruoqa_mcp.Otel.Proto.Varint.{write_varint-append, read_varint-write_varint}

-- A field number whose tag fits 32 bits.
abbrev pub IsFieldNumber : ℕ → Type 0
IsFieldNumber field = field < 2 ^ 29

pub write_tag-append :
    (buf : Bytes) (field wire : ℕ) → write_tag buf field wire ≡ buf ++ write_tag [] field wire
unfolding write_tag
write_tag-append buf field wire = write_varint-append buf _

pub read_varint-write_tag :
    (field wire : ℕ) (rest : Bytes)
    → IsFieldNumber field
    → wire < 8
    → read_varint (write_tag [] field wire ++ rest) ≡ some (field * 8 + wire, rest)
unfolding write_tag
read_varint-write_tag field wire rest f w =
    let exact : field * 8 % 2 ^ 32 ≡ field * 8 = omega arith in
    rw exact (read_varint-write_varint (field * 8 + wire) rest)

-- A field whose payload the reader takes from `bs`, leaving `rest`.
pub read_field-write_tag :
    (field wire : ℕ) (bs : Bytes) {p : Payload} {rest : Bytes}
    → IsFieldNumber field
    → wire < 8
    → read_payload wire bs ≡ some (p, rest)
    → read_field (write_tag [] field wire ++ bs) ≡ some ((field, p), rest)
unfolding read_field
read_field-write_tag field wire bs f w e =
    let number : (field * 8 + wire) / 8 ≡ field = omega arith in
    let low : (field * 8 + wire) % 8 ≡ wire = omega arith in
    rw (read_varint-write_tag field wire bs f w, low, e, number) refl

-- A length-delimited field: tag, length, body.
unfoldable pub chunk : ℕ → Bytes → Bytes
chunk field body = write_tag [] field wire_len ++ (write_varint [] (length body) ++ body)

read_payload-len :
    (body rest : Bytes)
    → read_payload wire_len (write_varint [] (length body) ++ (body ++ rest))
      ≡ some (len body, rest)
unfolding read_payload
read_payload-len body rest =
    rw (read_varint-write_varint (length body) (body ++ rest))
      (ground (arith, length-append body rest, take_append body rest, drop_append body rest))

pub read_field-chunk :
    (field : ℕ) (body rest : Bytes)
    → IsFieldNumber field
    → read_field (chunk field body ++ rest) ≡ some ((field, len body), rest)
unfolding chunk
read_field-chunk field body rest f =
    rw (append_assoc, append_assoc)
      (read_field-write_tag field wire_len _ f (omega arith) (read_payload-len body rest))

splice_at_append :
    (front more back : Bytes)
    → splice_at (length front) more (front ++ back) ≡ front ++ (more ++ back)
splice_at_append [] more back = refl
splice_at_append (b ∷ front) more back = ap (λ r. b ∷ r) (splice_at_append front more back)

-- A body that appends what it would write into an empty buffer.
abbrev pub Appends : (Bytes → Bytes) → Type 0
Appends body = (b : Bytes) → body b ≡ b ++ body []

-- The length that is put in front afterwards is that of the body alone.
pub write_message-chunk :
    (buf : Bytes) (field : ℕ) (body : Bytes → Bytes)
    → Appends body
    → write_message buf field body ≡ buf ++ chunk field (body [])
unfolding write_message chunk
write_message-chunk buf field body h =
    let tagged = write_tag buf field wire_len in
    let size : length (tagged ++ body []) - length tagged ≡ length (body []) =
      rw length-append (omega arith) in
    rw (h tagged, size, splice_at_append, write_tag-append buf field wire_len, append_assoc) refl

pub write_bytes-chunk :
    (buf : Bytes) (field b : ℕ) (v : Bytes)
    → write_bytes buf field (b ∷ v) ≡ buf ++ chunk field (b ∷ v)
unfolding write_bytes chunk
write_bytes-chunk buf field b v =
    rw
      (
        write_varint-append (write_tag buf field wire_len) (suc (length v)),
        write_tag-append buf field wire_len,
        append_assoc,
        append_assoc,
      )
      refl
