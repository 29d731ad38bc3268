-- ===== src/Protocol/Wire/RoundTrip.antt =====
-- What the encoder writes is what the decoder reads, and the encoder stays inside its buffer.
use thincan.Common.{
  ℕ, ◌+◌, ◌≤◌, ◌<◌, ◌^◌, ◌≡◌, refl, refl, sym, ap, ◌∙◌, List, [], ◌∷◌, ◌++◌, Result, ok, err,
  length, take, drop, arith, ltb, le→ltb, lt→ltb, ltb→le, Bool-cases, inl, inr, length-append,
  length-drop, length-take, take-append, drop-append, take-append_le, take-append_add, All,
}
use thincan.Common.Bytes.{
  IsByte, to_le_bytes, from_le_bytes, length-to_le_bytes, from_le_bytes-to_le_bytes,
}
use thincan.Protocol.Wire.{
  Error, buffer_too_small, header_len, RawMessage, decode_wire, EncodeCapnp, encode_capnp_into_buf,
  used_part,
}

-- An encoder is given a slice, whose length it cannot change.
pub record KeepsLength (v : EncodeCapnp) : Type 0 where
  pub at : (out : List ℕ) → length (v.encode out).0 ≡ length out

-- The payload of a message.
abbrev pub wire : ℕ → List ℕ → List ℕ
wire id body = to_le_bytes header_len id ++ body

pub decode_wire-wire :
    (id : ℕ) (body : List ℕ)
    → id < 2 ^ 16
    → decode_wire (wire id body) ≡ ok (record { id = id; body = body })
unfolding decode_wire
decode_wire-wire id body h = rw (le→ltb (length (wire id body)) 2 long) (
    rw (take-append (to_le_bytes 2 id) body (sym (length-to_le_bytes 2 id))) (
      rw (drop-append (to_le_bytes 2 id) body (sym (length-to_le_bytes 2 id)))
        (rw (from_le_bytes-to_le_bytes 2 id h))))
  where
    long : 2 ≤ length (wire id body)
    long = omega (arith, length-append (to_le_bytes 2 id) body, length-to_le_bytes 2 id)

-- A payload of bytes that is accepted is the wire form of the message it is decoded to.
pub wire-decode_wire :
    (payload : List ℕ) (m : RawMessage)
    → All IsByte payload
    → decode_wire payload ≡ ok m
    → wire m.id m.body ≡ payload
unfolding decode_wire to_le_bytes from_le_bytes
wire-decode_wire [] m bytes e = cc
wire-decode_wire (a ∷ []) m bytes e = cc
wire-decode_wire (a ∷ b ∷ rest) m (ha, (hb, hs)) e = ground arith

-- The slice that `encode_capnp_into_buf` hands to the encoder.
abbrev pub slice : EncodeCapnp → List ℕ → List ℕ
slice v buf = take v.max_encoded_len (drop header_len buf)

-- What a successful encoder wrote is the payload.
pub encode_capnp_into_buf-wire :
    (id : ℕ) (v : EncodeCapnp) (buf out : List ℕ) (used : ℕ)
    → KeepsLength v
    → header_len + v.max_encoded_len ≤ length buf
    → v.encode (take v.max_encoded_len (drop header_len buf)) ≡ (out, ok used)
    → used ≤ v.max_encoded_len
    → (encode_capnp_into_buf id v buf).1 ≡ ok (wire id (take used out))
unfolding encode_capnp_into_buf
encode_capnp_into_buf-wire id v buf out used keeps room enc fits = written
  where
    out_len : length out ≡ v.max_encoded_len
    out_len =
        sym (ap (λ (p : List ℕ × Result ℕ Error). length p.0) enc)
        ∙ keeps.at _
        ∙ omega (arith, length-take v.max_encoded_len (drop header_len buf), length-drop 2 buf)

    written : (encode_capnp_into_buf id v buf).1 ≡ ok (wire id (take used out))
    written = rw (le→ltb _ _ room) (
        rw enc (
          rw (le→ltb _ _ fits) (
            ap ok (
              take-append_add 2 used (to_le_bytes 2 id) _ (length-to_le_bytes 2 id)
              ∙ ap (λ l. to_le_bytes 2 id ++ l)
                  (take-append_le used out _ (omega (arith, out_len)))))))

-- Encoding a message whose id has 16 bits, into a buffer with room for the header and the encoder's
-- bound, with an encoder that succeeds and reports no more than its bound, gives a payload, and this
-- payload decodes to the id and the bytes that the encoder used.
pub encode-decode_wire :
    (id : ℕ) (v : EncodeCapnp) (buf out : List ℕ) (used : ℕ)
    → id < 2 ^ 16
    → KeepsLength v
    → header_len + v.max_encoded_len ≤ length buf
    → v.encode (take v.max_encoded_len (drop header_len buf)) ≡ (out, ok used)
    → used ≤ v.max_encoded_len
    → (payload : List ℕ) × ((encode_capnp_into_buf id v buf).1 ≡ ok payload)
      × (decode_wire payload ≡ ok (record { id = id; body = take used out }))
encode-decode_wire id v buf out used hid keeps room enc fits = (
  wire id (take used out),
  encode_capnp_into_buf-wire id v buf out used keeps room enc fits,
  decode_wire-wire id (take used out) hid,
)

module _ (id : ℕ) (v : EncodeCapnp) (buf : List ℕ) (keeps : KeepsLength v) where
  length-written :
      header_len + v.max_encoded_len ≤ length buf
      → length (
          to_le_bytes header_len id
          ++ ((v.encode (slice v buf)).0 ++ drop (header_len + v.max_encoded_len) buf))
        ≡ length buf
  length-written room = omega (
    arith,
    keeps.at (slice v buf),
    length-to_le_bytes 2 id,
    length-append (to_le_bytes 2 id)
        ((v.encode (slice v buf)).0 ++ drop (2 + v.max_encoded_len) buf),
    length-append (v.encode (slice v buf)).0 (drop (2 + v.max_encoded_len) buf),
    length-drop (2 + v.max_encoded_len) buf,
    length-take v.max_encoded_len (drop 2 buf),
    length-drop 2 buf,
  )

  -- With an encoder that keeps the length of its slice, the buffer keeps its length on every path.
  pub length-encode_capnp_into_buf : length (encode_capnp_into_buf id v buf).0 ≡ length buf
  unfolding encode_capnp_into_buf
  length-encode_capnp_into_buf = elim (Bool-cases (ltb (length buf) (2 + v.max_encoded_len))) [
    | inl short ↦ rw short
    | inr room ↦ rw room (length-written (ltb→le _ _ room))
  ]

pub encode_capnp_into_buf-too_small :
    (id : ℕ) (v : EncodeCapnp) (buf : List ℕ)
    → length buf < header_len + v.max_encoded_len
    → encode_capnp_into_buf id v buf ≡ (
      buf,
      err (record { kind = buffer_too_small (header_len + v.max_encoded_len) (length buf) }),
    )
unfolding encode_capnp_into_buf
encode_capnp_into_buf-too_small id v buf short = rw (lt→ltb _ _ short)

used_part_ok :
    (max_len n : ℕ) (buf payload : List ℕ) (r : Result ℕ Error)
    → length buf ≡ n
    → header_len + max_len ≤ n
    → used_part max_len buf r ≡ ok payload
    → (used : ℕ) × (r ≡ ok used) × (used ≤ max_len) × (length payload ≡ header_len + used)
used_part_ok max_len n buf payload (err x) l room e = cc
used_part_ok max_len n buf payload (ok used) l room e =
    (used, refl, ground arith, ground (arith, length-take (2 + used) buf))

-- With an encoder that keeps the length of its slice, a payload comes back only where the buffer holds
-- the header and the encoder's bound, the encoder succeeds, and it reports no more than its bound. The
-- payload is then as long as the header and what the encoder used.
pub encode_capnp_into_buf_ok :
    (id : ℕ) (v : EncodeCapnp) (buf payload : List ℕ)
    → KeepsLength v
    → (encode_capnp_into_buf id v buf).1 ≡ ok payload
    → (used : ℕ) × (header_len + v.max_encoded_len ≤ length buf)
      × ((v.encode (slice v buf)).1 ≡ ok used)
      × (used ≤ v.max_encoded_len)
      × (length payload ≡ header_len + used)
unfolding encode_capnp_into_buf
encode_capnp_into_buf_ok id v buf payload keeps e =
    elim (Bool-cases (ltb (length buf) (2 + v.max_encoded_len))) [
      | inl short ↦ cc (rw short at e)
      | inr room ↦
          let fits = ltb→le _ _ room in
          let (used, encoded, bounded, long) =
            used_part_ok _ _ _ payload _ (length-written id v buf keeps fits) fits (rw room at e) in
          (used, fits, encoded, bounded, long)
    ]
