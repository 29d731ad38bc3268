-- ===== src/FileTransfer/Encode/Fixed.antt =====
-- thincan-file-transfer/src/heapless_encode.rs: the encoders with a scratch of a fixed number of words, which keep
-- how many of them are in use. The encoders that build in the caller's slice are not modelled: what the builder leaves
-- behind the message is its own affair.
use thincan.Common.{
  ℕ, ◌*◌, ◌≤◌, ◌≡◌, refl, max, inl, inr, Bool-cases, List, Result, ok, err, ◌>>=◌, map_err, length,
  ltb, le→ltb, arith, if◌then◌else◌,
}
use thincan.Protocol.Wire.{Error, other_error}
use thincan.FileTransfer.Messages.{FileAckKind, FileAckError, FileChunk, FileAck, NotInSchema}
use thincan.FileTransfer.Encode.{
  capnp_scratch_words_for_bytes, file_offer_max_encoded_len, file_chunk_max_encoded_len,
  file_ack_max_encoded_len, FileOfferValue, CapnpBuilder, offer_root, write_segments,
  encode_segments,
}

-- `CapnpScratch`: its capacity, and the words in use.
pub record CapnpScratch : Type 0 where
  pub capacity : ℕ
  pub words : ℕ

abbrev pub new_scratch : ℕ → CapnpScratch
new_scratch capacity = record { capacity = capacity; words = 0 }

-- The scratch when `min_len` bytes of it can be given. As many words are pushed as are missing.
unfoldable pub with_bytes : ℕ → CapnpScratch → Result CapnpScratch Error
with_bytes min_len scratch =
    let min_words = capnp_scratch_words_for_bytes min_len in
    if ltb scratch.capacity min_words
    then err other_error
    else ok (record scratch { words = max scratch.words min_words })

-- The scratch, the slice, and how many bytes of it are used.
abbrev pub Encoded : Type 0
Encoded = CapnpScratch × List ℕ × Result ℕ Error

unfoldable pub encode_into : ℕ → (ℕ → List (List ℕ)) → CapnpScratch → List ℕ → Encoded
encode_into max_len segments scratch out =
    if ltb (length out) max_len
    then (scratch, out, err other_error)
    else elim (with_bytes max_len scratch) [
      | err e ↦ (scratch, out, err e)
      | ok scratch' ↦
          let (out', result) = write_segments max_len (segments max_len) out in
          (scratch', out', result)
    ]

module _ (builder : CapnpBuilder) where
  unfoldable pub encode_file_offer_into : FileOfferValue → CapnpScratch → List ℕ → Encoded
  encode_file_offer_into v =
      encode_into (file_offer_max_encoded_len (length v.file_metadata) (length v.file_hash))
        (builder.req_segments (offer_root v))

  unfoldable pub encode_file_chunk_into : FileChunk → CapnpScratch → List ℕ → Encoded
  encode_file_chunk_into v =
      encode_into (file_chunk_max_encoded_len (length v.bytes)) (builder.chunk_segments v)

  unfoldable pub encode_file_ack_into : FileAck → CapnpScratch → List ℕ → Encoded
  encode_file_ack_into v = encode_into file_ack_max_encoded_len (builder.ack_segments v)

-- What the generated reader of a `FileAck` returns.
pub record FileAckFields : Type 0 where
  pub transfer_id : ℕ
  pub kind : Result FileAckKind NotInSchema
  pub next_offset : ℕ
  pub chunk_size : ℕ
  pub error : Result FileAckError NotInSchema

unfoldable pub decode_file_ack_fields : {E : Type 0} → Result FileAckFields E → Result FileAck Error
decode_file_ack_fields root = do
  fields ← map_err root (λ e. other_error)
  kind ← map_err fields.kind (λ e. other_error)
  error ← map_err fields.error (λ e. other_error)
  ok (record {
    transfer_id = fields.transfer_id;
    kind = kind;
    next_offset = fields.next_offset;
    chunk_size = fields.chunk_size;
    error = error;
  })

module _ (max_len : ℕ) (segments : ℕ → List (List ℕ)) (scratch : CapnpScratch) (out : List ℕ) where
  -- A scratch that can hold the bound encodes as a scratch on the heap does.
  pub encode_into-encode_segments :
      max_len ≤ 8 * scratch.capacity
      → let (scratch', out', result) = encode_into max_len segments scratch out in
        (out', result) ≡ encode_segments max_len segments out
  unfolding encode_into encode_segments with_bytes
  encode_into-encode_segments h = elim (Bool-cases (ltb (length out) max_len)) [
    | inl short ↦ rw short refl
    | inr room ↦
        rw (room, le→ltb scratch.capacity (capnp_scratch_words_for_bytes max_len) (ground arith))
          refl
  ]
