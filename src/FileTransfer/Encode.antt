-- ===== src/FileTransfer/Encode.antt =====
-- thincan-file-transfer/src/alloc_encode.rs and the sizes and value types of src/lib.rs: the encoders of the
-- messages. The Cap'n Proto builder is a parameter: the segments that it returns for a message, by the length of the
-- scratch that it was given. Bytes of a `usize` of 64 bits.
pub mod Fits
pub mod Fixed
mod Tests
use thincan.Common.{
  ℕ, ◌+◌, ◌-◌, ◌^◌, max, bit_and, List, [], ◌∷◌, ◌++◌, Result, ok, err, length, drop, ltb,
  if◌then◌else◌,
}
use thincan.Protocol.Wire.{Error, other_error, EncodeCapnp}
use thincan.FileTransfer.Messages.{FileHashAlgo, sha256, FileReq, FileChunk, FileAck}
use thincan.FileTransfer.Send.{div_ceil}

unfoldable pub capnp_padded_len : ℕ → ℕ
capnp_padded_len len = bit_and (len + 7) (2 ^ 64 - 8)

abbrev pub file_req_max_encoded_len : ℕ
file_req_max_encoded_len = 40

unfoldable pub file_offer_max_encoded_len : ℕ → ℕ → ℕ
file_offer_max_encoded_len metadata_len hash_len =
    40 + capnp_padded_len metadata_len + capnp_padded_len hash_len

unfoldable pub file_chunk_max_encoded_len : ℕ → ℕ
file_chunk_max_encoded_len data_len = 32 + capnp_padded_len data_len

abbrev pub file_ack_max_encoded_len : ℕ
file_ack_max_encoded_len = 24

abbrev pub capnp_scratch_words_for_bytes : ℕ → ℕ
capnp_scratch_words_for_bytes bytes = div_ceil bytes 8

-- The words of the thread's scratch when `min_len` bytes of it were asked for.
unfoldable pub with_capnp_scratch_bytes : ℕ → ℕ → ℕ
with_capnp_scratch_bytes words min_len = max words (div_ceil min_len 8)

pub record FileReqValue : Type 0 where
  pub transfer_id : ℕ
  pub total_len : ℕ

pub record FileOfferValue : Type 0 where
  pub transfer_id : ℕ
  pub total_len : ℕ
  pub file_metadata : List ℕ
  pub sender_max_chunk_size : ℕ
  pub file_hash_algo : FileHashAlgo
  pub file_hash : List ℕ

pub record CapnpBuilder : Type 0 where
  pub req_segments : FileReq → (scratch : ℕ) → List (List ℕ)
  pub chunk_segments : FileChunk → (scratch : ℕ) → List (List ℕ)
  pub ack_segments : FileAck → (scratch : ℕ) → List (List ℕ)

-- The checks on the segments, and the copy into the slice.
unfoldable pub write_segments : ℕ → List (List ℕ) → List ℕ → List ℕ × Result ℕ Error
write_segments max_len [] out = (out, err other_error)
write_segments max_len (bytes ∷ []) out =
    if ltb max_len (length bytes)
    then (out, err other_error)
    else (bytes ++ drop (length bytes) out, ok (length bytes))
write_segments max_len (bytes ∷ more ∷ segments) out = (out, err other_error)

-- `encode`, the same in the four encoders.
unfoldable pub encode_segments : ℕ → (ℕ → List (List ℕ)) → List ℕ → List ℕ × Result ℕ Error
encode_segments max_len segments out =
    if ltb (length out) max_len
    then (out, err other_error)
    else write_segments max_len (segments max_len) out

-- What the setters of the builder put into the root of a `FileReq`.
abbrev pub req_root : FileReqValue → FileReq
req_root v = record {
  transfer_id = v.transfer_id;
  total_len = v.total_len;
  file_metadata = [];
  sender_max_chunk_size = 0;
  file_hash_algo = ok sha256;
  file_hash = [];
}

abbrev pub offer_root : FileOfferValue → FileReq
offer_root v = record {
  transfer_id = v.transfer_id;
  total_len = v.total_len;
  file_metadata = v.file_metadata;
  sender_max_chunk_size = v.sender_max_chunk_size;
  file_hash_algo = ok v.file_hash_algo;
  file_hash = v.file_hash;
}

module _ (builder : CapnpBuilder) where
  unfoldable pub encode_req : FileReqValue → EncodeCapnp
  encode_req v = record {
    max_encoded_len = file_req_max_encoded_len;
    encode = encode_segments file_req_max_encoded_len (builder.req_segments (req_root v));
  }

  unfoldable pub encode_offer : FileOfferValue → EncodeCapnp
  encode_offer v =
      let max_len = file_offer_max_encoded_len (length v.file_metadata) (length v.file_hash) in
      record {
        max_encoded_len = max_len;
        encode = encode_segments max_len (builder.req_segments (offer_root v));
      }

  unfoldable pub encode_chunk : FileChunk → EncodeCapnp
  encode_chunk v =
      let max_len = file_chunk_max_encoded_len (length v.bytes) in
      record {
        max_encoded_len = max_len;
        encode = encode_segments max_len (builder.chunk_segments v);
      }

  unfoldable pub encode_file_ack : FileAck → EncodeCapnp
  encode_file_ack v = record {
    max_encoded_len = file_ack_max_encoded_len;
    encode = encode_segments file_ack_max_encoded_len (builder.ack_segments v);
  }
