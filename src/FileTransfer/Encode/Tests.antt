-- ===== src/FileTransfer/Encode/Tests.antt =====
-- The encoders of the file transfer at a concrete input.
use thincan.Common.{ℕ, ◌≡◌, refl, [], ◌∷◌, length-replicate, replicate, arith}
use thincan.FileTransfer.Messages.{FileChunk}
use thincan.FileTransfer.Encode.{CapnpBuilder, capnp_padded_len}
use thincan.FileTransfer.Encode.Fits.{
  req_size, chunk_size, ack_size, LaysOut, Encodes, chunk_message, FitsUsize, encode_message,
  segments_of, encode_message-Encodes,
}

-- A builder that writes zeros, as many as the layout has bytes.
abbrev zeros : CapnpBuilder
zeros = record {
  req_segments = λ m scratch. replicate (req_size m) 0 ∷ [];
  chunk_segments = λ m scratch. replicate (chunk_size m) 0 ∷ [];
  ack_segments = λ m scratch. replicate ack_size 0 ∷ [];
}

zeros-LaysOut : LaysOut zeros
zeros-LaysOut = record {
  req = λ m scratch h. (replicate (req_size m) 0, refl, length-replicate {A = ℕ} (req_size m) 0);
  chunk =
      λ m scratch h. (replicate (chunk_size m) 0, refl, length-replicate {A = ℕ} (chunk_size m) 0);
  ack = λ m scratch h. (replicate ack_size 0, refl, length-replicate {A = ℕ} ack_size 0);
}

padded_runs : (capnp_padded_len 0 ≡ 0) × (capnp_padded_len 9 ≡ 16) × (capnp_padded_len 16 ≡ 16)
unfolding capnp_padded_len
padded_runs = (refl, refl, refl)

abbrev three_bytes : FileChunk
three_bytes = record { transfer_id = 7; offset = 0; bytes = 1 ∷ 2 ∷ 3 ∷ [] }

encode_message-Encodes_example : Encodes (encode_message zeros (chunk_message three_bytes)) (
    segments_of zeros
      (chunk_message three_bytes)
      (encode_message zeros (chunk_message three_bytes)).max_encoded_len)
unfolding FitsUsize
encode_message-Encodes_example =
    encode_message-Encodes zeros (chunk_message three_bytes) zeros-LaysOut (omega arith)
