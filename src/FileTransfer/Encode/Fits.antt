-- ===== src/FileTransfer/Encode/Fits.antt =====
-- thincan-file-transfer/src/alloc_encode.rs: the bounds on the encoded messages are enough.
use thincan.Common.{
  ℕ, ◌+◌, ◌*◌, ◌/◌, ◌^◌, ◌≤◌, ◌<◌, ◌≡◌, refl, inl, inr, Bool-cases, List, [], ◌∷◌, ◌++◌, ok, length,
  drop, length-append, length-drop, ltb, le→ltb, ltb→le, arith,
}
use thincan.Common.Digits.{bit_and_round}
use thincan.Protocol.Wire.{EncodeCapnp}
use thincan.Protocol.Wire.RoundTrip.{KeepsLength}
use thincan.FileTransfer.Messages.{FileReq, FileChunk, FileAck}
use thincan.FileTransfer.Encode.{
  capnp_padded_len, file_offer_max_encoded_len, file_chunk_max_encoded_len,
  with_capnp_scratch_bytes, FileReqValue, FileOfferValue, CapnpBuilder, write_segments,
  encode_segments, req_root, offer_root, encode_req, encode_offer, encode_chunk, encode_file_ack,
}

-- A number of bytes in whole words.
abbrev pub whole_words : ℕ → ℕ
whole_words len = 8 * ((len + 7) / 8)

capnp_padded_len-whole_words : (len : ℕ) → len + 7 < 2 ^ 64 → capnp_padded_len len ≡ whole_words len
unfolding capnp_padded_len
capnp_padded_len-whole_words len h = bit_and_round (len + 7) h

-- The scratch has the bytes that were asked for.
with_capnp_scratch_bytes-le :
    (words min_len : ℕ) → min_len ≤ 8 * with_capnp_scratch_bytes words min_len
unfolding with_capnp_scratch_bytes
with_capnp_scratch_bytes-le words min_len = ground arith

-- The layout of Cap'n Proto: a word for the root's pointer, the words of the struct's numbers and pointers, and
-- each `Data` in whole words.
abbrev pub req_size : FileReq → ℕ
req_size m =
    8 * (1 + 2 + 2) + whole_words (length m.file_metadata) + whole_words (length m.file_hash)

abbrev pub chunk_size : FileChunk → ℕ
chunk_size m = 8 * (1 + 1 + 1) + whole_words (length m.bytes)

abbrev pub ack_size : ℕ
ack_size = 8 * (1 + 2)

-- One segment of this many bytes.
abbrev pub IsOne : ℕ → List (List ℕ) → Type 0
IsOne size segments = (bytes : List ℕ) × (segments ≡ bytes ∷ []) × (length bytes ≡ size)

-- A builder whose scratch has room for a message lays it out in one segment.
pub record LaysOut (builder : CapnpBuilder) : Type 0 where
  pub req :
      (m : FileReq) (scratch : ℕ)
      → req_size m ≤ scratch
      → IsOne (req_size m) (builder.req_segments m scratch)
  pub chunk :
      (m : FileChunk) (scratch : ℕ)
      → chunk_size m ≤ scratch
      → IsOne (chunk_size m) (builder.chunk_segments m scratch)
  pub ack :
      (m : FileAck) (scratch : ℕ)
      → ack_size ≤ scratch
      → IsOne ack_size (builder.ack_segments m scratch)

-- An encoder that always succeeds on a slice of its `max_encoded_len`, and writes that one segment.
pub record Encodes (v : EncodeCapnp) (segments : List (List ℕ)) : Type 0 where
  pub keeps : KeepsLength v
  pub bytes : List ℕ
  pub one : segments ≡ bytes ∷ []
  pub within : length bytes ≤ v.max_encoded_len
  pub written :
      (out : List ℕ)
      → v.max_encoded_len ≤ length out
      → v.encode out ≡ (bytes ++ drop (length bytes) out, ok (length bytes))

write_segments-length :
    (max_len : ℕ) (segments : List (List ℕ)) (out : List ℕ)
    → max_len ≤ length out
    → length (write_segments max_len segments out).0 ≡ length out
unfolding write_segments
write_segments-length max_len [] out h = refl
write_segments-length max_len (bytes ∷ []) out h = elim (Bool-cases (ltb max_len (length bytes))) [
  | inl long ↦ rw long refl
  | inr fits ↦ rw fits (
      omega (
        arith,
        length-append bytes (drop (length bytes) out),
        length-drop (length bytes) out,
        ltb→le max_len (length bytes) fits,
      ))
]
write_segments-length max_len (bytes ∷ more ∷ segments) out h = refl

module _ (max_len : ℕ) (segments : ℕ → List (List ℕ)) where
  abbrev encoder : EncodeCapnp
  encoder = record { max_encoded_len = max_len; encode = encode_segments max_len segments }

  encoder-KeepsLength : KeepsLength encoder
  unfolding encode_segments
  encoder-KeepsLength = record {
    at = λ out. elim (Bool-cases (ltb (length out) max_len)) [
      | inl short ↦ rw short refl
      | inr room ↦
          rw room (
            write_segments-length max_len (segments max_len) out (ltb→le (length out) max_len room))
    ];
  }

  encoder-Encodes :
      (size : ℕ)
      → size ≤ max_len
      → IsOne size (segments max_len)
      → Encodes encoder (segments max_len)
  unfolding encode_segments write_segments
  encoder-Encodes size h (bytes, one, len) = record {
    keeps = encoder-KeepsLength;
    bytes = bytes;
    one = one;
    within = omega arith;
    written = λ out room.
        rw (le→ltb (length out) max_len room, one, le→ltb max_len (length bytes) (omega arith))
          refl;
  }

offer_fits :
    (v : FileOfferValue)
    → length v.file_metadata + 7 < 2 ^ 64
    → length v.file_hash + 7 < 2 ^ 64
    → req_size (offer_root v)
      ≤ file_offer_max_encoded_len (length v.file_metadata) (length v.file_hash)
unfolding file_offer_max_encoded_len
offer_fits v h k = omega (
  arith,
  capnp_padded_len-whole_words (length v.file_metadata) h,
  capnp_padded_len-whole_words (length v.file_hash) k,
)

chunk_fits :
    (v : FileChunk)
    → length v.bytes + 7 < 2 ^ 64
    → chunk_size v ≤ file_chunk_max_encoded_len (length v.bytes)
unfolding file_chunk_max_encoded_len
chunk_fits v h = omega (arith, capnp_padded_len-whole_words (length v.bytes) h)

-- The four messages.
pub data FileMessage : Type 0 where
  req_message : FileReqValue → FileMessage
  offer_message : FileOfferValue → FileMessage
  chunk_message : FileChunk → FileMessage
  ack_message : FileAck → FileMessage

-- Each `Data` is a slice, which leaves room in a `usize`.
unfoldable pub FitsUsize : FileMessage → Type 0
FitsUsize (req_message v) = Unit
FitsUsize (offer_message v) =
    (length v.file_metadata + 7 < 2 ^ 64) × (length v.file_hash + 7 < 2 ^ 64)
FitsUsize (chunk_message v) = length v.bytes + 7 < 2 ^ 64
FitsUsize (ack_message v) = Unit

module _ (builder : CapnpBuilder) where
  abbrev pub encode_message : FileMessage → EncodeCapnp
  encode_message (req_message v) = encode_req builder v
  encode_message (offer_message v) = encode_offer builder v
  encode_message (chunk_message v) = encode_chunk builder v
  encode_message (ack_message v) = encode_file_ack builder v

  -- What the builder makes of the message in a scratch.
  abbrev pub segments_of : FileMessage → ℕ → List (List ℕ)
  segments_of (req_message v) = builder.req_segments (req_root v)
  segments_of (offer_message v) = builder.req_segments (offer_root v)
  segments_of (chunk_message v) = builder.chunk_segments v
  segments_of (ack_message v) = builder.ack_segments v

  -- The bounds on the sizes of the messages are enough: with a builder that lays a message out in one segment when its
  -- scratch has room, each encoder succeeds on every slice of at least its `max_encoded_len` bytes, writes the segment
  -- to the front of it, reports its length, which is within that bound, and keeps the slice's length.
  pub encode_message-Encodes :
      (m : FileMessage)
      → LaysOut builder
      → FitsUsize m
      → Encodes (encode_message m) (segments_of m (encode_message m).max_encoded_len)
  unfolding FitsUsize encode_req encode_offer encode_chunk encode_file_ack
  encode_message-Encodes (req_message v) lays u =
      encoder-Encodes 40 _ _ (omega arith) (lays.req (req_root v) 40 (omega arith))
  encode_message-Encodes (offer_message v) lays u =
      encoder-Encodes _ _ _ (offer_fits v u.0 u.1)
        (lays.req (offer_root v) _ (offer_fits v u.0 u.1))
  encode_message-Encodes (chunk_message v) lays u =
      encoder-Encodes _ _ _ (chunk_fits v u) (lays.chunk v _ (chunk_fits v u))
  encode_message-Encodes (ack_message v) lays u =
      encoder-Encodes 24 _ _ (omega arith) (lays.ack v 24 (omega arith))
