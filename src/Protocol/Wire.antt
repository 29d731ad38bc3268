-- ===== src/Protocol/Wire.antt =====
-- thincan/src/lib.rs: the errors, the two-byte header, `decode_wire` and `encode_capnp_into_buf`.
-- A slice is the list of its bytes, and `usize` is not bounded.
pub mod RoundTrip
use thincan.Common.{ℕ, ◌+◌, List, ◌++◌, Result, ok, err, length, take, drop, ltb, if◌then◌else◌}
use thincan.Common.Bytes.{to_le_bytes, from_le_bytes}

pub data ErrorKind : Type 0 where
  timeout : ErrorKind
  buffer_too_small : (needed got : ℕ) → ErrorKind
  other : ErrorKind

pub record Error : Type 0 where
  pub kind : ErrorKind

abbrev pub other_error : Error
other_error = record { kind = other }

abbrev pub timeout_error : Error
timeout_error = record { kind = timeout }

pub record RawMessage : Type 0 where
  pub id : ℕ
  pub body : List ℕ

abbrev pub header_len : ℕ
header_len = 2

unfoldable pub decode_wire : List ℕ → Result RawMessage Error
decode_wire payload =
    if ltb (length payload) header_len
    then err other_error
    else ok
        (record { id = from_le_bytes (take header_len payload); body = drop header_len payload })

-- The trait `EncodeCapnp`. `encode` is given the slice to write, and returns what the slice holds
-- afterwards with the number of bytes used.
pub record EncodeCapnp : Type 0 where
  pub max_encoded_len : ℕ
  pub encode : List ℕ → List ℕ × Result ℕ Error

-- The end of `encode_capnp_into_buf`: the length that the encoder reports is checked.
abbrev pub used_part : ℕ → List ℕ → Result ℕ Error → Result (List ℕ) Error
used_part max_len buf (err e) = err e
used_part max_len buf (ok used) =
    if ltb max_len used then err other_error else ok (take (header_len + used) buf)

-- The buffer afterwards, and the slice of it that holds the payload.
unfoldable pub encode_capnp_into_buf : ℕ → EncodeCapnp → List ℕ → List ℕ × Result (List ℕ) Error
encode_capnp_into_buf id value buf =
    let max_len = value.max_encoded_len in
    let needed = header_len + max_len in
    if ltb (length buf) needed
    then (buf, err (record { kind = buffer_too_small needed (length buf) }))
    else let (out, r) = value.encode (take max_len (drop header_len buf)) in
      let buf' = to_le_bytes header_len id ++ (out ++ drop needed buf) in
      (buf', used_part max_len buf' r)
