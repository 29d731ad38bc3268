-- ===== src/UnixSocket/Wire.antt =====
-- embedded-can/embedded-can-unix-socket/src/wire.rs: the framing of messages on the socket, and the
-- acknowledgement; frames and filters are in the children. A reader is the bytes that still come before
-- the stream closes; a writer takes what it is given, and a function that writes returns the bytes.
pub mod Framing
pub mod Frames
pub mod Filters
use thincan.Common.{
  ℕ, ◌-◌, ◌^◌, List, [], ◌∷◌, ◌++◌, Result, ok, err, length, take, drop, get_or, ltb, ◌==◌,
  if◌then◌else◌,
}
use thincan.Common.Bytes.{to_le_bytes, from_le_bytes}

abbrev pub msg_send_frame : ℕ
msg_send_frame = 1

abbrev pub msg_frame : ℕ
msg_frame = 2

abbrev pub msg_ack : ℕ
msg_ack = 3

abbrev pub msg_set_filters : ℕ
msg_set_filters = 4

abbrev pub msg_hello : ℕ
msg_hello = 5

abbrev pub msg_filters_ack : ℕ
msg_filters_ack = 6

abbrev pub ack_ok : ℕ
ack_ok = 0

abbrev pub ack_no_ack : ℕ
ack_no_ack = 1

abbrev pub ack_bad_frame : ℕ
ack_bad_frame = 2

abbrev pub ack_server_err : ℕ
ack_server_err = 3

abbrev pub max_payload_len : ℕ
max_payload_len = 4096

abbrev pub ack_len : ℕ
ack_len = 9

pub data IoError : Type 0 where
  invalid_input invalid_data unexpected_eof : IoError

-- `read_exact`: the bytes read, and those that are left.
abbrev pub read_exact : ℕ → List ℕ → Result (List ℕ × List ℕ) IoError
read_exact n reader =
    if ltb (length reader) n then err unexpected_eof else ok (take n reader, drop n reader)

unfoldable pub write_msg : ℕ → List ℕ → Result (List ℕ) IoError
write_msg msg_type payload =
    if ltb (2 ^ 32 - 1) (length payload)
    then err invalid_input
    else ok ((msg_type ∷ to_le_bytes 4 (length payload)) ++ payload)

abbrev pub read_payload :
    ℕ → Result (List ℕ × List ℕ) IoError → Result (ℕ × List ℕ × List ℕ) IoError
read_payload msg_type (err e) = err e
read_payload msg_type (ok (payload, rest)) = ok (msg_type, payload, rest)

abbrev pub read_body : Result (List ℕ × List ℕ) IoError → Result (ℕ × List ℕ × List ℕ) IoError
read_body (err e) = err e
read_body (ok (header, rest)) =
    let msg_type = get_or header 0 0 in
    let len = from_le_bytes (take 4 (drop 1 header)) in
    if ltb max_payload_len len
    then err invalid_data
    else read_payload msg_type (read_exact len rest)

-- The type of the message, its payload, and what is left to read.
unfoldable pub read_msg_into : List ℕ → Result (ℕ × List ℕ × List ℕ) IoError
read_msg_into reader = read_body (read_exact 5 reader)

pub data WireError : Type 0 where
  invalid_send_frame_payload_length invalid_frame_payload_length invalid_ack_payload_length :
      WireError
  invalid_filters_payload_length invalid_dlc invalid_extended_id invalid_standard_id invalid_frame :
      WireError

-- The array of nine bytes is overwritten whole.
unfoldable pub encode_ack : ℕ → ℕ → List ℕ
encode_ack seq status = to_le_bytes 8 seq ++ (status ∷ [])

unfoldable pub decode_ack : List ℕ → Result (ℕ × ℕ) WireError
decode_ack payload =
    if length payload == ack_len
    then ok (from_le_bytes (take 8 payload), get_or payload 8 0)
    else err invalid_ack_payload_length
