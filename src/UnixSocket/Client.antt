-- ===== src/UnixSocket/Client.antt =====
-- embedded-can/embedded-can-unix-socket/src/client.rs: the state of a client, its errors, and the
-- messages that it finds in the bytes it has read. What the calls of the socket return is given ahead:
-- a list of events, one for each `read` and each `write`, with the results of the polls that follow it.
pub mod Io
pub mod Parser
pub mod Buffer
pub mod Stream
pub mod Ops
pub mod Waits
pub mod Writes
use thincan.Common.{
  ℕ, zero, suc, ◌+◌, ◌-◌, ◌/◌, ◌%◌, ◌^◌, Bool, true, false, ◌&&◌, Option, none, some, List, [], ◌∷◌,
  ◌++◌, Result, ok, err, map_err, length, take, drop, get_or, ltb, leb, ◌==◌, if◌then◌else◌,
}
use thincan.Common.Bytes.{from_le_bytes}
use thincan.UnixSocket.Frame.{UnixFrame}
use thincan.UnixSocket.Wire.{
  WireError, max_payload_len, msg_frame, msg_ack, msg_hello, msg_filters_ack, decode_ack,
}
use thincan.UnixSocket.Wire.Frames.{IdApi, decode_frame}
use thincan.UnixSocket.Wire.Filters.{IdMaskFilter}

-- `io::ErrorKind`, as far as the client asks for it.
pub data IoKind : Type 0 where
  would_block_kind timed_out_kind interrupted_kind other_kind : IoKind

-- The texts of `UnixCanError::Protocol`.
pub data ProtocolError : Type 0 where
  malformed : WireError → ProtocolError
  payload_exceeds_limit payload_too_large bad_frame server_error filters_ack_failed
        unknown_ack_status :
      ProtocolError

pub data UnixCanError : Type 0 where
  io : IoKind → UnixCanError
  protocol : ProtocolError → UnixCanError
  timeout would_block disconnected no_ack : UnixCanError

-- `embedded_can::ErrorKind`
pub data ErrorKind : Type 0 where
  acknowledge other : ErrorKind

abbrev pub kind : UnixCanError → ErrorKind
kind no_ack = acknowledge
kind would_block = other
kind timeout = other
kind disconnected = other
kind (protocol e) = other
kind (io e) = other

-- `From<io::Error>`
abbrev pub from_io : IoKind → UnixCanError
from_io would_block_kind = would_block
from_io timed_out_kind = timeout
from_io interrupted_kind = io interrupted_kind
from_io other_kind = io other_kind

pub record UnixCan : Type 0 where
  pub rx_queue : List UnixFrame
  pub rx_bytes : List ℕ
  pub rx_off : ℕ
  pub next_seq : ℕ
  pub filters : List IdMaskFilter

pub data DecodedMsg : Type 0 where
  frame : UnixFrame → DecodedMsg
  ack filters_ack : (seq status : ℕ) → DecodedMsg
  hello unknown : DecodedMsg

-- The bytes that no message has been taken from.
abbrev pub unread : UnixCan → List ℕ
unread can = drop can.rx_off can.rx_bytes

-- The bytes and the offset once a message has been taken.
abbrev pub compact : List ℕ → ℕ → List ℕ × ℕ
compact rx_bytes rx_off =
    if leb 4096 rx_off && leb (length rx_bytes / 2) rx_off
    then (drop rx_off rx_bytes, 0)
    else (rx_bytes, rx_off)

abbrev pub taken : UnixCan → ℕ → UnixCan
taken can total =
    let (rx_bytes, rx_off) = compact can.rx_bytes (can.rx_off + total) in
    record can { rx_bytes = rx_bytes; rx_off = rx_off }

module _ {ℓ} {R : Type ℓ} where
  unfoldable pub with_next_msg :
      (ℕ → List ℕ → Result R UnixCanError) → UnixCan → Result (Option R) UnixCanError × UnixCan
  with_next_msg f can =
      let avail = length can.rx_bytes - can.rx_off in
      if ltb avail 5
      then (ok none, can)
      else let msg_type = get_or (unread can) 0 0 in
        let len = from_le_bytes (take 4 (drop 1 (unread can))) in
        if ltb max_payload_len len
        then (err (protocol payload_exceeds_limit), can)
        else if ltb avail (5 + len)
        then (ok none, can)
        else elim (f msg_type (take len (drop 5 (unread can)))) [
          | err e ↦ (err e, can)
          | ok out ↦ (ok (some out), taken can (5 + len))
        ]

abbrev malformed_payload : WireError → UnixCanError
malformed_payload e = protocol (malformed e)

abbrev pub decoded_frame : Result UnixFrame WireError → Result DecodedMsg UnixCanError
decoded_frame (ok f) = ok (frame f)
decoded_frame (err e) = err (malformed_payload e)

abbrev pub decoded_ack :
    (ℕ → ℕ → DecodedMsg) → Result (ℕ × ℕ) WireError → Result DecodedMsg UnixCanError
decoded_ack msg (ok (seq, status)) = ok (msg seq status)
decoded_ack msg (err e) = err (malformed_payload e)

module _ (api : IdApi) where
  -- The closure of `next_decoded_msg`.
  unfoldable pub decode_msg : ℕ → List ℕ → Result DecodedMsg UnixCanError
  decode_msg msg_type payload =
      if msg_type == msg_frame
      then decoded_frame (decode_frame api payload)
      else if msg_type == msg_ack
      then decoded_ack ack (decode_ack payload)
      else if msg_type == msg_filters_ack
      then decoded_ack filters_ack (decode_ack payload)
      else if msg_type == msg_hello
      then ok hello
      else ok unknown

  unfoldable pub next_decoded_msg : UnixCan → Result (Option DecodedMsg) UnixCanError × UnixCan
  next_decoded_msg can = with_next_msg decode_msg can
