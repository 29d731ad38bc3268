-- ===== src/UnixSocket/Server/Connection.antt =====
-- embedded-can/embedded-can-unix-socket/src/server.rs: the two threads of a client, and the loop that
-- accepts clients. What a thread sends to the bus is the list of its commands.
use thincan.Common.{
  ℕ, zero, suc, ◌+◌, ◌%◌, ◌^◌, Bool, true, false, Option, none, some, List, [], ◌∷◌, ◌++◌, Result,
  ok, err, take, ◌==◌, if◌then◌else◌,
}
use thincan.UnixSocket.Wire.{
  IoError, WireError, msg_send_frame, msg_frame, msg_ack, msg_set_filters, msg_hello,
  msg_filters_ack, write_msg, read_msg_into, encode_ack,
}
use thincan.UnixSocket.Wire.Frames.{IdApi, SendFrame, encode_frame, decode_send_frame}
use thincan.UnixSocket.Wire.Filters.{IdMaskFilter, decode_filters}
use thincan.UnixSocket.Server.{
  BusCommand, add_client, remove_client, send_frame, set_filters, ServerMsg, frame_msg, ack_msg,
  hello_msg, filters_ack_msg,
}

-- `handle_client`: the channel of the client is named by the client's number.
abbrev pub handle_client : ℕ → List BusCommand
handle_client id = add_client id id ∷ []

-- What a call of `accept` returns: a client, one whose stream cannot be set up, or an error.
pub data Accept : Type 0 where
  accepted not_set_up would_block accept_failed : Accept

-- `accept_loop` with the shutdown flag and the results of `accept`, one pair for each turn.
unfoldable pub accept_loop : ℕ → List (Bool × Accept) → List BusCommand
accept_loop next_id [] = []
accept_loop next_id ((true, event) ∷ events) = []
accept_loop next_id ((false, accepted) ∷ events) =
    handle_client next_id ++ accept_loop ((next_id + 1) % 2 ^ 64) events
accept_loop next_id ((false, not_set_up) ∷ events) = accept_loop ((next_id + 1) % 2 ^ 64) events
accept_loop next_id ((false, would_block) ∷ events) = accept_loop next_id events
accept_loop next_id ((false, accept_failed) ∷ events) = []

module _ (api : IdApi) (id : ℕ) where
  -- The commands that a message gives, and whether the loop goes on.
  abbrev pub sent_frame : Result SendFrame WireError → List BusCommand × Bool
  sent_frame (ok send) = (send_frame id send.seq send.expect_ack send.frame ∷ [], true)
  sent_frame (err e) = (remove_client id ∷ [], false)

  abbrev pub sent_filters : Result (ℕ × List IdMaskFilter) WireError → List BusCommand × Bool
  sent_filters (ok (seq, filters)) = (set_filters id seq filters ∷ [], true)
  sent_filters (err e) = (set_filters id 0 [] ∷ [], true)

  unfoldable pub reader_message : ℕ → List ℕ → List BusCommand × Bool
  reader_message msg_type payload =
      if msg_type == msg_send_frame
      then sent_frame (decode_send_frame api payload)
      else if msg_type == msg_set_filters
      then sent_filters (decode_filters api payload)
      else ([], true)

  abbrev pub add_commands : List BusCommand → Option (List BusCommand) → Option (List BusCommand)
  add_commands commands none = none
  add_commands commands (some rest) = some (commands ++ rest)

  -- The bytes that come before the stream closes, on fuel: one unit for each message.
  unfoldable pub client_reader_loop : ℕ → List ℕ → Option (List BusCommand)
  client_reader_loop zero stream = none
  client_reader_loop (suc fuel) stream = elim (read_msg_into stream) [
    | err e ↦ some (remove_client id ∷ [])
    | ok msg ↦
        let (msg_type, payload, stream') = msg in
        let (commands, go_on) = reader_message msg_type payload in
        let rest = client_reader_loop fuel stream' in
        if go_on then add_commands commands rest else some commands
  ]

-- What one message of the bus puts on the stream, and the frame buffer.
unfoldable pub server_bytes : ServerMsg → List ℕ → Result (List ℕ) IoError × List ℕ
server_bytes (frame_msg frame) frame_buf =
    let (buf, len) = encode_frame frame_buf frame in (write_msg msg_frame (take len buf), buf)
server_bytes (ack_msg seq status) frame_buf = (write_msg msg_ack (encode_ack seq status), frame_buf)
server_bytes hello_msg frame_buf = (write_msg msg_hello [], frame_buf)
server_bytes (filters_ack_msg seq status) frame_buf =
    (write_msg msg_filters_ack (encode_ack seq status), frame_buf)

-- `client_writer_loop` until its channel closes: the bytes that reach the stream and the commands. The
-- list of Booleans says of each message whether the stream takes it; what arrives of one that it does
-- not take is left out.
unfoldable pub client_writer_loop :
    ℕ → List ServerMsg → List Bool → List ℕ → List ℕ × List BusCommand
client_writer_loop id [] takes frame_buf = ([], [])
client_writer_loop id (msg ∷ msgs) [] frame_buf = ([], remove_client id ∷ [])
client_writer_loop id (msg ∷ msgs) (false ∷ takes) frame_buf = ([], remove_client id ∷ [])
client_writer_loop id (msg ∷ msgs) (true ∷ takes) frame_buf =
    let (written, frame_buf') = server_bytes msg frame_buf in
    let (bytes, commands) = client_writer_loop id msgs takes frame_buf' in
    elim written [ err e ↦ ([], remove_client id ∷ []) | ok sent ↦ (sent ++ bytes, commands) ]
