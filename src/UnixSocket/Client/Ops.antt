-- ===== src/UnixSocket/Client/Ops.antt =====
-- embedded-can/embedded-can-unix-socket/src/client.rs: what a client does. A loop over messages runs on
-- fuel, one unit for each message.
use thincan.Common.{
  ℕ, zero, suc, ◌+◌, ◌%◌, ◌^◌, Bool, true, false, Option, none, some, List, [], ◌∷◌, ◌++◌, Result,
  ok, err, map_err, take, replicate, ◌==◌, if◌then◌else◌,
}
use thincan.UnixSocket.Frame.{UnixFrame}
use thincan.UnixSocket.Wire.{
  ack_ok, ack_no_ack, ack_bad_frame, ack_server_err, msg_send_frame, msg_set_filters,
}
use thincan.UnixSocket.Wire.Frames.{IdApi, send_frame_hdr_len, max_data_len, encode_send_frame}
use thincan.UnixSocket.Wire.Filters.{IdMaskFilter, encode_filters}
use thincan.UnixSocket.Client.{
  IoKind, other_kind, UnixCanError, io, protocol, would_block, no_ack, bad_frame, server_error,
  unknown_ack_status, filters_ack_failed, UnixCan, DecodedMsg, frame, ack, filters_ack, hello,
  unknown, next_decoded_msg,
}
use thincan.UnixSocket.Client.Io.{
  Poll, Read, Write, write_msg_deadline, wait_ready, read_more_once, recv_decoded_msg_blocking,
}

-- How a message ends a wait, if it does.
abbrev pub Verdict : Type 0
Verdict = DecodedMsg → Option (Result (Unit {0}) UnixCanError)

abbrev pub hello_verdict : Verdict
hello_verdict hello = some (ok tt)
hello_verdict _ = none

abbrev pub filters_ack_status : ℕ → Result (Unit {0}) UnixCanError
filters_ack_status status =
    if status == ack_ok
    then ok tt
    else if status == ack_server_err
    then err (protocol server_error)
    else err (protocol filters_ack_failed)

abbrev pub filters_ack_verdict : ℕ → Verdict
filters_ack_verdict seq (filters_ack ack_seq status) =
    if ack_seq == seq then some (filters_ack_status status) else none
filters_ack_verdict seq _ = none

abbrev pub ack_status : ℕ → Result (Unit {0}) UnixCanError
ack_status status =
    if status == ack_ok
    then ok tt
    else if status == ack_no_ack
    then err no_ack
    else if status == ack_bad_frame
    then err (protocol bad_frame)
    else if status == ack_server_err
    then err (protocol server_error)
    else err (protocol unknown_ack_status)

abbrev pub ack_verdict : ℕ → Verdict
ack_verdict seq (ack ack_seq status) = if ack_seq == seq then some (ack_status status) else none
ack_verdict seq _ = none

-- `rx_queue.push_back` of a frame.
abbrev pub queued : DecodedMsg → UnixCan → UnixCan
queued (frame f) can = record can { rx_queue = can.rx_queue ++ (f ∷ []) }
queued _ can = can

-- What a call that reads returns, the client, and the events that are left.
abbrev pub Waited : Type 0 → Type 0
Waited A = Result A UnixCanError × UnixCan × List Read

module _ (api : IdApi) where
  -- The loop of `wait_for_hello`, `wait_for_filters_ack` and `wait_for_ack`.
  unfoldable pub wait_for : Verdict → ℕ → List Read → UnixCan → Option (Waited (Unit {0}))
  wait_for verdict zero reads can = none
  wait_for verdict (suc fuel) reads can = elim (recv_decoded_msg_blocking api reads can) [
    | none ↦ none
    | some received ↦
        let (result, can', reads') = received in
        elim result [
          | err e ↦ some (err e, can', reads')
          | ok msg ↦
              let rest = wait_for verdict fuel reads' (queued msg can') in
              elim (verdict msg) [ none ↦ rest | some ended ↦ some (ended, can', reads') ]
        ]
  ]

  -- The loop of `recv` and `recv_timeout`.
  unfoldable pub recv_frame : ℕ → List Read → UnixCan → Option (Waited UnixFrame)
  recv_frame zero reads can = none
  recv_frame (suc fuel) reads can = elim (recv_decoded_msg_blocking api reads can) [
    | none ↦ none
    | some received ↦
        let (result, can', reads') = received in
        elim result [
          | err e ↦ some (err e, can', reads')
          | ok msg ↦
              let rest = recv_frame fuel reads' can' in
              elim msg [
                | frame f ↦ some (ok f, can', reads')
                | ack seq status ↦ rest
                | filters_ack seq status ↦ rest
                | hello ↦ rest
                | unknown ↦ rest
              ]
        ]
  ]

  unfoldable pub recv : ℕ → List Read → UnixCan → Option (Waited UnixFrame)
  recv fuel reads can = elim can.rx_queue [
    | f ∷ queue ↦ some (ok f, record can { rx_queue = queue }, reads)
    | [] ↦ recv_frame fuel reads can
  ]

  -- The messages of the buffer, until one is a frame.
  unfoldable pub next_frame : ℕ → UnixCan → Option (Result UnixFrame UnixCanError × UnixCan)
  next_frame zero can = none
  next_frame (suc fuel) can =
      let (result, can') = next_decoded_msg api can in
      let rest = next_frame fuel can' in
      elim result [
        | err e ↦ some (err e, can')
        | ok found ↦ elim found [
          | none ↦ some (err would_block, can')
          | some msg ↦ elim msg [
            | frame f ↦ some (ok f, can')
            | ack seq status ↦ rest
            | filters_ack seq status ↦ rest
            | hello ↦ rest
            | unknown ↦ rest
          ]
        ]
      ]

  -- One read, which does not wait, then the buffer.
  unfoldable pub try_recv : ℕ → Read → UnixCan → Option (Result UnixFrame UnixCanError × UnixCan)
  try_recv fuel r can = elim can.rx_queue [
    | f ∷ queue ↦ some (ok f, record can { rx_queue = queue })
    | [] ↦
        let (result, can') = read_more_once r can in
        elim result [ err e ↦ some (err e, can') | ok more ↦ next_frame fuel can' ]
  ]

-- The client, the events ahead of it, and the bytes that it has put on the socket.
pub record World : Type 0 where
  pub can : UnixCan
  pub reads : List Read
  pub writes : List Write
  pub wire : List ℕ

-- `next_seq`: the sequence number, and the client with the next one.
abbrev pub take_seq : UnixCan → ℕ × UnixCan
take_seq can = (can.next_seq, record can { next_seq = (can.next_seq + 1) % 2 ^ 64 })

-- The array of zeros with the frame in front, cut off behind it.
abbrev pub send_payload : ℕ → Bool → UnixFrame → List ℕ
send_payload seq expect_ack f =
    let (payload, len) =
      encode_send_frame (replicate (send_frame_hdr_len + max_data_len) 0) seq expect_ack f in
    take len payload

module _ (api : IdApi) where
  -- A message written, and then what the verdict waits for.
  abbrev pub request :
      Verdict → ℕ → ℕ → List ℕ → World → Option (Result (Unit {0}) UnixCanError × World)
  request verdict fuel msg_type payload w = elim (write_msg_deadline w.writes msg_type payload) [
    | none ↦ none
    | some written ↦
        let (result, wire, writes) = written in
        let w' = record w { writes = writes; wire = w.wire ++ wire } in
        elim result [
          | err e ↦ some (err e, w')
          | ok u ↦ elim (wait_for api verdict fuel w.reads w.can) [
            | none ↦ none
            | some waited ↦
                let (ended, can, reads) = waited in
                some (ended, record w' { can = can; reads = reads })
          ]
        ]
  ]

  -- `send`, and `send_timeout`, whose deadlines are in the polls.
  unfoldable pub send : ℕ → UnixFrame → World → Option (Result (Unit {0}) UnixCanError × World)
  send fuel f w =
      let (seq, can) = take_seq w.can in
      request (ack_verdict seq) fuel msg_send_frame (send_payload seq true f)
        (record w { can = can })

  unfoldable pub try_send : UnixFrame → World → Option (Result (Unit {0}) UnixCanError × World)
  try_send f w =
      let (seq, can) = take_seq w.can in
      elim (write_msg_deadline w.writes msg_send_frame (send_payload seq false f)) [
        | none ↦ none
        | some written ↦
            let (result, wire, writes) = written in
            some (result, record w { can = can; writes = writes; wire = w.wire ++ wire })
      ]

  abbrev pub send_filters : ℕ → World → Option (Result (Unit {0}) UnixCanError × World)
  send_filters fuel w =
      let (seq, can) = take_seq w.can in
      request (filters_ack_verdict seq) fuel msg_set_filters (encode_filters seq can.filters)
        (record w { can = can })

  unfoldable pub set_filters :
      ℕ → List IdMaskFilter → World → Option (Result (Unit {0}) UnixCanError × World)
  set_filters fuel filters w =
      send_filters fuel (record w { can = record (w.can) { filters = filters } })

  -- A client that has just connected, before the greeting.
  abbrev pub fresh_can : UnixCan
  fresh_can = record { rx_queue = []; rx_bytes = []; rx_off = 0; next_seq = 1; filters = [] }

  -- The `io::Error` of a failed handshake: that of the socket, or `io::Error::other`.
  abbrev pub handshake_error : UnixCanError → IoKind
  handshake_error (io e) = e
  handshake_error _ = other_kind

  unfoldable pub connect : ℕ → List Read → Option (Result (Unit {0}) IoKind × UnixCan × List Read)
  connect fuel reads = elim (wait_for api hello_verdict fuel reads fresh_can) [
    | none ↦ none
    | some waited ↦
        let (ended, can, reads') = waited in some (map_err ended handshake_error, can, reads')
  ]

-- `wait_not_empty` asks the queue of frames, then the socket.
unfoldable pub wait_not_empty : List Poll → UnixCan → Option (Result (Unit {0}) UnixCanError)
wait_not_empty polls can = elim can.rx_queue [ f ∷ queue ↦ some (ok tt) | [] ↦ wait_ready polls ]
