-- ===== src/UnixSocket/Tests/ClientRuns.antt =====
-- The theorems about the client and about the two ends of the socket at concrete inputs.
use thincan.Common.{ℕ, ◌≡◌, refl, true, some, List, [], ◌∷◌, ok, arith, replicate}
use thincan.Common.Bytes.{from_le_bytes}
use thincan.UnixSocket.Frame.{standard, from_parts}
use thincan.UnixSocket.Frame.Canonical.{zeros}
use thincan.UnixSocket.Wire.{write_msg, decode_ack}
use thincan.UnixSocket.Wire.Frames.{decode_frame, decode_frame_from_parts}
use thincan.UnixSocket.Wire.Filters.{standard_mask}
use thincan.UnixSocket.Server.{
  ServerMsg, frame_msg, ack_msg, hello_msg, send_frame, set_filters, remove_client,
}
use thincan.UnixSocket.Server.Connection.{client_writer_loop, client_reader_loop}
use thincan.UnixSocket.Client.{UnixCan, frame, ack, hello, unread, decode_msg, with_next_msg}
use thincan.UnixSocket.Client.Io.{
  Read, bytes, read_would_block, interrupted, ready, wait_ready, Write, wrote, write_would_block,
  write_msg_deadline,
}
use thincan.UnixSocket.Client.Parser.{parse, with_next_msg-parse}
use thincan.UnixSocket.Client.Ops.{ack_verdict}
use thincan.UnixSocket.Client.Waits.{Holds, Ended, wait_for-Ended}
use thincan.UnixSocket.Client.Writes.{Framed, write_msg_deadline-Framed}
use thincan.UnixSocket.Link.Downlink.{client_writer_loop-Holds}
use thincan.UnixSocket.Link.Uplink.{
  Request, frame_request, filters_request, uplink, client_reader_loop-asked,
}
use thincan.UnixSocket.Tests.{ids, two_bytes, two_bytes-IsCanonical}

abbrev half_read : UnixCan
half_read = record {
  rx_queue = [];
  rx_bytes = 9 ∷ 9 ∷ 5 ∷ 0 ∷ 0 ∷ 0 ∷ 0 ∷ 2 ∷ [];
  rx_off = 2;
  next_seq = 2;
  filters = [];
}

with_next_msg-parse_example :
    let (result, can') = with_next_msg (decode_msg ids) half_read in
    (result ≡ ok (some hello))
    × (unread can' ≡ 2 ∷ [])
    × ((can'.rx_queue ≡ []) × (can'.next_seq ≡ 2) × (can'.filters ≡ []))
unfolding parse from_le_bytes decode_msg
with_next_msg-parse_example = with_next_msg-parse (decode_msg ids) half_read

abbrev three_reads : List Read
three_reads =
    bytes (8 ∷ 0 ∷ 0 ∷ [])
    ∷ read_would_block (interrupted ∷ ready ∷ [])
    ∷ bytes (
        0 ∷ 0 ∷ 35 ∷ 1 ∷ 0 ∷ 0 ∷ 2 ∷ 1 ∷ 2 ∷ 3 ∷ 9 ∷ 0 ∷ 0 ∷ 0 ∷ 1 ∷ 0 ∷ 0 ∷ 0 ∷ 0 ∷ 0 ∷ 0 ∷ 0 ∷ 0
        ∷ 5 ∷ [])
    ∷ []

abbrev frame_ahead : UnixCan
frame_ahead = record { rx_queue = []; rx_bytes = 2 ∷ []; rx_off = 0; next_seq = 2; filters = [] }

-- The bytes of the reads are a frame, an acknowledgement, and one byte more.
reads-Holds :
    Holds ids
      (2 ∷ 8 ∷ 0 ∷ 0 ∷ 0 ∷ 0 ∷ 35 ∷ 1 ∷ 0 ∷ 0 ∷ 2 ∷ 1 ∷ 2 ∷ 3 ∷ 9 ∷ 0 ∷ 0 ∷ 0 ∷ 1 ∷ 0 ∷ 0 ∷ 0 ∷ 0
        ∷ 0 ∷ 0 ∷ 0 ∷ 0 ∷ 5 ∷ [])
      (frame two_bytes ∷ ack 1 0 ∷ [])
      (5 ∷ [])
unfolding parse from_le_bytes decode_msg decode_frame decode_frame_from_parts from_parts decode_ack
reads-Holds = (_, refl, (_, refl, refl))

wait_for-Ended_example :
    Ended ids (ack_verdict 1) 2 three_reads frame_ahead (ok tt) (two_bytes ∷ []) (5 ∷ [])
unfolding wait_ready
wait_for-Ended_example =
    wait_for-Ended ids (ack_verdict 1) (frame two_bytes ∷ []) (ack 1 0) (ok tt) (5 ∷ []) 2
      three_reads frame_ahead (tt, (refl, (tt, tt)))
      (record { inside = omega arith; compacted = omega arith }) reads-Holds (refl, tt) refl
      (omega arith)

abbrev three_writes : List Write
three_writes = wrote 3 ∷ write_would_block (interrupted ∷ ready ∷ []) ∷ wrote 2 ∷ wrote 2 ∷ []

write_msg_deadline-Framed_example :
    Framed three_writes (write_msg 3 (7 ∷ 8 ∷ [])) (write_msg_deadline three_writes 3 (7 ∷ 8 ∷ []))
write_msg_deadline-Framed_example = write_msg_deadline-Framed three_writes 3 (7 ∷ 8 ∷ [])

abbrev three_messages : List ServerMsg
three_messages = hello_msg ∷ frame_msg two_bytes ∷ ack_msg 1 0 ∷ []

client_writer_loop-Holds_example :
    let (sent, commands) = client_writer_loop 4 three_messages (replicate 3 true) (zeros 70) in
    Holds ids sent (hello ∷ frame two_bytes ∷ ack 1 0 ∷ []) [] × (commands ≡ [])
client_writer_loop-Holds_example =
    client_writer_loop-Holds ids 4 three_messages (zeros 70)
      (tt, ((two_bytes-IsCanonical, (omega arith, refl)), (omega arith, tt)))

abbrev two_requests : List Request
two_requests =
    filters_request 1 (record { id = standard 0x123; mask = standard_mask 0x7ff } ∷ [])
    ∷ frame_request 2 true two_bytes
    ∷ []

client_reader_loop-asked_example :
    (stream : List ℕ) × (uplink two_requests ≡ ok stream)
    × (client_reader_loop ids 4 3 stream
        ≡ some (
            set_filters 4 1 (record { id = standard 0x123; mask = standard_mask 0x7ff } ∷ [])
            ∷ send_frame 4 2 true two_bytes
            ∷ remove_client 4
            ∷ []))
client_reader_loop-asked_example =
    client_reader_loop-asked ids 4 two_requests 3
      (
        (omega arith, omega arith, (((omega arith, refl), omega arith), tt)),
        ((omega arith, two_bytes-IsCanonical, (omega arith, refl)), tt),
      )
      ((tt, tt), (tt, tt)) (omega arith)
