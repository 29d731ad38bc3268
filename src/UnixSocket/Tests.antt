-- ===== src/UnixSocket/Tests.antt =====
-- Messages on the socket, and the theorems about the wire and the bus at concrete inputs.
mod ClientRuns
use thincan.Common.{
  ℕ, ◌≡◌, refl, Bool, true, false, Option, none, some, List, [], ◌∷◌, ◌++◌, ok, arith, ltb,
  if◌then◌else◌, length,
}
use thincan.Common.Bytes.{to_le_bytes}
use thincan.Common.Maps.{lookup}
use thincan.UnixSocket.Frame.{standard, extended, UnixFrame}
use thincan.UnixSocket.Frame.Canonical.{zeros, IsCanonical, copied-IsCanonical}
use thincan.UnixSocket.Wire.{write_msg, read_msg_into}
use thincan.UnixSocket.Wire.Framing.{read_msg_into-write_msg}
use thincan.UnixSocket.Wire.Frames.{IdApi}
use thincan.UnixSocket.Wire.Filters.{
  standard_mask, extended_mask, IdMaskFilter, encode_filters, decode_filters,
}
use thincan.UnixSocket.Wire.Filters.RoundTrip.{decode_filters-encode_filters}
use thincan.UnixSocket.Server.{
  BusCommand, add_client, remove_client, send_frame, set_filters, frame_msg, Bus, filter_match,
  filters_match, any_match, handle_command, bus_loop, empty_bus,
}
use thincan.UnixSocket.Server.View.{IsBus, view, received}
use thincan.UnixSocket.Server.Refines.{handle_command-view}
use thincan.UnixSocket.Server.Invariant.{Apart, bus_loop-IsBus}
use thincan.UnixSocket.Server.Connection.{client_reader_loop}
use thincan.UnixSocket.Server.Reader.{RemovedLast, client_reader_loop-RemovedLast}

abbrev bytes : List ℕ
bytes = 3 ∷ 2 ∷ 0 ∷ 0 ∷ 0 ∷ 7 ∷ 8 ∷ []

written : write_msg 3 (7 ∷ 8 ∷ []) ≡ ok bytes
unfolding write_msg to_le_bytes
written = refl

read_msg_into-write_msg_example : read_msg_into (bytes ++ (5 ∷ [])) ≡ ok (3, 7 ∷ 8 ∷ [], 5 ∷ [])
read_msg_into-write_msg_example = read_msg_into-write_msg 3 (7 ∷ 8 ∷ []) (5 ∷ []) bytes written

-- Identifiers of 11 and of 29 bits.
abbrev pub ids : IdApi
ids = record {
  standard_new = λ raw. if ltb raw 2048 then some raw else none;
  extended_new = λ raw. if ltb raw 536870912 then some raw else none;
}

abbrev two_filters : List IdMaskFilter
two_filters =
    record { id = standard 291; mask = extended_mask 15 }
    ∷ record { id = extended 70000; mask = extended_mask 7 }
    ∷ []

decode_filters-encode_filters_example :
    decode_filters ids (encode_filters 7 two_filters)
    ≡ ok (
      7,
      record { id = standard 291; mask = standard_mask 0 }
          ∷ record { id = extended 70000; mask = extended_mask 7 }
          ∷ [],
    )
decode_filters-encode_filters_example =
    decode_filters-encode_filters ids 7 two_filters (omega arith) (omega arith)
      (((omega arith, refl), omega arith), (((omega arith, refl), omega arith), tt))

abbrev pub two_bytes : UnixFrame
two_bytes = record { id = standard 291; data_bytes = 1 ∷ 2 ∷ zeros 62; dlc = 2; remote = false }

pub two_bytes-IsCanonical : IsCanonical two_bytes
two_bytes-IsCanonical = copied-IsCanonical (standard 291) (1 ∷ 2 ∷ []) false (omega arith)

abbrev only_291 : List IdMaskFilter
only_291 = record { id = standard 291; mask = standard_mask 2047 } ∷ []

abbrev two_clients : Bus
two_clients = record {
  clients = (2, record { tx = 2; filters = only_291 }) ∷ (1, record { tx = 1; filters = [] }) ∷ [];
  pending_filters = [];
}

two_clients-IsBus : IsBus two_clients
unfolding lookup
two_clients-IsBus = record { unique = (refl, (refl, tt)); own = (refl, (refl, tt)) }

handle_command-view_example :
    (view 2 (handle_command (send_frame 1 9 true two_bytes) two_clients).0 ≡ view 2 two_clients)
    × (received 2 (handle_command (send_frame 1 9 true two_bytes) two_clients).1
        ≡ frame_msg two_bytes ∷ [])
unfolding lookup filters_match any_match filter_match
handle_command-view_example =
    handle_command-view 2 (send_frame 1 9 true two_bytes) two_clients two_clients-IsBus tt

abbrev some_commands : List BusCommand
some_commands =
    add_client 1 1
    ∷ add_client 2 2
    ∷ set_filters 2 1 only_291
    ∷ set_filters 3 1 only_291
    ∷ send_frame 1 1 true two_bytes
    ∷ remove_client 1
    ∷ []

bus_loop-IsBus_example :
    IsBus (bus_loop some_commands empty_bus).0 × Apart (bus_loop some_commands empty_bus).0
bus_loop-IsBus_example = bus_loop-IsBus some_commands (refl, (refl, (tt, (tt, (tt, (tt, tt))))))

abbrev traffic : List BusCommand
traffic =
    send_frame 1 1 true two_bytes
    ∷ add_client 3 3
    ∷ send_frame 3 1 false (record two_bytes { id = standard 5 })
    ∷ send_frame 2 1 false (record two_bytes { dlc = 1 })
    ∷ []

client_reader_loop-RemovedLast_example :
    RemovedLast 4 (client_reader_loop ids 4 12 (bytes ++ (4 ∷ 0 ∷ 0 ∷ [])))
client_reader_loop-RemovedLast_example =
    client_reader_loop-RemovedLast ids 4 12 (bytes ++ (4 ∷ 0 ∷ 0 ∷ [])) (omega arith)
