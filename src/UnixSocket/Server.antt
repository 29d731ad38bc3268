-- ===== src/UnixSocket/Server.antt =====
-- embedded-can/embedded-can-unix-socket/src/server.rs: the bus. A channel is the number that the
-- accept loop gives its client; what is sent on the channels is a list in the order of the sends, and a
-- send to a client that has gone is lost, as its error is ignored. The entries of a `HashMap` stand in
-- the order in which `values` gives them.
pub mod View
pub mod Refines
pub mod Invariant
pub mod Accepted
pub mod Order
pub mod Connection
pub mod Reader
use thincan.Common.{
  ℕ, zero, suc, ◌+◌, Bool, true, false, not, ◌&&◌, Option, none, some, List, [], ◌∷◌, ◌++◌, length,
  ltb, leb, ◌==◌, bit_and, if◌then◌else◌,
}
use thincan.Common.Maps.{lookup, remove, insert}
use thincan.UnixSocket.Frame.{CanId, standard, extended, UnixFrame}
use thincan.UnixSocket.Wire.{ack_ok, ack_no_ack, ack_server_err}
use thincan.UnixSocket.Wire.Filters.{IdMask, standard_mask, extended_mask, IdMaskFilter}

pub data BusCommand : Type 0 where
  add_client : (id tx : ℕ) → BusCommand
  remove_client : (id : ℕ) → BusCommand
  send_frame : (id seq : ℕ) (expect_ack : Bool) (frame : UnixFrame) → BusCommand
  set_filters : (id seq : ℕ) (filters : List IdMaskFilter) → BusCommand
  shutdown : BusCommand

pub data ServerMsg : Type 0 where
  frame_msg : UnixFrame → ServerMsg
  ack_msg : (seq status : ℕ) → ServerMsg
  hello_msg : ServerMsg
  filters_ack_msg : (seq status : ℕ) → ServerMsg

pub record ClientState : Type 0 where
  pub tx : ℕ
  pub filters : List IdMaskFilter

pub record PendingFilters : Type 0 where
  pub seq : ℕ
  pub filters : List IdMaskFilter

-- The two maps of the loop.
pub record Bus : Type 0 where
  pub clients : List (ℕ × ClientState)
  pub pending_filters : List (ℕ × PendingFilters)

-- What the channels carry.
abbrev pub Sends : Type 0
Sends = List (ℕ × ServerMsg)

abbrev pub filter_match_of : CanId → IdMask → CanId → Bool
filter_match_of (standard fid) (standard_mask mask) (standard raw) =
    bit_and raw mask == bit_and fid mask
filter_match_of (extended fid) (extended_mask mask) (extended raw) =
    bit_and raw mask == bit_and fid mask
filter_match_of _ _ _ = false

unfoldable pub filter_match : IdMaskFilter → CanId → Bool
filter_match filter id = filter_match_of filter.id filter.mask id

unfoldable pub any_match : List IdMaskFilter → CanId → Bool
any_match [] id = false
any_match (filter ∷ filters) id = if filter_match filter id then true else any_match filters id

unfoldable pub filters_match : List IdMaskFilter → UnixFrame → Bool
filters_match [] frame = true
filters_match (filter ∷ filters) frame = any_match (filter ∷ filters) frame.id

unfoldable pub broadcast_frame : List (ℕ × ClientState) → UnixFrame → Sends
broadcast_frame [] frame = []
broadcast_frame ((id, client) ∷ clients) frame =
    let rest = broadcast_frame clients frame in
    if filters_match client.filters frame then (client.tx, frame_msg frame) ∷ rest else rest

-- A message for the client with this id, when it is connected.
abbrev pub send_to : Option ClientState → ServerMsg → Sends
send_to none msg = []
send_to (some client) msg = (client.tx, msg) ∷ []

abbrev pub pending_of : Option PendingFilters → List IdMaskFilter
pending_of none = []
pending_of (some pending) = pending.filters

abbrev pub pending_ack : ℕ → Option PendingFilters → Sends
pending_ack tx none = []
pending_ack tx (some pending) = (tx, filters_ack_msg pending.seq ack_ok) ∷ []

unfoldable pub handle_command : BusCommand → Bus → Bus × Sends
handle_command (add_client id tx) bus =
    let pending = lookup id bus.pending_filters in
    let client : ClientState = record { tx = tx; filters = pending_of pending } in
    (
      record {
        clients = insert id client bus.clients;
        pending_filters = remove id bus.pending_filters;
      },
      (tx, hello_msg) ∷ pending_ack tx pending,
    )
handle_command (remove_client id) bus = (
  record { clients = remove id bus.clients; pending_filters = remove id bus.pending_filters },
  [],
)
handle_command (send_frame id seq expect_ack frame) bus =
    let ack_status : ℕ = if expect_ack && leb (length bus.clients) 1 then ack_no_ack else ack_ok in
    (
      bus,
      broadcast_frame bus.clients frame
          ++ (if expect_ack then send_to (lookup id bus.clients) (ack_msg seq ack_status) else []),
    )
handle_command (set_filters id seq filters) bus =
    if seq == 0
    then (bus, send_to (lookup id bus.clients) (filters_ack_msg seq ack_server_err))
    else elim (lookup id bus.clients) [
      | some client ↦ (
        record bus { clients = insert id (record client { filters = filters }) bus.clients },
        (client.tx, filters_ack_msg seq ack_ok) ∷ [],
      )
      | none ↦ (
        record bus {
          pending_filters = insert id (record { seq = seq; filters = filters }) bus.pending_filters;
        },
        [],
      )
    ]
handle_command shutdown bus = (bus, [])

-- The commands that arrive before every sender is gone.
unfoldable pub bus_loop : List BusCommand → Bus → Bus × Sends
bus_loop [] bus = (bus, [])
bus_loop (shutdown ∷ commands) bus = (bus, [])
bus_loop (cmd ∷ commands) bus =
    let (bus, sends) = handle_command cmd bus in
    let (bus, rest) = bus_loop commands bus in (bus, sends ++ rest)

abbrev pub empty_bus : Bus
empty_bus = record { clients = []; pending_filters = [] }
