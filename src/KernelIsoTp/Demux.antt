-- ===== src/KernelIsoTp/Demux.antt =====
-- iso-tp/linux-socketcan-iso-tp/src/linux.rs: `KernelUdsDemux`, one socket for each peer of a local address.
pub mod Invariant
pub mod Same
pub mod Runs
pub mod Ready
use Prim.Native.String.{String}
use thincan.Common.{
  ℕ, ◌+◌, ◌≡◌, Bool, true, false, Option, none, some, List, [], ◌∷◌, ◌++◌, Result, ok, err,
  if◌then◌else◌, ◌==◌,
}
use mathlib.Core.Option.{get_or}
use thincan.IsoTpQueue.{send_backend, recv_backend, RecvError}
use thincan.IsoTpQueue.Endpoint.{RecvStatus, status_timed_out}
use thincan.UnixSocket.Frame.{CanId, extended}
use thincan.KernelIsoTp.{
  Duration, IoError, poll_error, Error, io, invalid_config, IsoTpKernelOptions,
  IsoTpFlowControlOptions, RxFlowControl,
}
use thincan.KernelIsoTp.Stmin.{from_millis, isotp_stmin_to_duration}
use thincan.KernelIsoTp.Kernel.{Kernel, Calls, Sys, skip, ◌>>=◌, ◌>>◌}
use thincan.KernelIsoTp.Socket.{SocketCanIsoTp, open_kernel, set_rx_flow_control}
use thincan.KernelIsoTp.Transfer.{
  Revents, Polls, poll_fds, SendTurn, SocketSendResult, send_blocking, OnPayload, RecvReply,
  recv_one_ready,
}

pub record PeerSocket : Type 0 where
  pub addr : ℕ
  pub socket : SocketCanIsoTp

pub record KernelUdsDemux : Type 0 where
  pub iface : String
  pub local_addr : ℕ
  pub options : IsoTpKernelOptions
  pub rx_flow_control : RxFlowControl
  pub peers : List PeerSocket

-- `uds29::encode_phys_id_raw` and `ExtendedId::new`; an identifier of UDS fits in 29 bits.
pub record UdsApi : Type 0 where
  pub encode_phys_id_raw : (target source : ℕ) → ℕ
  pub extended_new : ℕ → Option ℕ
  pub fits :
      (target source : ℕ) → (raw : ℕ) × (extended_new (encode_phys_id_raw target source) ≡ some raw)

unfoldable pub uds_phys_id : UdsApi → ℕ → ℕ → CanId
uds_phys_id api target source = extended (api.fits target source).0

abbrev configured_flow_control : Option IsoTpFlowControlOptions → RxFlowControl
configured_flow_control (some fc) = record {
  block_size = fc.block_size;
  st_min = get_or (isotp_stmin_to_duration fc.st_min) (from_millis 0);
}
configured_flow_control none = record { block_size = 0; st_min = from_millis 0 }

unfoldable pub new_demux : String → ℕ → IsoTpKernelOptions → KernelUdsDemux
new_demux iface local_addr options = record {
  iface = iface;
  local_addr = local_addr;
  options = options;
  rx_flow_control = configured_flow_control options.flow_control;
  peers = [];
}

unfoldable pub find_peer : ℕ → List PeerSocket → Option SocketCanIsoTp
find_peer peer [] = none
find_peer peer (p ∷ peers) = if p.addr == peer then some p.socket else find_peer peer peers

-- What a call returns, the demux, and the calls made.
abbrev pub Stepped {ℓ} : Type ℓ → Type ℓ
Stepped A = A × KernelUdsDemux × Calls

module _ (api : UdsApi) (kernel : Kernel) where
  -- The socket that is opened for a new peer.
  abbrev pub open_peer : KernelUdsDemux → ℕ → Sys SocketCanIsoTp
  open_peer demux peer =
      open_kernel kernel demux.iface (uds_phys_id api demux.local_addr peer)
        (uds_phys_id api peer demux.local_addr) demux.options

  -- A new socket that is set up; an error in setting its flow control is passed over.
  abbrev pub add_peer :
      KernelUdsDemux
      → ℕ
      → Result SocketCanIsoTp Error × Calls
      → Stepped (Result SocketCanIsoTp Error)
  add_peer demux peer (err e, after) = (err e, demux, after)
  add_peer demux peer (ok socket, after) =
      let (ignored, after') = set_rx_flow_control kernel socket demux.rx_flow_control after in
      let added : PeerSocket = record { addr = peer; socket = socket } in
      (ok socket, record demux { peers = demux.peers ++ (added ∷ []) }, after')

  unfoldable pub ensure_peer : ℕ → KernelUdsDemux → Calls → Stepped (Result SocketCanIsoTp Error)
  ensure_peer peer demux calls =
      if peer == demux.local_addr
      then (err (invalid_config "peer address must differ from local_addr"), demux, calls)
      else elim (find_peer peer demux.peers) [
        | some socket ↦ (ok socket, demux, calls)
        | none ↦ add_peer demux peer (open_peer demux peer calls)
      ]

  unfoldable pub register_peer : ℕ → KernelUdsDemux → Calls → Stepped (Result (Unit {0}) Error)
  register_peer peer demux calls =
      let (result, demux', after) = ensure_peer peer demux calls in
      (elim result [ ok socket ↦ ok tt | err e ↦ err e ], demux', after)

  -- `send_to`, from the clock `start`
  unfoldable pub send_to_peer :
      ℕ
      → Duration
      → Duration
      → List SendTurn
      → KernelUdsDemux
      → Calls
      → Stepped (Option SocketSendResult)
  send_to_peer to start timeout turns demux calls =
      let (found, demux', after) = ensure_peer to demux calls in
      (
        elim found [
          | err e ↦ some (err (send_backend e))
          | ok socket ↦ elim (send_blocking start timeout turns) [
            | none ↦ none
            | some (result, rest) ↦ some result
          ]
        ],
        demux',
        after,
      )

module _ (kernel : Kernel) where
  unfoldable pub set_all : RxFlowControl → List PeerSocket → Sys (Unit {0})
  set_all fc [] = skip
  set_all fc (p ∷ peers) = set_rx_flow_control kernel p.socket fc >> set_all fc peers

  unfoldable pub set_flow_control :
      RxFlowControl → KernelUdsDemux → Calls → Stepped (Result (Unit {0}) Error)
  set_flow_control fc demux calls =
      let (result, after) = set_all fc demux.peers calls in
      (result, record demux { rx_flow_control = fc }, after)

unfoldable pub send_functional : SocketSendResult
send_functional =
    err (send_backend (invalid_config "functional send is not supported by KernelUdsDemux"))

-- The result, what the callback was called with, and the peers.
abbrev pub Scanned : Type 0
Scanned = Result RecvStatus (RecvError Error) × List (ℕ × List ℕ) × List PeerSocket

-- The first socket that `poll` reports, in the order of the peers; `ready` is what `recv` on a socket returns.
unfoldable pub scan : OnPayload → (ℕ → RecvReply) → List PeerSocket → List Revents → Scanned
scan on_payload ready [] revents = (ok status_timed_out, [], [])
scan on_payload ready (p ∷ peers) [] = (ok status_timed_out, [], p ∷ peers)
scan on_payload ready (p ∷ peers) (r ∷ revents) =
    let (result, calls, socket) = recv_one_ready on_payload p.addr (ready p.socket.fd) p.socket in
    let (result', calls', peers') = scan on_payload ready peers revents in
    if r.readable
    then (result, calls, record p { socket = socket } ∷ peers)
    else if r.failed
    then (err (recv_backend (io poll_error)), [], p ∷ peers)
    else (result', calls', p ∷ peers')

-- The result, what the callback was called with, and the demux.
abbrev pub FromPeers : Type 0
FromPeers = Result RecvStatus (RecvError Error) × List (ℕ × List ℕ) × KernelUdsDemux

abbrev is_empty : List PeerSocket → Bool
is_empty [] = true
is_empty (p ∷ peers) = false

-- `recv_one`, when `poll` has returned
unfoldable pub recv_polled :
    OnPayload
    → (ℕ → RecvReply)
    → KernelUdsDemux
    → Option (Result (ℕ × List Revents) IoError)
    → Option FromPeers
recv_polled on_payload ready demux none = none
recv_polled on_payload ready demux (some (err e)) = some (err (recv_backend (io e)), [], demux)
recv_polled on_payload ready demux (some (ok (count, revents))) =
    let (result, calls, peers') = scan on_payload ready demux.peers revents in
    if count == 0
    then some (ok status_timed_out, [], demux)
    else some (result, calls, record demux { peers = peers' })

-- `recv_one`
unfoldable pub recv_from_peers :
    OnPayload → Duration → Polls → (ℕ → RecvReply) → KernelUdsDemux → Option FromPeers
recv_from_peers on_payload timeout polls ready demux =
    if is_empty demux.peers
    then some (ok status_timed_out, [], demux)
    else recv_polled on_payload ready demux (poll_fds polls timeout)
