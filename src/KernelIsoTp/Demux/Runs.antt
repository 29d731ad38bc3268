-- ===== src/KernelIsoTp/Demux/Runs.antt =====
-- iso-tp/linux-socketcan-iso-tp/src/linux.rs: `KernelUdsDemux` through any operations.
use Prim.Native.String.{String}
use thincan.Common.{
  ℕ, inl, inr, Bool-cases, Option, none, some, List, [], ◌∷◌, Result, ok, err, ◌==◌,
}
use thincan.KernelIsoTp.{Duration, IoError, IsoTpKernelOptions, RxFlowControl}
use thincan.KernelIsoTp.Kernel.{Kernel, Calls}
use thincan.KernelIsoTp.Order.{InOrder-Grows}
use thincan.KernelIsoTp.Transfer.{Revents, Polls, poll_fds, SendTurn, OnPayload, RecvReply}
use thincan.KernelIsoTp.Demux.{
  KernelUdsDemux, UdsApi, new_demux, register_peer, set_flow_control, send_to_peer, FromPeers,
  is_empty, recv_polled, recv_from_peers,
}
use thincan.KernelIsoTp.Demux.Invariant.{
  Distinct, IsDemux, IsDemux-Grows, ensure_peer-IsDemux, set_all-InOrder,
}
use thincan.KernelIsoTp.Demux.Same.{Same-All, Same-Distinct, scan-SamePeers}

-- What is done with a demux. A send or a receive that never returns changes nothing more.
pub data DemuxOp : Type 0 where
  registers : (peer : ℕ) → DemuxOp
  controls : RxFlowControl → DemuxOp
  sends : (to : ℕ) (start timeout : Duration) → List SendTurn → DemuxOp
  receives : OnPayload → (timeout : Duration) → Polls → (ℕ → RecvReply) → DemuxOp

abbrev returned : KernelUdsDemux → Option FromPeers → KernelUdsDemux
returned demux none = demux
returned demux (some (result, payloads, demux')) = demux'

module _ (api : UdsApi) (kernel : Kernel) where
  pub step_demux : DemuxOp → KernelUdsDemux × Calls → KernelUdsDemux × Calls
  step_demux (registers peer) (demux, calls) =
      let (result, demux', after) = register_peer api kernel peer demux calls in (demux', after)
  step_demux (controls fc) (demux, calls) =
      let (result, demux', after) = set_flow_control kernel fc demux calls in (demux', after)
  step_demux (sends to start timeout turns) (demux, calls) =
      let (result, demux', after) = send_to_peer api kernel to start timeout turns demux calls in
      (demux', after)
  step_demux (receives on_payload timeout polls ready) (demux, calls) =
      (returned demux (recv_from_peers on_payload timeout polls ready demux), calls)

  pub run_demux : List DemuxOp → KernelUdsDemux × Calls → KernelUdsDemux × Calls
  run_demux [] state = state
  run_demux (op ∷ ops) state = run_demux ops (step_demux op state)

  set_flow_control-IsDemux :
      (fc : RxFlowControl) (demux : KernelUdsDemux) (calls : Calls)
      → IsDemux api kernel demux calls
      → let (result, demux', after) = set_flow_control kernel fc demux calls in
        IsDemux api kernel demux' after
  unfolding set_flow_control
  set_flow_control-IsDemux fc demux calls v =
      let later =
        IsDemux-Grows api kernel demux
          (InOrder-Grows kernel _ calls _ (set_all-InOrder kernel fc demux.peers calls)) v in
      record { distinct = later.distinct; peers_valid = later.peers_valid }

  module _ (on_payload : OnPayload) (timeout : Duration) (polls : Polls)
      (ready : ℕ → RecvReply) where
    recv_polled-IsDemux :
        (demux : KernelUdsDemux) (calls : Calls) (x : Option (Result (ℕ × List Revents) IoError))
        → IsDemux api kernel demux calls
        → IsDemux api kernel (returned demux (recv_polled on_payload ready demux x)) calls
    unfolding recv_polled
    recv_polled-IsDemux demux calls none v = v
    recv_polled-IsDemux demux calls (some (err e)) v = v
    recv_polled-IsDemux demux calls (some (ok (count, revents))) v =
        elim (Bool-cases (count == 0)) [
          | inl idle ↦ rw idle v
          | inr busy ↦
              let same = scan-SamePeers on_payload ready demux.peers revents in
              rw busy (record {
                distinct = Same-Distinct demux.peers _ same v.distinct;
                peers_valid = Same-All api kernel _ _ _ calls demux.peers _ same v.peers_valid;
              })
        ]

    recv_from_peers-IsDemux :
        (demux : KernelUdsDemux) (calls : Calls)
        → IsDemux api kernel demux calls
        → IsDemux api kernel
            (returned demux (recv_from_peers on_payload timeout polls ready demux))
            calls
    unfolding recv_from_peers
    recv_from_peers-IsDemux demux calls v = elim (Bool-cases (is_empty demux.peers)) [
      | inl none_yet ↦ rw none_yet v
      | inr some_peers ↦ rw some_peers (recv_polled-IsDemux demux calls (poll_fds polls timeout) v)
    ]

  step_demux-IsDemux :
      (op : DemuxOp) (state : KernelUdsDemux × Calls)
      → IsDemux api kernel state.0 state.1
      → let (demux', after) = step_demux op state in IsDemux api kernel demux' after
  unfolding step_demux register_peer send_to_peer
  step_demux-IsDemux (registers peer) (demux, calls) v =
      ensure_peer-IsDemux api kernel demux peer calls v
  step_demux-IsDemux (controls fc) (demux, calls) v = set_flow_control-IsDemux fc demux calls v
  step_demux-IsDemux (sends to start timeout turns) (demux, calls) v =
      ensure_peer-IsDemux api kernel demux to calls v
  step_demux-IsDemux (receives on_payload timeout polls ready) (demux, calls) v =
      recv_from_peers-IsDemux on_payload timeout polls ready demux calls v

  run_demux_lem :
      (ops : List DemuxOp) (state : KernelUdsDemux × Calls)
      → IsDemux api kernel state.0 state.1
      → let (demux', after) = run_demux ops state in IsDemux api kernel demux' after
  unfolding run_demux
  run_demux_lem [] state v = v
  run_demux_lem (op ∷ ops) state v =
      run_demux_lem ops (step_demux op state) (step_demux-IsDemux op state v)

-- After any operations on a new demux, no two of its peers have one address, none has the local address, and the
-- buffer of each has `max_rx_payload` bytes. The socket of each is one that the kernel gave, and directly after it the
-- kernel accepted every option of the demux and then `bind` on the demux's interface to the identifiers from the peer
-- to the local address and back, all of them among the calls that were made.
pub run_demux-IsDemux :
    (api : UdsApi) (kernel : Kernel) (iface : String) (local_addr : ℕ)
    (options : IsoTpKernelOptions) (ops : List DemuxOp)
    → let (demux, calls) = run_demux api kernel ops (new_demux iface local_addr options, []) in
      IsDemux api kernel demux calls
unfolding new_demux Distinct
run_demux-IsDemux api kernel iface local_addr options ops =
    run_demux_lem api kernel ops (new_demux iface local_addr options, [])
      (record { distinct = tt; peers_valid = tt })
