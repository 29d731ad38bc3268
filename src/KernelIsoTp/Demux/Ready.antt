-- ===== src/KernelIsoTp/Demux/Ready.antt =====
-- iso-tp/linux-socketcan-iso-tp/src/linux.rs: which peer's message `recv_one` of `KernelUdsDemux` delivers.
use thincan.Common.{
  ℕ, ◌≤◌, ◌≡◌, refl, true, false, some, List, [], ◌∷◌, length, take, ok, arith, ne→==,
}
use thincan.IsoTpQueue.Endpoint.{status_delivered_one}
use thincan.KernelIsoTp.{Duration}
use thincan.KernelIsoTp.Transfer.{
  Revents, Polls, poll_fds, OnPayload, RecvReply, brought, recv_one_ready,
}
use thincan.KernelIsoTp.Transfer.Copy.{deliver_lem}
use thincan.KernelIsoTp.Demux.{
  PeerSocket, KernelUdsDemux, is_empty, Scanned, scan, recv_polled, recv_from_peers,
}

-- The first peer for which `poll` reports anything, and what it reports is data.
pub data FirstReady : List PeerSocket → List Revents → PeerSocket → Type 0 where
  first :
      {p : PeerSocket} {peers : List PeerSocket} {r : Revents} {revents : List Revents}
      → r.readable ≡ true
      → FirstReady (p ∷ peers) (r ∷ revents) p
  further :
      {p q : PeerSocket} {peers : List PeerSocket} {r : Revents} {revents : List Revents}
      → r.readable ≡ false
      → r.failed ≡ false
      → FirstReady peers revents q
      → FirstReady (p ∷ peers) (r ∷ revents) q

FirstReady-some :
    {peers : List PeerSocket} {revents : List Revents} {p : PeerSocket}
    → FirstReady peers revents p
    → is_empty peers ≡ false
FirstReady-some (first h) = refl
FirstReady-some (further h k later) = refl

module _ (on_payload : OnPayload) (ready : ℕ → RecvReply) (p : PeerSocket) (message : List ℕ) where
  abbrev Delivers : Scanned → Type 0
  Delivers (result, calls, peers) =
      (result ≡ ok status_delivered_one)
      × (calls ≡ (p.addr, take (length p.socket.rx_buf) message) ∷ [])

  -- The kernel has a message for the peer, there is room for some of it, and the callback takes it.
  pub record IsDeliverable : Type 0 where
    pub has : ready p.socket.fd ≡ brought message
    pub some_bytes : 1 ≤ length message
    pub some_room : 1 ≤ length p.socket.rx_buf
    pub taken : on_payload p.addr (take (length p.socket.rx_buf) message) ≡ ok tt

  scan-FirstReady :
      (peers : List PeerSocket) (revents : List Revents)
      → IsDeliverable
      → FirstReady peers revents p
      → Delivers (scan on_payload ready peers revents)
  unfolding scan recv_one_ready
  scan-FirstReady _ _ d (first data_in) =
      rw (data_in, d.has)
        (deliver_lem on_payload p.addr message p.socket d.some_bytes d.some_room d.taken)
  scan-FirstReady _ _ d (further {peers = peers} {revents = revents} no_data fine later) =
      rw (no_data, fine) (scan-FirstReady peers revents d later)

  -- `recv_one` delivers the message of the first peer that `poll` reports, with that peer's address, if no failed
  -- socket stands in front of it: the callback gets the message, cut at the buffer's length.
  pub recv_from_peers_delivers :
      (demux : KernelUdsDemux) (timeout : Duration) (polls : Polls) (count : ℕ)
      (revents : List Revents)
      → poll_fds polls timeout ≡ some (ok (count, revents))
      → 1 ≤ count
      → IsDeliverable
      → FirstReady demux.peers revents p
      → (demux' : KernelUdsDemux) × (recv_from_peers on_payload timeout polls ready demux
          ≡ some (
            ok status_delivered_one,
            (p.addr, take (length p.socket.rx_buf) message) ∷ [],
            demux',
          ))
  unfolding recv_from_peers recv_polled
  recv_from_peers_delivers demux timeout polls count revents e some_ready d f =
      let (result, calls) = scan-FirstReady demux.peers revents d f in
      (
        record demux { peers = (scan on_payload ready demux.peers revents).2 },
        rw (FirstReady-some f, e, ne→== count 0 (λ z. omega arith), result, calls) refl,
      )
