-- ===== src/KernelIsoTp/Demux/Same.antt =====
-- iso-tp/linux-socketcan-iso-tp/src/linux.rs: a receive keeps the peers of a `KernelUdsDemux` and their sockets.
use thincan.Common.{ℕ, ◌≡◌, ◌≢◌, refl, sym, ◌∙◌, inl, inr, Bool-cases, List, [], ◌∷◌, All, length}
use Prim.Native.String.{String}
use thincan.Common.{arith}
use thincan.KernelIsoTp.{
  would_block, interrupted, unexpected_eof, poll_error, other, IsoTpKernelOptions,
}
use thincan.KernelIsoTp.Kernel.{Kernel, Calls}
use thincan.KernelIsoTp.Socket.{SocketCanIsoTp}
use thincan.KernelIsoTp.Transfer.{
  Revents, OnPayload, deliver, RecvReply, brought, recv_failed, recv_one_ready,
}
use thincan.KernelIsoTp.Transfer.Copy.{length-copied_into}
use thincan.KernelIsoTp.Demux.{PeerSocket, UdsApi, scan}
use thincan.KernelIsoTp.Demux.Invariant.{Distinct, IsPeer}

-- A receive changes what is in the buffer of a socket, and nothing else.
pub SameSocket : SocketCanIsoTp → SocketCanIsoTp → Type 0
SameSocket s t = (t.fd ≡ s.fd) × (length t.rx_buf ≡ length s.rx_buf)

deliver-SameSocket :
    (on_payload : OnPayload) (reply_to : ℕ) (message : List ℕ) (s : SocketCanIsoTp)
    → SameSocket s (deliver on_payload reply_to message s).2
unfolding deliver SameSocket
deliver-SameSocket on_payload reply_to message s =
    ground (arith, length-copied_into message s.rx_buf)

recv_one_ready-SameSocket :
    (on_payload : OnPayload) (reply_to : ℕ) (reply : RecvReply) (s : SocketCanIsoTp)
    → SameSocket s (recv_one_ready on_payload reply_to reply s).2
unfolding recv_one_ready SameSocket
recv_one_ready-SameSocket on_payload reply_to (brought message) s =
    deliver-SameSocket on_payload reply_to message s
recv_one_ready-SameSocket on_payload reply_to (recv_failed would_block) s = (refl, refl)
recv_one_ready-SameSocket on_payload reply_to (recv_failed interrupted) s = (refl, refl)
recv_one_ready-SameSocket on_payload reply_to (recv_failed unexpected_eof) s = (refl, refl)
recv_one_ready-SameSocket on_payload reply_to (recv_failed poll_error) s = (refl, refl)
recv_one_ready-SameSocket on_payload reply_to (recv_failed (other code)) s = (refl, refl)

-- The same peers, each with the same socket.
pub SamePeers : List PeerSocket → List PeerSocket → Type 0
SamePeers [] [] = Unit
SamePeers (p ∷ ps) (q ∷ qs) = (q.addr ≡ p.addr) × SameSocket p.socket q.socket × SamePeers ps qs
SamePeers _ _ = ⊥

SamePeers-refl : (ps : List PeerSocket) → SamePeers ps ps
unfolding SamePeers SameSocket
SamePeers-refl [] = tt
SamePeers-refl (p ∷ ps) = (refl, (refl, refl), SamePeers-refl ps)

module _ (on_payload : OnPayload) (ready : ℕ → RecvReply) where
  pub scan-SamePeers :
      (peers : List PeerSocket) (revents : List Revents)
      → SamePeers peers (scan on_payload ready peers revents).2
  unfolding scan SamePeers SameSocket
  scan-SamePeers [] revents = tt
  scan-SamePeers (p ∷ peers) [] = SamePeers-refl (p ∷ peers)
  scan-SamePeers (p ∷ peers) (r ∷ revents) = elim (Bool-cases r.readable) [
    | inl full ↦ rw full (
      refl,
      recv_one_ready-SameSocket on_payload p.addr (ready p.socket.fd) p.socket,
      SamePeers-refl peers,
    )
    | inr no_data ↦ elim (Bool-cases r.failed) [
      | inl broken ↦ rw (no_data, broken) (SamePeers-refl (p ∷ peers))
      | inr fine ↦ rw (no_data, fine) (refl, (refl, refl), scan-SamePeers peers revents)
    ]
  ]

module _ (api : UdsApi) (kernel : Kernel) where
  Same-IsPeer :
      (iface : String) (local_addr : ℕ) (o : IsoTpKernelOptions) (calls : Calls) (p q : PeerSocket)
      → q.addr ≡ p.addr
      → SameSocket p.socket q.socket
      → IsPeer api kernel iface local_addr o calls p
      → IsPeer api kernel iface local_addr o calls q
  unfolding SameSocket
  Same-IsPeer iface local_addr o calls p q a (f, l) v = record {
    remote = rw a v.remote;
    buffer_size = l ∙ v.buffer_size;
    opened = rw (a, f) v.opened;
  }

  pub Same-All :
      (iface : String) (local_addr : ℕ) (o : IsoTpKernelOptions) (calls : Calls)
      (ps qs : List PeerSocket)
      → SamePeers ps qs
      → All (IsPeer api kernel iface local_addr o calls) ps
      → All (IsPeer api kernel iface local_addr o calls) qs
  unfolding SamePeers
  Same-All iface local_addr o calls [] [] same v = tt
  Same-All iface local_addr o calls [] (q ∷ qs) same v = elim same [ ]
  Same-All iface local_addr o calls (p ∷ ps) [] same v = elim same [ ]
  Same-All iface local_addr o calls (p ∷ ps) (q ∷ qs) (a, s, same) (v, vs) = (
    Same-IsPeer iface local_addr o calls p q a s v,
    Same-All iface local_addr o calls ps qs same vs,
  )

Same-others :
    (a : ℕ) (ps qs : List PeerSocket)
    → SamePeers ps qs
    → All (λ p. p.addr ≢ a) ps
    → All (λ q. q.addr ≢ a) qs
unfolding SamePeers
Same-others a [] [] same v = tt
Same-others a [] (q ∷ qs) same v = elim same [ ]
Same-others a (p ∷ ps) [] same v = elim same [ ]
Same-others a (p ∷ ps) (q ∷ qs) (e, s, same) (v, vs) =
    ((λ h. v (sym e ∙ h)), Same-others a ps qs same vs)

pub Same-Distinct : (ps qs : List PeerSocket) → SamePeers ps qs → Distinct ps → Distinct qs
unfolding SamePeers Distinct
Same-Distinct [] [] same v = tt
Same-Distinct [] (q ∷ qs) same v = elim same [ ]
Same-Distinct (p ∷ ps) [] same v = elim same [ ]
Same-Distinct (p ∷ ps) (q ∷ qs) (e, s, same) (v, vs) =
    (rw e (Same-others p.addr ps qs same v), Same-Distinct ps qs same vs)
