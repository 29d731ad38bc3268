-- ===== src/KernelIsoTp/Demux/Invariant.antt =====
-- iso-tp/linux-socketcan-iso-tp/src/linux.rs: what holds of `KernelUdsDemux` after any operations.
use Prim.Native.String.{String}
use thincan.Common.{
  ℕ, ◌≡◌, ◌≢◌, refl, sym, ap, ◌∙◌, subst, inl, inr, Bool-cases, Option-cases, none, List, [], ◌∷◌,
  ◌++◌, map, All, All-append, append-nil, append_assoc, length, length-replicate, Result, ok, err,
  ◌==◌, ==_iff, arith,
}
use thincan.UnixSocket.Frame.{CanId}
use thincan.KernelIsoTp.{Error, IsoTpKernelOptions, RxFlowControl}
use thincan.KernelIsoTp.Kernel.{open_socket, Kernel, Calls, ◌>>◌, sys_}
use thincan.KernelIsoTp.Order.{
  in_order, IsAccepted, InOrder, in_order-InOrder, Grows, Grows-more, Grows-trans, sys_-Grows,
}
use thincan.KernelIsoTp.Socket.{SocketCanIsoTp, flow_control_call, set_rx_flow_control}
use thincan.KernelIsoTp.Socket.Opened.{setup, Opened, open_kernel-Opened, NotOpened-Grows}
use thincan.KernelIsoTp.Demux.{
  PeerSocket, KernelUdsDemux, UdsApi, uds_phys_id, find_peer, add_peer, ensure_peer, set_all,
}

-- No two peers have one address.
unfoldable pub Distinct : List PeerSocket → Type 0
Distinct [] = Unit
Distinct (p ∷ peers) = All (λ q. q.addr ≢ p.addr) peers × Distinct peers

-- Among the calls are those that open the socket with this number and set it up, one after another: the kernel
-- gave the number, and accepted each option, the address and `bind`.
pub record WasOpened (kernel : Kernel) (iface : String) (rx_id tx_id : CanId)
    (o : IsoTpKernelOptions) (fd : ℕ) (calls : Calls) : Type 0 where
  pub before : Calls
  pub later : Calls
  pub given : kernel before open_socket ≡ ok fd
  pub accepted :
      IsAccepted kernel (before ++ (open_socket ∷ [])) (setup kernel iface rx_id tx_id o fd)
  pub made :
      calls ≡ ((before ++ (open_socket ∷ [])) ++ setup kernel iface rx_id tx_id o fd) ++ later

module _ (api : UdsApi) (kernel : Kernel) where
  -- The socket of a peer was opened for the two identifiers of the pair of addresses, and its buffer has room for
  -- the longest payload.
  pub record IsPeer (iface : String) (local_addr : ℕ) (o : IsoTpKernelOptions) (calls : Calls)
      (p : PeerSocket) : Type 0 where
    pub remote : p.addr ≢ local_addr
    pub buffer_size : length p.socket.rx_buf ≡ o.max_rx_payload
    pub opened :
        WasOpened kernel iface
          (uds_phys_id api local_addr p.addr)
          (uds_phys_id api p.addr local_addr)
          o
          p.socket.fd
          calls

  pub record IsDemux (demux : KernelUdsDemux) (calls : Calls) : Type 0 where
    pub distinct : Distinct demux.peers
    pub peers_valid : All (IsPeer demux.iface demux.local_addr demux.options calls) demux.peers

WasOpened-Grows :
    (kernel : Kernel) (iface : String) (rx_id tx_id : CanId) (o : IsoTpKernelOptions) (fd : ℕ)
    {calls after : Calls}
    → Grows calls after
    → WasOpened kernel iface rx_id tx_id o fd calls
    → WasOpened kernel iface rx_id tx_id o fd after
WasOpened-Grows kernel iface rx_id tx_id o fd g h = record {
  before = h.before;
  later = h.later ++ g.more;
  given = h.given;
  accepted = h.accepted;
  made = g.grown ∙ ap (λ l. l ++ g.more) h.made ∙ append_assoc _ h.later g.more;
}

-- `set_all` is the calls of the peers, one after another.
set_all-in_order :
    (kernel : Kernel) (fc : RxFlowControl) (peers : List PeerSocket)
    → set_all kernel fc peers
      ≡ in_order kernel (map (λ p. flow_control_call kernel p.socket fc) peers)
unfolding set_all in_order set_rx_flow_control
set_all-in_order kernel fc [] = refl
set_all-in_order kernel fc (p ∷ peers) =
    ap (λ m. sys_ kernel (flow_control_call kernel p.socket fc) >> m)
      (set_all-in_order kernel fc peers)

-- `set_rx_flow_control` of the demux makes one call for each peer, in the order of the peers.
pub set_all-InOrder :
    (kernel : Kernel) (fc : RxFlowControl) (peers : List PeerSocket) (before : Calls)
    → InOrder kernel
        (map (λ p. flow_control_call kernel p.socket fc) peers)
        before
        (set_all kernel fc peers before)
set_all-InOrder kernel fc peers before =
    subst
      (λ m.
        InOrder kernel (map (λ p. flow_control_call kernel p.socket fc) peers) before (m before))
      (sym (set_all-in_order kernel fc peers)) (in_order-InOrder kernel _ before)

find_peer-none :
    (peer : ℕ) (peers : List PeerSocket)
    → find_peer peer peers ≡ none
    → All (λ q. q.addr ≢ peer) peers
unfolding find_peer
find_peer-none peer [] e = tt
find_peer-none peer (p ∷ peers) e = elim (Bool-cases (p.addr == peer)) [
  | inl same ↦ ground (arith, e, same)
  | inr different ↦ (
    (λ h. grind (arith, ==_iff, different, h)),
    find_peer-none peer peers (sym (rw different refl) ∙ e),
  )
]

Distinct-last :
    (peers : List PeerSocket) (p : PeerSocket)
    → Distinct peers
    → All (λ q. q.addr ≢ p.addr) peers
    → Distinct (peers ++ (p ∷ []))
unfolding Distinct
Distinct-last [] p d n = (tt, tt)
Distinct-last (q ∷ peers) p (h, d) (n, ns) =
    (All-append _ peers (p ∷ []) h ((λ e. n (sym e)), tt), Distinct-last peers p d ns)

module _ (api : UdsApi) (kernel : Kernel) where
  module _ (iface : String) (local_addr : ℕ) (o : IsoTpKernelOptions) where
    IsPeer-Grows :
        {before after : Calls} (p : PeerSocket)
        → Grows before after
        → IsPeer api kernel iface local_addr o before p
        → IsPeer api kernel iface local_addr o after p
    IsPeer-Grows p g h = record {
      remote = h.remote;
      buffer_size = h.buffer_size;
      opened = WasOpened-Grows kernel _ _ _ o p.socket.fd g h.opened;
    }

    peers-Grows :
        {before after : Calls} (peers : List PeerSocket)
        → Grows before after
        → All (IsPeer api kernel iface local_addr o before) peers
        → All (IsPeer api kernel iface local_addr o after) peers
    peers-Grows [] g h = tt
    peers-Grows (p ∷ peers) g (h, hs) = (IsPeer-Grows p g h, peers-Grows peers g hs)

  set_rx_flow_control-Grows :
      (s : SocketCanIsoTp) (fc : RxFlowControl) (before : Calls)
      → Grows before (set_rx_flow_control kernel s fc before).1
  unfolding set_rx_flow_control
  set_rx_flow_control-Grows s fc before = sys_-Grows kernel (flow_control_call kernel s fc) before

  module _ (demux : KernelUdsDemux) where
    pub IsDemux-Grows :
        {before after : Calls}
        → Grows before after
        → IsDemux api kernel demux before
        → IsDemux api kernel demux after
    IsDemux-Grows g v = record {
      distinct = v.distinct;
      peers_valid =
          peers-Grows demux.iface demux.local_addr demux.options demux.peers g v.peers_valid;
    }

    abbrev PeerOpened : ℕ → Calls → Result SocketCanIsoTp Error × Calls → Type 0
    PeerOpened peer =
        Opened kernel demux.iface (uds_phys_id api demux.local_addr peer)
          (uds_phys_id api peer demux.local_addr) demux.options

    Opened-IsPeer :
        (peer : ℕ) (calls : Calls) (s : SocketCanIsoTp) (after : Calls)
        → peer ≢ demux.local_addr
        → PeerOpened peer calls (ok s, after)
        → Grows calls after
          × IsPeer api kernel demux.iface demux.local_addr demux.options after
              (record { addr = peer; socket = s })
    unfolding Opened
    Opened-IsPeer peer calls s after ne (fd, accepted, made, buf, room) = (
      rw made (Grows-trans (Grows-more _) (Grows-more _)),
      record {
        remote = ne;
        buffer_size = rw buf (length-replicate demux.options.max_rx_payload 0);
        opened = record {
          before = calls;
          later = [];
          given = fd;
          accepted = accepted;
          made = made ∙ sym (append-nil _);
        };
      },
    )

    -- A peer that is not in the list yet is added with a socket that is open, or not at all.
    add_peer-IsDemux :
        (peer : ℕ) (calls : Calls) (x : Result SocketCanIsoTp Error × Calls)
        → peer ≢ demux.local_addr
        → All (λ q. q.addr ≢ peer) demux.peers
        → PeerOpened peer calls x
        → IsDemux api kernel demux calls
        → let (result, demux', after) = add_peer api kernel demux peer x in
          IsDemux api kernel demux' after
    unfolding Opened
    add_peer-IsDemux peer calls (err e, after) ne new h v =
        IsDemux-Grows (NotOpened-Grows kernel _ _ _ demux.options calls e after h) v
    add_peer-IsDemux peer calls (ok s, after) ne new h v =
        let (grown, valid) = Opened-IsPeer peer calls s after ne h in
        let later = set_rx_flow_control-Grows s demux.rx_flow_control after in
        record {
          distinct = Distinct-last demux.peers _ v.distinct new;
          peers_valid =
              All-append _ demux.peers _
                (peers-Grows _ _ _ demux.peers (Grows-trans grown later) v.peers_valid)
                (IsPeer-Grows _ _ _ _ later valid, tt);
        }

    pub ensure_peer-IsDemux :
        (peer : ℕ) (calls : Calls)
        → IsDemux api kernel demux calls
        → let (result, demux', after) = ensure_peer api kernel peer demux calls in
          IsDemux api kernel demux' after
    unfolding ensure_peer
    ensure_peer-IsDemux peer calls v = elim (Bool-cases (peer == demux.local_addr)) [
      | inl same ↦ rw same v
      | inr different ↦ elim (Option-cases (find_peer peer demux.peers)) [
        | inr (socket, found) ↦ rw (different, found) v
        | inl missing ↦
            rw (different, missing)
              (add_peer-IsDemux peer calls _ (λ h. grind (arith, ==_iff, different, h))
                (find_peer-none peer demux.peers missing)
                (open_kernel-Opened kernel demux.iface _ _ demux.options calls) v)
      ]
    ]
