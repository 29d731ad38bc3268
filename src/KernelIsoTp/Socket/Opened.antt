-- ===== src/KernelIsoTp/Socket/Opened.antt =====
-- iso-tp/linux-socketcan-iso-tp/src/linux.rs: `SocketCanIsoTp::open` makes its calls in one order, and a socket
-- that cannot be set up is closed.
use Prim.Native.String.{String}
use thincan.Common.{
  ℕ, ◌≡◌, ◌≢◌, refl, sym, ap, ◌∙◌, subst, inl, inr, Bool-cases, List, [], ◌∷◌, ◌++◌, replicate,
  Result, ok, err, map_err, ◌==◌, ==_iff, arith,
}
use mathlib.Core.Option.{get_or, map as option_map}
use thincan.UnixSocket.Frame.{CanId}
use thincan.KernelIsoTp.{IoError, Error, io, invalid_config, IsoTpKernelOptions}
use thincan.KernelIsoTp.Kernel.{
  SysCall, open_socket, set_nonblocking, isotp_address, bind_socket, close_socket, Kernel, Calls,
  Sys, pure, ◌>>=◌, ◌>>◌, sys_, owning,
}
use thincan.KernelIsoTp.Options.{apply_kernel_options}
use thincan.KernelIsoTp.Options.Applied.{option_calls, apply_kernel_options-in_order}
use thincan.KernelIsoTp.Order.{
  in_order, IsAccepted, Refusal, InOrder, in_order-InOrder, in_order_front, in_order-append, Grows,
  Grows-refl, Grows-more, Grows-trans,
}
use thincan.KernelIsoTp.Socket.{SocketCanIsoTp, open_kernel}

module _ (kernel : Kernel) (iface : String) (rx_id tx_id : CanId) (o : IsoTpKernelOptions) where
  -- What is done with a new socket: every option stands in front of `bind`.
  abbrev pub setup : ℕ → List SysCall
  setup fd =
      set_nonblocking fd
      ∷ (option_calls fd o
          ++ (isotp_address iface rx_id tx_id ∷ bind_socket fd iface rx_id tx_id ∷ []))

  pub data NotOpened (before : Calls) (e : Error) (after : Calls) : Type 0 where
    no_room :
        o.max_rx_payload ≡ 0
        → e ≡ invalid_config "max_rx_payload must be > 0"
        → after ≡ before
        → NotOpened before e after
    no_socket :
        (code : IoError)
        → kernel before open_socket ≡ err code
        → e ≡ io code
        → after ≡ before ++ (open_socket ∷ [])
        → NotOpened before e after
    closed :
        (fd : ℕ) (made : Calls)
        → kernel before open_socket ≡ ok fd
        → Refusal kernel (setup fd) (before ++ (open_socket ∷ [])) e made
        → after ≡ made ++ (close_socket fd ∷ [])
        → NotOpened before e after

  unfoldable pub Opened : Calls → Result SocketCanIsoTp Error × Calls → Type 0
  Opened before (ok s, after) =
      (kernel before open_socket ≡ ok s.fd)
      × IsAccepted kernel (before ++ (open_socket ∷ [])) (setup s.fd)
      × (after ≡ (before ++ (open_socket ∷ [])) ++ setup s.fd)
      × (s.rx_buf ≡ replicate o.max_rx_payload 0)
      × (o.max_rx_payload ≢ 0)
  Opened before (err e, after) = NotOpened before e after

  module _ (fd : ℕ) where
    abbrev with_setup : SocketCanIsoTp → Sys SocketCanIsoTp
    with_setup s = do
      sys_ kernel (set_nonblocking fd)
      apply_kernel_options kernel fd o
      sys_ kernel (isotp_address iface rx_id tx_id)
      sys_ kernel (bind_socket fd iface rx_id tx_id)
      pure s

    -- The calls behind the first, as one sequence.
    prepend :
        (c : SysCall) (cs : List SysCall) (k : Sys SocketCanIsoTp) {m : Sys SocketCanIsoTp}
        → m ≡ (in_order kernel cs >> k)
        → (sys_ kernel c >> m) ≡ (in_order kernel (c ∷ cs) >> k)
    prepend c cs k e = ap (λ l. sys_ kernel c >> l) e ∙ in_order_front kernel c cs k

    prepend_all :
        (cs ds : List SysCall) (k : Sys SocketCanIsoTp) {m : Sys SocketCanIsoTp}
        → m ≡ (in_order kernel ds >> k)
        → (in_order kernel cs >> m) ≡ (in_order kernel (cs ++ ds) >> k)
    prepend_all cs ds k e = ap (λ l. in_order kernel cs >> l) e ∙ in_order-append kernel cs ds k

    no_calls : {k : Sys SocketCanIsoTp} → k ≡ (in_order kernel [] >> k)
    unfolding in_order
    no_calls = refl

    with_setup-in_order :
        (s : SocketCanIsoTp) → with_setup s ≡ (in_order kernel (setup fd) >> pure s)
    with_setup-in_order s = prepend (set_nonblocking fd) _ (pure s) (
        ap (λ m. m >> tail) (apply_kernel_options-in_order kernel fd o)
        ∙ prepend_all (option_calls fd o) _ (pure s) (
            prepend (isotp_address iface rx_id tx_id) _ (pure s)
              (prepend (bind_socket fd iface rx_id tx_id) [] (pure s) {m = pure s} no_calls)))
      where
        tail : Sys SocketCanIsoTp
        tail =
            sys_ kernel (isotp_address iface rx_id tx_id)
            >> (sys_ kernel (bind_socket fd iface rx_id tx_id) >> pure s)

  abbrev socket_of : ℕ → SocketCanIsoTp
  socket_of fd = record {
    fd = fd;
    rx_buf = replicate o.max_rx_payload 0;
    wft_max = get_or (option_map (λ fc. fc.wft_max) o.flow_control) 0;
  }

  owned :
      (fd : ℕ) (before : Calls) (x : Result (Unit {0}) Error × Calls)
      → o.max_rx_payload ≢ 0
      → kernel before open_socket ≡ ok fd
      → InOrder kernel (setup fd) (before ++ (open_socket ∷ [])) x
      → Opened before (owning kernel fd ((λ calls. x) >> pure (socket_of fd)) [])
  unfolding Opened InOrder
  owned fd before (ok u, after) room h (oks, e) = (h, oks, e, refl, room)
  owned fd before (err e, made) room h refusal = closed fd made h refusal refl

  open_step :
      (before : Calls) (r : Result ℕ IoError)
      → o.max_rx_payload ≢ 0
      → kernel before open_socket ≡ r
      → Opened before (
          ((λ calls. (map_err r io, calls ++ (open_socket ∷ []))) >>= λ fd.
          owning kernel fd (with_setup fd (socket_of fd)))
            before)
  unfolding Opened
  open_step before (err code) room h = no_socket code h refl refl
  open_step before (ok fd) room h =
      subst (λ m. Opened before (owning kernel fd m (before ++ (open_socket ∷ []))))
        (sym (with_setup-in_order fd (socket_of fd)))
        (owned fd before _ room h
          (in_order-InOrder kernel (setup fd) (before ++ (open_socket ∷ []))))

-- `SocketCanIsoTp::open` makes its calls in one order: `socket`, `set_nonblocking`, the options, the address,
-- `bind`. If it returns a socket, the kernel accepted each, all options were set in front of `bind`, and the
-- buffer has `max_rx_payload` bytes, which is not 0. If it returns an error, then either `max_rx_payload` is 0 and
-- it made no call, or the kernel refused the socket, or it refused one of the later calls, and then the socket is
-- closed, nothing else is called, and the error is the kernel's.
pub open_kernel-Opened :
    (kernel : Kernel) (iface : String) (rx_id tx_id : CanId) (o : IsoTpKernelOptions)
    (before : Calls)
    → Opened kernel iface rx_id tx_id o before (open_kernel kernel iface rx_id tx_id o before)
unfolding open_kernel Opened
open_kernel-Opened kernel iface rx_id tx_id o before = elim (Bool-cases (o.max_rx_payload == 0)) [
  | inl e ↦ rw e (no_room ((==_iff _ 0).0 e) refl refl)
  | inr e ↦ rw e (
      open_step kernel iface rx_id tx_id o before (kernel before open_socket)
        (λ z. grind (arith, ==_iff, z)) refl)
]

pub NotOpened-Grows :
    (kernel : Kernel) (iface : String) (rx_id tx_id : CanId) (o : IsoTpKernelOptions)
    (before : Calls) (e : Error) (after : Calls)
    → NotOpened kernel iface rx_id tx_id o before e after
    → Grows before after
NotOpened-Grows kernel iface rx_id tx_id o before e after (no_room z h k) = rw k Grows-refl
NotOpened-Grows kernel iface rx_id tx_id o before e after (no_socket code h k l) =
    rw l (Grows-more _)
NotOpened-Grows kernel iface rx_id tx_id o before e after (closed fd made h refusal k) = rw k (
    Grows-trans (Grows-more (open_socket ∷ []))
      (Grows-trans (rw refusal.calls (Grows-more _)) (Grows-more (close_socket fd ∷ []))))
