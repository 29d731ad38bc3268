-- ===== src/KernelIsoTp/Socket.antt =====
-- iso-tp/linux-socketcan-iso-tp/src/linux.rs: `SocketCanIsoTp` and its async wrapper: opening a socket, and the
-- receive-side flow control.
pub mod Opened
use Prim.Native.String.{String}
use thincan.Common.{
  ℕ, Option, none, some, List, [], ◌∷◌, ◌++◌, replicate, Result, ok, err, if◌then◌else◌, ◌==◌,
}
use mathlib.Core.Option.{get_or, map as option_map}
use thincan.UnixSocket.Frame.{CanId}
use thincan.KernelIsoTp.{Error, invalid_config, IsoTpKernelOptions, RxFlowControl}
use thincan.KernelIsoTp.Stmin.{duration_to_isotp_stmin}
use thincan.KernelIsoTp.Kernel.{
  CanIsotpFcOptions, sol_can_isotp, fc_value, SysCall, open_socket, set_nonblocking, setsockopt,
  isotp_address, bind_socket, async_fd, close_socket, Kernel, Calls, Sys, pure, raise, ◌>>=◌, ◌>>◌,
  sys, sys_, owning,
}
use thincan.KernelIsoTp.Options.{can_isotp_recv_fc, apply_kernel_options}

pub record SocketCanIsoTp : Type 0 where
  pub fd : ℕ
  pub rx_buf : List ℕ
  pub wft_max : ℕ

module _ (kernel : Kernel) where
  -- `SocketCanIsoTp::open`
  unfoldable pub open_kernel : String → CanId → CanId → IsoTpKernelOptions → Sys SocketCanIsoTp
  open_kernel iface rx_id tx_id options =
      if options.max_rx_payload == 0
      then raise (invalid_config "max_rx_payload must be > 0")
      else sys kernel open_socket >>= λ fd. owning kernel fd (do
        sys_ kernel (set_nonblocking fd)
        apply_kernel_options kernel fd options
        sys_ kernel (isotp_address iface rx_id tx_id)
        sys_ kernel (bind_socket fd iface rx_id tx_id)
        pure (record {
          fd = fd;
          rx_buf = replicate options.max_rx_payload 0;
          wft_max = get_or (option_map (λ fc. fc.wft_max) options.flow_control) 0;
        }))

  -- The call that `set_rx_flow_control` makes.
  abbrev pub flow_control_call : SocketCanIsoTp → RxFlowControl → SysCall
  flow_control_call socket fc = setsockopt socket.fd (sol_can_isotp can_isotp_recv_fc) (
      fc_value (record {
        bs = fc.block_size;
        stmin = duration_to_isotp_stmin fc.st_min;
        wftmax = socket.wft_max;
      }))

  unfoldable pub set_rx_flow_control : SocketCanIsoTp → RxFlowControl → Sys (Unit {0})
  set_rx_flow_control socket fc = sys_ kernel (flow_control_call socket fc)

  -- `TokioSocketCanIsoTp::open`: a socket that `AsyncFd` refuses is dropped.
  unfoldable pub open_async : String → CanId → CanId → IsoTpKernelOptions → Sys SocketCanIsoTp
  unfolding open_kernel
  open_async iface rx_id tx_id options = do
    inner ← open_kernel iface rx_id tx_id options
    owning kernel inner.fd (do sys_ kernel (async_fd inner.fd); pure inner)
