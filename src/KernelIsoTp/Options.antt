-- ===== src/KernelIsoTp/Options.antt =====
-- iso-tp/linux-socketcan-iso-tp/src/linux.rs: the options of a socket, in the kernel's layout, and the calls
-- that set them.
pub mod Applied
use Prim.Native.String.{String}
use thincan.Common.{ℕ, bit_or, Bool, Option, none, some, List, [], ◌∷◌, ◌++◌, map, if◌then◌else◌}
use mathlib.Core.Option.{get_or, map as option_map}
use thincan.KernelIsoTp.{
  Duration, Error, IsoTpSocketOptions, IsoTpFlowControlOptions, IsoTpLinkLayerOptions,
  IsoTpKernelOptions,
}
use thincan.KernelIsoTp.Stmin.{duration_to_nanos_u32}
use thincan.KernelIsoTp.Kernel.{
  CanIsotpOptions, CanIsotpFcOptions, CanIsotpLlOptions, OptName, so_txtime, sol_can_isotp,
  OptValue, nanos_value, base_value, fc_value, ll_value, SysCall, setsockopt, Kernel, Sys, ◌>>=◌,
  ◌>>◌, when_some, sys_,
}

abbrev pub can_isotp_opts : ℕ
can_isotp_opts = 1

abbrev pub can_isotp_recv_fc : ℕ
can_isotp_recv_fc = 2

abbrev can_isotp_tx_stmin : ℕ
can_isotp_tx_stmin = 3

abbrev can_isotp_rx_stmin : ℕ
can_isotp_rx_stmin = 4

abbrev can_isotp_ll_opts : ℕ
can_isotp_ll_opts = 5

abbrev can_isotp_extend_addr : ℕ
can_isotp_extend_addr = 0x0002

abbrev can_isotp_tx_padding : ℕ
can_isotp_tx_padding = 0x0004

abbrev can_isotp_rx_padding : ℕ
can_isotp_rx_padding = 0x0008

abbrev can_isotp_rx_ext_addr : ℕ
can_isotp_rx_ext_addr = 0x0200

-- `if o.is_some() { flags |= bit }`
abbrev or_flag {ℓ} : {A : Type ℓ} → Option A → ℕ → ℕ → ℕ
or_flag none bit flags = flags
or_flag (some a) bit flags = bit_or flags bit

unfoldable pub build_can_isotp_options : IsoTpSocketOptions → CanIsotpOptions
build_can_isotp_options opts = record {
  flags = or_flag opts.rx_ext_address can_isotp_rx_ext_addr (
      or_flag opts.rx_padding can_isotp_rx_padding (
        or_flag opts.tx_padding can_isotp_tx_padding
          (or_flag opts.ext_address can_isotp_extend_addr opts.flags)));
  frame_txtime = get_or (option_map duration_to_nanos_u32 opts.frame_txtime) 0;
  ext_address = get_or opts.ext_address 0;
  txpad_content = get_or opts.tx_padding 0;
  rxpad_content = get_or opts.rx_padding 0;
  rx_ext_address = get_or opts.rx_ext_address 0;
}

abbrev fc_of : IsoTpFlowControlOptions → CanIsotpFcOptions
fc_of fc = record { bs = fc.block_size; stmin = fc.st_min; wftmax = fc.wft_max }

abbrev ll_of : IsoTpLinkLayerOptions → CanIsotpLlOptions
ll_of ll = record { mtu = ll.mtu; tx_dl = ll.tx_dl; tx_flags = ll.tx_flags }

unfoldable pub apply_kernel_options : Kernel → ℕ → IsoTpKernelOptions → Sys (Unit {0})
apply_kernel_options kernel fd options = do
  when_some options.socket.frame_txtime
      λ txtime. sys_ kernel (setsockopt fd so_txtime (nanos_value (duration_to_nanos_u32 txtime)))
  sys_ kernel (
      setsockopt fd (sol_can_isotp can_isotp_opts)
        (base_value (build_can_isotp_options options.socket)))
  when_some options.flow_control
      λ fc. sys_ kernel (setsockopt fd (sol_can_isotp can_isotp_recv_fc) (fc_value (fc_of fc)))
  when_some options.force_tx_stmin λ stmin.
      sys_ kernel (
        setsockopt fd (sol_can_isotp can_isotp_tx_stmin)
          (nanos_value (duration_to_nanos_u32 stmin)))
  when_some options.force_rx_stmin λ stmin.
      sys_ kernel (
        setsockopt fd (sol_can_isotp can_isotp_rx_stmin)
          (nanos_value (duration_to_nanos_u32 stmin)))
  when_some options.link_layer
      λ ll. sys_ kernel (setsockopt fd (sol_can_isotp can_isotp_ll_opts) (ll_value (ll_of ll)))
