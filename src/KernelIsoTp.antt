-- ===== src/KernelIsoTp.antt =====
-- iso-tp/linux-socketcan-iso-tp/src/linux.rs: ISO-TP sockets of the Linux kernel. The options and errors;
-- a `Duration` is its number of nanoseconds, and a message of an error is its text.
pub mod Stmin
pub mod Kernel
pub mod Order
pub mod Options
pub mod Socket
pub mod Transfer
pub mod Demux
mod Tests
use Prim.Native.String.{String}
use thincan.Common.{ℕ, Option, none}

abbrev pub Duration : Type 0
Duration = ℕ

-- `std::io::Error`, by its kind
pub data IoError : Type 0 where
  would_block interrupted unexpected_eof poll_error : IoError
  other : (code : ℕ) → IoError

pub data Error : Type 0 where
  io : IoError → Error
  invalid_config : (msg : String) → Error

-- Flag bits, times, addresses and padding bytes, each as the kernel takes it.
pub record IsoTpSocketOptions : Type 0 where
  pub flags : ℕ
  pub frame_txtime : Option Duration
  pub ext_address : Option ℕ
  pub tx_padding : Option ℕ
  pub rx_padding : Option ℕ
  pub rx_ext_address : Option ℕ

pub record IsoTpFlowControlOptions : Type 0 where
  pub block_size : ℕ
  pub st_min : ℕ
  pub wft_max : ℕ

pub record IsoTpLinkLayerOptions : Type 0 where
  pub mtu : ℕ
  pub tx_dl : ℕ
  pub tx_flags : ℕ

pub record IsoTpKernelOptions : Type 0 where
  pub max_rx_payload : ℕ
  pub socket : IsoTpSocketOptions
  pub flow_control : Option IsoTpFlowControlOptions
  pub link_layer : Option IsoTpLinkLayerOptions
  pub force_tx_stmin : Option Duration
  pub force_rx_stmin : Option Duration

abbrev default_socket_options : IsoTpSocketOptions
default_socket_options = record {
  flags = 0;
  frame_txtime = none;
  ext_address = none;
  tx_padding = none;
  rx_padding = none;
  rx_ext_address = none;
}

abbrev pub default_kernel_options : IsoTpKernelOptions
default_kernel_options = record {
  max_rx_payload = 4095;
  socket = default_socket_options;
  flow_control = none;
  link_layer = none;
  force_tx_stmin = none;
  force_rx_stmin = none;
}

-- `RxFlowControl` of can-isotp-interface
pub record RxFlowControl : Type 0 where
  pub block_size : ℕ
  pub st_min : Duration
