-- ===== src/KernelIsoTp/Kernel.antt =====
-- The kernel, as iso-tp/linux-socketcan-iso-tp/src/linux.rs calls it: the calls that open and set up a socket
-- with their arguments. What the kernel answers is a parameter: a function of the calls so far and the call.

use Prim.Native.String.{String}
use thincan.Common.{ℕ, Option, none, some, List, [], ◌∷◌, ◌++◌, Result, ok, err, map_err}
use thincan.UnixSocket.Frame.{CanId}
use thincan.KernelIsoTp.{IoError, Error, io}

pub record CanIsotpOptions : Type 0 where
  pub flags : ℕ
  pub frame_txtime : ℕ
  pub ext_address : ℕ
  pub txpad_content : ℕ
  pub rxpad_content : ℕ
  pub rx_ext_address : ℕ

pub record CanIsotpFcOptions : Type 0 where
  pub bs : ℕ
  pub stmin : ℕ
  pub wftmax : ℕ

pub record CanIsotpLlOptions : Type 0 where
  pub mtu : ℕ
  pub tx_dl : ℕ
  pub tx_flags : ℕ

-- The level of an option and its name: `SO_TXTIME` of `SOL_SOCKET`, or a number of `SOL_CAN_ISOTP`.
pub data OptName : Type 0 where
  so_txtime : OptName
  sol_can_isotp : (name : ℕ) → OptName

pub data OptValue : Type 0 where
  nanos_value : (nanos : ℕ) → OptValue
  base_value : CanIsotpOptions → OptValue
  fc_value : CanIsotpFcOptions → OptValue
  ll_value : CanIsotpLlOptions → OptValue

-- The address of a socket is named by what `CanAddr::from_iface_isotp` makes it from.
pub data SysCall : Type 0 where
  open_socket : SysCall
  set_nonblocking : (fd : ℕ) → SysCall
  setsockopt : (fd : ℕ) → OptName → OptValue → SysCall
  isotp_address : (iface : String) (rx_id tx_id : CanId) → SysCall
  bind_socket : (fd : ℕ) (iface : String) (rx_id tx_id : CanId) → SysCall
  async_fd : (fd : ℕ) → SysCall
  close_socket : (fd : ℕ) → SysCall

-- The calls made, oldest first.
abbrev pub Calls : Type 0
Calls = List SysCall

-- The number that a call returns, or its error.
abbrev pub Kernel : Type 0
Kernel = Calls → SysCall → Result ℕ IoError

-- Code that makes calls: what it returns, and the calls made when it has returned.
abbrev pub Sys {ℓ} : Type ℓ → Type ℓ
Sys A = Calls → Result A Error × Calls

module _ {ℓ} {A : Type ℓ} where
  abbrev pub pure : A → Sys A
  pure a calls = (ok a, calls)

  abbrev pub raise : Error → Sys A
  raise e calls = (err e, calls)

abbrev pub skip : Sys (Unit {0})
skip = pure tt

infixl 5 ◌>>=◌ ◌>>◌
abbrev pub ◌>>=◌ {ℓ κ} : {A : Type ℓ} {B : Type κ} → Sys A → (A → Sys B) → Sys B
◌>>=◌ m f calls = let (r, after) = m calls in elim r [ ok a ↦ f a after | err e ↦ (err e, after) ]

abbrev pub ◌>>◌ {ℓ κ} : {A : Type ℓ} {B : Type κ} → Sys A → Sys B → Sys B
m >> k = m >>= λ _. k

-- `if let Some`
abbrev pub when_some {ℓ} : {A : Type ℓ} → Option A → (A → Sys (Unit {0})) → Sys (Unit {0})
when_some none f = skip
when_some (some a) f = f a

module _ (kernel : Kernel) where
  abbrev pub sys : SysCall → Sys ℕ
  sys c calls = (map_err (kernel calls c) io, calls ++ (c ∷ []))

  abbrev pub sys_ : SysCall → Sys (Unit {0})
  sys_ c = sys c >>= λ n. skip

  -- The socket that owns `fd` is dropped when the code that holds it ends with an error.
  abbrev pub owning {ℓ} : {A : Type ℓ} → ℕ → Sys A → Sys A
  owning fd m calls =
      let (r, after) = m calls in
      elim r [ ok a ↦ (ok a, after) | err e ↦ (err e, after ++ (close_socket fd ∷ [])) ]
