-- ===== src/SocketCan.antt =====
-- embedded-can/embedded-can-socketcan/src/linux.rs: the adapter between the traits of embedded-can-interface and a
-- socket of the crate socketcan. Of that socket the model has its settings and how many calls were made on it.
pub mod Settings
pub mod Match
mod Tests
use Prim.Native.String.{String}
use thincan.Common.{
  ℕ, suc, ◌+◌, bit_and, bit_or, ◌^◌, Bool, true, false, Option, none, some, List, [], ◌∷◌, Result,
  ok, err, if◌then◌else◌,
}
use thincan.UnixSocket.Frame.{CanId, standard, extended}
use thincan.UnixSocket.Wire.Filters.{IdMask, standard_mask, extended_mask, IdMaskFilter}

-- `socketcan::Error`: an error frame, or an error of the system
pub data SocketcanError : Type 0 where
  invalid_input : (msg : String) → SocketcanError
  os_error : (code : ℕ) → SocketcanError
  frame_error : (class : ℕ) → SocketcanError

-- The settings of a socket; no filters stand for one that accepts all. `done` counts the calls, and `ran` has the
-- mode, true for nonblocking, in which each operation on frames ran, the last one first.
pub record RawSocket : Type 0 where
  pub is_nonblocking : Bool
  pub write_timeout : Option ℕ
  pub filters : Option (List (ℕ × ℕ))
  pub done : ℕ
  pub ran : List Bool

-- `SocketCan`, and `SocketCanFd`, which differs in the type of its frames.
pub record SocketCan : Type 0 where
  pub inner : RawSocket
  pub nonblocking : Bool

-- What a call returns, and the socket.
abbrev pub OnSocket : Type 0 → Type 0
OnSocket A = Result A SocketcanError × RawSocket

abbrev pub OnCan : Type 0 → Type 0
OnCan A = Result A SocketcanError × SocketCan

-- An operation on frames: it may depend on the settings, and leaves them as they are.
abbrev pub FrameOp : Type 0 → Type 0
FrameOp A = RawSocket → Result A SocketcanError

abbrev counted : RawSocket → RawSocket
counted s = record s { done = s.done + 1 }

-- The socket when an operation on frames has run on it.
abbrev pub used : RawSocket → RawSocket
used s = record s { done = s.done + 1; ran = s.is_nonblocking ∷ s.ran }

-- A call on the settings that is accepted or refused.
abbrev answered : {A : Type 0} → Option SocketcanError → RawSocket → A → RawSocket → OnSocket A
answered none s a after = (ok a, counted after)
answered (some e) s a after = (err e, counted s)

-- The kernel may refuse any call on the settings: `refuses` is its error at each of them.
module _ (refuses : ℕ → Option SocketcanError) where
  abbrev setting : {A : Type 0} → RawSocket → A → RawSocket → OnSocket A
  setting s a after = answered (refuses s.done) s a after

  abbrev get_nonblocking : RawSocket → OnSocket Bool
  get_nonblocking s = setting s s.is_nonblocking s

  abbrev change_nonblocking : Bool → RawSocket → OnSocket (Unit {0})
  change_nonblocking on s = setting s tt (record s { is_nonblocking = on })

  abbrev get_write_timeout : RawSocket → OnSocket (Option ℕ)
  get_write_timeout s = setting s s.write_timeout s

  abbrev change_write_timeout : Option ℕ → RawSocket → OnSocket (Unit {0})
  change_write_timeout timeout s = setting s tt (record s { write_timeout = timeout })

  -- `SocketCan::new`
  unfoldable pub wrap_socket : RawSocket → SocketCan
  wrap_socket inner =
      let (found, after) = get_nonblocking inner in
      record { inner = after; nonblocking = elim found [ ok on ↦ on | err e ↦ false ] }

  -- `SocketCan::open`, on what `CanSocket::open` returns
  unfoldable pub open_can : Result RawSocket SocketcanError → Result SocketCan SocketcanError
  open_can (err e) = err e
  open_can (ok inner) =
      let (found, after) = get_nonblocking inner in
      elim found [ err e ↦ err e | ok on ↦ ok (record { inner = after; nonblocking = on }) ]

  module _ {A : Type 0} where
    -- The mode was set back.
    abbrev switched_back : Result A SocketcanError → SocketCan → OnSocket (Unit {0}) → OnCan A
    switched_back result can (ok u, s) = (result, record can { inner = s })
    switched_back result can (err e, s) = (err e, record can { inner = s })

    -- The socket was made nonblocking for the one operation.
    abbrev switched : FrameOp A → SocketCan → OnSocket (Unit {0}) → OnCan A
    switched f can (err e, s) = (err e, record can { inner = s })
    switched f can (ok u, s) = switched_back (f s) can (change_nonblocking false (used s))

    -- The mode was asked for.
    abbrev found_mode : FrameOp A → SocketCan → OnSocket Bool → OnCan A
    found_mode f can (err e, s) = (err e, record can { inner = s })
    found_mode f can (ok true, s) = (f s, record { inner = used s; nonblocking = true })
    found_mode f can (ok false, s) = switched f can (change_nonblocking true s)

    unfoldable pub with_nonblocking : FrameOp A → SocketCan → OnCan A
    with_nonblocking f can =
        if can.nonblocking
        then (f can.inner, record can { inner = used can.inner })
        else found_mode f can (get_nonblocking can.inner)

    -- The timeout was set back.
    abbrev timeout_reset : Result A SocketcanError → SocketCan → OnSocket (Unit {0}) → OnCan A
    timeout_reset result can (ok u, s) = (result, record can { inner = s })
    timeout_reset result can (err e, s) = (err e, record can { inner = s })

    -- The timeout was set for the one operation.
    abbrev timeout_set : FrameOp A → Option ℕ → SocketCan → OnSocket (Unit {0}) → OnCan A
    timeout_set f prev can (err e, s) = (err e, record can { inner = s })
    timeout_set f prev can (ok u, s) = timeout_reset (f s) can (change_write_timeout prev (used s))

    -- The timeout was asked for.
    abbrev found_timeout : ℕ → FrameOp A → SocketCan → OnSocket (Option ℕ) → OnCan A
    found_timeout timeout f can (err e, s) = (err e, record can { inner = s })
    found_timeout timeout f can (ok prev, s) =
        timeout_set f prev can (change_write_timeout (some timeout) s)

    unfoldable pub with_write_timeout : ℕ → FrameOp A → SocketCan → OnCan A
    with_write_timeout timeout f can = found_timeout timeout f can (get_write_timeout can.inner)

  -- `BlockingControl::set_nonblocking`
  unfoldable pub set_nonblocking : Bool → SocketCan → OnCan (Unit {0})
  set_nonblocking on can =
      let (changed, after) = change_nonblocking on can.inner in
      elim changed [
        | err e ↦ (err e, record can { inner = after })
        | ok u ↦ (ok tt, record { inner = after; nonblocking = on })
      ]

-- `CAN_EFF_FLAG` of libc: the frame format is extended.
abbrev pub can_eff_flag : ℕ
can_eff_flag = 0x8000_0000

-- A filter of the kernel: an identifier and a mask, both with the flag of the format.
unfoldable pub raw_filter : CanId → IdMask → Result (ℕ × ℕ) SocketcanError
raw_filter (standard id) (standard_mask mask) = ok (id, bit_or mask can_eff_flag)
raw_filter (extended id) (extended_mask mask) =
    ok (bit_or id can_eff_flag, bit_or (bit_and mask 0x1FFF_FFFF) can_eff_flag)
raw_filter (standard id) (extended_mask mask) = err (invalid_input "id/mask width mismatch")
raw_filter (extended id) (standard_mask mask) = err (invalid_input "id/mask width mismatch")

unfoldable pub to_socketcan_filter : IdMaskFilter → Result (ℕ × ℕ) SocketcanError
to_socketcan_filter f = raw_filter f.id f.mask

-- The loop that converts the filters, up to the first that cannot be.
unfoldable pub to_socketcan_filters : List IdMaskFilter → Result (List (ℕ × ℕ)) SocketcanError
to_socketcan_filters [] = ok []
to_socketcan_filters (f ∷ filters) =
    let rest = to_socketcan_filters filters in
    elim (to_socketcan_filter f) [
      | err e ↦ err e
      | ok raw ↦ elim rest [ err e ↦ err e | ok raws ↦ ok (raw ∷ raws) ]
    ]

-- What is installed for a list of filters: none accepts all.
abbrev to_install : List IdMaskFilter → Result (Option (List (ℕ × ℕ))) SocketcanError
to_install [] = ok none
to_install (f ∷ filters) = elim (to_socketcan_filters (f ∷ filters)) [
  | err e ↦ err e
  | ok raws ↦ ok (some raws)
]

unfoldable pub set_filters :
    (ℕ → Option SocketcanError) → List IdMaskFilter → SocketCan → OnCan (Unit {0})
set_filters refuses filters can = elim (to_install filters) [
  | err e ↦ (err e, can)
  | ok wanted ↦
      let (installed, after) =
        setting refuses can.inner tt (record can.inner { filters = wanted }) in
      (installed, record can { inner = after })
]

-- Frames: `error_of` is the error that an error frame stands for.
module _ {F : Type 0} (error_of : F → Option SocketcanError) where
  unfoldable pub map_can_frame : F → Result F SocketcanError
  map_can_frame frame = elim (error_of frame) [ some e ↦ err e | none ↦ ok frame ]

  abbrev then_frame : OnCan F → OnCan F
  then_frame (err e, can) = (err e, can)
  then_frame (ok frame, can) = (map_can_frame frame, can)

  -- `recv`, and `recv_timeout`, which differs in the operation on the socket.
  unfoldable pub recv_checked : FrameOp F → SocketCan → OnCan F
  unfolding map_can_frame
  recv_checked read can = then_frame (read can.inner, record can { inner = used can.inner })

  unfoldable pub try_recv_checked : (ℕ → Option SocketcanError) → FrameOp F → SocketCan → OnCan F
  unfolding map_can_frame
  try_recv_checked refuses read can = then_frame (with_nonblocking refuses read can)

-- `wait_for_readable`: what each `poll` without a timeout returns.
pub data Polled : Type 0 where
  poll_returned : Polled
  poll_interrupted : Polled
  poll_error : SocketcanError → Polled

unfoldable pub wait_for_readable : List Polled → Option (Result (Unit {0}) SocketcanError)
wait_for_readable [] = none
wait_for_readable (poll_returned ∷ polls) = some (ok tt)
wait_for_readable (poll_interrupted ∷ polls) = wait_for_readable polls
wait_for_readable (poll_error e ∷ polls) = some (err e)
