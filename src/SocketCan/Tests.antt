-- ===== src/SocketCan/Tests.antt =====
-- The theorems about the SocketCAN adapter at concrete inputs.
use thincan.Common.{
  ℕ, ◌≡◌, ◌↔◌, refl, bit_or, true, false, Option, none, some, [], ok, err, if◌then◌else◌, ◌==◌,
  arith,
}
use thincan.UnixSocket.Frame.{standard}
use thincan.UnixSocket.Wire.Filters.{standard_mask, IdMaskFilter}
use thincan.SocketCan.{
  SocketcanError, os_error, SocketCan, FrameOp, with_nonblocking, to_socketcan_filter, raw_filter,
  can_eff_flag,
}
use thincan.SocketCan.Settings.{RanNonblocking, with_nonblocking-RanNonblocking}
use thincan.SocketCan.Match.{
  passes, received_id, Selects, IsIdMask, FitsId, to_socketcan_filter-Selects,
}

abbrev blocking_can : SocketCan
blocking_can = record {
  inner = record {
    is_nonblocking = false;
    write_timeout = some 5;
    filters = none;
    done = 0;
    ran = [];
  };
  nonblocking = false;
}

-- A read that has a frame on a nonblocking socket only.
abbrev read_seven : FrameOp ℕ
read_seven s = if s.is_nonblocking then ok 7 else err (os_error 110)

-- The mode cannot be set back.
abbrev third_refused : ℕ → Option SocketcanError
third_refused n = if n == 3 then some (os_error 9) else none

with_nonblocking-RanNonblocking_example :
    RanNonblocking third_refused read_seven blocking_can
      (with_nonblocking third_refused read_seven blocking_can)
with_nonblocking-RanNonblocking_example =
    with_nonblocking-RanNonblocking third_refused read_seven blocking_can (λ e. e)

-- The frame that was read is lost.
with_nonblocking_runs :
    (with_nonblocking third_refused read_seven blocking_can).0 ≡ err (os_error 9)
unfolding with_nonblocking
with_nonblocking_runs = refl

abbrev low_ids : IdMaskFilter
low_ids = record { id = standard 0x120; mask = standard_mask 0x7f0 }

to_socketcan_filter-Selects_example :
    (passes (0x120, bit_or 0x7f0 can_eff_flag) (received_id (standard 0x123)) ≡ true)
    ↔ Selects (standard 0x120) (standard_mask 0x7f0) (standard 0x123)
unfolding to_socketcan_filter raw_filter IsIdMask FitsId
to_socketcan_filter-Selects_example =
    to_socketcan_filter-Selects low_ids (standard 0x123) _ (omega arith, omega arith) (omega arith)
      refl
