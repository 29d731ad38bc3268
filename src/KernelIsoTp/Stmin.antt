-- ===== src/KernelIsoTp/Stmin.antt =====
-- iso-tp/linux-socketcan-iso-tp/src/linux.rs: durations as the kernel takes them, and the byte STmin of
-- ISO-TP: 0x00 to 0x7f are milliseconds, 0xf1 to 0xf9 are 100 to 900 microseconds.
use thincan.Common.{
  ℕ, ◌+◌, ◌-◌, ◌*◌, ◌/◌, ◌%◌, ◌^◌, ◌≤◌, ◌<◌, ◌≡◌, min, ◌&&◌, Option, none, some, leb, ◌==◌,
  if◌then◌else◌, arith, Bool-cases, inl, inr,
}
use thincan.KernelIsoTp.{Duration}

abbrev pub from_millis : ℕ → Duration
from_millis n = n * 1_000_000

abbrev from_micros : ℕ → Duration
from_micros n = n * 1_000

abbrev as_millis : Duration → ℕ
as_millis d = d / 1_000_000

abbrev as_micros : Duration → ℕ
as_micros d = d / 1_000

-- The largest `i32` stands for all that do not fit.
unfoldable pub duration_to_poll_timeout : Duration → ℕ
duration_to_poll_timeout timeout = min (as_millis timeout) (2 ^ 31 - 1)

unfoldable pub duration_to_nanos_u32 : Duration → ℕ
duration_to_nanos_u32 d = min d (2 ^ 32 - 1)

unfoldable pub isotp_stmin_to_duration : ℕ → Option Duration
isotp_stmin_to_duration raw =
    if leb raw 0x7f
    then some (from_millis raw)
    else if leb 0xf1 raw && leb raw 0xf9
    then some (from_micros ((raw - 0xf0) * 100))
    else none

unfoldable pub duration_to_isotp_stmin : Duration → ℕ
duration_to_isotp_stmin duration =
    let micros = as_micros duration in
    let millis = as_millis duration in
    if micros == 0
    then 0
    else if (leb 100 micros && leb micros 900) && (micros % 100 == 0)
    then 0xf0 + micros / 100
    else if leb millis 0x7f
    then millis
    else 0x7f

-- A byte of STmin that means a duration is the one that this duration is written as.
pub duration_to_isotp_stmin-isotp_stmin_to_duration :
    (raw : ℕ) (d : Duration)
    → isotp_stmin_to_duration raw ≡ some d
    → duration_to_isotp_stmin d ≡ raw
unfolding duration_to_isotp_stmin isotp_stmin_to_duration
duration_to_isotp_stmin-isotp_stmin_to_duration raw d e = ground arith

-- What the byte for a duration says about it: it means a duration, never a longer one, and unless the byte is
-- the largest one of milliseconds, one that is less than a millisecond shorter.
abbrev pub RoundsDown : Duration → Type 0
RoundsDown d =
    (e : Duration) × (isotp_stmin_to_duration (duration_to_isotp_stmin d) ≡ some e)
    × (e ≤ d)
    × (d < from_millis 128 → d < e + from_millis 1)

-- The two ranges of bytes that mean a duration.
isotp_stmin_to_duration_millis :
    (raw : ℕ) → raw < 0x80 → isotp_stmin_to_duration raw ≡ some (from_millis raw)
unfolding isotp_stmin_to_duration
isotp_stmin_to_duration_millis raw h = ground arith

isotp_stmin_to_duration_micros :
    (n : ℕ) → 1 ≤ n → n ≤ 9 → isotp_stmin_to_duration (0xf0 + n) ≡ some (from_micros (n * 100))
unfolding isotp_stmin_to_duration
isotp_stmin_to_duration_micros n h k = ground arith

-- The byte for a duration means a duration that is not longer, and unless the duration has 128 milliseconds or
-- more, less than a millisecond shorter.
pub duration_to_isotp_stmin-RoundsDown : (d : Duration) → RoundsDown d
unfolding duration_to_isotp_stmin
duration_to_isotp_stmin-RoundsDown d = elim (Bool-cases (as_micros d == 0)) [
  | inl e ↦ rw e (0, isotp_stmin_to_duration_millis 0 (omega arith), omega arith, λ h. ground arith)
  | inr e ↦
      rw e
        elim (Bool-cases
          ((leb 100 (as_micros d) && leb (as_micros d) 900) && (as_micros d % 100 == 0))) [
            | inl f ↦ rw f (
              from_micros (as_micros d / 100 * 100),
              isotp_stmin_to_duration_micros (as_micros d / 100) (ground arith) (ground arith),
              ground arith,
              λ h. ground arith,
            )
            | inr f ↦ rw f elim (Bool-cases (leb (as_millis d) 0x7f)) [
              | inl g ↦ rw g (
                from_millis (as_millis d),
                isotp_stmin_to_duration_millis (as_millis d) (ground arith),
                omega arith,
                λ h. omega arith,
              )
              | inr g ↦ rw g (
                from_millis 127,
                isotp_stmin_to_duration_millis 127 (omega arith),
                ground arith,
                λ h. ground arith,
              )
            ]
          ]
]
