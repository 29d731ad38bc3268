-- ===== src/SocketCan/Match.antt =====
-- embedded-can/embedded-can-socketcan/src/linux.rs: which frames the kernel lets through a converted filter.
use thincan.Common.{
  ℕ, ◌+◌, ◌^◌, ◌<◌, ◌≡◌, ◌↔◌, sym, ap, bit_and, bit_or, Bool, true, ◌≢◌, ok, ok_eq, ◌==◌, ==_iff,
  arith,
}
use thincan.Common.Digits.{bit_and_flags, bit_and_flag, bit_or_flag, bit_and-lt}
use thincan.UnixSocket.Frame.{CanId, standard, extended}
use thincan.UnixSocket.Wire.Filters.{IdMask, standard_mask, extended_mask, IdMaskFilter}
use thincan.SocketCan.{can_eff_flag, raw_filter, to_socketcan_filter}

-- The identifier of a received data frame, with the flag of its format.
abbrev pub received_id : CanId → ℕ
received_id (standard raw) = raw
received_id (extended raw) = bit_or raw can_eff_flag

-- The kernel's rule, as the source cites it: `received_id & mask == filter_id & mask`.
abbrev pub passes : ℕ × ℕ → ℕ → Bool
passes (id, mask) received = bit_and received mask == bit_and id mask

-- A frame of the filter's format that agrees with it where the mask has ones; a mask of an extended identifier counts
-- in its 29 bits.
pub Selects : CanId → IdMask → CanId → Type 0
Selects (standard id) (standard_mask mask) (standard raw) = bit_and raw mask ≡ bit_and id mask
Selects (extended id) (extended_mask mask) (extended raw) =
    bit_and raw (bit_and mask 0x1FFF_FFFF) ≡ bit_and id (bit_and mask 0x1FFF_FFFF)
Selects _ _ _ = ⊥

-- Identifiers and masks within their types, but for an extended mask, which may be any number.
unfoldable pub IsIdMask : CanId → IdMask → Type 0
IsIdMask (standard id) (standard_mask mask) = (id < 2 ^ 11) × (mask < 2 ^ 16)
IsIdMask (extended id) _ = id < 2 ^ 29
IsIdMask (standard id) (extended_mask mask) = id < 2 ^ 11

unfoldable pub FitsId : CanId → Type 0
FitsId (standard raw) = raw < 2 ^ 11
FitsId (extended raw) = raw < 2 ^ 29

-- The flag of the format, apart from the bits of an identifier and of a mask.
module _ (mask : ℕ) (mask_fits : mask < 2 ^ 31) where
  same_kind :
      (raw id : ℕ)
      → raw < 2 ^ 31
      → id < 2 ^ 31
      → (passes (id, bit_or mask can_eff_flag) raw ≡ true) ↔ (bit_and raw mask ≡ bit_and id mask)
  same_kind raw id r i =
      rw
        (
          bit_or_flag 31 mask mask_fits,
          bit_and_flag 31 raw mask r mask_fits,
          bit_and_flag 31 id mask i mask_fits,
        )
        (==_iff _ _)

  both_extended :
      (raw id : ℕ)
      → raw < 2 ^ 31
      → id < 2 ^ 31
      → (passes (bit_or id can_eff_flag, bit_or mask can_eff_flag) (bit_or raw can_eff_flag) ≡ true)
        ↔ (bit_and raw mask ≡ bit_and id mask)
  both_extended raw id r i =
      rw
        (
          bit_or_flag 31 mask mask_fits,
          bit_or_flag 31 raw r,
          bit_or_flag 31 id i,
          bit_and_flags 31 raw mask r mask_fits,
          bit_and_flags 31 id mask i mask_fits,
        )
        (
          (λ e. omega (arith, (==_iff (bit_and raw mask + 2 ^ 31) (bit_and id mask + 2 ^ 31)).0 e)),
          (λ e. (==_iff _ _).1 (ap (λ n. n + 2 ^ 31) e)),
        )

  -- One has the flag and the other has not.
  kinds_differ :
      (raw id : ℕ)
      → raw < 2 ^ 31
      → id < 2 ^ 31
      → bit_and (bit_or raw can_eff_flag) (bit_or mask can_eff_flag)
        ≢ bit_and id (bit_or mask can_eff_flag)
  kinds_differ raw id r i e =
      let left : bit_and (bit_or raw can_eff_flag) (bit_or mask can_eff_flag)
          ≡ bit_and raw mask + 2 ^ 31 =
        rw (bit_or_flag 31 raw r, bit_or_flag 31 mask mask_fits)
          (bit_and_flags 31 raw mask r mask_fits) in
      let right : bit_and id (bit_or mask can_eff_flag) ≡ bit_and id mask =
        rw (bit_or_flag 31 mask mask_fits) (bit_and_flag 31 id mask i mask_fits) in
      omega (arith, bit_and-lt 31 id mask mask_fits)

fits29 : (mask : ℕ) → bit_and mask 0x1FFF_FFFF < 2 ^ 31
fits29 mask = omega (arith, bit_and-lt 29 mask 0x1FFF_FFFF (omega arith))

raw_filter-Selects :
    (id : CanId) (mask : IdMask) (frame : CanId) (raw : ℕ × ℕ)
    → IsIdMask id mask
    → FitsId frame
    → raw_filter id mask ≡ ok raw
    → (passes raw (received_id frame) ≡ true) ↔ Selects id mask frame
unfolding raw_filter Selects IsIdMask FitsId
raw_filter-Selects (standard id) (standard_mask mask) (standard raw) out v w e =
    rw (sym (ok_eq e)) (same_kind mask (omega arith) raw id (omega arith) (omega arith))
raw_filter-Selects (standard id) (standard_mask mask) (extended raw) out v w e =
    rw (sym (ok_eq e)) (
      (λ h. kinds_differ mask (omega arith) raw id (omega arith) (omega arith) ((==_iff _ _).0 h)),
      (λ h. absurd h),
    )
raw_filter-Selects (extended id) (extended_mask mask) (standard raw) out v w e =
    rw (sym (ok_eq e)) (
      (λ h.
          kinds_differ _ (fits29 mask) id raw (omega arith) (omega arith) (sym ((==_iff _ _).0 h))),
      (λ h. absurd h),
    )
raw_filter-Selects (extended id) (extended_mask mask) (extended raw) out v w e =
    rw (sym (ok_eq e)) (both_extended _ (fits29 mask) raw id (omega arith) (omega arith))
raw_filter-Selects (standard id) (extended_mask mask) frame out v w e = ground (arith, e)
raw_filter-Selects (extended id) (standard_mask mask) frame out v w e = ground (arith, e)

-- For a filter that can be converted, the kernel lets exactly the data frames through that the filter selects.
pub to_socketcan_filter-Selects :
    (f : IdMaskFilter) (frame : CanId) (raw : ℕ × ℕ)
    → IsIdMask f.id f.mask
    → FitsId frame
    → to_socketcan_filter f ≡ ok raw
    → (passes raw (received_id frame) ≡ true) ↔ Selects f.id f.mask frame
unfolding to_socketcan_filter
to_socketcan_filter-Selects f frame raw v w e = raw_filter-Selects f.id f.mask frame raw v w e
