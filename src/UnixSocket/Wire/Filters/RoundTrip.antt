-- ===== src/UnixSocket/Wire/Filters/RoundTrip.antt =====
-- Filters that are encoded decode to themselves, but for a mask of the other kind.
use thincan.Common.{
  ℕ, ◌+◌, ◌*◌, ◌%◌, ◌^◌, ◌<◌, ◌≡◌, refl, ◌∙◌, List, [], ◌∷◌, ok, All, map, length, arith, le→ltb,
  ==_refl,
}
use thincan.Common.Bytes.{to_le_bytes, from_le_bytes, from_le_bytes-to_le_bytes}
use thincan.UnixSocket.Frame.{CanId, standard, extended}
use thincan.UnixSocket.Wire.Frames.{IdApi}
use thincan.UnixSocket.Wire.Frames.RoundTrip.{IsId}
use thincan.UnixSocket.Wire.Filters.{
  IdMask, standard_mask, extended_mask, IdMaskFilter, filter_parts, encode_entries, encode_filters,
  decode_filter, decode_entries, decode_filters,
}

-- The mask that the server sees.
abbrev pub sent_mask : CanId → IdMask → IdMask
sent_mask (standard raw) (standard_mask mask) = standard_mask mask
sent_mask (standard raw) (extended_mask mask) = standard_mask 0
sent_mask (extended raw) (standard_mask mask) = extended_mask 0
sent_mask (extended raw) (extended_mask mask) = extended_mask mask

abbrev pub sent_filter : IdMaskFilter → IdMaskFilter
sent_filter filter = record { id = filter.id; mask = sent_mask filter.id filter.mask }

abbrev pub IsMask : IdMask → Type 0
IsMask (standard_mask mask) = mask < 2 ^ 16
IsMask (extended_mask mask) = mask < 2 ^ 32

-- A filter that its type allows.
abbrev pub IsFilter : IdApi → IdMaskFilter → Type 0
IsFilter api filter = IsId api filter.id × IsMask filter.mask

module _ (api : IdApi) where
  decode_filter_back :
      (id : CanId) (mask : IdMask)
      → IsId api id
      → IsMask mask
      → let (flags, id_raw, mask_raw) = filter_parts id mask in
        decode_filter api flags
          (from_le_bytes (to_le_bytes 4 id_raw))
          (from_le_bytes (to_le_bytes 4 mask_raw))
        ≡ ok (record { id = id; mask = sent_mask id mask })
  unfolding decode_filter
  decode_filter_back (standard raw) (standard_mask mask) (small, known) h =
      let same : raw % 2 ^ 16 ≡ raw = omega arith in
      let kept : mask % 2 ^ 16 ≡ mask = omega arith in
      rw (from_le_bytes-to_le_bytes 4 raw (omega arith))
        (rw same (rw known (rw (from_le_bytes-to_le_bytes 4 mask (omega arith)) (rw kept refl))))
  decode_filter_back (standard raw) (extended_mask mask) (small, known) h =
      let same : raw % 2 ^ 16 ≡ raw = omega arith in
      rw (from_le_bytes-to_le_bytes 4 raw (omega arith))
        (rw same (rw known (rw (from_le_bytes-to_le_bytes 4 0 (omega arith)) refl)))
  decode_filter_back (extended raw) (extended_mask mask) (small, known) h =
      rw (from_le_bytes-to_le_bytes 4 raw (omega arith))
        (rw known (rw (from_le_bytes-to_le_bytes 4 mask (omega arith)) refl))
  decode_filter_back (extended raw) (standard_mask mask) (small, known) h =
      rw (from_le_bytes-to_le_bytes 4 raw (omega arith))
        (rw known (rw (from_le_bytes-to_le_bytes 4 0 (omega arith)) refl))

  decode_entries-encode_entries :
      (filters : List IdMaskFilter)
      → All (IsFilter api) filters
      → decode_entries api (length filters) (encode_entries filters) ≡ ok (map sent_filter filters)
  unfolding decode_entries encode_entries to_le_bytes
  decode_entries-encode_entries [] h = refl
  decode_entries-encode_entries (filter ∷ filters) ((known, fits), h) =
      rw (decode_filter_back filter.id filter.mask known fits, decode_entries)
        (rw (decode_entries-encode_entries filters h) refl)

length-encode_entries :
    (filters : List IdMaskFilter) → length (encode_entries filters) ≡ length filters * 9
unfolding encode_entries to_le_bytes
length-encode_entries [] = refl
length-encode_entries (filter ∷ filters) = omega (arith, length-encode_entries filters)

pub length-encode_filters :
    (seq : ℕ) (filters : List IdMaskFilter)
    → length (encode_filters seq filters) ≡ 10 + length filters * 9
unfolding encode_filters to_le_bytes
length-encode_filters seq filters = omega (arith, length-encode_entries filters)

-- Filters of their types, fewer than 2^16: what `encode_filters` writes decodes to the sequence number
-- and the filters, with a mask of the other kind than its identifier replaced by the mask 0.
pub decode_filters-encode_filters :
    (api : IdApi) (seq : ℕ) (filters : List IdMaskFilter)
    → seq < 2 ^ 64
    → length filters < 2 ^ 16
    → All (IsFilter api) filters
    → decode_filters api (encode_filters seq filters) ≡ ok (seq, map sent_filter filters)
unfolding decode_filters encode_filters to_le_bytes
decode_filters-encode_filters api seq filters h few all =
    let n = length filters in
    let long = length-encode_filters seq filters in
    let count : from_le_bytes (to_le_bytes 2 (n % 2 ^ 16)) ≡ n =
      from_le_bytes-to_le_bytes 2 _ (omega arith) ∙ omega arith in
    rw (long, decode_filters)
      (rw (le→ltb (10 + n * 9) 10 (omega arith), decode_filters)
        (rw count (
          rw (==_refl (10 + n * 9)) (
            rw (decode_entries-encode_entries api filters all)
              (rw (from_le_bytes-to_le_bytes 8 seq h) refl)))))
