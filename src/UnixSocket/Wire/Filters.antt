-- ===== src/UnixSocket/Wire/Filters.antt =====
-- embedded-can/embedded-can-unix-socket/src/wire.rs: the filters of a client on the socket.
pub mod RoundTrip
use thincan.Common.{
  ℕ, zero, suc, ◌+◌, ◌*◌, ◌%◌, ◌^◌, Bool, Option, none, some, List, [], ◌∷◌, ◌++◌, Result, ok, err,
  length, take, drop, get_or, ltb, ◌==◌, if◌then◌else◌,
}
use thincan.Common.Bytes.{to_le_bytes, from_le_bytes}
use thincan.UnixSocket.Frame.{CanId, standard, extended}
use thincan.UnixSocket.Wire.{
  WireError, invalid_filters_payload_length, invalid_extended_id, invalid_standard_id,
}
use thincan.UnixSocket.Wire.Frames.{IdApi, flag_extended, has_flag}

-- `IdMask` of embedded-can-interface
pub data IdMask : Type 0 where
  standard_mask extended_mask : (mask : ℕ) → IdMask

-- `IdMaskFilter` of embedded-can-interface
pub record IdMaskFilter : Type 0 where
  pub id : CanId
  pub mask : IdMask

-- A mask of the other kind is written as zero.
abbrev pub filter_parts : CanId → IdMask → ℕ × ℕ × ℕ
filter_parts (standard raw) (standard_mask mask) = (0, raw, mask)
filter_parts (standard raw) (extended_mask mask) = (0, raw, 0)
filter_parts (extended raw) (extended_mask mask) = (flag_extended, raw, mask)
filter_parts (extended raw) (standard_mask mask) = (flag_extended, raw, 0)

abbrev pub entry_bytes : ℕ × ℕ × ℕ → List ℕ
entry_bytes (flags, id_raw, mask_raw) = flags ∷ (to_le_bytes 4 id_raw ++ to_le_bytes 4 mask_raw)

unfoldable pub encode_entries : List IdMaskFilter → List ℕ
encode_entries [] = []
encode_entries (filter ∷ filters) =
    entry_bytes (filter_parts filter.id filter.mask) ++ encode_entries filters

unfoldable pub encode_filters : ℕ → List IdMaskFilter → List ℕ
encode_filters seq filters =
    to_le_bytes 8 seq ++ (to_le_bytes 2 (length filters % 2 ^ 16) ++ encode_entries filters)

module _ (api : IdApi) where
  unfoldable pub decode_filter : ℕ → ℕ → ℕ → Result IdMaskFilter WireError
  decode_filter flags id_raw mask_raw =
      if has_flag flags flag_extended
      then elim (api.extended_new id_raw) [
        | none ↦ err invalid_extended_id
        | some raw ↦ ok (record { id = extended raw; mask = extended_mask mask_raw })
      ]
      else elim (api.standard_new (id_raw % 2 ^ 16)) [
        | none ↦ err invalid_standard_id
        | some raw ↦ ok (record { id = standard raw; mask = standard_mask (mask_raw % 2 ^ 16) })
      ]

  -- The rounds of the loop, over the payload from `offset` on.
  unfoldable pub decode_entries : ℕ → List ℕ → Result (List IdMaskFilter) WireError
  decode_entries zero payload = ok []
  decode_entries (suc count) payload =
      let rest = decode_entries count (drop 9 payload) in
      elim (decode_filter (get_or payload 0 0) (from_le_bytes (take 4 (drop 1 payload)))
        (from_le_bytes (take 4 (drop 5 payload)))) [
          | err e ↦ err e
          | ok filter ↦ elim rest [ err e ↦ err e | ok filters ↦ ok (filter ∷ filters) ]
        ]

  unfoldable pub decode_filters : List ℕ → Result (ℕ × List IdMaskFilter) WireError
  decode_filters payload =
      if ltb (length payload) 10
      then err invalid_filters_payload_length
      else let seq = from_le_bytes (take 8 payload) in
        let count = from_le_bytes (take 2 (drop 8 payload)) in
        if length payload == 10 + count * 9
        then elim (decode_entries count (drop 10 payload)) [
          | err e ↦ err e
          | ok filters ↦ ok (seq, filters)
        ]
        else err invalid_filters_payload_length
