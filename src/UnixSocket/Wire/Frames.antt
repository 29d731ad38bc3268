-- ===== src/UnixSocket/Wire/Frames.antt =====
-- embedded-can/embedded-can-unix-socket/src/wire.rs: frames on the socket. An array that is written in
-- part keeps what it held behind that part.
pub mod RoundTrip
use thincan.Common.{
  ℕ, ◌+◌, ◌%◌, ◌^◌, Bool, true, false, not, ◌||◌, Option, none, some, List, [], ◌∷◌, ◌++◌, Result,
  ok, err, ok_or, bit_and, bit_or, length, take, drop, get_or, replicate, ltb, ◌==◌, if◌then◌else◌,
}
use thincan.Common.Bytes.{to_le_bytes, from_le_bytes}
use thincan.UnixSocket.Frame.{CanId, standard, extended, UnixFrame, from_parts}
use thincan.UnixSocket.Wire.{
  WireError, invalid_send_frame_payload_length, invalid_frame_payload_length, invalid_dlc,
  invalid_extended_id, invalid_standard_id, invalid_frame,
}

abbrev pub max_data_len : ℕ
max_data_len = 64

abbrev pub send_frame_hdr_len : ℕ
send_frame_hdr_len = 14

abbrev pub frame_hdr_len : ℕ
frame_hdr_len = 6

abbrev pub flag_remote : ℕ
flag_remote = 1

abbrev pub flag_extended : ℕ
flag_extended = 2

abbrev pub flag_expect_ack : ℕ
flag_expect_ack = 4

abbrev pub set_flag : Bool → ℕ → ℕ → ℕ
set_flag b flag flags = if b then bit_or flags flag else flags

abbrev pub has_flag : ℕ → ℕ → Bool
has_flag flags flag = not (bit_and flags flag == 0)

abbrev pub is_extended : CanId → Bool
is_extended (standard raw) = false
is_extended (extended raw) = true

abbrev pub frame_id_raw : CanId → ℕ
frame_id_raw (standard raw) = raw
frame_id_raw (extended raw) = raw

unfoldable pub frame_flags : UnixFrame → Bool → ℕ
frame_flags frame expect_ack =
    set_flag expect_ack flag_expect_ack
      (set_flag (is_extended frame.id) flag_extended (set_flag frame.remote flag_remote 0))

-- `StandardId::new` and `ExtendedId::new` of embedded-can: the raw number of the id, or nothing.
pub record IdApi : Type 0 where
  pub standard_new : ℕ → Option ℕ
  pub extended_new : ℕ → Option ℕ

pub record SendFrame : Type 0 where
  pub seq : ℕ
  pub expect_ack : Bool
  pub frame : UnixFrame

-- What is written behind the header, with the rest of the array.
abbrev pub frame_tail : ℕ → UnixFrame → List ℕ → List ℕ
frame_tail hdr_len frame out = take frame.dlc frame.data_bytes ++ drop (hdr_len + frame.dlc) out

unfoldable pub encode_send_frame : List ℕ → ℕ → Bool → UnixFrame → List ℕ × ℕ
encode_send_frame out seq expect_ack frame = (
  to_le_bytes 8 seq
      ++ (frame_flags frame expect_ack
          ∷ (to_le_bytes 4 (frame_id_raw frame.id)
              ++ (frame.dlc ∷ frame_tail send_frame_hdr_len frame out))),
  send_frame_hdr_len + frame.dlc,
)

unfoldable pub encode_frame : List ℕ → UnixFrame → List ℕ × ℕ
encode_frame out frame = (
  frame_flags frame false
      ∷ (to_le_bytes 4 (frame_id_raw frame.id) ++ (frame.dlc ∷ frame_tail frame_hdr_len frame out)),
  frame_hdr_len + frame.dlc,
)

module _ (api : IdApi) where
  pub decode_id : ℕ → ℕ → Result CanId WireError
  decode_id flags id_raw =
      if has_flag flags flag_extended
      then elim (api.extended_new id_raw) [
        | none ↦ err invalid_extended_id
        | some raw ↦ ok (extended raw)
      ]
      else elim (api.standard_new (id_raw % 2 ^ 16)) [
        | none ↦ err invalid_standard_id
        | some raw ↦ ok (standard raw)
      ]

  unfoldable pub decode_frame_from_parts : ℕ → ℕ → ℕ → List ℕ → Result UnixFrame WireError
  unfolding decode_id
  decode_frame_from_parts flags id_raw dlc bytes = elim (decode_id flags id_raw) [
    | err e ↦ err e
    | ok id ↦ ok_or (from_parts id dlc bytes (has_flag flags flag_remote)) invalid_frame
  ]

  -- The array of zeros with the payload's data in front.
  abbrev pub copied : ℕ → ℕ → List ℕ → List ℕ
  copied hdr_len dlc payload =
      take dlc (drop hdr_len payload) ++ drop dlc (replicate max_data_len 0)

  unfoldable pub decode_send_frame : List ℕ → Result SendFrame WireError
  decode_send_frame payload =
      if ltb (length payload) send_frame_hdr_len
      then err invalid_send_frame_payload_length
      else let seq = from_le_bytes (take 8 payload) in
        let flags = get_or payload 8 0 in
        let id_raw = from_le_bytes (take 4 (drop 9 payload)) in
        let dlc = get_or payload 13 0 in
        if ltb max_data_len dlc
        then err invalid_dlc
        else if length payload == send_frame_hdr_len + dlc
        then elim (decode_frame_from_parts flags id_raw dlc
            (copied send_frame_hdr_len dlc payload)) [
              | err e ↦ err e
              | ok frame ↦
                  ok (record {
                    seq = seq;
                    expect_ack = has_flag flags flag_expect_ack;
                    frame = frame;
                  })
            ]
        else err invalid_send_frame_payload_length

  unfoldable pub decode_frame : List ℕ → Result UnixFrame WireError
  decode_frame payload =
      if ltb (length payload) frame_hdr_len
      then err invalid_frame_payload_length
      else let flags = get_or payload 0 0 in
        let id_raw = from_le_bytes (take 4 (drop 1 payload)) in
        let dlc = get_or payload 5 0 in
        if ltb max_data_len dlc
        then err invalid_dlc
        else if length payload == frame_hdr_len + dlc
        then decode_frame_from_parts flags id_raw dlc (copied frame_hdr_len dlc payload)
        else err invalid_frame_payload_length
