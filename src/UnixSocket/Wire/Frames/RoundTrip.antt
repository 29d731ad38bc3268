-- ===== src/UnixSocket/Wire/Frames/RoundTrip.antt =====
-- A frame that is encoded decodes to itself.
use thincan.Common.{
  ℕ, ◌+◌, ◌%◌, ◌^◌, ◌<◌, ◌≡◌, refl, sym, ap, ◌∙◌, Bool, true, false, some, List, [], ◌∷◌, ◌++◌, ok,
  length, take, drop, arith, le→ltb, ==_refl, length-take, take-append_add, take-append, take-all,
}
use thincan.Common.Bytes.{to_le_bytes, from_le_bytes, from_le_bytes-to_le_bytes}
use thincan.UnixSocket.Frame.{CanId, standard, extended, UnixFrame, from_parts}
use thincan.UnixSocket.Frame.Canonical.{zeros, IsCanonical, padded_front}
use thincan.UnixSocket.Wire.Frames.{
  set_flag, IdApi, frame_flags, frame_id_raw, has_flag, flag_remote, flag_extended, flag_expect_ack,
  is_extended, decode_id, decode_frame_from_parts, encode_send_frame, encode_frame,
  decode_send_frame, decode_frame,
}

-- An identifier that its type accepts, of 16 or 32 bits.
abbrev pub IsId : IdApi → CanId → Type 0
IsId api (standard raw) = (raw < 2 ^ 16) × (api.standard_new raw ≡ some raw)
IsId api (extended raw) = (raw < 2 ^ 32) × (api.extended_new raw ≡ some raw)

-- The flags come back from the byte that carries them.
abbrev FlagsBack : Bool → Bool → Bool → ℕ → Type 0
FlagsBack remote ext expect_ack flags =
    (has_flag flags flag_remote ≡ remote)
    × (has_flag flags flag_extended ≡ ext)
    × (has_flag flags flag_expect_ack ≡ expect_ack)

flags_back :
    (remote ext expect_ack : Bool)
    → FlagsBack remote ext expect_ack (
        set_flag expect_ack flag_expect_ack
          (set_flag ext flag_extended (set_flag remote flag_remote 0)))
flags_back true true true = (refl, refl, refl)
flags_back true true false = (refl, refl, refl)
flags_back true false true = (refl, refl, refl)
flags_back true false false = (refl, refl, refl)
flags_back false true true = (refl, refl, refl)
flags_back false true false = (refl, refl, refl)
flags_back false false true = (refl, refl, refl)
flags_back false false false = (refl, refl, refl)

decode_id_back :
    (api : IdApi) (id : CanId) (flags : ℕ)
    → IsId api id
    → has_flag flags flag_extended ≡ is_extended id
    → decode_id api flags (frame_id_raw id) ≡ ok id
unfolding decode_id
decode_id_back api (standard raw) flags (small, known) e =
    let same : raw % 2 ^ 16 ≡ raw = omega arith in rw (e, decode_id) (rw same (rw known refl))
decode_id_back api (extended raw) flags (small, known) e = rw (e, decode_id) (rw known refl)

module _ (api : IdApi) (f : UnixFrame) (c : IsCanonical f) (known : IsId api f.id)
    (expect_ack : Bool) where
  flags : ℕ
  flags = frame_flags f expect_ack

  back : FlagsBack f.remote (is_extended f.id) expect_ack flags
  unfolding flags frame_flags
  back = flags_back f.remote (is_extended f.id) expect_ack

  front : List ℕ
  front = take f.dlc f.data_bytes

  parts_back :
      decode_frame_from_parts api flags (frame_id_raw f.id) f.dlc (front ++ drop f.dlc (zeros 64))
      ≡ ok f
  unfolding decode_frame_from_parts from_parts front
  parts_back =
      rw (decode_id_back api f.id flags known back.1, decode_frame_from_parts)
        (rw (le→ltb _ _ c.bounded) (rw back.0 (rw (padded_front f c) refl)))

  length-front : length front ≡ f.dlc
  unfolding front
  length-front = omega (arith, length-take f.dlc f.data_bytes, c.array, c.bounded)

  id_back : from_le_bytes (to_le_bytes 4 (frame_id_raw f.id)) ≡ frame_id_raw f.id
  id_back = from_le_bytes-to_le_bytes 4 (frame_id_raw f.id) (fits f.id known)
    where
      fits : (i : CanId) → IsId api i → frame_id_raw i < 256 ^ 4
      fits (standard raw) (small, k) = omega arith
      fits (extended raw) (small, k) = omega arith

  -- What a client writes for a frame.
  send_wire : ℕ → List ℕ
  send_wire seq =
      to_le_bytes 8 seq ++ (flags ∷ (to_le_bytes 4 (frame_id_raw f.id) ++ (f.dlc ∷ front)))

  encoded_send :
      (out : List ℕ) (seq : ℕ)
      → let (out', len) = encode_send_frame out seq expect_ack f in take len out' ≡ send_wire seq
  unfolding encode_send_frame send_wire front flags to_le_bytes
  encoded_send out seq =
      take-append_add 14 f.dlc
        (to_le_bytes 8 seq
          ++ (frame_flags f expect_ack ∷ (to_le_bytes 4 (frame_id_raw f.id) ++ (f.dlc ∷ []))))
        (front ++ drop (14 + f.dlc) out) refl
      ∙ ap
          (λ l.
            to_le_bytes 8 seq
            ++ (frame_flags f expect_ack ∷ (to_le_bytes 4 (frame_id_raw f.id) ++ (f.dlc ∷ l))))
          (take-append front (drop (14 + f.dlc) out) (sym length-front))

  take-front : take f.dlc front ≡ front
  take-front = take-all f.dlc front (omega (arith, length-front))

  long_send : (seq : ℕ) → length (send_wire seq) ≡ 14 + f.dlc
  unfolding send_wire to_le_bytes
  long_send seq = omega (arith, length-front)

  decoded_send :
      (seq : ℕ)
      → seq < 2 ^ 64
      → decode_send_frame api (send_wire seq)
        ≡ ok (record { seq = seq; expect_ack = expect_ack; frame = f })
  unfolding decode_send_frame send_wire to_le_bytes
  decoded_send seq h =
      rw (long_send seq, decode_send_frame)
        (rw (le→ltb (14 + f.dlc) 14 (omega arith), decode_send_frame)
          (rw (le→ltb 64 f.dlc c.bounded) (
            rw (==_refl (14 + f.dlc)) (
              rw take-front (
                rw id_back
                  (rw parts_back (rw (from_le_bytes-to_le_bytes 8 seq h) (rw back.2 refl))))))))

  -- What the server writes for a frame.
  frame_wire : List ℕ
  frame_wire = flags ∷ (to_le_bytes 4 (frame_id_raw f.id) ++ (f.dlc ∷ front))

  encoded_frame :
      (out : List ℕ)
      → expect_ack ≡ false
      → let (out', len) = encode_frame out f in take len out' ≡ frame_wire
  unfolding encode_frame frame_wire front flags to_le_bytes
  encoded_frame out no_ack = rw no_ack (
      take-append_add 6 f.dlc
        (frame_flags f false ∷ (to_le_bytes 4 (frame_id_raw f.id) ++ (f.dlc ∷ [])))
        (front ++ drop (6 + f.dlc) out) refl
      ∙ ap (λ l. frame_flags f false ∷ (to_le_bytes 4 (frame_id_raw f.id) ++ (f.dlc ∷ l)))
          (take-append front (drop (6 + f.dlc) out) (sym length-front)))

  long_frame : length frame_wire ≡ 6 + f.dlc
  unfolding frame_wire to_le_bytes
  long_frame = omega (arith, length-front)

  decoded_frame : decode_frame api frame_wire ≡ ok f
  unfolding decode_frame frame_wire to_le_bytes
  decoded_frame =
      rw (long_frame, decode_frame)
        (rw (le→ltb (6 + f.dlc) 6 (omega arith), decode_frame)
          (rw (le→ltb 64 f.dlc c.bounded)
            (rw (==_refl (6 + f.dlc)) (rw take-front (rw id_back parts_back)))))

-- A frame that a constructor built, with an identifier of its type: the bytes that
-- `encode_send_frame_into` puts in front of the array, whatever it held, decode to that frame, the
-- sequence number and the flag that asks for an acknowledgement.
pub decode_send_frame-encode_send_frame :
    (api : IdApi) (out : List ℕ) (seq : ℕ) (expect_ack : Bool) (f : UnixFrame)
    → IsCanonical f
    → IsId api f.id
    → seq < 2 ^ 64
    → let (out', len) = encode_send_frame out seq expect_ack f in
      decode_send_frame api (take len out')
      ≡ ok (record { seq = seq; expect_ack = expect_ack; frame = f })
decode_send_frame-encode_send_frame api out seq expect_ack f c known h =
    ap (decode_send_frame api) (encoded_send api f c known expect_ack out seq)
    ∙ decoded_send api f c known expect_ack seq h

-- A frame that a constructor built, with an identifier of its type: the bytes that
-- `encode_frame_into` puts in front of the array, whatever it held, decode to that frame.
pub decode_frame-encode_frame :
    (api : IdApi) (out : List ℕ) (f : UnixFrame)
    → IsCanonical f
    → IsId api f.id
    → let (out', len) = encode_frame out f in decode_frame api (take len out') ≡ ok f
decode_frame-encode_frame api out f c known =
    ap (decode_frame api) (encoded_frame api f c known false out refl)
    ∙ decoded_frame api f c known false
