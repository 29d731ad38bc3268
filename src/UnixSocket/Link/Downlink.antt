-- ===== src/UnixSocket/Link/Downlink.antt =====
-- What the bus sends to a client is what the client decodes.
use thincan.Common.{
  ℕ, ◌+◌, ◌-◌, ◌<◌, ◌≤◌, ◌^◌, ◌≡◌, refl, sym, ◌∙◌, true, some, List, [], ◌∷◌, ◌++◌, map, Result, ok,
  All, length, take, drop, replicate, arith, le→ltb, length-append, length-take, take-append,
  drop-append, drop-drop,
}
use thincan.Common.Bytes.{to_le_bytes, from_le_bytes, from_le_bytes-to_le_bytes}
use thincan.UnixSocket.Frame.{UnixFrame}
use thincan.UnixSocket.Frame.Canonical.{IsCanonical}
use thincan.UnixSocket.Wire.{
  write_msg, encode_ack, max_payload_len, msg_frame, msg_ack, msg_hello, msg_filters_ack,
}
use thincan.UnixSocket.Wire.Framing.{decode_ack-encode_ack}
use thincan.UnixSocket.Wire.Frames.{IdApi, encode_frame}
use thincan.UnixSocket.Wire.Frames.RoundTrip.{IsId, decode_frame-encode_frame}
use thincan.UnixSocket.Server.{ServerMsg, frame_msg, ack_msg, hello_msg, filters_ack_msg}
use thincan.UnixSocket.Server.Connection.{server_bytes, client_writer_loop}
use thincan.UnixSocket.Client.{UnixCanError, DecodedMsg, frame, ack, filters_ack, hello, decode_msg}
use thincan.UnixSocket.Client.Parser.{parse}
use thincan.UnixSocket.Client.Waits.{Holds}

-- The message as the client sees it.
abbrev pub seen : ServerMsg → DecodedMsg
seen (frame_msg f) = frame f
seen (ack_msg seq status) = ack seq status
seen hello_msg = hello
seen (filters_ack_msg seq status) = filters_ack seq status

-- A message of frames that a constructor built and numbers of 64 bits.
abbrev pub IsServerMsg : IdApi → ServerMsg → Type 0
IsServerMsg api (frame_msg f) = IsCanonical f × IsId api f.id
IsServerMsg api (ack_msg seq status) = seq < 2 ^ 64
IsServerMsg api hello_msg = Unit
IsServerMsg api (filters_ack_msg seq status) = seq < 2 ^ 64

module _ {ℓ} {R : Type ℓ} (f : ℕ → List ℕ → Result R UnixCanError) (msg_type : ℕ)
    (payload more : List ℕ) where
  -- A framed message is found at once, and what follows is left.
  parse_written :
      (out : R)
      → length payload ≤ max_payload_len
      → f msg_type payload ≡ ok out
      → parse f (((msg_type ∷ to_le_bytes 4 (length payload)) ++ payload) ++ more)
        ≡ ok (some (out, more))
  unfolding parse to_le_bytes
  parse_written out small good =
      let n = length payload in
      let size : length (((msg_type ∷ to_le_bytes 4 n) ++ payload) ++ more) ≡ 5 + n + length more =
        omega (arith, length-append payload more) in
      let len : from_le_bytes (to_le_bytes 4 n) ≡ n = from_le_bytes-to_le_bytes 4 n (omega arith) in
      let behind : drop (5 + n) (((msg_type ∷ to_le_bytes 4 n) ++ payload) ++ more) ≡ more =
        sym (drop-drop 5 n (((msg_type ∷ to_le_bytes 4 n) ++ payload) ++ more))
        ∙ drop-append payload more refl in
      rw (size, parse)
        (rw (le→ltb (5 + n + length more) 5 (omega arith), parse)
          (rw len (
            rw (le→ltb 4096 n small) (
              rw (le→ltb (5 + n + length more) (5 + n) (omega arith))
                (rw (take-append payload more refl) (rw good (rw len (rw behind refl))))))))

-- The bytes of one message, found by the client whatever follows.
abbrev Seen : IdApi → ServerMsg → List ℕ → Type 0
Seen api msg frame_buf =
    (bytes : List ℕ) × ((server_bytes msg frame_buf).0 ≡ ok bytes)
    × ((more : List ℕ) → parse (decode_msg api) (bytes ++ more) ≡ ok (some (seen msg, more)))

written_payload :
    (api : IdApi) (msg_type : ℕ) (payload : List ℕ) (out : DecodedMsg)
    → length payload ≤ max_payload_len
    → decode_msg api msg_type payload ≡ ok out
    → (bytes : List ℕ) × (write_msg msg_type payload ≡ ok bytes)
      × ((more : List ℕ) → parse (decode_msg api) (bytes ++ more) ≡ ok (some (out, more)))
unfolding write_msg
written_payload api msg_type payload out small good = (
  (msg_type ∷ to_le_bytes 4 (length payload)) ++ payload,
  rw (le→ltb (2 ^ 32 - 1) (length payload) (omega arith)) refl,
  λ more. parse_written (decode_msg api) msg_type payload more out small good,
)

frame_short :
    (out : List ℕ) (f : UnixFrame)
    → IsCanonical f
    → length (let (buf, len) = encode_frame out f in take len buf) ≤ max_payload_len
unfolding encode_frame
frame_short out f c = omega (arith, c.bounded, length-take (6 + f.dlc) (encode_frame out f).0)

ack_short : (seq status : ℕ) → length (encode_ack seq status) ≤ max_payload_len
unfolding encode_ack to_le_bytes
ack_short seq status = omega arith

server_bytes-Seen :
    (api : IdApi) (msg : ServerMsg) (frame_buf : List ℕ)
    → IsServerMsg api msg
    → Seen api msg frame_buf
unfolding server_bytes decode_msg
server_bytes-Seen api (frame_msg f) frame_buf (c, known) =
    written_payload api msg_frame _ (frame f) (frame_short frame_buf f c)
      (rw (decode_frame-encode_frame api frame_buf f c known) refl)
server_bytes-Seen api (ack_msg seq status) frame_buf h =
    written_payload api msg_ack _ (ack seq status) (ack_short seq status)
      (rw (decode_ack-encode_ack seq status h) refl)
server_bytes-Seen api hello_msg frame_buf h =
    written_payload api msg_hello [] hello (omega arith) refl
server_bytes-Seen api (filters_ack_msg seq status) frame_buf h =
    written_payload api msg_filters_ack _ (filters_ack seq status) (ack_short seq status)
      (rw (decode_ack-encode_ack seq status h) refl)

-- Messages of the bus with frames that a constructor built, identifiers of their types and numbers of 64
-- bits, on a stream that takes them: what the writer of a client puts on the stream is, whatever its
-- frame buffer held, exactly those messages to the client, in their order.
pub client_writer_loop-Holds :
    (api : IdApi) (id : ℕ) (msgs : List ServerMsg) (frame_buf : List ℕ)
    → All (IsServerMsg api) msgs
    → let (bytes, commands) = client_writer_loop id msgs (replicate (length msgs) true) frame_buf in
      Holds api bytes (map seen msgs) [] × (commands ≡ [])
unfolding client_writer_loop
client_writer_loop-Holds api id [] frame_buf h = (refl, refl)
client_writer_loop-Holds api id (msg ∷ msgs) frame_buf (h, hs) =
    let (bytes, sent, found) = server_bytes-Seen api msg frame_buf h in
    let (later, quiet) = client_writer_loop-Holds api id msgs (server_bytes msg frame_buf).1 hs in
    rw (sent, client_writer_loop) ((_, found _, later), quiet)
