-- ===== src/UnixSocket/Link/Uplink.antt =====
-- What a client sends is what the bus is asked.
use thincan.Common.{
  ℕ, zero, suc, ◌+◌, ◌-◌, ◌<◌, ◌≤◌, ◌^◌, ◌≡◌, refl, ap, ap₂, ◌∙◌, Bool, true, some, List, [], ◌∷◌,
  ◌++◌, map, Result, ok, err, All, length, replicate, arith, le→ltb, length-take,
}
use thincan.Common.Bytes.{to_le_bytes}
use thincan.UnixSocket.Frame.{CanId, standard, extended, UnixFrame}
use thincan.UnixSocket.Frame.Canonical.{IsCanonical}
use thincan.UnixSocket.Wire.{
  IoError, write_msg, max_payload_len, msg_send_frame, msg_set_filters, read_msg_into,
}
use thincan.UnixSocket.Wire.Framing.{read_msg_into-write_msg}
use thincan.UnixSocket.Wire.Frames.{IdApi, encode_send_frame}
use thincan.UnixSocket.Wire.Frames.RoundTrip.{IsId, decode_send_frame-encode_send_frame}
use thincan.UnixSocket.Wire.Filters.{
  IdMask, standard_mask, extended_mask, IdMaskFilter, encode_filters,
}
use thincan.UnixSocket.Wire.Filters.RoundTrip.{
  IsFilter, sent_mask, sent_filter, length-encode_filters, decode_filters-encode_filters,
}
use thincan.UnixSocket.Server.{BusCommand, remove_client, send_frame, set_filters}
use thincan.UnixSocket.Server.Connection.{reader_message, client_reader_loop}
use thincan.UnixSocket.Client.Ops.{send_payload}

-- What a client asks: `send` and `try_send`, `set_filters`.
pub data Request : Type 0 where
  frame_request : (seq : ℕ) (expect_ack : Bool) (f : UnixFrame) → Request
  filters_request : (seq : ℕ) (filters : List IdMaskFilter) → Request

-- The payload that the client puts behind the header, and its type.
abbrev pub request_type : Request → ℕ
request_type (frame_request seq expect_ack f) = msg_send_frame
request_type (filters_request seq filters) = msg_set_filters

abbrev pub request_payload : Request → List ℕ
request_payload (frame_request seq expect_ack f) = send_payload seq expect_ack f
request_payload (filters_request seq filters) = encode_filters seq filters

-- A request of values that their types allow, whose filters fit into one message.
abbrev pub IsRequestOf : IdApi → Request → Type 0
IsRequestOf api (frame_request seq expect_ack f) = (seq < 2 ^ 64) × IsCanonical f × IsId api f.id
IsRequestOf api (filters_request seq filters) =
    (seq < 2 ^ 64) × (length filters ≤ 454) × All (IsFilter api) filters

-- The command that it becomes on the bus, whose filters are as they arrive.
abbrev command_of : ℕ → Request → BusCommand
command_of id (frame_request seq expect_ack f) = send_frame id seq expect_ack f
command_of id (filters_request seq filters) = set_filters id seq (map sent_filter filters)

-- The requests as `write_msg` frames them, one behind the other.
unfoldable pub uplink : List Request → Result (List ℕ) IoError
uplink [] = ok []
uplink (r ∷ requests) = elim (write_msg (request_type r) (request_payload r)) [
  | err e ↦ err e
  | ok bytes ↦ elim (uplink requests) [ err e ↦ err e | ok more ↦ ok (bytes ++ more) ]
]

send_payload_short :
    (seq : ℕ) (b : Bool) (f : UnixFrame)
    → IsCanonical f
    → length (send_payload seq b f) ≤ max_payload_len
unfolding encode_send_frame
send_payload_short seq b f c =
    omega
      (arith, c.bounded, length-take (14 + f.dlc) (encode_send_frame (replicate 78 0) seq b f).0)

encode_filters_short :
    (seq : ℕ) (filters : List IdMaskFilter)
    → length filters ≤ 454
    → length (encode_filters seq filters) ≤ max_payload_len
encode_filters_short seq filters h = omega (arith, length-encode_filters seq filters)

request_short :
    (api : IdApi) (r : Request) → IsRequestOf api r → length (request_payload r) ≤ max_payload_len
request_short api (frame_request seq b f) (h, c, known) = send_payload_short seq b f c
request_short api (filters_request seq filters) (h, few, all) = encode_filters_short seq filters few

request_command :
    (api : IdApi) (id : ℕ) (r : Request)
    → IsRequestOf api r
    → reader_message api id (request_type r) (request_payload r) ≡ (command_of id r ∷ [], true)
unfolding reader_message
request_command api id (frame_request seq b f) (h, c, known) =
    rw (decode_send_frame-encode_send_frame api (replicate 78 0) seq b f c known h) refl
request_command api id (filters_request seq filters) (h, few, all) =
    rw (decode_filters-encode_filters api seq filters h (omega arith) all) refl

-- One request in front of a stream.
read_request :
    (api : IdApi) (r : Request)
    → IsRequestOf api r
    → (bytes : List ℕ) × (write_msg (request_type r) (request_payload r) ≡ ok bytes)
      × ((more : List ℕ)
          → read_msg_into (bytes ++ more) ≡ ok (request_type r, request_payload r, more))
unfolding write_msg to_le_bytes
read_request api r h =
    let bytes =
      (request_type r ∷ to_le_bytes 4 (length (request_payload r))) ++ request_payload r in
    let small = request_short api r h in
    let sent : write_msg (request_type r) (request_payload r) ≡ ok bytes =
      rw (le→ltb (2 ^ 32 - 1) (length (request_payload r)) (omega arith), write_msg) refl in
    (
      bytes,
      sent,
      λ more.
          read_msg_into-write_msg (request_type r) (request_payload r) more bytes sent
          ∙ rw (le→ltb 4096 (length (request_payload r)) small) refl,
    )

-- As below, where the mask of a filter that is of the other kind than its identifier arrives as 0.
client_reader_loop-uplink :
    (api : IdApi) (id : ℕ) (requests : List Request) (fuel : ℕ)
    → All (IsRequestOf api) requests
    → length requests < fuel
    → (stream : List ℕ) × (uplink requests ≡ ok stream)
      × (client_reader_loop api id fuel stream
          ≡ some (map (command_of id) requests ++ (remove_client id ∷ [])))
unfolding client_reader_loop uplink read_msg_into
client_reader_loop-uplink api id requests zero hs enough = absurd (omega arith)
client_reader_loop-uplink api id [] (suc fuel) hs enough = ([], refl, refl)
client_reader_loop-uplink api id (r ∷ requests) (suc fuel) (h, hs) enough =
    let (bytes, sent, back) = read_request api r h in
    let (stream, sent', loop) = client_reader_loop-uplink api id requests fuel hs (omega arith) in
    (
      bytes ++ stream,
      rw (sent, uplink) (rw sent' refl),
      rw (back stream, client_reader_loop) (rw (request_command api id r h) (rw loop refl)),
    )

-- The mask of each filter is of the same kind as its identifier.
abbrev pub SameKind : CanId → IdMask → Type 0
SameKind (standard raw) (standard_mask mask) = Unit
SameKind (extended raw) (extended_mask mask) = Unit
SameKind _ _ = ⊥

abbrev pub HasSameKinds : Request → Type 0
HasSameKinds (frame_request seq expect_ack f) = Unit
HasSameKinds (filters_request seq filters) = All (λ f. SameKind f.id f.mask) filters

-- The command that was asked, of the client with this number.
abbrev pub asked : ℕ → Request → BusCommand
asked id (frame_request seq expect_ack f) = send_frame id seq expect_ack f
asked id (filters_request seq filters) = set_filters id seq filters

sent_mask-same : (id : CanId) (mask : IdMask) → SameKind id mask → sent_mask id mask ≡ mask
sent_mask-same (standard raw) (standard_mask mask) h = refl
sent_mask-same (extended raw) (extended_mask mask) h = refl
sent_mask-same (standard raw) (extended_mask mask) h = absurd h
sent_mask-same (extended raw) (standard_mask mask) h = absurd h

map-sent_filter :
    (filters : List IdMaskFilter)
    → All (λ f. SameKind f.id f.mask) filters
    → map sent_filter filters ≡ filters
map-sent_filter [] h = refl
map-sent_filter (f ∷ filters) (h, hs) =
    ap₂ (λ m fs. record f { mask = m } ∷ fs) (sent_mask-same f.id f.mask h)
      (map-sent_filter filters hs)

command_of-asked : (id : ℕ) (r : Request) → HasSameKinds r → command_of id r ≡ asked id r
command_of-asked id (frame_request seq b f) h = refl
command_of-asked id (filters_request seq filters) h =
    ap (set_filters id seq) (map-sent_filter filters h)

map-command_of :
    (id : ℕ) (requests : List Request)
    → All HasSameKinds requests
    → map (command_of id) requests ≡ map (asked id) requests
map-command_of id [] h = refl
map-command_of id (r ∷ requests) (h, hs) =
    ap₂ (λ c cs. c ∷ cs) (command_of-asked id r h) (map-command_of id requests hs)

-- Requests of values that their types allow, with at most 454 filters each, which is what one message
-- holds, the mask of each filter of the same kind as its identifier, and fuel for one message more: the
-- client can frame them all, and the reader of a client with that stream sends the bus exactly the commands
-- that were asked, frames and filters unchanged, in their order, each with the number of the client, and
-- then takes the client off the bus when the stream closes.
pub client_reader_loop-asked :
    (api : IdApi) (id : ℕ) (requests : List Request) (fuel : ℕ)
    → All (IsRequestOf api) requests
    → All HasSameKinds requests
    → length requests < fuel
    → (stream : List ℕ) × (uplink requests ≡ ok stream)
      × (client_reader_loop api id fuel stream
          ≡ some (map (asked id) requests ++ (remove_client id ∷ [])))
client_reader_loop-asked api id requests fuel hs kinds enough =
    let (stream, sent, loop) = client_reader_loop-uplink api id requests fuel hs enough in
    (
      stream,
      sent,
      loop ∙ ap (λ cs. some (cs ++ (remove_client id ∷ []))) (map-command_of id requests kinds),
    )
