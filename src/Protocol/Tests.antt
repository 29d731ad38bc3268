-- ===== src/Protocol/Tests.antt =====
-- Runs of the protocol crate on small data, and its theorems at concrete inputs.
use mathlib.Core.Option
use thincan.Common.{
  map_err, ℕ, ◌<◌, ◌≡◌, refl, Bool, true, none, some, Option, List, [], ◌∷◌, ok, err, Result,
  length, arith,
}
use thincan.Common.Bytes.{to_le_bytes, from_le_bytes}
use thincan.Protocol.Wire.{Error, other_error, EncodeCapnp, decode_wire, encode_capnp_into_buf}
use thincan.Protocol.Wire.RoundTrip.{KeepsLength, wire, encode-decode_wire}
use thincan.Protocol.Maplet.{slot_for_id, maplet_ids}
use thincan.Protocol.Mailbox.{IngestError, TypeMailbox, new_mailbox, push, pop_matching_where}
use thincan.Protocol.Mailbox.Contents.{take_first}
use thincan.Protocol.Mailbox.Invariant.{IsValid, new_mailbox-IsValid, push-IsValid}
use thincan.Protocol.Mailbox.Queue.{
  Message, contents, message, contents-push, contents-pop_matching_where,
}
use thincan.Protocol.Interface.{RxState, new_rx, ingest, recv_poll, recv_next_capnp_from_where}
use thincan.Protocol.Interface.Ingest.{
  IsValidRx, queue, new_rx-IsValidRx, ingest-IsValidRx, Outcomes, ingest-Outcomes,
}
use thincan.Protocol.Interface.Receive.{HasNone}
use thincan.Protocol.Send.{IsoTpEndpoint, TxState, send_capnp_to, map_isotp_send_error}
use thincan.Protocol.Send.Travel.{send_capnp_to-recv_next}
use thincan.Protocol.Interface.Delivery.{recv_next_waits, recv_next_delivers}

decoded : decode_wire (3 ∷ 2 ∷ 9 ∷ 8 ∷ []) ≡ ok (record { id = 0x203; body = 9 ∷ 8 ∷ [] })
unfolding decode_wire from_le_bytes
decoded = refl

abbrev bundles : List (List ℕ)
bundles = (0x101 ∷ 0x102 ∷ []) ∷ (0x203 ∷ []) ∷ []

abbrev ids : List ℕ
ids = 0x101 ∷ 0x102 ∷ 0x203 ∷ []

compiled : maplet_ids bundles ≡ some ids
unfolding maplet_ids
compiled = refl

slot_of_203 : slot_for_id ids 0x203 ≡ some 2
unfolding slot_for_id
slot_of_203 = refl

duplicated : maplet_ids ((1 ∷ 2 ∷ []) ∷ (3 ∷ 1 ∷ []) ∷ []) ≡ none
unfolding maplet_ids
duplicated = refl

-- An encoder that writes two bytes into a slice of three.
abbrev encode_two : List ℕ → List ℕ × Result ℕ Error
encode_two (a ∷ b ∷ rest) = (9 ∷ 8 ∷ rest, ok 2)
encode_two out = (out, err other_error)

abbrev encoder : EncodeCapnp
encoder = record { max_encoded_len = 3; encode = encode_two }

encode_two-keeps : (out : List ℕ) → length (encode_two out).0 ≡ length out
encode_two-keeps [] = refl
encode_two-keeps (a ∷ []) = refl
encode_two-keeps (a ∷ b ∷ rest) = refl

encoder-KeepsLength : KeepsLength encoder
encoder-KeepsLength = record { at = encode_two-keeps }

abbrev buffer : List ℕ
buffer = 0 ∷ 0 ∷ 0 ∷ 0 ∷ 0 ∷ 0 ∷ []

written :
    encode_capnp_into_buf 0x203 encoder buffer
    ≡ (3 ∷ 2 ∷ 9 ∷ 8 ∷ 0 ∷ 0 ∷ [], ok (3 ∷ 2 ∷ 9 ∷ 8 ∷ []))
unfolding encode_capnp_into_buf to_le_bytes
written = refl

encode-decode_wire_example :
    (payload : List ℕ) × ((encode_capnp_into_buf 0x203 encoder buffer).1 ≡ ok payload)
    × (decode_wire payload ≡ ok (record { id = 0x203; body = 9 ∷ 8 ∷ [] }))
encode-decode_wire_example =
    encode-decode_wire 0x203 encoder buffer (9 ∷ 8 ∷ 0 ∷ []) 2 (omega arith) encoder-KeepsLength
      (omega arith) refl (omega arith)

-- A mailbox of two slots for bodies of up to three bytes, with one message in it.
abbrev one_waiting : TypeMailbox
one_waiting = (push 3 2 (new_mailbox 3 2) 7 (5 ∷ 6 ∷ [])).0

one_waiting-IsValid : IsValid 3 2 one_waiting
one_waiting-IsValid = push-IsValid 3 2 (new_mailbox 3 2) (new_mailbox-IsValid 3 2) 7 (5 ∷ 6 ∷ [])

abbrev any_body : List ℕ → Bool
any_body body = true

abbrev two_wait : List Message × Result (Unit {0}) IngestError
two_wait = ((7, 5 ∷ 6 ∷ []) ∷ (8, 4 ∷ []) ∷ [], ok tt)

abbrev none_waits : List Message × Option Message
none_waits = ([], some (7, 5 ∷ 6 ∷ []))

contents-push_example :
    (contents (push 3 2 one_waiting 8 (4 ∷ [])).0, (push 3 2 one_waiting 8 (4 ∷ [])).1) ≡ two_wait
unfolding push new_mailbox
contents-push_example = contents-push 3 2 one_waiting one_waiting-IsValid 8 (4 ∷ [])

contents-pop_matching_where_example :
    (
      contents (pop_matching_where 3 one_waiting 7 any_body).0,
      Option.map message (pop_matching_where 3 one_waiting 7 any_body).1,
    )
    ≡ none_waits
unfolding push new_mailbox take_first
contents-pop_matching_where_example =
    contents-pop_matching_where 3 2 one_waiting one_waiting-IsValid 7 any_body

-- A node of the maplet above.
abbrev start : RxState
start = new_rx ids 3 2

start-IsValidRx : IsValidRx ids 3 2 start
start-IsValidRx = new_rx-IsValidRx ids 3 2

abbrev payload : List ℕ
payload = wire 0x203 (9 ∷ 8 ∷ [])

ingest-Outcomes_example : Outcomes ids 3 2 start 7 payload (ingest ids 3 2 start 7 payload)
ingest-Outcomes_example = ingest-Outcomes ids 3 2 start 7 payload start-IsValidRx

ingest-IsValidRx_example : IsValidRx ids 3 2 (ingest ids 3 2 start 7 payload).0
ingest-IsValidRx_example = ingest-IsValidRx ids 3 2 start 7 payload start-IsValidRx

none_at_start : HasNone ids 3 2 start 2 7 any_body
unfolding new_rx new_mailbox take_first
none_at_start = refl

still_waits :
    (recv_next_capnp_from_where ids 3 2 0x203 7 any_body true ((8, payload) ∷ []) start).1 ≡ ok none
unfolding recv_next_capnp_from_where slot_for_id ingest decode_wire to_le_bytes from_le_bytes push
    pop_matching_where new_rx new_mailbox recv_poll
still_waits = refl

room : length (queue ids 3 2 start 2) < 2
unfolding new_rx new_mailbox
room = omega arith

recv_next_waits_example :
    HasNone ids 3 2
      (recv_next_capnp_from_where ids 3 2 0x203 7 any_body true ((8, payload) ∷ []) start).0
      2
      7
      any_body
recv_next_waits_example =
    recv_next_waits ids 3 2 0x203 2 7 any_body ((8, payload) ∷ []) start start-IsValidRx slot_of_203
      still_waits

recv_next_delivers_example :
    (recv_next_capnp_from_where ids 3 2 0x203 7 any_body true
      ((7, payload) ∷ (8, payload) ∷ [])
      start).1
    ≡ ok (some (record { from = 7; id = 0x203; body = 9 ∷ 8 ∷ [] }))
recv_next_delivers_example =
    recv_next_delivers ids 3 2 0x203 2 7 any_body start (9 ∷ 8 ∷ []) ((8, payload) ∷ [])
      start-IsValidRx (omega arith) slot_of_203 none_at_start refl (omega arith) room

-- A node that keeps what it was given, and sends it.
abbrev recorder : IsoTpEndpoint (List (ℕ × List ℕ)) (Unit {0})
recorder = record {
  send_to = λ node to bytes. ((to, bytes) ∷ node, ok tt);
  send_functional_to = λ node to bytes. ((to, bytes) ∷ node, ok tt);
}

abbrev sender : TxState (List (ℕ × List ℕ))
sender = record { node = []; tx = buffer }

send_capnp_to-recv_next_example :
    (bytes : List ℕ) × ((send_capnp_to recorder sender 5 0x203 encoder).0.node
      ≡ (recorder.send_to [] 5 bytes).0)
    × ((send_capnp_to recorder sender 5 0x203 encoder).1
        ≡ map_err (recorder.send_to [] 5 bytes).1 map_isotp_send_error)
    × ((recv_next_capnp_from_where ids 3 2 0x203 7 any_body true
          ((7, bytes) ∷ (8, payload) ∷ [])
          start).1
        ≡ ok (some (record { from = 7; id = 0x203; body = 9 ∷ 8 ∷ [] })))
send_capnp_to-recv_next_example =
    send_capnp_to-recv_next recorder sender 5 0x203 encoder (9 ∷ 8 ∷ 0 ∷ []) 2 ids 3 2 2 7 any_body
      start ((8, payload) ∷ []) encoder-KeepsLength (omega arith) refl (omega arith) start-IsValidRx
      (omega arith) slot_of_203 none_at_start refl (omega arith) room
