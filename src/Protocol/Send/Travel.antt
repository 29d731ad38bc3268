-- ===== src/Protocol/Send/Travel.antt =====
-- A message on its way from the call that sends it to the call that receives it.
use thincan.Common.{
  ℕ, ◌+◌, ◌≤◌, ◌<◌, ◌^◌, ◌≡◌, ap, true, Bool, some, List, ◌∷◌, Result, ok, err, map_err, length,
  take, drop,
}
use thincan.Protocol.Wire.{Error, header_len, EncodeCapnp, encode_capnp_into_buf}
use thincan.Protocol.Wire.RoundTrip.{KeepsLength, wire, encode_capnp_into_buf-wire}
use thincan.Protocol.Maplet.{slot_for_id}
use thincan.Protocol.Interface.{RxState, recv_next_capnp_from_where}
use thincan.Protocol.Interface.Ingest.{IsValidRx, queue}
use thincan.Protocol.Interface.Receive.{HasNone}
use thincan.Protocol.Interface.Delivery.{recv_next_delivers}
use thincan.Protocol.Send.{
  SendError, map_isotp_send_error, IsoTpEndpoint, TxState, hand_over, send_capnp_to,
}

hand_over_ok :
    {Node E : Type 0} (send : Node → ℕ → List ℕ → Node × Result (Unit {0}) (SendError E))
    (st : TxState Node) (to : ℕ) (r : List ℕ × Result (List ℕ) Error) (payload : List ℕ)
    → r.1 ≡ ok payload
    → ((hand_over send st to r).0.node ≡ (send st.node to payload).0)
      × ((hand_over send st to r).1 ≡ map_err (send st.node to payload).1 map_isotp_send_error)
unfolding hand_over
hand_over_ok send st to (tx, err e) payload h = absurd cc
hand_over_ok send st to (tx, ok p) payload h =
    let same : p ≡ payload = cc in
    (
      ap (λ q. (send st.node to q).0) same,
      ap (λ q. map_err (send st.node to q).1 map_isotp_send_error) same,
    )

-- `send_capnp_to`, with a buffer that has room and an encoder that succeeds within its bound, hands one
-- payload to the node and reports what the node reports. When this payload arrives at a call that waits,
-- on a valid state, for this id and this sender, with no match in its queue, and the bytes that the
-- encoder used are accepted by its predicate, within the bound of a body and find room in the queue, the
-- call returns the sender, the id and these bytes, whatever arrives later.
pub send_capnp_to-recv_next :
    {Node E : Type 0} (endpoint : IsoTpEndpoint Node E) (st : TxState Node) (to id : ℕ)
    (v : EncodeCapnp) (out : List ℕ) (used : ℕ) (ids : List ℕ) (max_body depth slot from : ℕ)
    (predicate : List ℕ → Bool) (rx : RxState) (arrivals : List (ℕ × List ℕ))
    → KeepsLength v
    → header_len + v.max_encoded_len ≤ length st.tx
    → v.encode (take v.max_encoded_len (drop header_len st.tx)) ≡ (out, ok used)
    → used ≤ v.max_encoded_len
    → IsValidRx ids max_body depth rx
    → id < 2 ^ 16
    → slot_for_id ids id ≡ some slot
    → HasNone ids max_body depth rx slot from predicate
    → predicate (take used out) ≡ true
    → length (take used out) ≤ max_body
    → length (queue ids max_body depth rx slot) < depth
    → (payload : List ℕ) × ((send_capnp_to endpoint st to id v).0.node
        ≡ (endpoint.send_to st.node to payload).0)
      × ((send_capnp_to endpoint st to id v).1
          ≡ map_err (endpoint.send_to st.node to payload).1 map_isotp_send_error)
      × ((recv_next_capnp_from_where ids max_body depth id from predicate true
            ((from, payload) ∷ arrivals)
            rx).1
          ≡ ok (some (record { from = from; id = id; body = take used out })))
unfolding send_capnp_to
send_capnp_to-recv_next endpoint st to id v out used ids max_body depth slot from predicate rx
      arrivals keeps space enc fits valid hid known fresh wanted small room =
    let (node, report) =
      hand_over_ok endpoint.send_to st to (encode_capnp_into_buf id v st.tx) _
        (encode_capnp_into_buf-wire id v st.tx out used keeps space enc fits) in
    (
      wire id (take used out),
      node,
      report,
      recv_next_delivers ids max_body depth id slot from predicate rx (take used out) arrivals valid
          hid known fresh wanted small room,
    )
