-- ===== src/Protocol/Send.antt =====
-- thincan/src/lib.rs: the send side of `Interface`. The node is a parameter, with the two operations of
-- `IsoTpEndpoint` and `IsoTpAsyncEndpoint`; the asynchronous functions hold the lock of `tx_state` for
-- the whole send. A timeout is the node's, and so part of it.
pub mod Travel
use thincan.Common.{ℕ, List, Result, ok, err, map_err}
use thincan.Protocol.Wire.{Error, other_error, timeout_error, EncodeCapnp, encode_capnp_into_buf}

pub data SendError (E : Type 0) : Type 0 where
  timeout : SendError E
  backend : E → SendError E

pub map_isotp_send_error : {E : Type 0} → SendError E → Error
map_isotp_send_error timeout = timeout_error
map_isotp_send_error (backend _) = other_error

-- What a node does with a payload for an address.
pub record IsoTpEndpoint (Node E : Type 0) : Type 0 where
  pub send_to : Node → ℕ → List ℕ → Node × Result (Unit {0}) (SendError E)
  pub send_functional_to : Node → ℕ → List ℕ → Node × Result (Unit {0}) (SendError E)

pub record TxState (Node : Type 0) : Type 0 where
  pub node : Node
  pub tx : List ℕ

-- The end of the send functions: what was encoded is handed to the node.
pub hand_over :
    {Node E : Type 0}
    → (Node → ℕ → List ℕ → Node × Result (Unit {0}) (SendError E))
    → TxState Node
    → ℕ
    → List ℕ × Result (List ℕ) Error
    → TxState Node × Result (Unit {0}) Error
unfolding map_isotp_send_error
hand_over send st to (tx', err e) = (record { node = st.node; tx = tx' }, err e)
hand_over send st to (tx', ok payload) =
    let (node', sent) = send st.node to payload in
    (record { node = node'; tx = tx' }, map_err sent map_isotp_send_error)

module _ {Node E : Type 0} (endpoint : IsoTpEndpoint Node E) where
  -- `encode_capnp_into`
  pub encode_capnp_into : TxState Node → ℕ → EncodeCapnp → TxState Node × Result (List ℕ) Error
  encode_capnp_into st id value =
      let (tx', r) = encode_capnp_into_buf id value st.tx in
      (record { node = st.node; tx = tx' }, r)

  pub send_capnp_to : TxState Node → ℕ → ℕ → EncodeCapnp → TxState Node × Result (Unit {0}) Error
  unfolding hand_over
  send_capnp_to st to id value =
      hand_over endpoint.send_to st to (encode_capnp_into_buf id value st.tx)

  pub send_capnp_functional_to :
      TxState Node → ℕ → ℕ → EncodeCapnp → TxState Node × Result (Unit {0}) Error
  unfolding hand_over
  send_capnp_functional_to st functional_to id value =
      hand_over endpoint.send_functional_to st functional_to (encode_capnp_into_buf id value st.tx)

  -- The asynchronous pair, under the lock.
  pub send_capnp_to_async_shared :
      TxState Node → ℕ → ℕ → EncodeCapnp → TxState Node × Result (Unit {0}) Error
  unfolding hand_over
  send_capnp_to_async_shared st to id value =
      hand_over endpoint.send_to st to (encode_capnp_into_buf id value st.tx)

  pub send_capnp_functional_to_async_shared :
      TxState Node → ℕ → ℕ → EncodeCapnp → TxState Node × Result (Unit {0}) Error
  unfolding hand_over
  send_capnp_functional_to_async_shared st functional_to id value =
      hand_over endpoint.send_functional_to st functional_to (encode_capnp_into_buf id value st.tx)
