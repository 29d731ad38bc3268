-- ===== src/IsoTpQueue/Actor.antt =====
-- iso-tp/can-isotp-queue/src/tokio.rs: `run_actor` as a machine, one turn for each request that it takes,
-- each poll of the node and each attempt to hand on an event. Between two turns the endpoints send and
-- receive. What the hooks are told, and what the node is asked, is the trace.
pub mod Conserved
pub mod Fair
use thincan.Common.{
  ℕ, suc, ◌+◌, Bool, true, false, not, Option, none, some, List, [], ◌∷◌, ◌++◌, Result, ok, err,
  length, max, ltb, ◌==◌, if◌then◌else◌,
}
use thincan.IsoTpQueue.{
  QueueIsoTpError, transport, SendError, send_timeout, send_backend, RecvError,
  recv_buffer_too_small, recv_backend, ActorConfig, normalized_tx_burst_limit, TxRequest, RxEvent,
  delivered, buffer_too_small, backend, SendResult,
}

-- What `recv_one` of the node does: the message that it hands to the callback, or how it fails.
pub data Polled (E : Type 0) : Type 0 where
  poll_timed_out : Polled E
  poll_delivered : (reply_to : ℕ) (payload : List ℕ) → Polled E
  poll_failed : RecvError E → Polled E

-- The node, whose answers may depend on how many calls it has had.
pub record Node (E : Type 0) : Type 0 where
  pub send_to : (calls to : ℕ) → List ℕ → (timeout : ℕ) → Result (Unit {0}) (SendError E)
  pub send_functional_to : (calls to : ℕ) → List ℕ → (timeout : ℕ) → Result (Unit {0}) (SendError E)
  pub recv_one : (calls timeout : ℕ) → Polled E

-- Where the loop stands: in the burst, with so many requests processed; before the poll; at an event that
-- waits for room.
pub data Phase (E : Type 0) : Type 0 where
  burst : (tx_processed : ℕ) → Phase E
  poll : Phase E
  publish : RxEvent E → Phase E

pub record State (E : Type 0) : Type 0 where
  pub phase : Phase E
  pub tx_req : List TxRequest
  pub rx_evt : List (RxEvent E)
  pub calls : ℕ

-- What happens: a request joins the queue; the node sends one, and its sender gets the result; the node is
-- polled; a message from another source is dropped; an event is produced for the endpoint, and taken by it.
pub data Action (E : Type 0) : Type 0 where
  queued : TxRequest → Action E
  sent : TxRequest → SendResult E → Action E
  polled : Action E
  filtered_source : (expected got len : ℕ) → Action E
  produced received : RxEvent E → Action E

pub data Event : Type 0 where
  send_call : TxRequest → Event
  recv_call actor_turn : Event

-- `cfg.allowed_reply_from` against the source of a message.
abbrev pub is_filtered : Option ℕ → ℕ → Option ℕ
is_filtered none from_meta = none
is_filtered (some expected_from) from_meta =
    if from_meta == expected_from then none else some expected_from

abbrev pub unwrap_or : Option ℕ → ℕ → ℕ
unwrap_or none d = d
unwrap_or (some a) d = a

-- The depth of a queue that `make_endpoints` makes.
abbrev pub depth_of : ℕ → ℕ
depth_of depth = max depth 1

module _ {E : Type 0} where
  abbrev pub mapped : Result (Unit {0}) (SendError E) → SendResult E
  mapped (ok u) = ok u
  mapped (err send_timeout) = err send_timeout
  mapped (err (send_backend e)) = err (send_backend (transport e))

  abbrev pub node_send : Node E → ℕ → TxRequest → Result (Unit {0}) (SendError E)
  node_send node calls req =
      if req.functional_to
      then node.send_functional_to calls req.to req.payload req.timeout
      else node.send_to calls req.to req.payload req.timeout

  -- After the poll: the next phase, and what is told.
  unfoldable pub after_poll : ActorConfig → Polled E → Phase E × List (Action E)
  after_poll cfg poll_timed_out = (burst 0, polled ∷ [])
  after_poll cfg (poll_delivered from_meta payload) =
      elim (is_filtered cfg.allowed_reply_from from_meta) [
        | some expected ↦
            (burst 0, polled ∷ filtered_source expected from_meta (length payload) ∷ [])
        | none ↦
            let evt = delivered (unwrap_or cfg.fixed_reply_to from_meta) payload in
            (publish evt, polled ∷ produced evt ∷ [])
      ]
  after_poll cfg (poll_failed (recv_buffer_too_small needed got)) =
      (publish (buffer_too_small needed got), polled ∷ produced (buffer_too_small needed got) ∷ [])
  after_poll cfg (poll_failed (recv_backend e)) =
      (publish (backend e), polled ∷ produced (backend e) ∷ [])

  -- One request of the burst, or its end.
  abbrev pub burst_turn : Node E → ℕ → State E → List TxRequest → State E × List (Action E)
  burst_turn node n s [] = (record s { phase = poll }, [])
  burst_turn node n s (req ∷ rest) = (
    record s { phase = burst (suc n); tx_req = rest; calls = suc s.calls },
    sent req (mapped (node_send node s.calls req)) ∷ [],
  )

  abbrev pub phase_turn : Node E → ActorConfig → ℕ → State E → Phase E → State E × List (Action E)
  phase_turn node cfg rx_depth s (burst n) =
      if ltb n (normalized_tx_burst_limit cfg)
      then burst_turn node n s s.tx_req
      else (record s { phase = poll }, [])
  phase_turn node cfg rx_depth s poll =
      let (next, actions) = after_poll cfg (node.recv_one s.calls cfg.recv_poll_timeout) in
      (record s { phase = next; calls = suc s.calls }, actions)
  phase_turn node cfg rx_depth s (publish evt) =
      if ltb (length s.rx_evt) rx_depth
      then (record s { phase = burst 0; rx_evt = s.rx_evt ++ (evt ∷ []) }, [])
      else (s, [])

  -- The oldest event, when there is one.
  abbrev pub take_event : State E → List (RxEvent E) → State E × List (Action E)
  take_event s [] = (s, [])
  take_event s (evt ∷ rest) = (record s { rx_evt = rest }, received evt ∷ [])

  -- A sender that finds the queue full waits, as does a receiver that finds it empty.
  unfoldable pub step : Node E → ActorConfig → ℕ → ℕ → Event → State E → State E × List (Action E)
  step node cfg tx_depth rx_depth (send_call req) s =
      if ltb (length s.tx_req) tx_depth
      then (record s { tx_req = s.tx_req ++ (req ∷ []) }, queued req ∷ [])
      else (s, [])
  step node cfg tx_depth rx_depth recv_call s = take_event s s.rx_evt
  step node cfg tx_depth rx_depth actor_turn s = phase_turn node cfg rx_depth s s.phase

  unfoldable pub run :
      Node E → ActorConfig → ℕ → ℕ → List Event → State E → State E × List (Action E)
  run node cfg tx_depth rx_depth [] s = (s, [])
  run node cfg tx_depth rx_depth (e ∷ events) s =
      let (s', actions) = step node cfg tx_depth rx_depth e s in
      let (s'', rest) = run node cfg tx_depth rx_depth events s' in (s'', actions ++ rest)

  -- An actor that starts.
  abbrev pub start : State E
  start = record { phase = burst 0; tx_req = []; rx_evt = []; calls = 0 }
