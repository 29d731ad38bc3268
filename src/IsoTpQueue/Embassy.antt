-- ===== src/IsoTpQueue/Embassy.antt =====
-- iso-tp/can-isotp-queue/src/embassy.rs: the adapter over static channels. The responses of the actor
-- share one channel, and a lock lets one endpoint at a time send a request and await its response. The
-- polls of the node and the events are those of the tokio adapter; an event's array is its first `len` bytes.
pub mod Situations
pub mod Rpc
use thincan.Common.{
  ℕ, suc, ◌+◌, Bool, true, false, Option, none, some, List, [], ◌∷◌, ◌++◌, Result, ok, err, length,
  take, drop, replicate, ltb, if◌then◌else◌,
}
use thincan.IsoTpQueue.{
  QueueIsoTpError, payload_too_large, transport, channel_closed, SendError, send_timeout,
  send_backend, ActorConfig, normalized_tx_burst_limit, RxEvent, SendResult,
}
use thincan.IsoTpQueue.Actor.{
  Node, Phase, burst, poll, publish, Action, received, after_poll, mapped,
}

-- `IsoTpTxRequest`
pub record Request : Type 0 where
  pub to : ℕ
  pub is_functional : Bool
  pub timeout : ℕ
  pub len : ℕ
  pub payload : List ℕ

-- `IsoTpTxResponse`
pub data Response (E : Type 0) : Type 0 where
  response_ok response_timeout : Response E
  response_backend : E → Response E

-- Who holds the lock: nobody; an endpoint that has its request still to send, or awaits the response.
pub data Caller : Type 0 where
  idle : Caller
  enqueueing awaiting : Request → Caller

-- Where the actor stands: as the tokio actor does, or with a response that waits for room, or stopped at
-- an `unreachable!`.
pub data Stage (E : Type 0) : Type 0 where
  resting : Phase E → Stage E
  respond : (tx_processed : ℕ) → Response E → Stage E
  panicked : Stage E

pub record QueueState (E : Type 0) : Type 0 where
  pub caller : Caller
  pub tx_req : List Request
  pub tx_resp : List (Response E)
  pub rx_evt : List (RxEvent E)
  pub stage : Stage E
  pub calls : ℕ

-- An endpoint calls `send_to`; the endpoint with the lock goes on; its future is dropped; the actor takes a
-- turn; an endpoint takes an event.
pub data QueueEvent : Type 0 where
  call : Request → QueueEvent
  caller_turn cancel actor_turn recv_call : QueueEvent

module _ {E : Type 0} where
  abbrev pub map_tx_response : Response E → SendResult E
  map_tx_response response_ok = ok tt
  map_tx_response response_timeout = err send_timeout
  map_tx_response (response_backend e) = err (send_backend (transport e))

  -- Nothing at the arms with `unreachable!`.
  abbrev pub response_of : SendResult E → Option (Response E)
  response_of (ok u) = some response_ok
  response_of (err send_timeout) = some response_timeout
  response_of (err (send_backend (transport e))) = some (response_backend e)
  response_of (err (send_backend (payload_too_large needed capacity))) = none
  response_of (err (send_backend channel_closed)) = none

  -- The request that `send_to` makes, in an array of `max_payload` bytes.
  unfoldable pub make_request :
      ℕ → Bool → ℕ → List ℕ → ℕ → Result Request (SendError (QueueIsoTpError E))
  make_request max_payload is_functional to payload timeout =
      if ltb max_payload (length payload)
      then err (send_backend (payload_too_large (length payload) max_payload))
      else ok (record {
        to = to;
        is_functional = is_functional;
        timeout = timeout;
        len = length payload;
        payload = payload ++ drop (length payload) (replicate max_payload 0);
      })

  abbrev pub ask_node : Node E → ℕ → Request → SendResult E
  ask_node node calls req = mapped (
      if req.is_functional
      then node.send_functional_to calls req.to (take req.len req.payload) req.timeout
      else node.send_to calls req.to (take req.len req.payload) req.timeout)

  abbrev pub stage_of : ℕ → Option (Response E) → Stage E
  stage_of n none = panicked
  stage_of n (some r) = respond n r

  abbrev pub take_request : Node E → ℕ → QueueState E → List Request → QueueState E
  take_request node n s [] = record s { stage = resting poll }
  take_request node n s (req ∷ rest) = record s {
    stage = stage_of (suc n) (response_of (ask_node node s.calls req));
    tx_req = rest;
    calls = suc s.calls;
  }

  abbrev pub stage_turn : Node E → ActorConfig → ℕ → ℕ → QueueState E → Stage E → QueueState E
  stage_turn node cfg resp_depth rx_depth s (resting (burst n)) =
      if ltb n (normalized_tx_burst_limit cfg)
      then take_request node n s s.tx_req
      else record s { stage = resting poll }
  stage_turn node cfg resp_depth rx_depth s (resting poll) = record s {
    stage = resting (after_poll cfg (node.recv_one s.calls cfg.recv_poll_timeout)).0;
    calls = suc s.calls;
  }
  stage_turn node cfg resp_depth rx_depth s (resting (publish evt)) =
      if ltb (length s.rx_evt) rx_depth
      then record s { stage = resting (burst 0); rx_evt = s.rx_evt ++ (evt ∷ []) }
      else s
  stage_turn node cfg resp_depth rx_depth s (respond n r) =
      if ltb (length s.tx_resp) resp_depth
      then record s { stage = resting (burst n); tx_resp = s.tx_resp ++ (r ∷ []) }
      else s
  stage_turn node cfg resp_depth rx_depth s panicked = s

  -- The lock is taken, and the responses that lie in the channel are thrown away.
  abbrev pub lock : Request → QueueState E → Caller → QueueState E
  lock req s idle = record s { caller = enqueueing req; tx_resp = [] }
  lock req s _ = s

  abbrev pub take_response :
      Request → QueueState E → List (Response E) → QueueState E × Option (Request × SendResult E)
  take_response req s [] = (s, none)
  take_response req s (r ∷ rest) =
      (record s { caller = idle; tx_resp = rest }, some (req, map_tx_response r))

  abbrev pub go_on : ℕ → QueueState E → Caller → QueueState E × Option (Request × SendResult E)
  go_on req_depth s idle = (s, none)
  go_on req_depth s (enqueueing req) =
      if ltb (length s.tx_req) req_depth
      then (record s { caller = awaiting req; tx_req = s.tx_req ++ (req ∷ []) }, none)
      else (s, none)
  go_on req_depth s (awaiting req) = take_response req s s.tx_resp

  -- The state, and what a call of `send_to` returns, if one does.
  unfoldable pub queue_step :
      Node E
      → ActorConfig
      → ℕ
      → ℕ
      → ℕ
      → QueueEvent
      → QueueState E
      → QueueState E × Option (Request × SendResult E)
  queue_step node cfg req_depth resp_depth rx_depth (call req) s = (lock req s s.caller, none)
  queue_step node cfg req_depth resp_depth rx_depth caller_turn s = go_on req_depth s s.caller
  queue_step node cfg req_depth resp_depth rx_depth cancel s = (record s { caller = idle }, none)
  queue_step node cfg req_depth resp_depth rx_depth actor_turn s =
      (stage_turn node cfg resp_depth rx_depth s s.stage, none)
  queue_step node cfg req_depth resp_depth rx_depth recv_call s =
      (record s { rx_evt = drop 1 s.rx_evt }, none)

  abbrev pub add_return :
      Option (Request × SendResult E)
      → List (Request × SendResult E)
      → List (Request × SendResult E)
  add_return none rest = rest
  add_return (some r) rest = r ∷ rest

  unfoldable pub queue_run :
      Node E
      → ActorConfig
      → ℕ
      → ℕ
      → ℕ
      → List QueueEvent
      → QueueState E
      → QueueState E × List (Request × SendResult E)
  queue_run node cfg req_depth resp_depth rx_depth [] s = (s, [])
  queue_run node cfg req_depth resp_depth rx_depth (e ∷ events) s =
      let (s', returned) = queue_step node cfg req_depth resp_depth rx_depth e s in
      let (s'', rest) = queue_run node cfg req_depth resp_depth rx_depth events s' in
      (s'', add_return returned rest)

  -- `QueueResources::new`, and an actor that starts.
  abbrev pub new_resources : QueueState E
  new_resources = record {
    caller = idle;
    tx_req = [];
    tx_resp = [];
    rx_evt = [];
    stage = resting (burst 0);
    calls = 0;
  }
