-- ===== src/IsoTpQueue/Embassy/Situations.antt =====
-- Where the request of the endpoint that holds the lock can be, and what is then right.
use thincan.Common.{ℕ, ◌+◌, ◌≡◌, refl, Option, none, some, List, [], ◌∷◌, Result, ok, err, length}
use thincan.IsoTpQueue.{SendError, send_timeout, send_backend, RxEvent, SendResult}
use thincan.IsoTpQueue.Actor.{Node, Phase, mapped}
use thincan.IsoTpQueue.Embassy.{
  Request, Response, response_ok, response_timeout, response_backend, Caller, Stage, idle,
  enqueueing, awaiting, resting, respond, panicked, QueueState, QueueEvent, cancel, map_tx_response,
  response_of, ask_node,
}

-- How far the request of the endpoint with the lock has come: not sent; in the queue; answered by the node,
-- with the response still to send; with the response in its channel.
pub data Situation (E : Type 0) : Type 0 where
  quiet : Option Request → Phase E → Situation E
  asked : Request → Phase E → Situation E
  answering : Request → ℕ → Response E → Situation E
  answered : Request → Response E → Phase E → Situation E

abbrev pub caller_of : Option Request → Caller
caller_of none = idle
caller_of (some req) = enqueueing req

abbrev pub NotCancelled : QueueEvent → Type 0
NotCancelled cancel = ⊥
NotCancelled _ = Unit

-- What the endpoint with the lock waits for.
abbrev pub owed : Caller → ℕ
owed idle = 0
owed (enqueueing req) = 0
owed (awaiting req) = 1

module _ {E : Type 0} where
  abbrev pub state_at : Situation E → List (RxEvent E) → ℕ → QueueState E
  state_at (quiet c p) rx calls = record {
    caller = caller_of c;
    tx_req = [];
    tx_resp = [];
    rx_evt = rx;
    stage = resting p;
    calls = calls;
  }
  state_at (asked req p) rx calls = record {
    caller = awaiting req;
    tx_req = req ∷ [];
    tx_resp = [];
    rx_evt = rx;
    stage = resting p;
    calls = calls;
  }
  state_at (answering req n r) rx calls = record {
    caller = awaiting req;
    tx_req = [];
    tx_resp = [];
    rx_evt = rx;
    stage = respond n r;
    calls = calls;
  }
  state_at (answered req r p) rx calls = record {
    caller = awaiting req;
    tx_req = [];
    tx_resp = r ∷ [];
    rx_evt = rx;
    stage = resting p;
    calls = calls;
  }

  -- Only the rest of the actor's loop has moved.
  abbrev pub Moves : QueueState E → QueueState E → Type 0
  Moves s s' =
      (p : Phase E) × (rx : List (RxEvent E)) × (calls : ℕ) × (s'
        ≡ record s { stage = resting p; rx_evt = rx; calls = calls })

  pub answer_back :
      (x : Result (Unit {0}) (SendError E))
      → (r : Response E) × (response_of (mapped x) ≡ some r) × (map_tx_response r ≡ mapped x)
  answer_back (ok u) = (response_ok, refl, refl)
  answer_back (err send_timeout) = (response_timeout, refl, refl)
  answer_back (err (send_backend e)) = (response_backend e, refl, refl)

  -- A result that the node has given for this request.
  abbrev pub IsAnswerOf : Node E → Request → SendResult E → Type 0
  IsAnswerOf node req result = (calls : ℕ) × (result ≡ ask_node node calls req)

  abbrev pub Good : Node E → Situation E → Type 0
  Good node (quiet c p) = Unit
  Good node (asked req p) = Unit
  Good node (answering req n r) = IsAnswerOf node req (map_tx_response r)
  Good node (answered req r p) = IsAnswerOf node req (map_tx_response r)

  abbrev pub IsReturn : Node E → Request × SendResult E → Type 0
  IsReturn node (req, result) = IsAnswerOf node req result

  abbrev pub Returned : Node E → Option (Request × SendResult E) → Type 0
  Returned node none = Unit
  Returned node (some r) = IsReturn node r

  abbrev pub responding : Stage E → ℕ
  responding (resting p) = 0
  responding (respond n r) = 1
  responding panicked = 0

  -- Requests and responses between the endpoint and the node.
  abbrev pub under_way : QueueState E → ℕ
  under_way s = length s.tx_req + responding s.stage + length s.tx_resp

  abbrev pub Next : Node E → QueueState E × Option (Request × SendResult E) → Type 0
  Next node (s, ret) =
      (sit : Situation E) × (rx : List (RxEvent E)) × (calls : ℕ) × (s ≡ state_at sit rx calls)
      × Good node sit
      × Returned node ret
