-- ===== src/IsoTpQueue/Tests/EmbassyRuns.antt =====
-- Runs of the adapter over static channels: one where every call returns, and one where a call is dropped.
use thincan.Common.{ℕ, ◌≡◌, ◌≢◌, refl, false, List, [], ◌∷◌, err, All}
use thincan.IsoTpQueue.{send_timeout, normalized_tx_burst_limit}
use thincan.IsoTpQueue.Actor.{burst}
use thincan.IsoTpQueue.Embassy.{
  Request, resting, panicked, QueueEvent, call, caller_turn, cancel, actor_turn, queue_step,
  queue_run, new_resources,
}
use thincan.IsoTpQueue.Embassy.Situations.{IsReturn, under_way, owed}
use thincan.IsoTpQueue.Embassy.Rpc.{queue_run-IsReturn}
use thincan.IsoTpQueue.Tests.{node, one_by_one}

abbrev request_to : ℕ → Request
request_to to = record {
  to = to;
  is_functional = false;
  timeout = 20;
  len = 1;
  payload = 7 ∷ 0 ∷ [];
}

abbrev two_calls : List QueueEvent
two_calls =
    call (request_to 34)
    ∷ call (request_to 35)
    ∷ caller_turn
    ∷ actor_turn
    ∷ actor_turn
    ∷ caller_turn
    ∷ call (request_to 35)
    ∷ caller_turn
    ∷ []

queue_run-IsReturn_example :
    All (IsReturn node) (queue_run node one_by_one 1 1 1 two_calls new_resources).1
    × ((queue_run node one_by_one 1 1 1 two_calls new_resources).0.stage ≢ panicked)
    × (under_way (queue_run node one_by_one 1 1 1 two_calls new_resources).0
        ≡ owed (queue_run node one_by_one 1 1 1 two_calls new_resources).0.caller)
queue_run-IsReturn_example =
    queue_run-IsReturn node one_by_one 1 1 1 two_calls
      (tt, (tt, (tt, (tt, (tt, (tt, (tt, (tt, tt))))))))

-- The first call is dropped once its request is in the queue. The second finds no old response to throw
-- away, queues its own request, and returns the response to the first one, a timeout, before the node has
-- been asked for it.
abbrev dropped_call : List QueueEvent
dropped_call =
    call (request_to 34)
    ∷ caller_turn
    ∷ cancel
    ∷ call (request_to 35)
    ∷ actor_turn
    ∷ caller_turn
    ∷ actor_turn
    ∷ caller_turn
    ∷ []

stale_response : queue_run node one_by_one 1 1 1 dropped_call new_resources ≡ (
  record new_resources { tx_req = request_to 35 ∷ []; stage = resting (burst 1); calls = 1 },
  (request_to 35, err send_timeout) ∷ [],
)
unfolding queue_run queue_step normalized_tx_burst_limit
stale_response = refl
