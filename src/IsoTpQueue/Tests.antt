-- ===== src/IsoTpQueue/Tests.antt =====
-- The theorems about the queue at concrete inputs.
mod EmbassyRuns
use thincan.Common.{
  ℕ, zero, suc, ◌+◌, ◌≤◌, ◌≡◌, refl, true, false, none, some, List, [], ◌∷◌, All, ok, err, arith,
}
use thincan.IsoTpQueue.{ActorConfig, normalized_tx_burst_limit, TxRequest, send_timeout}
use thincan.IsoTpQueue.Actor.{
  poll_delivered, Node, Event, send_call, recv_call, actor_turn, start, run,
}
use thincan.IsoTpQueue.Actor.Conserved.{Conserves, IsAnswer, run-Conserves}
use thincan.IsoTpQueue.Actor.Fair.{has_polled, run-has_polled}

-- A node whose first send times out, and that always has a message.
abbrev pub node : Node ℕ
node = record {
  send_to = λ calls to payload timeout. elim calls [ zero ↦ err send_timeout | suc n ↦ ok tt ];
  send_functional_to = λ calls to payload timeout. ok tt;
  recv_one = λ calls timeout. poll_delivered 17 (1 ∷ 2 ∷ []);
}

abbrev pub one_by_one : ActorConfig
one_by_one = record {
  recv_poll_timeout = 1;
  tx_burst_limit = 0;
  fixed_reply_to = some 119;
  allowed_reply_from = none;
}

abbrev request : ℕ → TxRequest
request done = record {
  to = 34;
  functional_to = false;
  timeout = 20;
  payload = 1 ∷ [];
  done = done;
}

abbrev some_events : List Event
some_events =
    send_call (request 1)
    ∷ send_call (request 2)
    ∷ actor_turn
    ∷ send_call (request 3)
    ∷ actor_turn
    ∷ actor_turn
    ∷ actor_turn
    ∷ recv_call
    ∷ []

run-Conserves_example :
    Conserves start (run node one_by_one 2 1 some_events start)
    × All (IsAnswer node) (run node one_by_one 2 1 some_events start).1
run-Conserves_example = run-Conserves node one_by_one 2 1 some_events start

enough : normalized_tx_burst_limit one_by_one + 2 ≤ 4
unfolding normalized_tx_burst_limit
enough = omega arith

run-has_polled_example :
    (has_polled (run node one_by_one 2 1 some_events start).1 ≡ true)
    × (1 ≤ normalized_tx_burst_limit one_by_one)
run-has_polled_example = run-has_polled node one_by_one 2 1 some_events start refl enough
