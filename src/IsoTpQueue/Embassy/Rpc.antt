-- ===== src/IsoTpQueue/Embassy/Rpc.antt =====
-- While no call is dropped, every response reaches the caller whose request it answers.
use thincan.Common.{
  ℕ, suc, ◌⊎◌, ◌≡◌, ◌≢◌, refl, ap, ◌∙◌, Option, none, some, List, [], ◌∷◌, ◌++◌, All, length, take,
  drop, ltb, if◌then◌else◌, inl, inr, Bool-cases,
}
use thincan.IsoTpQueue.{ActorConfig, normalized_tx_burst_limit, RxEvent, SendResult}
use thincan.IsoTpQueue.Actor.{Node, Phase, burst, poll, publish}
use thincan.IsoTpQueue.Embassy.{
  Request, resting, panicked, QueueState, QueueEvent, call, caller_turn, cancel, actor_turn,
  recv_call, take_request, stage_turn, lock, go_on, queue_step, queue_run, add_return,
  new_resources,
}
use thincan.IsoTpQueue.Embassy.Situations.{
  NotCancelled, owed, state_at, Moves, Good, IsReturn, Returned, under_way, Next, Situation, quiet,
  asked, answering, answered, answer_back,
}

module _ {E : Type 0} where
  module _ (node : Node E) (cfg : ActorConfig) (req_depth resp_depth rx_depth : ℕ) where
    resting_turn :
        (s : QueueState E) (p : Phase E)
        → s.stage ≡ resting p
        → Moves s (stage_turn node cfg resp_depth rx_depth s (resting p))
          ⊎ ((n : ℕ) × (stage_turn node cfg resp_depth rx_depth s (resting p)
                ≡ take_request node n s s.tx_req))
    resting_turn s (burst n) at = elim (Bool-cases (ltb n (normalized_tx_burst_limit cfg))) [
      | inl e ↦ inr (n, rw e refl)
      | inr e ↦ inl (poll, s.rx_evt, s.calls, rw e refl)
    ]
    resting_turn s poll at = inl (_, s.rx_evt, _, refl)
    resting_turn s (publish evt) at = elim (Bool-cases (ltb (length s.rx_evt) rx_depth)) [
      | inl e ↦ inl (burst 0, s.rx_evt ++ (evt ∷ []), s.calls, rw e refl)
      | inr e ↦ inl (publish evt, s.rx_evt, s.calls, rw e (ap (λ st. record s { stage = st }) at))
    ]

    stage_turn-Next :
        (sit : Situation E) (rx : List (RxEvent E)) (calls : ℕ)
        → Good node sit
        → let s = state_at sit rx calls in
          Next node (stage_turn node cfg resp_depth rx_depth s s.stage, none)
    stage_turn-Next (quiet c p) rx calls good =
        elim (resting_turn (state_at (quiet c p) rx calls) p refl) [
          | inl (p', rx', calls', e) ↦ (quiet c p', rx', calls', e, tt, tt)
          | inr (n, e) ↦ (quiet c poll, rx, calls, e, tt, tt)
        ]
    stage_turn-Next (asked req p) rx calls good =
        elim (resting_turn (state_at (asked req p) rx calls) p refl) [
          | inl (p', rx', calls', e) ↦ (asked req p', rx', calls', e, tt, tt)
          | inr (n, e) ↦
              let (r, some_r, back) = answer_back (
                if req.is_functional
                then node.send_functional_to calls req.to (take req.len req.payload) req.timeout
                else node.send_to calls req.to (take req.len req.payload) req.timeout) in
              (answering req (suc n) r, rx, suc calls, e ∙ rw some_r refl, (calls, back), tt)
        ]
    stage_turn-Next (answering req n r) rx calls good = elim (Bool-cases (ltb 0 resp_depth)) [
      | inl e ↦ (answered req r (burst n), rx, calls, rw e refl, good, tt)
      | inr e ↦ (answering req n r, rx, calls, rw e refl, good, tt)
    ]
    stage_turn-Next (answered req r p) rx calls good =
        elim (resting_turn (state_at (answered req r p) rx calls) p refl) [
          | inl (p', rx', calls', e) ↦ (answered req r p', rx', calls', e, good, tt)
          | inr (n, e) ↦ (answered req r poll, rx, calls, e, good, tt)
        ]

    go_on-Next :
        (sit : Situation E) (rx : List (RxEvent E)) (calls : ℕ)
        → Good node sit
        → let s = state_at sit rx calls in Next node (go_on req_depth s s.caller)
    go_on-Next (quiet none p) rx calls good = (quiet none p, rx, calls, refl, tt, tt)
    go_on-Next (quiet (some req) p) rx calls good = elim (Bool-cases (ltb 0 req_depth)) [
      | inl e ↦ rw e (asked req p, rx, calls, refl, tt, tt)
      | inr e ↦ rw e (quiet (some req) p, rx, calls, refl, tt, tt)
    ]
    go_on-Next (asked req p) rx calls good = (asked req p, rx, calls, refl, tt, tt)
    go_on-Next (answering req n r) rx calls good = (answering req n r, rx, calls, refl, good, tt)
    go_on-Next (answered req r p) rx calls good = (quiet none p, rx, calls, refl, tt, good)

    lock-Next :
        (req : Request) (sit : Situation E) (rx : List (RxEvent E)) (calls : ℕ)
        → Good node sit
        → let s = state_at sit rx calls in Next node (lock req s s.caller, none)
    lock-Next req (quiet none p) rx calls good = (quiet (some req) p, rx, calls, refl, tt, tt)
    lock-Next req (quiet (some r) p) rx calls good = (quiet (some r) p, rx, calls, refl, tt, tt)
    lock-Next req (asked r p) rx calls good = (asked r p, rx, calls, refl, tt, tt)
    lock-Next req (answering r n x) rx calls good = (answering r n x, rx, calls, refl, good, tt)
    lock-Next req (answered r x p) rx calls good = (answered r x p, rx, calls, refl, good, tt)

    event_taken :
        (sit : Situation E) (rx : List (RxEvent E)) (calls : ℕ)
        → Good node sit
        → let s = state_at sit rx calls in Next node (record s { rx_evt = drop 1 s.rx_evt }, none)
    event_taken (quiet none p) rx calls good = (quiet none p, drop 1 rx, calls, refl, tt, tt)
    event_taken (quiet (some r) p) rx calls good =
        (quiet (some r) p, drop 1 rx, calls, refl, tt, tt)
    event_taken (asked r p) rx calls good = (asked r p, drop 1 rx, calls, refl, tt, tt)
    event_taken (answering r n x) rx calls good =
        (answering r n x, drop 1 rx, calls, refl, good, tt)
    event_taken (answered r x p) rx calls good = (answered r x p, drop 1 rx, calls, refl, good, tt)

    queue_step-Next :
        (e : QueueEvent) (sit : Situation E) (rx : List (RxEvent E)) (calls : ℕ)
        → NotCancelled e
        → Good node sit
        → Next node (queue_step node cfg req_depth resp_depth rx_depth e (state_at sit rx calls))
    unfolding queue_step
    queue_step-Next (call req) sit rx calls on good = lock-Next req sit rx calls good
    queue_step-Next caller_turn sit rx calls on good = go_on-Next sit rx calls good
    queue_step-Next cancel sit rx calls on good = absurd on
    queue_step-Next actor_turn sit rx calls on good = stage_turn-Next sit rx calls good
    queue_step-Next recv_call sit rx calls on good = event_taken sit rx calls good

    add_return-Returned :
        (ret : Option (Request × SendResult E)) (rest : List (Request × SendResult E))
        → Returned node ret
        → All (IsReturn node) rest
        → All (IsReturn node) (add_return ret rest)
    add_return-Returned none rest h hs = hs
    add_return-Returned (some r) rest h hs = (h, hs)

    one_under_way :
        (sit : Situation E) (rx : List (RxEvent E)) (calls : ℕ)
        → let s = state_at sit rx calls in under_way s ≡ owed s.caller
    one_under_way (quiet none p) rx calls = refl
    one_under_way (quiet (some req) p) rx calls = refl
    one_under_way (asked req p) rx calls = refl
    one_under_way (answering req n r) rx calls = refl
    one_under_way (answered req r p) rx calls = refl

    runs_on :
        (sit : Situation E) (rx : List (RxEvent E)) (calls : ℕ)
        → (state_at sit rx calls).stage ≢ panicked
    runs_on (quiet c p) rx calls = λ e. cc
    runs_on (asked req p) rx calls = λ e. cc
    runs_on (answering req n r) rx calls = λ e. cc
    runs_on (answered req r p) rx calls = λ e. cc

    run_from :
        (events : List QueueEvent) (sit : Situation E) (rx : List (RxEvent E)) (calls : ℕ)
        → All NotCancelled events
        → Good node sit
        → let (s', returned) =
            queue_run node cfg req_depth resp_depth rx_depth events (state_at sit rx calls) in
          All (IsReturn node) returned × (s'.stage ≢ panicked) × (under_way s' ≡ owed s'.caller)
    unfolding queue_run
    run_from [] sit rx calls on good = (tt, runs_on sit rx calls, one_under_way sit rx calls)
    run_from (e ∷ events) sit rx calls (on, ons) good =
        let (sit', rx', calls', same, good', ret) = queue_step-Next e sit rx calls on good in
        let (rest, alive, one) = run_from events sit' rx' calls' ons good' in
        rw same (add_return-Returned _ _ ret rest, alive, one)

-- Whatever the node answers, however deep the channels are and however the turns of the actor fall between
-- those of the endpoints, while no call is dropped before it returns: each call of `send_to` that returns
-- has the answer of the node to its own request, the actor reaches no `unreachable!`, and exactly one
-- request or response is under way while an endpoint awaits its response, and none otherwise.
pub queue_run-IsReturn :
    {E : Type 0} (node : Node E) (cfg : ActorConfig) (req_depth resp_depth rx_depth : ℕ)
    (events : List QueueEvent)
    → All NotCancelled events
    → let (s, returned) = queue_run node cfg req_depth resp_depth rx_depth events new_resources in
      All (IsReturn node) returned × (s.stage ≢ panicked) × (under_way s ≡ owed s.caller)
queue_run-IsReturn node cfg req_depth resp_depth rx_depth events on =
    run_from node cfg req_depth resp_depth rx_depth events (quiet none (burst 0)) [] 0 on tt
