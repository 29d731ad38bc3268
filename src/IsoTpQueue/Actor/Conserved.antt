-- ===== src/IsoTpQueue/Actor/Conserved.antt =====
-- Requests are sent in the order in which they came, events are taken in the order in which the node gave
-- them, and none is lost or doubled.
use thincan.Common.{
  ℕ, suc, ◌≡◌, refl, sym, ap, ◌∙◌, List, [], ◌∷◌, ◌++◌, length, ltb, inl, inr, Bool-cases,
  Option-cases, append-nil, append_assoc, All, All-append,
}
use thincan.IsoTpQueue.{
  ActorConfig, normalized_tx_burst_limit, TxRequest, RxEvent, recv_buffer_too_small, recv_backend,
}
use thincan.IsoTpQueue.Actor.{
  Polled, poll_timed_out, poll_delivered, poll_failed, Node, Phase, burst, poll, publish, State,
  Action, queued, sent, produced, received, Event, send_call, recv_call, actor_turn, is_filtered,
  mapped, node_send, after_poll, burst_turn, phase_turn, take_event, step, run,
}

module _ {E : Type 0} where
  abbrev pub collect : {X : Type 0} → (Action E → List X) → List (Action E) → List X
  collect f [] = []
  collect f (a ∷ actions) = f a ++ collect f actions

  collect-append :
      {X : Type 0} (f : Action E → List X) (a b : List (Action E))
      → collect f (a ++ b) ≡ collect f a ++ collect f b
  collect-append f [] b = refl
  collect-append f (x ∷ a) b =
      ap (λ l. f x ++ l) (collect-append f a b)
      ∙ sym (append_assoc (f x) (collect f a) (collect f b))

  -- The requests that joined the queue, and those that the node was asked to send.
  abbrev pub queued_of : Action E → List TxRequest
  queued_of (queued req) = req ∷ []
  queued_of _ = []

  abbrev pub sent_of : Action E → List TxRequest
  sent_of (sent req result) = req ∷ []
  sent_of _ = []

  -- The events that the actor produced, and those that the endpoint took.
  abbrev pub produced_of : Action E → List (RxEvent E)
  produced_of (produced evt) = evt ∷ []
  produced_of _ = []

  abbrev pub received_of : Action E → List (RxEvent E)
  received_of (received evt) = evt ∷ []
  received_of _ = []

  -- The event that waits for room.
  abbrev pub waiting : Phase E → List (RxEvent E)
  waiting (burst n) = []
  waiting poll = []
  waiting (publish evt) = evt ∷ []

  -- What one state and a trace have together.
  abbrev pub Conserves : State E → State E × List (Action E) → Type 0
  Conserves s (s', actions) =
      (s.tx_req ++ collect queued_of actions ≡ collect sent_of actions ++ s'.tx_req)
      × ((s.rx_evt ++ waiting s.phase) ++ collect produced_of actions
          ≡ collect received_of actions ++ (s'.rx_evt ++ waiting s'.phase))

  none_waits :
      (rx more : List (RxEvent E)) (p : Phase E)
      → waiting p ≡ []
      → (rx ++ waiting p) ++ more ≡ rx ++ more
  none_waits rx more p e = rw e (ap (λ l. l ++ more) (append-nil rx))

  abbrev pub state_of : Phase E → List TxRequest → List (RxEvent E) → ℕ → State E
  state_of p tx rx calls = record { phase = p; tx_req = tx; rx_evt = rx; calls = calls }

  after_poll-Conserves :
      (cfg : ActorConfig) (answer : Polled E) (s : State E)
      → s.phase ≡ poll
      → let (next, actions) = after_poll cfg answer in
        Conserves s (record s { phase = next; calls = suc s.calls }, actions)
  unfolding after_poll
  after_poll-Conserves cfg poll_timed_out s at =
      (append-nil s.tx_req, none_waits s.rx_evt [] s.phase (ap waiting at))
  after_poll-Conserves cfg (poll_delivered from payload) s at =
      elim (Option-cases (is_filtered cfg.allowed_reply_from from)) [
        | inl e ↦
            rw (e, after_poll) (append-nil s.tx_req, none_waits s.rx_evt _ s.phase (ap waiting at))
        | inr (expected, e) ↦
            rw (e, after_poll) (append-nil s.tx_req, none_waits s.rx_evt [] s.phase (ap waiting at))
      ]
  after_poll-Conserves cfg (poll_failed (recv_buffer_too_small needed got)) s at =
      (append-nil s.tx_req, none_waits s.rx_evt _ s.phase (ap waiting at))
  after_poll-Conserves cfg (poll_failed (recv_backend e)) s at =
      (append-nil s.tx_req, none_waits s.rx_evt _ s.phase (ap waiting at))

  still : (s : State E) → Conserves s (s, [])
  still s = (append-nil s.tx_req, append-nil (s.rx_evt ++ waiting s.phase))

  -- Two runs of conservation in a row.
  chain :
      {X : Type 0} (f g : Action E → List X) (before between after : List X) (a b : List (Action E))
      → before ++ collect f a ≡ collect g a ++ between
      → between ++ collect f b ≡ collect g b ++ after
      → before ++ collect f (a ++ b) ≡ collect g (a ++ b) ++ after
  chain f g before between after a b first second =
      ap (λ l. before ++ l) (collect-append f a b)
      ∙ sym (append_assoc before (collect f a) (collect f b))
      ∙ ap (λ l. l ++ collect f b) first
      ∙ append_assoc (collect g a) between (collect f b)
      ∙ ap (λ l. collect g a ++ l) second
      ∙ sym (append_assoc (collect g a) (collect g b) after)
      ∙ ap (λ l. l ++ after) (sym (collect-append g a b))

  module _ (node : Node E) (cfg : ActorConfig) (tx_depth rx_depth : ℕ) where
    burst_turn-Conserves :
        (n : ℕ) (tx : List TxRequest) (rx : List (RxEvent E)) (calls : ℕ)
        → let s = state_of (burst n) tx rx calls in Conserves s (burst_turn node n s tx)
    burst_turn-Conserves n [] rx calls = (refl, append-nil (rx ++ []))
    burst_turn-Conserves n (req ∷ rest) rx calls = (append-nil (req ∷ rest), append-nil (rx ++ []))

    phase_turn-Conserves :
        (p : Phase E) (tx : List TxRequest) (rx : List (RxEvent E)) (calls : ℕ)
        → let s = state_of p tx rx calls in Conserves s (phase_turn node cfg rx_depth s p)
    phase_turn-Conserves (burst n) tx rx calls =
        elim (Bool-cases (ltb n (normalized_tx_burst_limit cfg))) [
          | inl e ↦ rw e (burst_turn-Conserves n tx rx calls)
          | inr e ↦ rw e (append-nil tx, append-nil (rx ++ []))
        ]
    phase_turn-Conserves poll tx rx calls =
        after_poll-Conserves cfg (node.recv_one calls cfg.recv_poll_timeout)
          (state_of poll tx rx calls) refl
    phase_turn-Conserves (publish evt) tx rx calls = elim (Bool-cases (ltb (length rx) rx_depth)) [
      | inl e ↦
          rw e (append-nil tx, append-nil (rx ++ (evt ∷ [])) ∙ sym (append-nil (rx ++ (evt ∷ []))))
      | inr e ↦ rw e (append-nil tx, append-nil (rx ++ (evt ∷ [])))
    ]

    take_event-Conserves :
        (p : Phase E) (tx : List TxRequest) (rx : List (RxEvent E)) (calls : ℕ)
        → let s = state_of p tx rx calls in Conserves s (take_event s rx)
    take_event-Conserves p tx [] calls = (append-nil tx, append-nil (waiting p))
    take_event-Conserves p tx (evt ∷ rx) calls =
        (append-nil tx, append-nil (evt ∷ (rx ++ waiting p)))

    step-Conserves : (e : Event) (s : State E) → Conserves s (step node cfg tx_depth rx_depth e s)
    unfolding step
    step-Conserves (send_call req) s = elim (Bool-cases (ltb (length s.tx_req) tx_depth)) [
      | inl e ↦ rw e (refl, append-nil (s.rx_evt ++ waiting s.phase))
      | inr e ↦ rw e (still s)
    ]
    step-Conserves recv_call s = take_event-Conserves s.phase s.tx_req s.rx_evt s.calls
    step-Conserves actor_turn s = phase_turn-Conserves s.phase s.tx_req s.rx_evt s.calls

module _ {E : Type 0} (node : Node E) where
  -- The result that a sender gets is the answer of the node to its request.
  abbrev pub IsAnswer : Action E → Type 0
  IsAnswer (sent req result) = (calls : ℕ) × (result ≡ mapped (node_send node calls req))
  IsAnswer _ = Unit

  poll_answers : (cfg : ActorConfig) (answer : Polled E) → All IsAnswer (after_poll cfg answer).1
  unfolding after_poll
  poll_answers cfg poll_timed_out = (tt, tt)
  poll_answers cfg (poll_delivered from payload) =
      elim (Option-cases (is_filtered cfg.allowed_reply_from from)) [
        | inl e ↦ rw (e, after_poll) (tt, (tt, tt))
        | inr (expected, e) ↦ rw (e, after_poll) (tt, (tt, tt))
      ]
  poll_answers cfg (poll_failed (recv_buffer_too_small needed got)) = (tt, (tt, tt))
  poll_answers cfg (poll_failed (recv_backend e)) = (tt, (tt, tt))

  turn_answers :
      (cfg : ActorConfig) (rx_depth : ℕ) (s : State E) (p : Phase E)
      → All IsAnswer (phase_turn node cfg rx_depth s p).1
  turn_answers cfg rx_depth s (burst n) =
      elim (Bool-cases (ltb n (normalized_tx_burst_limit cfg))) [
        | inl e ↦ rw e (burst_answers n s.tx_req)
        | inr e ↦ rw e tt
      ]
    where
      burst_answers : (n : ℕ) (tx : List TxRequest) → All IsAnswer (burst_turn node n s tx).1
      burst_answers n [] = tt
      burst_answers n (req ∷ rest) = ((s.calls, refl), tt)
  turn_answers cfg rx_depth s poll = poll_answers cfg (node.recv_one s.calls cfg.recv_poll_timeout)
  turn_answers cfg rx_depth s (publish evt) = elim (Bool-cases (ltb (length s.rx_evt) rx_depth)) [
    | inl e ↦ rw e tt
    | inr e ↦ rw e tt
  ]

  take_answers : (s : State E) (rx : List (RxEvent E)) → All IsAnswer (take_event s rx).1
  take_answers s [] = tt
  take_answers s (evt ∷ rx) = (tt, tt)

  step_answers :
      (cfg : ActorConfig) (tx_depth rx_depth : ℕ) (e : Event) (s : State E)
      → All IsAnswer (step node cfg tx_depth rx_depth e s).1
  unfolding step
  step_answers cfg tx_depth rx_depth (send_call req) s =
      elim (Bool-cases (ltb (length s.tx_req) tx_depth)) [ inl e ↦ rw e (tt, tt) | inr e ↦ rw e tt ]
  step_answers cfg tx_depth rx_depth recv_call s = take_answers s s.rx_evt
  step_answers cfg tx_depth rx_depth actor_turn s = turn_answers cfg rx_depth s s.phase

-- Whatever the node answers and however the turns of the actor fall between the calls of the endpoints:
-- the requests that were in the queue and those that joined it are those that the node has been asked to
-- send, in the same order, and those in the queue now; the events that were on their way and those that
-- the actor produced are those that the endpoint has taken, in the same order, and those on their way; and
-- each sender got the answer of the node to its own request.
pub run-Conserves :
    {E : Type 0} (node : Node E) (cfg : ActorConfig) (tx_depth rx_depth : ℕ) (events : List Event)
    (s : State E)
    → Conserves s (run node cfg tx_depth rx_depth events s)
      × All (IsAnswer node) (run node cfg tx_depth rx_depth events s).1
unfolding run
run-Conserves node cfg tx_depth rx_depth [] s = (still s, tt)
run-Conserves node cfg tx_depth rx_depth (e ∷ events) s =
    let (s', actions) = step node cfg tx_depth rx_depth e s in
    let (s'', rest) = run node cfg tx_depth rx_depth events s' in
    let (tx, rx) = step-Conserves node cfg tx_depth rx_depth e s in
    let ((tx', rx'), answers) = run-Conserves node cfg tx_depth rx_depth events s' in
    (
      (
        chain queued_of sent_of s.tx_req s'.tx_req s''.tx_req actions rest tx tx',
        chain produced_of received_of (s.rx_evt ++ waiting s.phase) (s'.rx_evt ++ waiting s'.phase)
            (s''.rx_evt ++ waiting s''.phase) actions rest rx rx',
      ),
      All-append (IsAnswer node) actions rest (step_answers node cfg tx_depth rx_depth e s) answers,
    )
