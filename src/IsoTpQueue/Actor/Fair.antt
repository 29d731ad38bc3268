-- ===== src/IsoTpQueue/Actor/Fair.antt =====
-- Requests to send do not keep the actor from receiving.
use thincan.Common.{
  ℕ, suc, ◌⊎◌, ◌+◌, ◌-◌, ◌≤◌, Bool, true, false, ◌≡◌, refl, sym, List, [], ◌∷◌, ◌++◌, length, ltb,
  if◌then◌else◌, ◌==◌, subst, arith, inl, inr, Bool-cases, Option-cases,
}
use thincan.IsoTpQueue.{
  ActorConfig, normalized_tx_burst_limit, TxRequest, RxEvent, recv_buffer_too_small, recv_backend,
}
use thincan.IsoTpQueue.Actor.{
  Polled, poll_timed_out, poll_delivered, poll_failed, Node, Phase, burst, poll, publish, State,
  Action, polled, Event, send_call, recv_call, actor_turn, is_filtered, after_poll, burst_turn,
  phase_turn, take_event, step, run,
}

abbrev pub turns : List Event → ℕ
turns [] = 0
turns (actor_turn ∷ events) = suc (turns events)
turns (recv_call ∷ events) = turns events
turns (send_call req ∷ events) = turns events

module _ {E : Type 0} where
  abbrev is_poll : Action E → Bool
  is_poll polled = true
  is_poll _ = false

  -- Whether the node has been polled.
  unfoldable pub has_polled : List (Action E) → Bool
  has_polled [] = false
  has_polled (a ∷ actions) = if is_poll a then true else has_polled actions

  has_polled-left : (a b : List (Action E)) → has_polled a ≡ true → has_polled (a ++ b) ≡ true
  unfolding has_polled
  has_polled-left [] b h = cc
  has_polled-left (x ∷ a) b h = elim (Bool-cases (is_poll x)) [
    | inl e ↦ rw (e, has_polled) refl
    | inr e ↦ rw (e, has_polled) (has_polled-left a b (rw (e, has_polled) at h))
  ]

  has_polled-right : (a b : List (Action E)) → has_polled b ≡ true → has_polled (a ++ b) ≡ true
  unfolding has_polled
  has_polled-right [] b h = h
  has_polled-right (x ∷ a) b h = elim (Bool-cases (is_poll x)) [
    | inl e ↦ rw (e, has_polled) refl
    | inr e ↦ rw (e, has_polled) (has_polled-right a b h)
  ]

  -- So many turns are enough to reach the poll and take it.
  abbrev Enough : ℕ → Phase E → ℕ → Type 0
  Enough limit (burst n) k = (limit - n) + 2 ≤ k
  Enough limit poll k = 1 ≤ k
  Enough limit (publish evt) k = ⊥

  polls : (cfg : ActorConfig) (answer : Polled E) → has_polled (after_poll cfg answer).1 ≡ true
  unfolding after_poll has_polled
  polls cfg poll_timed_out = refl
  polls cfg (poll_delivered from payload) =
      elim (Option-cases (is_filtered cfg.allowed_reply_from from)) [
        | inl e ↦ rw (e, after_poll) refl
        | inr (expected, e) ↦ rw (e, after_poll) refl
      ]
  polls cfg (poll_failed (recv_buffer_too_small needed got)) = refl
  polls cfg (poll_failed (recv_backend e)) = refl

  module _ (node : Node E) (cfg : ActorConfig) (tx_depth rx_depth : ℕ) where
    -- A turn polls, or leaves enough turns behind it.
    turn_nears :
        (p : Phase E) (tx : List TxRequest) (s : State E) (k : ℕ)
        → s.tx_req ≡ tx
        → Enough (normalized_tx_burst_limit cfg) p (suc k)
        → let (s', actions) = phase_turn node cfg rx_depth s p in
          (has_polled actions ≡ true) ⊎ Enough (normalized_tx_burst_limit cfg) s'.phase k
    turn_nears (publish evt) tx s k same h = absurd h
    turn_nears poll tx s k same h = inl (polls cfg (node.recv_one s.calls cfg.recv_poll_timeout))
    turn_nears (burst n) tx s k same h = elim (Bool-cases (ltb n (normalized_tx_burst_limit cfg))) [
      | inr e ↦ rw e (inr (omega arith))
      | inl e ↦ rw e (burst_nears n tx s k same e h)
    ]
      where
        less :
            (n limit k : ℕ) → ltb n limit ≡ true → (limit - n) + 2 ≤ suc k → (limit - suc n) + 2 ≤ k
        less n limit k e h = ground arith

        burst_nears :
            (n : ℕ) (tx : List TxRequest) (s : State E) (k : ℕ)
            → s.tx_req ≡ tx
            → ltb n (normalized_tx_burst_limit cfg) ≡ true
            → (normalized_tx_burst_limit cfg - n) + 2 ≤ suc k
            → let (s', actions) = burst_turn node n s s.tx_req in
              (has_polled actions ≡ true) ⊎ Enough (normalized_tx_burst_limit cfg) s'.phase k
        burst_nears n [] s k same e h = rw same (inr (omega arith))
        burst_nears n (req ∷ rest) s k same e h =
            rw same (inr (less n (normalized_tx_burst_limit cfg) k e h))

    send_call-phase :
        (req : TxRequest) (s : State E)
        → (step node cfg tx_depth rx_depth (send_call req) s).0.phase ≡ s.phase
    unfolding step
    send_call-phase req s = elim (Bool-cases (ltb (length s.tx_req) tx_depth)) [
      | inl e ↦ rw e refl
      | inr e ↦ rw e refl
    ]

    take_event-phase : (s : State E) (rx : List (RxEvent E)) → (take_event s rx).0.phase ≡ s.phase
    take_event-phase s [] = refl
    take_event-phase s (evt ∷ rx) = refl

    none_left : (p : Phase E) → Enough (normalized_tx_burst_limit cfg) p 0 → ⊥
    none_left (burst n) h = absurd (omega arith)
    none_left poll h = absurd (omega arith)
    none_left (publish evt) h = h

    pub reaches_poll :
        (events : List Event) (s : State E)
        → Enough (normalized_tx_burst_limit cfg) s.phase (turns events)
        → has_polled (run node cfg tx_depth rx_depth events s).1 ≡ true
    unfolding run step
    reaches_poll [] s h = absurd (none_left s.phase h)
    reaches_poll (send_call req ∷ events) s h =
        has_polled-right (step node cfg tx_depth rx_depth (send_call req) s).1 _ (
          reaches_poll events _ (
            subst (λ p. Enough (normalized_tx_burst_limit cfg) p (turns events))
              (sym (send_call-phase req s)) h))
    reaches_poll (recv_call ∷ events) s h = has_polled-right (take_event s s.rx_evt).1 _ (
        reaches_poll events _ (
          subst (λ p. Enough (normalized_tx_burst_limit cfg) p (turns events))
            (sym (take_event-phase s s.rx_evt)) h))
    reaches_poll (actor_turn ∷ events) s h =
        elim (turn_nears s.phase s.tx_req s (turns events) refl h) [
          | inl now ↦ has_polled-left (phase_turn node cfg rx_depth s s.phase).1 _ now
          | inr later ↦
              has_polled-right (phase_turn node cfg rx_depth s s.phase).1 _
                (reaches_poll events _ later)
        ]

from_start : (limit k : ℕ) → limit + 2 ≤ k → (limit - 0) + 2 ≤ k
from_start limit k h = omega arith

-- From the start of a burst, however many requests are queued or join the queue meanwhile: among two
-- turns of the actor more than its limit for a burst, which is at least one, there is a poll of the node.
pub run-has_polled :
    {E : Type 0} (node : Node E) (cfg : ActorConfig) (tx_depth rx_depth : ℕ) (events : List Event)
    (s : State E)
    → s.phase ≡ burst 0
    → normalized_tx_burst_limit cfg + 2 ≤ turns events
    → (has_polled (run node cfg tx_depth rx_depth events s).1 ≡ true)
      × (1 ≤ normalized_tx_burst_limit cfg)
unfolding normalized_tx_burst_limit
run-has_polled node cfg tx_depth rx_depth events s at h = (
  reaches_poll node cfg tx_depth rx_depth events s (rw at (from_start _ _ h)),
  elim (Bool-cases (cfg.tx_burst_limit == 0)) [ inl e ↦ rw e (omega arith) | inr e ↦ ground arith ],
)
