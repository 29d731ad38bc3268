-- ===== src/FileTransfer/Send/Loop/Timeouts.antt =====
-- Timeouts end a call of the sender.
use thincan.Common.{
  ℕ, zero, suc, ◌+◌, ◌^◌, ◌≤◌, ◌<◌, ◌≡◌, refl, ap, ◌∙◌, true, false, Bool, List, [], ◌∷◌, ◌++◌,
  Result, err, length, replicate, ltb, leb, ◌||◌, if◌then◌else◌, arith, Bool-cases, Option-cases,
  Result-cases, inl, inr,
}
use thincan.Protocol.Wire.{Error, timeout_error}
use thincan.FileTransfer.Send.{
  SendConfig, SendState, validate, is_timeout, AckEvent, timed_out, wait_for_transfer_ack,
}
use thincan.FileTransfer.Send.Loop.{
  SendOp, sent_chunk, offered, offer, chunk_at, has_room, SendOutcome, finished, failed, waiting,
  Window, Phase, offering, sending, Run, wait, stop, on_wait, fill, send_window, send_offer, run,
  send_validated, send_file_with_id,
}
use thincan.FileTransfer.Send.Loop.Invariant.{IsPhase, IsRun}
use thincan.FileTransfer.Send.Loop.Results.{send_offer-IsRun, on_wait-IsRun}

abbrev pub is_waiting : SendOutcome → Bool
is_waiting waiting = true
is_waiting (finished r) = false
is_waiting (failed e) = false

-- The retries that count where the call waits.
abbrev tries : Phase → ℕ
tries (offering n) = n
tries (sending c st) = st.retries

-- The call has ended, or waits after so many retries.
abbrev HasTries : ℕ → Run → Type 0
HasTries n (wait phase trace) = tries phase ≡ n
HasTries n (stop trace outcome) = is_waiting outcome ≡ false

HasTries-if :
    (n : ℕ) (b : Bool) (x y : Run) → HasTries n x → HasTries n y → HasTries n (if b then x else y)
HasTries-if n true x y hx hy = hx
HasTries-if n false x y hx hy = hy

module _ (send : List SendOp → SendOp → Result (Unit {0}) Error) (digest : List ℕ → List ℕ)
    (transfer_id : ℕ) (bytes : List ℕ) (config : SendConfig) where
  abbrev sent_one : ℕ → Window → Window
  sent_one c st = record {
    last_acked = st.last_acked;
    next_to_send =
        st.next_to_send
        + length (chunk_at send digest transfer_id bytes config c st.next_to_send).bytes;
    chunks_sent = st.chunks_sent + 1;
    retries = st.retries;
  }

  fill-HasTries :
      (fuel c : ℕ) (st : Window) (trace : List SendOp)
      → HasTries st.retries (fill send digest transfer_id bytes config fuel c st trace)
  unfolding fill
  fill-HasTries zero c st trace = refl
  fill-HasTries (suc fuel) c st trace =
      elim (Bool-cases (has_room send digest transfer_id bytes config c st)) [
        | inr full ↦ rw (full, fill) refl
        | inl room ↦
            let chunk = chunk_at send digest transfer_id bytes config c st.next_to_send in
            rw (room, fill)
              (elim (Result-cases (send trace (sent_chunk chunk))) [
                | inr (e, lost) ↦ rw lost refl
                | inl (_, went) ↦
                    rw went
                      (elim (Bool-cases (ltb (st.next_to_send + length chunk.bytes) (2 ^ 32))) [
                        | inl below ↦
                            rw below
                              (fill-HasTries fuel c (sent_one c st) (sent_chunk chunk ∷ trace))
                        | inr above ↦ rw above refl
                      ])
              ])
      ]

  send_window-HasTries :
      (c : ℕ) (st : Window) (trace : List SendOp)
      → HasTries st.retries (send_window send digest transfer_id bytes config c st trace)
  unfolding send_window
  send_window-HasTries c st trace =
      HasTries-if st.retries (ltb st.last_acked (length bytes)) _ _
        (fill-HasTries (length bytes) c st trace) refl

  send_offer-HasTries :
      (n : ℕ) (trace : List SendOp)
      → HasTries n (send_offer send digest transfer_id bytes config n trace)
  unfolding send_offer
  send_offer-HasTries n trace =
      let o : SendOp = offered (offer send digest transfer_id bytes config) in
      elim (Result-cases (send trace o)) [
        | inl (_, went) ↦ rw (went, send_offer) refl
        | inr (e, lost) ↦ rw (lost, send_offer) (HasTries-if n (is_timeout e) _ _ refl refl)
      ]

  -- A timeout counts.
  timeout-HasTries :
      (phase : Phase) (trace : List SendOp)
      → HasTries
          (tries phase + 1)
          (on_wait send digest transfer_id bytes config phase trace (err timeout_error))
  unfolding on_wait
  timeout-HasTries (offering n) trace =
      HasTries-if (n + 1) (ltb config.max_retries (n + 1)) _ _ refl
        (send_offer-HasTries (n + 1) trace)
  timeout-HasTries (sending c st) trace =
      HasTries-if (st.retries + 1) (ltb config.max_retries (st.retries + 1)) _ _ refl
        (send_window-HasTries c _ trace)

  run_stop :
      (events : List AckEvent) (trace : List SendOp) (outcome : SendOutcome)
      → run send digest transfer_id bytes config events (stop trace outcome) ≡ (trace, outcome)
  unfolding run
  run_stop [] trace outcome = refl
  run_stop (event ∷ events) trace outcome = refl

  module _ (u32 : length bytes < 2 ^ 32) where
    few_tries :
        (phase : Phase) (trace : List SendOp)
        → IsPhase send digest transfer_id bytes config phase trace
        → tries phase ≤ config.max_retries
    few_tries (offering n) trace (few, none_up, no_chunks, faithful) = few
    few_tries (sending c st) trace h = h.window.tries

    timeouts_end :
        (k n : ℕ) (r : Run)
        → IsRun send digest transfer_id bytes config r
        → HasTries n r
        → config.max_retries < n + k
        → is_waiting (run send digest transfer_id bytes config (replicate k timed_out) r).1 ≡ false
    unfolding run wait_for_transfer_ack
    timeouts_end k n (stop trace outcome) h e many =
        ap (λ (p : List SendOp × SendOutcome). is_waiting p.1)
          (run_stop (replicate k timed_out) trace outcome)
        ∙ e
    timeouts_end zero n (wait phase trace) h e many =
        absurd (omega (arith, few_tries phase trace h, e))
    timeouts_end (suc k) n (wait phase trace) h e many =
        timeouts_end k (tries phase + 1) _
          (on_wait-IsRun send digest transfer_id bytes config u32 phase trace (err timeout_error) h)
          (timeout-HasTries phase trace) (omega (arith, e))

    run_ends :
        (events : List AckEvent) (r : Run)
        → IsRun send digest transfer_id bytes config r
        → is_waiting
            (run send digest transfer_id bytes config
              (events ++ replicate (config.max_retries + 1) timed_out)
              r).1
          ≡ false
    unfolding run
    run_ends events (stop trace (finished r)) h =
        ap (λ (p : List SendOp × SendOutcome). is_waiting p.1)
          (run_stop (events ++ replicate (config.max_retries + 1) timed_out) trace (finished r))
    run_ends events (stop trace (failed e)) h =
        ap (λ (p : List SendOp × SendOutcome). is_waiting p.1)
          (run_stop (events ++ replicate (config.max_retries + 1) timed_out) trace (failed e))
    run_ends events (stop trace waiting) h = cc
    run_ends [] (wait phase trace) h =
        timeouts_end (config.max_retries + 1) (tries phase) (wait phase trace) h refl (omega arith)
    run_ends (event ∷ events) (wait phase trace) h =
        elim (Option-cases (wait_for_transfer_ack transfer_id event)) [
          | inl other ↦ rw (other, run) (run_ends events (wait phase trace) h)
          | inr (r, got) ↦
              rw (got, run)
                (run_ends events _
                  (on_wait-IsRun send digest transfer_id bytes config u32 phase trace r h))
        ]

  -- However a call has come to wait, one timeout more than `max_retries` in a row ends it: after them it
  -- has returned, with success or an error.
  pub send_file_with_id_ends :
      (state : SendState) (events : List AckEvent)
      → is_waiting
          ((send_file_with_id send digest transfer_id bytes config state
              (events ++ replicate (config.max_retries + 1) timed_out)).1
            ).1
        ≡ false
  unfolding send_file_with_id send_validated
  send_file_with_id_ends state events = elim (Result-cases (validate config)) [
    | inr (e, bad) ↦ rw (bad, send_file_with_id) refl
    | inl (_, fine) ↦
        rw (fine, send_file_with_id)
          (elim (Bool-cases
            (leb (2 ^ 32) (length bytes) || leb (2 ^ 32) config.sender_max_chunk_size)) [
              | inl large ↦ rw large refl
              | inr small ↦
                  let u32 : length bytes < 2 ^ 32 = ground arith in
                  rw small (
                    run_ends u32 events _ (
                      send_offer-IsRun send digest transfer_id bytes config u32 0 []
                        (omega arith, refl, refl, tt)))
            ])
  ]
