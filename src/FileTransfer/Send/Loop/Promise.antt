-- ===== src/FileTransfer/Send/Loop/Promise.antt =====
-- What `send_file_with_id` promises its caller, and how a waiting sender treats acknowledgements.
use thincan.Common.{
  ℕ, ◌^◌, ◌≤◌, ◌<◌, ◌≡◌, List, [], ◌∷◌, refl, Result, ok, length, leb, ◌||◌, arith, Bool-cases,
  Option-cases, Result-cases, inl, inr,
}
use thincan.Protocol.Wire.{Error}
use thincan.FileTransfer.Messages.{FileAck, ack}
use thincan.FileTransfer.Send.{SendConfig, SendState, validate, AckEvent, wait_for_transfer_ack}
use thincan.FileTransfer.Send.Loop.{
  SendOp, SendOutcome, finished, failed, waiting, Window, Phase, offering, sending, Run, wait, stop,
  send_offer, on_wait, on_ack, cumulative, send_window, run, send_validated, send_file_with_id,
}
use thincan.FileTransfer.Send.Loop.Trace.{sent_up_to}
use thincan.FileTransfer.Send.Loop.Invariant.{Faithful, Ends, IsPhase, IsRun}
use thincan.FileTransfer.Send.Loop.Results.{send_offer-IsRun, on_wait-IsRun}

module _ (send : List SendOp → SendOp → Result (Unit {0}) Error) (digest : List ℕ → List ℕ)
    (transfer_id : ℕ) (bytes : List ℕ) (config : SendConfig) where
  -- What a call comes to: its first offer, and from each wait what it does with an acknowledgement, a
  -- timeout or another error.
  pub data IsReached : Run → Type 0 where
    started : {r : Run} → r ≡ send_offer send digest transfer_id bytes config 0 [] → IsReached r
    went_on :
        {r : Run} (phase : Phase) (trace : List SendOp) (got : Result FileAck Error)
        → IsReached (wait phase trace)
        → r ≡ on_wait send digest transfer_id bytes config phase trace got
        → IsReached r

  module _ (u32 : length bytes < 2 ^ 32) where
    phase-Faithful :
        (phase : Phase) (trace : List SendOp)
        → IsPhase send digest transfer_id bytes config phase trace
        → Faithful send digest transfer_id bytes config trace
    phase-Faithful (offering n) trace (tries, none_up, no_chunks, faithful) = faithful
    phase-Faithful (sending c st) trace h = h.window.faithful

    end-Ends :
        (trace : List SendOp) (outcome : SendOutcome)
        → IsRun send digest transfer_id bytes config (stop trace outcome)
        → Ends send digest transfer_id bytes config trace outcome
    end-Ends trace (finished r) h = h
    end-Ends trace (failed e) h = h
    end-Ends trace waiting h = cc

    run-Ends :
        (events : List AckEvent) (r : Run)
        → IsRun send digest transfer_id bytes config r
        → let e = run send digest transfer_id bytes config events r in
          Ends send digest transfer_id bytes config e.0 e.1
    unfolding run
    run-Ends [] (stop trace outcome) h = end-Ends trace outcome h
    run-Ends (event ∷ events) (stop trace outcome) h = end-Ends trace outcome h
    run-Ends [] (wait phase trace) h = phase-Faithful phase trace h
    run-Ends (event ∷ events) (wait phase trace) h =
        elim (Option-cases (wait_for_transfer_ack transfer_id event)) [
          | inl other ↦ rw (other, run) (run-Ends events (wait phase trace) h)
          | inr (r, got) ↦
              rw (got, run)
                (run-Ends events _
                  (on_wait-IsRun send digest transfer_id bytes config u32 phase trace r h))
        ]

    IsReached-IsRun : (r : Run) → IsReached r → IsRun send digest transfer_id bytes config r
    IsReached-IsRun r (started e) = rw e (
        send_offer-IsRun send digest transfer_id bytes config u32 0 []
          (omega arith, refl, refl, tt))
    IsReached-IsRun r (went_on phase trace got before e) = rw e (
        on_wait-IsRun send digest transfer_id bytes config u32 phase trace got
          (IsReached-IsRun (wait phase trace) before))

    -- However a sender has come to wait in its window, it takes every late acknowledgement. One that lies
    -- between the acknowledged offset and the end of what was ever sent, also before a timeout made the
    -- window start again, is no error: the sender goes on from it.
    pub on_wait_late :
        (c : ℕ) (st : Window) (trace : List SendOp) (a : FileAck)
        → IsReached (wait (sending c st) trace)
        → a.kind ≡ ack
        → st.last_acked ≤ a.next_offset
        → a.next_offset ≤ sent_up_to trace
        → on_wait send digest transfer_id bytes config (sending c st) trace (ok a)
          ≡ send_window send digest transfer_id bytes config c
              (record st { last_acked = a.next_offset })
              trace
    unfolding on_wait on_ack cumulative
    on_wait_late c st trace a reached kind low high =
        let h = IsReached-IsRun (wait (sending c st) trace) reached in
        let below = h.highest in let inside = h.window.inside in rw kind (ground arith)

  -- Whatever acknowledgements arrive and whatever fails, a call sends its one offer and parts of the file
  -- only, each with its offset, of at least one byte and at most `sender_max_chunk_size`. It returns
  -- success only when every byte of the file was sent, and reports the chunk size, which is within that
  -- bound and not zero, the number of chunks it sent, and retries within `max_retries`.
  pub send_file_with_id-Ends :
      (state : SendState) (events : List AckEvent)
      → let r = send_file_with_id send digest transfer_id bytes config state events in
        Ends send digest transfer_id bytes config (r.1).0 (r.1).1
  unfolding send_file_with_id send_validated
  send_file_with_id-Ends state events = elim (Result-cases (validate config)) [
    | inr (e, bad) ↦ rw (bad, send_file_with_id) tt
    | inl (_, fine) ↦
        rw (fine, send_file_with_id)
          (elim (Bool-cases
            (leb (2 ^ 32) (length bytes) || leb (2 ^ 32) config.sender_max_chunk_size)) [
              | inl large ↦ rw large tt
              | inr small ↦
                  let u32 : length bytes < 2 ^ 32 = ground arith in
                  rw small (
                    run-Ends u32 events _ (
                      send_offer-IsRun send digest transfer_id bytes config u32 0 []
                        (omega arith, refl, refl, tt)))
            ])
  ]
