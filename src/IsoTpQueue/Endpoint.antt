-- ===== src/IsoTpQueue/Endpoint.antt =====
-- iso-tp/can-isotp-queue/src/tokio.rs: the endpoint, between its caller and the queues.
use thincan.Common.{ℕ, Bool, List, ◌++◌, Result, ok, err, length, drop, ltb, if◌then◌else◌}
use thincan.IsoTpQueue.{
  QueueIsoTpError, payload_too_large, transport, channel_closed, send_backend, RecvError,
  recv_buffer_too_small, recv_backend, TxRequest, RxEvent, delivered, buffer_too_small, backend,
  SendResult,
}

-- What becomes of a request: the actor has gone, before it takes the request or before it answers, or the
-- result that it gives.
pub data Reply (E : Type 0) : Type 0 where
  actor_gone : Reply E
  replied : SendResult E → Reply E

-- What a receiver waits for: an event, the end of the queue, or the timeout.
pub data Waited (E : Type 0) : Type 0 where
  event : RxEvent E → Waited E
  queue_closed wait_timed_out : Waited E

-- `RecvMetaIntoStatus` of can-isotp-interface
pub data RecvMetaIntoStatus : Type 0 where
  delivered_one : (reply_to len : ℕ) → RecvMetaIntoStatus
  timed_out : RecvMetaIntoStatus

-- `RecvStatus` of can-isotp-interface
pub data RecvStatus : Type 0 where
  status_delivered_one status_timed_out : RecvStatus

module _ {E : Type 0} where
  abbrev pub reply_result : Reply E → SendResult E
  reply_result actor_gone = err (send_backend channel_closed)
  reply_result (replied result) = result

  -- `send_to`, and `send_functional_to`, over what the actor does with the request.
  unfoldable pub send : (TxRequest → Reply E) → ℕ → Bool → ℕ → List ℕ → ℕ → ℕ → SendResult E
  send actor max_payload functional_to to payload timeout done =
      if ltb max_payload (length payload)
      then err (send_backend (payload_too_large (length payload) max_payload))
      else reply_result (
          actor (record {
            to = to;
            functional_to = functional_to;
            timeout = timeout;
            payload = payload;
            done = done;
          }))

  -- The status, and the buffer of the caller.
  unfoldable pub recv_one_into :
      Waited E → List ℕ → Result RecvMetaIntoStatus (RecvError (QueueIsoTpError E)) × List ℕ
  recv_one_into (event (delivered from payload)) out =
      if ltb (length out) (length payload)
      then (err (recv_buffer_too_small (length payload) (length out)), out)
      else (ok (delivered_one from (length payload)), payload ++ drop (length payload) out)
  recv_one_into (event (buffer_too_small needed got)) out =
      (err (recv_buffer_too_small needed got), out)
  recv_one_into (event (backend e)) out = (err (recv_backend (transport e)), out)
  recv_one_into queue_closed out = (err (recv_backend channel_closed), out)
  recv_one_into wait_timed_out out = (ok timed_out, out)

  -- With the callback of the caller.
  unfoldable pub recv_one :
      {Control : Type 0}
      → Waited E
      → (ℕ → List ℕ → Result Control (QueueIsoTpError E))
      → Result RecvStatus (RecvError (QueueIsoTpError E))
  recv_one (event (delivered from payload)) on_payload = elim (on_payload from payload) [
    | ok control ↦ ok status_delivered_one
    | err e ↦ err (recv_backend e)
  ]
  recv_one (event (buffer_too_small needed got)) on_payload = err (recv_buffer_too_small needed got)
  recv_one (event (backend e)) on_payload = err (recv_backend (transport e))
  recv_one queue_closed on_payload = err (recv_backend channel_closed)
  recv_one wait_timed_out on_payload = ok status_timed_out
