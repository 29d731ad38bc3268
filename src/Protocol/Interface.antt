-- ===== src/Protocol/Interface.antt =====
-- thincan/src/lib.rs: the receive side of `Interface` and `BusHandle`. A lock is held for one step, so
-- a step is a function of the state that the locks guard. A `Watch` of embassy-sync is the number of
-- its `send` calls: a waiting receiver wakes when that number has changed.
pub mod Ingest
pub mod Receive
pub mod Delivery
use thincan.Common.{
  ℕ, ◌+◌, Bool, true, false, not, Option, none, some, List, [], ◌∷◌, Result, ok, err, map_err,
  length, get_or, set, take, replicate, map, ◌==◌, if◌then◌else◌,
}
use thincan.Protocol.Wire.{Error, other_error, RawMessage, decode_wire}
use thincan.Protocol.Maplet.{slot_for_id}
use thincan.Protocol.Mailbox.{
  IngestError, malformed_payload, unknown_id, MailboxSlot, TypeMailbox, new_mailbox, push,
  pop_matching_where,
}

pub record IngestOutcome : Type 0 where
  pub from : ℕ
  pub id : ℕ
  pub len : ℕ

-- `Received`: the sender, the id of the type and the body without its padding.
pub record Received : Type 0 where
  pub from : ℕ
  pub id : ℕ
  pub body : List ℕ

-- `recv_one_into` of the transport: what it reports, beside the receive buffer.
pub data RecvMetaIntoStatus : Type 0 where
  timed_out : RecvMetaIntoStatus
  delivered_one : (reply_to len : ℕ) → RecvMetaIntoStatus

pub data RecvError (E : Type 0) : Type 0 where
  buffer_too_small : (needed got : ℕ) → RecvError E
  backend : E → RecvError E

pub data IngestPumpStatus : Type 0 where
  pump_timed_out : IngestPumpStatus
  delivered : IngestOutcome → IngestPumpStatus

pub data IngestPumpError (E : Type 0) : Type 0 where
  recv_buffer_too_small : (needed got : ℕ) → IngestPumpError E
  recv_backend : E → IngestPumpError E
  ingest_failed : IngestError → IngestPumpError E

-- `rx_state` and `notify`
pub record RxState : Type 0 where
  pub by_type : List TypeMailbox
  pub notify : List ℕ

-- `Received::from_slot`, where a round found something.
abbrev pub received :
    ℕ → ℕ → RxState × Option MailboxSlot → RxState × Result (Option Received) Error
received from id (st, none) = (st, ok none)
received from id (st, some s) =
    (st, ok (some (record { from = from; id = id; body = take s.len s.body })))

-- `MESSAGE_IDS`, `MAX_BODY` and `DEPTH` of the interface.
module _ (ids : List ℕ) (max_body depth : ℕ) where
  unfoldable pub new_rx : RxState
  new_rx = record {
    by_type = replicate (length ids) (new_mailbox max_body depth);
    notify = replicate (length ids) 0;
  }

  abbrev pub mailbox : RxState → ℕ → TypeMailbox
  mailbox st slot = get_or st.by_type slot (new_mailbox max_body depth)

  abbrev pub notified : RxState → ℕ → ℕ
  notified st slot = get_or st.notify slot 0

  -- The block of `ingest` under the lock, then the wake-up.
  abbrev pub after_push :
      RxState
      → ℕ
      → IngestOutcome
      → TypeMailbox × Result (Unit {0}) IngestError
      → RxState × Result IngestOutcome IngestError
  after_push st slot outcome (m, err e) = (record st { by_type = set st.by_type slot m }, err e)
  after_push st slot outcome (m, ok _) = (
    record { by_type = set st.by_type slot m; notify = set st.notify slot (notified st slot + 1) },
    ok outcome,
  )

  pub ingest_body : RxState → ℕ → RawMessage → Option ℕ → RxState × Result IngestOutcome IngestError
  ingest_body st from raw none = (st, err (unknown_id raw.id))
  ingest_body st from raw (some slot) =
      after_push st slot (record { from = from; id = raw.id; len = length raw.body })
        (push max_body depth (mailbox st slot) from raw.body)

  abbrev pub ingest_raw :
      RxState → ℕ → Result RawMessage Error → RxState × Result IngestOutcome IngestError
  ingest_raw st from (err _) = (st, err malformed_payload)
  ingest_raw st from (ok raw) = ingest_body st from raw (slot_for_id ids raw.id)

  unfoldable pub ingest : RxState → ℕ → List ℕ → RxState × Result IngestOutcome IngestError
  unfolding ingest_body
  ingest st from payload = ingest_raw st from (decode_wire payload)

  abbrev pumped :
      {E : Type 0} → Result IngestOutcome IngestError → Result IngestPumpStatus (IngestPumpError E)
  pumped (ok outcome) = ok (delivered outcome)
  pumped (err e) = err (ingest_failed e)

  -- `pump_ingest_once`, with what the transport returned and the buffer that it filled.
  pub pump_ingest_once :
      {E : Type 0}
      → RxState
      → Result RecvMetaIntoStatus (RecvError E)
      → List ℕ
      → RxState × Result IngestPumpStatus (IngestPumpError E)
  pump_ingest_once st (ok timed_out) rx_buf = (st, ok pump_timed_out)
  pump_ingest_once st (ok (delivered_one reply_to len)) rx_buf =
      let (st', outcome) = ingest st reply_to (take len rx_buf) in (st', pumped outcome)
  pump_ingest_once st (err (buffer_too_small needed got)) rx_buf =
      (st, err (recv_buffer_too_small needed got))
  pump_ingest_once st (err (backend e)) rx_buf = (st, err (recv_backend e))

  -- One round of the loop of `__recv_next_capnp_from_where`, under the lock.
  unfoldable pub recv_poll : RxState → ℕ → ℕ → (List ℕ → Bool) → RxState × Option MailboxSlot
  recv_poll st slot from predicate =
      let (m, found) = pop_matching_where max_body (mailbox st slot) from predicate in
      (record st { by_type = set st.by_type slot m }, found)

  -- A receiver looks into its mailbox when it has been woken.
  pub recv_round : Bool → RxState → ℕ → ℕ → (List ℕ → Bool) → RxState × Option MailboxSlot
  recv_round woken st slot from predicate =
      if woken then recv_poll st slot from predicate else (st, none)

  -- The loop, while the payloads `arrivals` are ingested by other tasks. `woken` holds before the first
  -- round, and again once the slot's `Watch` has changed. `none` is a receiver that still waits.
  pub recv_loop :
      List (ℕ × List ℕ) → Bool → RxState → ℕ → ℕ → (List ℕ → Bool) → RxState × Option MailboxSlot
  recv_loop [] woken st slot from predicate = recv_round woken st slot from predicate
  recv_loop ((sender, payload) ∷ arrivals) woken st slot from predicate =
      let (st', found) = recv_round woken st slot from predicate in
      let next = (ingest st' sender payload).0 in
      let changed = not (notified next slot == notified st' slot) in
      elim found [
        | some s ↦ (st', some s)
        | none ↦ recv_loop arrivals changed next slot from predicate
      ]

  -- `__recv_next_capnp_from_where` for the message type with this id. `free_receiver` says whether the
  -- slot's `Watch` has a receiver left.
  unfoldable pub recv_next_capnp_from_where :
      ℕ
      → ℕ
      → (List ℕ → Bool)
      → Bool
      → List (ℕ × List ℕ)
      → RxState
      → RxState × Result (Option Received) Error
  unfolding recv_round recv_loop
  recv_next_capnp_from_where id from predicate free_receiver arrivals st =
      elim (slot_for_id ids id) [
        | none ↦ (st, err other_error)
        | some slot ↦
            if free_receiver
            then received from id (recv_loop arrivals true st slot from predicate)
            else (st, err other_error)
      ]
