-- ===== src/IsoTpQueue.antt =====
-- iso-tp/can-isotp-queue/src/common.rs and the types of iso-tp/can-isotp-queue/src/tokio.rs: one task, the
-- actor, owns the ISO-TP node; endpoints reach it over a queue of requests and a queue of events.
pub mod Actor
pub mod Endpoint
pub mod Embassy
mod Tests
use thincan.Common.{ℕ, Bool, Option, none, List, Result, ok, err, if◌then◌else◌, ◌==◌}

pub data QueueIsoTpError (E : Type 0) : Type 0 where
  payload_too_large : (needed capacity : ℕ) → QueueIsoTpError E
  transport : E → QueueIsoTpError E
  channel_closed : QueueIsoTpError E

-- `SendError` of can-isotp-interface
pub data SendError (E : Type 0) : Type 0 where
  send_timeout : SendError E
  send_backend : E → SendError E

-- `RecvError` of can-isotp-interface
pub data RecvError (E : Type 0) : Type 0 where
  recv_buffer_too_small : (needed got : ℕ) → RecvError E
  recv_backend : E → RecvError E

pub record ActorConfig : Type 0 where
  pub recv_poll_timeout : ℕ
  pub tx_burst_limit : ℕ
  pub fixed_reply_to : Option ℕ
  pub allowed_reply_from : Option ℕ

unfoldable pub normalized_tx_burst_limit : ActorConfig → ℕ
normalized_tx_burst_limit cfg = if cfg.tx_burst_limit == 0 then 1 else cfg.tx_burst_limit

-- The oneshot channel of a request is named by a number.
pub record TxRequest : Type 0 where
  pub to : ℕ
  pub functional_to : Bool
  pub timeout : ℕ
  pub payload : List ℕ
  pub done : ℕ

pub data RxEvent (E : Type 0) : Type 0 where
  delivered : (from : ℕ) (payload : List ℕ) → RxEvent E
  buffer_too_small : (needed got : ℕ) → RxEvent E
  backend : E → RxEvent E

-- The result that a sender gets.
abbrev pub SendResult : Type 0 → Type 0
SendResult E = Result (Unit {0}) (SendError (QueueIsoTpError E))
