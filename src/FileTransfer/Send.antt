-- ===== src/FileTransfer/Send.antt =====
-- thincan-file-transfer/src/tokio_impl.rs: the sender's configuration, its transfer ids, the decoding of
-- acknowledgements and the wait for one. The loops of the sender are in Send/Loop.
pub mod Ids
pub mod Loop
pub mod Window
use thincan.Common.{
  ℕ, ◌+◌, ◌-◌, ◌/◌, ◌%◌, ◌^◌, Bool, true, false, Option, none, some, List, Result, ok, err, ltb,
  leb, ◌==◌, if◌then◌else◌, ◌||◌,
}
use thincan.Protocol.Wire.{
  ErrorKind, timeout, buffer_too_small, other, Error, other_error, timeout_error,
}
use thincan.FileTransfer.Messages.{FileAckKind, FileAckError, NotInSchema, FileAck}

pub record SendConfig : Type 0 where
  pub sender_max_chunk_size : ℕ
  pub window_chunks : ℕ
  pub max_retries : ℕ

-- `DEFAULT_CHUNK_SIZE` and `SendConfig::default`
abbrev pub default_config : SendConfig
default_config = record { sender_max_chunk_size = 64; window_chunks = 4; max_retries = 5 }

pub validate : SendConfig → Result SendConfig Error
validate config =
    if config.sender_max_chunk_size == 0 || config.window_chunks == 0
    then err other_error
    else ok config

pub record SendState : Type 0 where
  pub next_transfer_id : ℕ

abbrev pub new_send_state : SendState
new_send_state = record { next_transfer_id = 1 }

-- `wrapping_add` of 1
abbrev pub wrapping_suc : ℕ → ℕ
wrapping_suc n = (n + 1) % 2 ^ 32

pub alloc_transfer_id : SendState → SendState × ℕ
alloc_transfer_id state =
    (record { next_transfer_id = wrapping_suc state.next_transfer_id }, state.next_transfer_id)

pub observe_transfer_id : SendState → ℕ → SendState
observe_transfer_id state transfer_id =
    if leb state.next_transfer_id transfer_id
    then record { next_transfer_id = wrapping_suc transfer_id }
    else state

-- `e.kind == ErrorKind::Timeout`
abbrev pub is_timeout_kind : ErrorKind → Bool
is_timeout_kind timeout = true
is_timeout_kind (buffer_too_small needed got) = false
is_timeout_kind other = false

abbrev pub is_timeout : Error → Bool
is_timeout e = is_timeout_kind e.kind

-- The fields of a `FileAck` body, as the generated reader returns them.
pub record AckBody : Type 0 where
  pub transfer_id : ℕ
  pub kind : Result FileAckKind NotInSchema
  pub next_offset : ℕ
  pub chunk_size : ℕ
  pub error : Result FileAckError NotInSchema

abbrev pub with_enums :
    AckBody
    → Result FileAckKind NotInSchema
    → Result FileAckError NotInSchema
    → Result FileAck Error
with_enums b (err _) error = err other_error
with_enums b (ok kind) (err _) = err other_error
with_enums b (ok kind) (ok error) = ok (record {
  transfer_id = b.transfer_id;
  kind = kind;
  next_offset = b.next_offset;
  chunk_size = b.chunk_size;
  error = error;
})

-- A body that has no root is an error of the reader.
pub decode_file_ack : Result AckBody (Unit {0}) → Result FileAck Error
decode_file_ack (err _) = err other_error
decode_file_ack (ok b) = with_enums b b.kind b.error

-- What `wait_for_transfer_ack` meets: its timeout, a failed receive, or the body of a `FileAck`.
pub data AckEvent : Type 0 where
  timed_out : AckEvent
  recv_failed : Error → AckEvent
  arrived : Result AckBody (Unit {0}) → AckEvent

abbrev pub of_transfer : ℕ → Result FileAck Error → Option (Result FileAck Error)
of_transfer transfer_id (err e) = some (err e)
of_transfer transfer_id (ok a) = if a.transfer_id == transfer_id then some (ok a) else none

-- One round of `wait_for_transfer_ack`: `none` waits on.
pub wait_for_transfer_ack : ℕ → AckEvent → Option (Result FileAck Error)
unfolding decode_file_ack
wait_for_transfer_ack transfer_id timed_out = some (err timeout_error)
wait_for_transfer_ack transfer_id (recv_failed e) = some (err e)
wait_for_transfer_ack transfer_id (arrived body) = of_transfer transfer_id (decode_file_ack body)

-- `div_ceil` of `usize`
abbrev pub div_ceil : ℕ → ℕ → ℕ
div_ceil n d = if n % d == 0 then n / d else n / d + 1

-- On a `usize` of at least 32 bits the conversion does not fail.
pub inflight_chunk_count : ℕ → ℕ → ℕ → ℕ
inflight_chunk_count last_acked next_to_send chunk_size =
    if leb next_to_send last_acked then 0 else div_ceil (next_to_send - last_acked) chunk_size
