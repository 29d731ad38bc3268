-- ===== src/FileTransfer/Messages.antt =====
-- thincan-file-transfer/src/lib.rs and schema/file_transfer.capnp: the messages of the protocol as the
-- fields that the generated readers return and the value types hold. Numbers of 32 bits keep their
-- wrap-around.
use thincan.Common.{ℕ, ◌-◌, ◌%◌, ◌^◌, List, Result}

abbrev pub u32_max : ℕ
u32_max = 2 ^ 32 - 1

-- `x as u32`
abbrev pub as_u32 : ℕ → ℕ
as_u32 x = x % 2 ^ 32

pub data FileAckKind : Type 0 where
  accept ack reject complete abort : FileAckKind

pub data FileAckError : Type 0 where
  no_error invalid_request chunk_size_too_large chunk_size_too_small : FileAckError
  hash_missing hash_invalid_length hash_algo_unsupported hash_mismatch : FileAckError

pub data FileHashAlgo : Type 0 where
  sha256 : FileHashAlgo

-- A read of an enum that may hold a number outside the schema.
pub data NotInSchema : Type 0 where
  not_in_schema : NotInSchema

-- A `FileReq` body. An unreadable `Data` field reads as empty.
pub record FileReq : Type 0 where
  pub transfer_id : ℕ
  pub total_len : ℕ
  pub file_metadata : List ℕ
  pub sender_max_chunk_size : ℕ
  pub file_hash_algo : Result FileHashAlgo NotInSchema
  pub file_hash : List ℕ

pub record FileChunk : Type 0 where
  pub transfer_id : ℕ
  pub offset : ℕ
  pub bytes : List ℕ

-- `FileAckValue` on the way out, `Ack` on the way in.
pub record FileAck : Type 0 where
  pub transfer_id : ℕ
  pub kind : FileAckKind
  pub next_offset : ℕ
  pub chunk_size : ℕ
  pub error : FileAckError

abbrev pub file_ack_accept : ℕ → ℕ → FileAck
file_ack_accept transfer_id chunk_size = record {
  transfer_id = transfer_id;
  kind = accept;
  next_offset = 0;
  chunk_size = chunk_size;
  error = no_error;
}

abbrev pub file_ack_progress : ℕ → ℕ → FileAck
file_ack_progress transfer_id next_offset = record {
  transfer_id = transfer_id;
  kind = ack;
  next_offset = next_offset;
  chunk_size = 0;
  error = no_error;
}

abbrev pub file_ack_reject : ℕ → FileAckError → FileAck
file_ack_reject transfer_id error = record {
  transfer_id = transfer_id;
  kind = reject;
  next_offset = 0;
  chunk_size = 0;
  error = error;
}

-- The two acknowledgements that the receiver builds by `FileAckValue::new`.
abbrev pub file_ack_abort : ℕ → ℕ → FileAckError → FileAck
file_ack_abort transfer_id next_offset error = record {
  transfer_id = transfer_id;
  kind = abort;
  next_offset = next_offset;
  chunk_size = 0;
  error = error;
}

abbrev pub file_ack_complete : ℕ → ℕ → FileAck
file_ack_complete transfer_id next_offset = record {
  transfer_id = transfer_id;
  kind = complete;
  next_offset = next_offset;
  chunk_size = 0;
  error = no_error;
}
