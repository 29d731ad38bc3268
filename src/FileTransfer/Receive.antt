-- ===== src/FileTransfer/Receive.antt =====
-- thincan-file-transfer/src/tokio_impl.rs: `recv_file_impl` and what it calls. What the world answers
-- is a parameter: whether a send succeeds, and what the store returns, each as a function of all that
-- was done before. The trace of what was done is kept newest first.
pub mod Loop
pub mod NoAlloc
mod Tests
pub mod Negotiation
use thincan.Common.{
  ℕ, zero, suc, ◌+◌, ◌-◌, ◌*◌, Bool, true, false, Option, none, some, List, [], ◌∷◌, ◌++◌, min,
  Result, ok, err, length, take, ltb, leb, ◌==◌, if◌then◌else◌,
}
use thincan.FileTransfer.Messages.{
  u32_max, as_u32, FileAckError, invalid_request, chunk_size_too_large, chunk_size_too_small,
  hash_missing, hash_invalid_length, hash_algo_unsupported, hash_mismatch, sha256, FileReq,
  FileChunk, FileAck, file_ack_accept, file_ack_progress, file_ack_reject, file_ack_abort,
  file_ack_complete,
}

-- What the receiver does. A `sent` may have failed; the store's operations say how they ended.
pub data Op : Type 0 where
  sent : FileAck → Op
  began begin_failed : (transfer_id total_len : ℕ) → Op
  wrote write_failed : (offset : ℕ) → List ℕ → Op
  committed commit_failed aborted : Op

-- The bus and the `AsyncFileStore`: the answer to the operation that would come next.
pub record World (E : Type 0) : Type 0 where
  pub send_ok : List Op → FileAck → Bool
  pub begin_write : List Op → ℕ → ℕ → Result (Unit {0}) E
  pub write_at : List Op → ℕ → List ℕ → Result (Unit {0}) E
  pub commit : List Op → Result (Unit {0}) E

pub data Error (E : Type 0) : Type 0 where
  store : E → Error E
  protocol : Error E
  capnp : Error E

pub record RecvFileResult : Type 0 where
  pub transfer_id : ℕ
  pub total_len : ℕ
  pub received_len : ℕ
  pub sender_max_chunk_size : ℕ
  pub negotiated_chunk_size : ℕ
  pub metadata : List ℕ
  pub file_hash : List ℕ

-- How a call ends, or that it still waits for a message.
pub data Outcome (E : Type 0) : Type 0 where
  finished : RecvFileResult → Outcome E
  failed : Error E → Outcome E
  waiting : Outcome E

-- The first message, as `recv_next_from` and the parser return it.
pub data Request : Type 0 where
  no_request : Request
  bad_request : Request
  request : FileReq → Request

-- What `wait_for_transfer_chunk` meets: its timeout, a failed receive, a body whose id cannot be read,
-- or a body with this id and what the parser makes of it later.
pub data ChunkEvent : Type 0 where
  timed_out recv_failed unreadable : ChunkEvent
  arrived : (transfer_id : ℕ) → Result FileChunk (Unit {0}) → ChunkEvent

-- One round of `wait_for_transfer_chunk`: `none` waits on.
unfoldable pub wait_for_transfer_chunk :
    ℕ → ChunkEvent → Option (Result (Result FileChunk (Unit {0})) (Unit {0}))
wait_for_transfer_chunk transfer_id timed_out = some (err tt)
wait_for_transfer_chunk transfer_id recv_failed = some (err tt)
wait_for_transfer_chunk transfer_id unreadable = some (err tt)
wait_for_transfer_chunk transfer_id (arrived id parsed) =
    if id == transfer_id then some (ok parsed) else none

abbrev pub sha256_hash_len : ℕ
sha256_hash_len = 32

pub validate_sha256_file_hash : List ℕ → Result (List ℕ) FileAckError
validate_sha256_file_hash [] = err hash_missing
validate_sha256_file_hash (b ∷ hash) =
    if length (b ∷ hash) == sha256_hash_len then ok (b ∷ hash) else err hash_invalid_length

unfoldable pub negotiated_chunk_size : ℕ → ℕ → ℕ
negotiated_chunk_size zero s = s
negotiated_chunk_size (suc r) zero = suc r
negotiated_chunk_size (suc r) (suc s) = min (suc r) (suc s)

-- An accepted request.
pub record Transfer : Type 0 where
  pub transfer_id : ℕ
  pub total_len : ℕ
  pub sender_max_chunk_size : ℕ
  pub negotiated : ℕ
  pub metadata : List ℕ
  pub expected_hash : List ℕ

abbrev pub with_hash : ℕ → FileReq → Result (List ℕ) FileAckError → Result Transfer FileAckError
with_hash max_chunk_size req (err e) = err e
with_hash max_chunk_size req (ok hash) =
    let n = negotiated_chunk_size max_chunk_size req.sender_max_chunk_size in
    if n == 0
    then err chunk_size_too_small
    else ok (record {
      transfer_id = req.transfer_id;
      total_len = req.total_len;
      sender_max_chunk_size = req.sender_max_chunk_size;
      negotiated = n;
      metadata = req.file_metadata;
      expected_hash = hash;
    })

-- The checks on a request, in their order, and the reason of a rejection.
unfoldable pub check_request : ℕ → FileReq → Result Transfer FileAckError
unfolding validate_sha256_file_hash negotiated_chunk_size
check_request max_chunk_size req = elim req.file_hash_algo [
  | err _ ↦ err hash_algo_unsupported
  | ok sha256 ↦ with_hash max_chunk_size req (validate_sha256_file_hash req.file_hash)
]

-- The variables of the receive loop; `hashed` is what the hasher was given so far.
pub record LoopState : Type 0 where
  pub next_offset : ℕ
  pub last_progress_offset : ℕ
  pub hashed : List ℕ
  pub trace : List Op

-- A round of the loop goes on or ends the call.
pub data Step (E : Type 0) : Type 0 where
  next : LoopState → Step E
  stop : List Op → Outcome E → Step E

abbrev pub accepted_result : Transfer → ℕ → RecvFileResult
accepted_result t received = record {
  transfer_id = t.transfer_id;
  total_len = t.total_len;
  received_len = received;
  sender_max_chunk_size = t.sender_max_chunk_size;
  negotiated_chunk_size = t.negotiated;
  metadata = t.metadata;
  file_hash = t.expected_hash;
}
