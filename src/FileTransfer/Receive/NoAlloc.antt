-- ===== src/FileTransfer/Receive/NoAlloc.antt =====
-- thincan-file-transfer/src/tokio_impl.rs: `recv_file_no_alloc_impl`, the receiver that copies metadata,
-- hash and chunks into arrays. It differs from `recv_file_impl` in the checks of these capacities and in
-- the round of a chunk, and repeats the rest of its text.
pub mod Capacity
use thincan.Common.{
  ℕ, ◌-◌, List, [], Result, ok, err, min, length, take, ltb, ◌==◌, if◌then◌else◌, ◌||◌,
}
use thincan.FileTransfer.Messages.{
  as_u32, FileAckError, invalid_request, hash_invalid_length, chunk_size_too_large, FileReq,
  FileChunk,
}
use thincan.FileTransfer.Receive.{
  Op, World, protocol, capnp, Outcome, failed, Request, no_request, bad_request, request,
  ChunkEvent, Transfer, sha256_hash_len, check_request, LoopState, Step, next,
}
use thincan.FileTransfer.Receive.Loop.{abort_with, send_progress, write_done, recv_request}

-- The checks on a request, where `max_metadata` is the capacity for metadata.
pub check_request_no_alloc : ℕ → ℕ → FileReq → Result Transfer FileAckError
check_request_no_alloc max_metadata max_chunk_size req =
    if ltb max_metadata (length req.file_metadata)
    then err invalid_request
    else if ltb sha256_hash_len (length req.file_hash)
    then err hash_invalid_length
    else check_request max_chunk_size req

module _ {E : Type 0} (w : World E) (digest : List ℕ → List ℕ) (max_chunk : ℕ) where
  -- `chunk_data` is the part of the array that was copied.
  pub write_chunk_no_alloc : Transfer → LoopState → List ℕ → ℕ → Step E
  write_chunk_no_alloc t st chunk_data copy_len =
      let write_len = min copy_len (t.total_len - st.next_offset) in
      let part = take write_len chunk_data in
      if write_len == 0
      then next st
      else write_done w digest t st (as_u32 write_len) part
          (w.write_at st.trace st.next_offset part)

  pub chunk_step_no_alloc : Transfer → LoopState → Result FileChunk (Unit {0}) → Step E
  unfolding write_chunk_no_alloc
  chunk_step_no_alloc t st (err _) =
      abort_with w digest t st.trace st.next_offset invalid_request capnp
  chunk_step_no_alloc t st (ok chunk) =
      let data_len = length chunk.bytes in
      let copy_len = min data_len max_chunk in
      if chunk.transfer_id == t.transfer_id
      then if ltb max_chunk data_len || ltb t.negotiated (as_u32 data_len)
        then abort_with w digest t st.trace st.next_offset chunk_size_too_large protocol
        else if chunk.offset == st.next_offset
        then write_chunk_no_alloc t st (take copy_len chunk.bytes) copy_len
        else send_progress w digest t st
      else abort_with w digest t st.trace st.next_offset invalid_request protocol

  -- `recv_file_no_alloc_impl`
  pub recv_file_no_alloc : ℕ → ℕ → Request → List ChunkEvent → List Op × Outcome E
  unfolding chunk_step_no_alloc check_request_no_alloc
  recv_file_no_alloc max_metadata max_chunk_size no_request events = ([], failed protocol)
  recv_file_no_alloc max_metadata max_chunk_size bad_request events = ([], failed capnp)
  recv_file_no_alloc max_metadata max_chunk_size (request req) events =
      recv_request w digest chunk_step_no_alloc events req.transfer_id
        (check_request_no_alloc max_metadata max_chunk_size req)
