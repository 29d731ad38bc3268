-- ===== src/FileTransfer/Receive/Loop.antt =====
-- thincan-file-transfer/src/tokio_impl.rs: `recv_file_impl`, from the accepted request to the end. The
-- digest is SHA-256, a parameter: the hasher is fed piece by piece and digests the pieces joined.
pub mod Trace
pub mod Integrity
pub mod Results
pub mod Complete
pub mod Delivered
use thincan.Common.{
  ℕ, zero, suc, ◌+◌, ◌-◌, ◌*◌, Bool, true, false, Option, none, some, List, [], ◌∷◌, ◌++◌, min,
  Result, ok, err, length, take, ltb, leb, ◌==◌, if◌then◌else◌,
}
use thincan.Common.Bytes.{bytes_eq}
use thincan.FileTransfer.Messages.{
  u32_max, as_u32, FileAckError, invalid_request, chunk_size_too_large, hash_mismatch, FileReq,
  FileChunk, FileAck, file_ack_accept, file_ack_progress, file_ack_reject, file_ack_abort,
  file_ack_complete,
}
use thincan.FileTransfer.Receive.{
  Op, sent, began, begin_failed, wrote, write_failed, committed, commit_failed, aborted, World,
  Error, store, protocol, capnp, Outcome, finished, failed, waiting, Request, no_request,
  bad_request, request, ChunkEvent, wait_for_transfer_chunk, Transfer, check_request, LoopState,
  Step, next, stop, accepted_result,
}

abbrev pub progress_ack_every_chunks : ℕ
progress_ack_every_chunks = 1

-- `saturating_add` and `saturating_mul` of `u32`
abbrev pub saturating_add : ℕ → ℕ → ℕ
saturating_add a b = min u32_max (a + b)

abbrev pub saturating_mul : ℕ → ℕ → ℕ
saturating_mul a b = min u32_max (a * b)

module _ {E : Type 0} (w : World E) (digest : List ℕ → List ℕ) where
  -- The store drops the file, and the sender is told why.
  abbrev pub abort_with : Transfer → List Op → ℕ → FileAckError → Error E → Step E
  abort_with t trace next_offset reason e =
      stop (sent (file_ack_abort t.transfer_id next_offset reason) ∷ aborted ∷ trace) (failed e)

  pub commit_file : Transfer → List Op → Result (Unit {0}) E → Step E
  commit_file t trace (err e) = stop (commit_failed ∷ trace) (failed (store e))
  commit_file t trace (ok _) =
      let complete = file_ack_complete t.transfer_id t.total_len in
      let trace' = sent complete ∷ committed ∷ trace in
      if w.send_ok (committed ∷ trace) complete
      then stop trace' (finished (accepted_result t t.total_len))
      else stop trace' (failed protocol)

  -- All bytes are there: `next_offset >= total_len`.
  pub finish : Transfer → LoopState → Step E
  unfolding commit_file
  finish t st =
      if bytes_eq (digest st.hashed) t.expected_hash
      then commit_file t st.trace (w.commit st.trace)
      else abort_with t st.trace t.total_len hash_mismatch protocol

  -- A progress acknowledgement, which ends the call if it cannot be sent.
  pub send_progress : Transfer → LoopState → Step E
  send_progress t st =
      let progress = file_ack_progress t.transfer_id st.next_offset in
      if w.send_ok st.trace progress
      then next
          (record st { last_progress_offset = st.next_offset; trace = sent progress ∷ st.trace })
      else stop (aborted ∷ sent progress ∷ st.trace) (failed protocol)

  pub after_write : Transfer → LoopState → Step E
  unfolding finish send_progress
  after_write t st =
      if leb t.total_len st.next_offset
      then finish t st
      else if leb (saturating_mul t.negotiated progress_ack_every_chunks)
          (st.next_offset - st.last_progress_offset)
      then send_progress t st
      else next st

  pub write_done : Transfer → LoopState → ℕ → List ℕ → Result (Unit {0}) E → Step E
  unfolding after_write
  write_done t st write_len part (err e) =
      stop (aborted ∷ write_failed st.next_offset part ∷ st.trace) (failed (store e))
  write_done t st write_len part (ok _) = after_write t (record st {
    next_offset = saturating_add st.next_offset write_len;
    hashed = st.hashed ++ part;
    trace = wrote st.next_offset part ∷ st.trace;
  })

  -- A chunk at the offset that is expected: what does not fit the file is cut off.
  unfoldable pub write_chunk : Transfer → LoopState → List ℕ → Step E
  unfolding write_done
  write_chunk t st bytes =
      let write_len = min (as_u32 (length bytes)) (t.total_len - st.next_offset) in
      let part = take write_len bytes in
      if write_len == 0
      then next st
      else write_done t st write_len part (w.write_at st.trace st.next_offset part)

  -- One chunk of this transfer, as the parser returns it.
  unfoldable pub chunk_step : Transfer → LoopState → Result FileChunk (Unit {0}) → Step E
  unfolding send_progress write_chunk
  chunk_step t st (err _) = abort_with t st.trace st.next_offset invalid_request capnp
  chunk_step t st (ok chunk) =
      if chunk.transfer_id == t.transfer_id
      then if ltb t.negotiated (as_u32 (length chunk.bytes))
        then abort_with t st.trace st.next_offset chunk_size_too_large protocol
        else if chunk.offset == st.next_offset
        then write_chunk t st chunk.bytes
        else send_progress t st
      else abort_with t st.trace st.next_offset invalid_request protocol

  -- The loop, over what `wait_for_transfer_chunk` meets. `step` is the round of a chunk.
  unfoldable pub chunk_loop :
      (Transfer → LoopState → Result FileChunk (Unit {0}) → Step E)
      → Transfer
      → List ChunkEvent
      → LoopState
      → List Op × Outcome E
  chunk_loop step t [] st = (st.trace, waiting)
  chunk_loop step t (event ∷ events) st = elim (wait_for_transfer_chunk t.transfer_id event) [
    | none ↦ chunk_loop step t events st
    | some (err _) ↦ (aborted ∷ st.trace, failed protocol)
    | some (ok parsed) ↦ elim (step t st parsed) [
      | stop trace outcome ↦ (trace, outcome)
      | next st' ↦
          let rest = chunk_loop step t events st' in
          if ltb st'.next_offset t.total_len then rest else (st'.trace, failed protocol)
    ]
  ]

  -- A file without bytes is committed at once.
  pub empty_file : Transfer → List Op → List Op × Outcome E
  empty_file t trace =
      if bytes_eq (digest []) t.expected_hash
      then elim (w.commit trace) [
        | err e ↦ (commit_failed ∷ trace, failed (store e))
        | ok _ ↦ (committed ∷ trace, finished (accepted_result t 0))
      ]
      else (sent (file_ack_abort t.transfer_id 0 hash_mismatch) ∷ aborted ∷ trace, failed protocol)

  abbrev pub loop_start : List Op → LoopState
  loop_start trace = record {
    next_offset = 0;
    last_progress_offset = 0;
    hashed = [];
    trace = trace;
  }

  -- From `begin_write` on.
  unfoldable pub recv_transfer :
      (Transfer → LoopState → Result FileChunk (Unit {0}) → Step E)
      → Transfer
      → List ChunkEvent
      → List Op × Outcome E
  unfolding chunk_loop empty_file
  recv_transfer step t events = elim (w.begin_write [] t.transfer_id t.total_len) [
    | err e ↦ (begin_failed t.transfer_id t.total_len ∷ [], failed (store e))
    | ok _ ↦
        let trace = began t.transfer_id t.total_len ∷ [] in
        let accept = file_ack_accept t.transfer_id t.negotiated in
        if w.send_ok trace accept
        then if t.total_len == 0
          then empty_file t (sent accept ∷ trace)
          else chunk_loop step t events (loop_start (sent accept ∷ trace))
        else (aborted ∷ sent accept ∷ trace, failed protocol)
  ]

  unfoldable pub recv_request :
      (Transfer → LoopState → Result FileChunk (Unit {0}) → Step E)
      → List ChunkEvent
      → ℕ
      → Result Transfer FileAckError
      → List Op × Outcome E
  unfolding recv_transfer
  recv_request step events id (err reason) =
      (sent (file_ack_reject id reason) ∷ [], failed protocol)
  recv_request step events id (ok t) = recv_transfer step t events

  -- `recv_file_impl`
  unfoldable pub recv_file : ℕ → Request → List ChunkEvent → List Op × Outcome E
  unfolding recv_request chunk_step
  recv_file max_chunk_size no_request events = ([], failed protocol)
  recv_file max_chunk_size bad_request events = ([], failed capnp)
  recv_file max_chunk_size (request req) events =
      recv_request chunk_step events req.transfer_id (check_request max_chunk_size req)
