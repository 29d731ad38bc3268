-- ===== src/FileTransfer/Receive/Loop/Results.antt =====
-- What `recv_file` promises its caller, for every request, store, bus and sequence of chunks.
use thincan.Common.{
  ℕ, Result, ◌^◌, ◌<◌, ◌≡◌, refl, ap, ◌∙◌, true, false, List, length, Result-cases, inl, inr,
}
use thincan.FileTransfer.Messages.{FileReq, FileChunk}
use thincan.FileTransfer.Receive.{
  Op, World, Outcome, RecvFileResult, finished, failed, waiting, request, ChunkEvent, Transfer,
  check_request, LoopState, Step,
}
use thincan.FileTransfer.Receive.Negotiation.{IsAgreed, check_request-IsAgreed}
use thincan.FileTransfer.Receive.Loop.{chunk_step, recv_transfer, recv_request, recv_file}
use thincan.FileTransfer.Receive.Loop.Trace.{is_open, written, was_committed, IsLegal}
use thincan.FileTransfer.Receive.Loop.Integrity.{
  Inv, StepInv, EndsWell, chunk_step-StepInv, recv_transfer-EndsWell,
}

-- The request announces a length of 32 bits.
abbrev pub HasU32Len : FileReq → Type 0
HasU32Len req = req.total_len < 2 ^ 32

-- The end of a call, read against the request.
module _ (digest : List ℕ → List ℕ) (req : FileReq) where
  abbrev pub Promise : {E : Type 0} → List Op → Outcome E → Type 0
  Promise trace (finished r) =
      (is_open trace ≡ false)
      × (was_committed trace ≡ true)
      × (length (written trace) ≡ req.total_len)
      × (digest (written trace) ≡ req.file_hash)
      × (r.transfer_id ≡ req.transfer_id)
      × (r.total_len ≡ req.total_len)
      × (r.received_len ≡ req.total_len)
      × (r.file_hash ≡ req.file_hash)
      × (r.metadata ≡ req.file_metadata)
      × (r.sender_max_chunk_size ≡ req.sender_max_chunk_size)
      × IsLegal digest req.total_len req.file_hash trace
  Promise trace (failed e) =
      (is_open trace ≡ false) × IsLegal digest req.total_len req.file_hash trace
  Promise trace waiting =
      (was_committed trace ≡ false) × IsLegal digest req.total_len req.file_hash trace

module _ {E : Type 0} (w : World E) (digest : List ℕ → List ℕ) (max_chunk_size : ℕ) (req : FileReq)
    (events : List ChunkEvent) (u32 : HasU32Len req) where
  ends :
      (t : Transfer) (u : t.total_len < 2 ^ 32) (trace : List Op) (outcome : Outcome E)
      → t.total_len ≡ req.total_len
      → t.expected_hash ≡ req.file_hash
      → t.metadata ≡ req.file_metadata
      → t.transfer_id ≡ req.transfer_id
      → t.sender_max_chunk_size ≡ req.sender_max_chunk_size
      → EndsWell w digest t u trace outcome
      → Promise digest req trace outcome
  ends t u trace (finished r) l h m i s (legal, closed, done, long, same, res) = rw (← l) (
      rw (← h) (
        rw (← m) (
          closed,
          done,
          long,
          same,
          ap (λ (x : RecvFileResult). x.transfer_id) res ∙ i,
          ap (λ (x : RecvFileResult). x.total_len) res,
          ap (λ (x : RecvFileResult). x.received_len) res,
          ap (λ (x : RecvFileResult). x.file_hash) res,
          ap (λ (x : RecvFileResult). x.metadata) res,
          ap (λ (x : RecvFileResult). x.sender_max_chunk_size) res ∙ s,
          legal,
        )))
  ends t u trace (failed x) l h m i s (legal, closed) = rw (← l) (rw (← h) (closed, legal))
  ends t u trace waiting l h m i s (legal, opened, not_yet) = rw (← l) (rw (← h) (not_yet, legal))

  -- A transfer that was agreed on keeps the promise, with any round that keeps the invariant.
  pub recv_transfer-Promise :
      (step : Transfer → LoopState → Result FileChunk (Unit {0}) → Step E)
      → ((t : Transfer) (u : t.total_len < 2 ^ 32) (st : LoopState)
            (parsed : Result FileChunk (Unit {0}))
          → Inv w digest t u st
          → st.next_offset < t.total_len
          → StepInv w digest t u (step t st parsed))
      → (t : Transfer) → IsAgreed max_chunk_size req t
      → let r = recv_transfer w digest step t events in Promise digest req r.0 r.1
  recv_transfer-Promise step keeps t a =
      let u : t.total_len < 2 ^ 32 = rw a.same_len u32 in
      ends t u _ _ a.same_len a.same_hash a.same_metadata a.same_id a.same_sender_max
        (recv_transfer-EndsWell w digest t u step (keeps t u) events)

  -- For a request whose length has 32 bits, whatever arrives and whatever fails, a call of `recv_file`
  -- does only legal operations in a legal order. It returns success only when the store has committed
  -- as many bytes as announced, with the announced digest, and the result repeats the fields of the request: its
  -- transfer id, length, digest, metadata and `sender_max_chunk_size`. On
  -- failure it leaves no write handle open, and while it waits nothing is committed.
  pub recv_file-Promise :
      let r = recv_file w digest max_chunk_size (request req) events in Promise digest req r.0 r.1
  unfolding recv_file recv_request
  recv_file-Promise = elim (Result-cases (check_request max_chunk_size req)) [
    | inr (reason, bad) ↦ rw bad (refl, (refl, tt))
    | inl (t, agreed) ↦ rw agreed (
        recv_transfer-Promise (chunk_step w digest) (λ t u. chunk_step-StepInv w digest t u) t
          (check_request-IsAgreed max_chunk_size req t agreed))
  ]
