-- ===== src/FileTransfer/Receive/Loop/Delivered.antt =====
-- A file that is offered and sent in order is received whole.
use thincan.Common.{ℕ, ◌^◌, ◌<◌, ◌≡◌, ◌∙◌, sym, List, ok, length, All}
use thincan.FileTransfer.Messages.{FileReq}
use thincan.FileTransfer.Receive.{
  World, finished, request, Transfer, check_request, accepted_result,
}
use thincan.FileTransfer.Receive.Negotiation.{check_request-IsAgreed}
use thincan.FileTransfer.Receive.Loop.{recv_request, recv_file}
use thincan.FileTransfer.Receive.Loop.Trace.{written}
use thincan.FileTransfer.Receive.Loop.Complete.{
  IsCalm, IsPart, whole, chunks, recv_transfer_complete,
}

-- With a bus that sends everything and a store that does not fail, a call whose request passes the checks
-- ends with success once the chunks of the file have arrived in order, for every way to cut the file into
-- parts of at least a byte and at most the agreed size, when sizes and length have 32 bits and the file
-- has the announced length and digest. The store has then taken the bytes of the file.
pub recv_file_delivers :
    {E : Type 0} (w : World E) (digest : List ℕ → List ℕ) (max_chunk_size : ℕ) (req : FileReq)
    (t : Transfer) (parts : List (List ℕ))
    → IsCalm w
    → check_request max_chunk_size req ≡ ok t
    → t.negotiated < 2 ^ 32
    → req.total_len < 2 ^ 32
    → All (IsPart t.negotiated) parts
    → length (whole parts) ≡ req.total_len
    → digest (whole parts) ≡ req.file_hash
    → let r = recv_file w digest max_chunk_size (request req) (chunks req.transfer_id 0 parts) in
      (r.1 ≡ finished (accepted_result t req.total_len)) × (written r.0 ≡ whole parts)
unfolding recv_file recv_request
recv_file_delivers w digest max_chunk_size req t parts calm checked size32 len32 cut long same =
    let a = check_request-IsAgreed max_chunk_size req t checked in
    rw checked (
      rw (← a.same_id) (
        rw (← a.same_len) (
          recv_transfer_complete w digest calm t size32 (rw a.same_len len32) parts cut
            (long ∙ sym a.same_len) (same ∙ sym a.same_hash))))
