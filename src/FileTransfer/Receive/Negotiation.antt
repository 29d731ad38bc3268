-- ===== src/FileTransfer/Receive/Negotiation.antt =====
-- What the checks on a request let through.
use thincan.Common.{
  ℕ, zero, suc, ◌≤◌, ◌<◌, ◌≡◌, refl, List, [], ◌∷◌, Result, ok, err, length, arith, Result-cases,
  inl, inr, ◌⊎◌,
}
use thincan.FileTransfer.Messages.{FileReq, FileAckError, sha256}
use thincan.FileTransfer.Receive.{
  Transfer, check_request, with_hash, validate_sha256_file_hash, negotiated_chunk_size,
}

-- A transfer carries the fields of its request, a digest of 32 bytes and a chunk size that neither side
-- has ruled out.
pub record IsAgreed (max_chunk_size : ℕ) (req : FileReq) (t : Transfer) : Type 0 where
  pub same_id : t.transfer_id ≡ req.transfer_id
  pub same_len : t.total_len ≡ req.total_len
  pub same_hash : t.expected_hash ≡ req.file_hash
  pub same_metadata : t.metadata ≡ req.file_metadata
  pub same_sender_max : t.sender_max_chunk_size ≡ req.sender_max_chunk_size
  pub hash_len : length req.file_hash ≡ 32
  pub some_size : 0 < t.negotiated
  pub sender_agrees : (req.sender_max_chunk_size ≡ 0) ⊎ (t.negotiated ≤ req.sender_max_chunk_size)
  pub receiver_agrees : (max_chunk_size ≡ 0) ⊎ (t.negotiated ≤ max_chunk_size)

pub negotiated_chunk_size_bounds :
    (r s : ℕ)
    → ((s ≡ 0) ⊎ (negotiated_chunk_size r s ≤ s)) × ((r ≡ 0) ⊎ (negotiated_chunk_size r s ≤ r))
unfolding negotiated_chunk_size
negotiated_chunk_size_bounds zero s = (inr (omega arith), inl refl)
negotiated_chunk_size_bounds (suc r) zero = (inl refl, inr (omega arith))
negotiated_chunk_size_bounds (suc r) (suc s) = (inr (omega arith), inr (omega arith))

validate_sha256_file_hash_ok :
    (hash out : List ℕ)
    → validate_sha256_file_hash hash ≡ ok out
    → (out ≡ hash) × (length hash ≡ 32)
unfolding validate_sha256_file_hash
validate_sha256_file_hash_ok [] out e = cc
validate_sha256_file_hash_ok (b ∷ hash) out e = ground arith

with_hash_ok :
    (max_chunk_size : ℕ) (req : FileReq) (t : Transfer) (r : Result (List ℕ) FileAckError)
    → r ≡ validate_sha256_file_hash req.file_hash
    → with_hash max_chunk_size req r ≡ ok t
    → IsAgreed max_chunk_size req t
with_hash_ok m req t (err x) v e = cc
with_hash_ok m req t (ok hash) v e = ground (
  arith,
  negotiated_chunk_size_bounds m req.sender_max_chunk_size,
  validate_sha256_file_hash_ok req.file_hash hash,
)

-- A request that passes the checks becomes a transfer with the request's own fields and its hash of 32
-- bytes. The chunk size is not zero, and it does not exceed the sender's bound nor the receiver's,
-- where a bound of zero means that this side has none.
pub check_request-IsAgreed :
    (max_chunk_size : ℕ) (req : FileReq) (t : Transfer)
    → check_request max_chunk_size req ≡ ok t
    → IsAgreed max_chunk_size req t
unfolding check_request
check_request-IsAgreed m req t e = elim (Result-cases req.file_hash_algo) [
  | inr (x, unknown) ↦ cc (rw unknown at e)
  | inl (sha256, known) ↦ with_hash_ok m req t _ refl (rw (known, check_request) at e)
]
