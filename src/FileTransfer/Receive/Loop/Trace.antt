-- ===== src/FileTransfer/Receive/Loop/Trace.antt =====
-- What a trace of the receiver must look like.
use thincan.Common.{ℕ, ◌≡◌, Bool, true, false, List, [], ◌∷◌, ◌++◌, length}
use thincan.FileTransfer.Messages.{FileAck, FileAckKind, accept, ack, reject, complete, abort}
use thincan.FileTransfer.Receive.{
  Op, sent, began, begin_failed, wrote, write_failed, committed, commit_failed, aborted,
}

-- Whether the store holds an open write handle after a trace.
abbrev pub is_open : List Op → Bool
is_open [] = false
is_open (began _ _ ∷ trace) = true
is_open (begin_failed _ _ ∷ trace) = is_open trace
is_open (wrote _ _ ∷ trace) = is_open trace
is_open (write_failed _ _ ∷ trace) = is_open trace
is_open (sent _ ∷ trace) = is_open trace
is_open (committed ∷ trace) = false
is_open (commit_failed ∷ trace) = false
is_open (aborted ∷ trace) = false

-- The bytes that the store has taken, in order.
abbrev pub written : List Op → List ℕ
written [] = []
written (wrote _ bytes ∷ trace) = written trace ++ bytes
written (sent _ ∷ trace) = written trace
written (began _ _ ∷ trace) = written trace
written (begin_failed _ _ ∷ trace) = written trace
written (write_failed _ _ ∷ trace) = written trace
written (committed ∷ trace) = written trace
written (commit_failed ∷ trace) = written trace
written (aborted ∷ trace) = written trace

abbrev pub was_committed : List Op → Bool
was_committed [] = false
was_committed (committed ∷ trace) = true
was_committed (sent _ ∷ trace) = was_committed trace
was_committed (began _ _ ∷ trace) = was_committed trace
was_committed (begin_failed _ _ ∷ trace) = was_committed trace
was_committed (wrote _ _ ∷ trace) = was_committed trace
was_committed (write_failed _ _ ∷ trace) = was_committed trace
was_committed (commit_failed ∷ trace) = was_committed trace
was_committed (aborted ∷ trace) = was_committed trace

-- An acknowledgement of progress tells what the store has taken, and one of completion stands behind a
-- commit.
abbrev IsTruthfulKind : FileAckKind → ℕ → List Op → Type 0
IsTruthfulKind ack offset trace = offset ≡ length (written trace)
IsTruthfulKind complete offset trace =
    (was_committed trace ≡ true) × (offset ≡ length (written trace))
IsTruthfulKind accept offset trace = is_open trace ≡ true
IsTruthfulKind reject offset trace = trace ≡ []
IsTruthfulKind abort offset trace = was_committed trace ≡ false

abbrev IsTruthful : FileAck → List Op → Type 0
IsTruthful a trace = IsTruthfulKind a.kind a.next_offset trace

module _ (digest : List ℕ → List ℕ) (total_len : ℕ) (expected : List ℕ) where
  -- Each operation is one that the protocol and the store allow at its point: the handle is opened once
  -- and used only while it is open, the writes follow one another without a gap, a file is committed
  -- only whole and with the digest that was announced, and acknowledgements are true.
  abbrev pub IsLegal : List Op → Type 0
  IsLegal [] = Unit {0}
  IsLegal (sent a ∷ trace) = IsTruthful a trace × IsLegal trace
  IsLegal (began _ n ∷ trace) = (trace ≡ []) × (n ≡ total_len) × IsLegal trace
  IsLegal (begin_failed _ n ∷ trace) = (trace ≡ []) × (n ≡ total_len) × IsLegal trace
  IsLegal (wrote offset bytes ∷ trace) =
      (is_open trace ≡ true) × (offset ≡ length (written trace)) × IsLegal trace
  IsLegal (write_failed offset bytes ∷ trace) =
      (is_open trace ≡ true) × (offset ≡ length (written trace)) × IsLegal trace
  IsLegal (committed ∷ trace) =
      (is_open trace ≡ true)
      × (length (written trace) ≡ total_len)
      × (digest (written trace) ≡ expected)
      × IsLegal trace
  IsLegal (commit_failed ∷ trace) = (is_open trace ≡ true) × IsLegal trace
  IsLegal (aborted ∷ trace) = (is_open trace ≡ true) × IsLegal trace
