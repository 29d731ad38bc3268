-- ===== src/FileTransfer/Send/Loop/Trace.antt =====
-- What a trace of the sender must look like, and what it has sent.
use thincan.Common.{
  ℕ, zero, suc, ◌+◌, ◌≤◌, ◌<◌, ◌≡◌, Bool, true, false, List, [], ◌∷◌, max, length, take, drop, ltb,
  leb, ◌&&◌, ◌||◌, arith, Bool-cases, inl, inr, ◌==◌,
}
use native.Mathlib.Nat.{add-suc, add-zero}
use thincan.FileTransfer.Messages.{FileReq, FileChunk}
use thincan.FileTransfer.Send.Loop.{SendOp, offered, sent_chunk}

-- A chunk is a part of the file, with its offset.
pub record IsSlice (transfer_id : ℕ) (bytes : List ℕ) (max_size : ℕ) (c : FileChunk) : Type 0 where
  pub same_id : c.transfer_id ≡ transfer_id
  pub some_bytes : 0 < length c.bytes
  pub bounded : length c.bytes ≤ max_size
  pub inside : c.offset + length c.bytes ≤ length bytes
  pub slice : c.bytes ≡ take (length c.bytes) (drop c.offset bytes)

-- Only this offer and parts of the file are sent.
abbrev pub IsFaithful : FileReq → List ℕ → List SendOp → Type 0
IsFaithful offer bytes [] = Unit {0}
IsFaithful offer bytes (offered req ∷ trace) = (req ≡ offer) × IsFaithful offer bytes trace
IsFaithful offer bytes (sent_chunk c ∷ trace) =
    IsSlice offer.transfer_id bytes offer.sender_max_chunk_size c × IsFaithful offer bytes trace

-- Whether the byte at an index was sent.
abbrev pub covers : List SendOp → ℕ → Bool
covers [] i = false
covers (offered _ ∷ trace) i = covers trace i
covers (sent_chunk c ∷ trace) i =
    (leb c.offset i && ltb i (c.offset + length c.bytes)) || covers trace i

-- The bytes below `n` were sent.
abbrev pub CoversBelow : List SendOp → ℕ → Type 0
CoversBelow trace zero = Unit {0}
CoversBelow trace (suc n) = (covers trace n ≡ true) × CoversBelow trace n

abbrev pub chunk_count : List SendOp → ℕ
chunk_count [] = 0
chunk_count (offered _ ∷ trace) = chunk_count trace
chunk_count (sent_chunk c ∷ trace) = chunk_count trace + 1

-- The offset behind the last byte that was ever sent.
abbrev pub sent_up_to : List SendOp → ℕ
sent_up_to [] = 0
sent_up_to (offered _ ∷ trace) = sent_up_to trace
sent_up_to (sent_chunk c ∷ trace) = max (c.offset + length c.bytes) (sent_up_to trace)

CoversBelow-sent_chunk :
    (c : FileChunk) (trace : List SendOp) (n : ℕ)
    → CoversBelow trace n
    → CoversBelow (sent_chunk c ∷ trace) n
CoversBelow-sent_chunk c trace zero h = tt
CoversBelow-sent_chunk c trace (suc n) (here, below) =
    (ground (arith, here), CoversBelow-sent_chunk c trace n below)

CoversBelow-step :
    (c : FileChunk) (trace : List SendOp) (k : ℕ)
    → CoversBelow trace c.offset
    → k ≤ length c.bytes
    → CoversBelow (sent_chunk c ∷ trace) (c.offset + k)
CoversBelow-step c trace zero h l =
    rw (add-zero c.offset) (CoversBelow-sent_chunk c trace c.offset h)
CoversBelow-step c trace (suc k) h l =
    rw (add-suc c.offset k) (ground arith, CoversBelow-step c trace k h (omega arith))

-- A chunk at the end of what was sent moves that end.
pub CoversBelow-next :
    (c : FileChunk) (trace : List SendOp)
    → CoversBelow trace c.offset
    → CoversBelow (sent_chunk c ∷ trace) (c.offset + length c.bytes)
CoversBelow-next c trace h = CoversBelow-step c trace (length c.bytes) h (omega arith)

pub CoversBelow-le :
    (trace : List SendOp) (m n : ℕ) → m ≤ n → CoversBelow trace n → CoversBelow trace m
CoversBelow-le trace zero n h c = tt
CoversBelow-le trace (suc m) zero h c = absurd (omega arith)
CoversBelow-le trace (suc m) (suc n) h (here, below) = elim (Bool-cases (m == n)) [
  | inl same ↦ let e : m ≡ n = ground arith in rw e (here, below)
  | inr less ↦ CoversBelow-le trace (suc m) n (ground arith) below
]
