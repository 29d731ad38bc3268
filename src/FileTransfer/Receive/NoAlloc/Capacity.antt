-- ===== src/FileTransfer/Receive/NoAlloc/Capacity.antt =====
-- The receiver without allocation keeps the promise of the other one, and within its capacities it is
-- the same receiver.
use thincan.Common.{
  ℕ, zero, suc, subst, some, ◌-◌, ◌^◌, ◌≤◌, ◌<◌, ◌≡◌, refl, ap, List, [], ◌∷◌, Result, ok, err, min,
  length, take, ltb, ◌==◌, ◌||◌, arith, All, Bool-cases, Option-cases, Result-cases, inl, inr,
  le→ltb, length-take,
}
use thincan.FileTransfer.Messages.{
  as_u32, file_ack_accept, sha256, FileAckError, FileReq, FileChunk,
}
use thincan.FileTransfer.Receive.{
  Op, sent, began, World, request, ChunkEvent, timed_out, recv_failed, unreadable, arrived,
  wait_for_transfer_chunk, negotiated_chunk_size, Transfer, check_request, with_hash, LoopState,
}
use thincan.FileTransfer.Receive.Negotiation.{check_request-IsAgreed}
use thincan.FileTransfer.Receive.Loop.{
  write_chunk, chunk_step, chunk_loop, loop_start, recv_transfer, recv_request, recv_file,
}
use thincan.FileTransfer.Receive.Loop.Integrity.{
  Step-cases, Inv, StepInv, StepInv-if, send_progress-StepInv, write_done-StepInv,
}
use thincan.FileTransfer.Receive.Loop.Results.{HasU32Len, Promise, recv_transfer-Promise}
use thincan.FileTransfer.Receive.NoAlloc.{
  check_request_no_alloc, write_chunk_no_alloc, chunk_step_no_alloc, recv_file_no_alloc,
}

check_request_no_alloc_ok :
    (max_metadata max_chunk_size : ℕ) (req : FileReq) (t : Transfer)
    → check_request_no_alloc max_metadata max_chunk_size req ≡ ok t
    → check_request max_chunk_size req ≡ ok t
unfolding check_request_no_alloc
check_request_no_alloc_ok m n req t e = ground arith

with_hash_negotiated :
    (max_chunk_size : ℕ) (req : FileReq) (t : Transfer) (r : Result (List ℕ) FileAckError)
    → with_hash max_chunk_size req r ≡ ok t
    → t.negotiated ≡ negotiated_chunk_size max_chunk_size req.sender_max_chunk_size
with_hash_negotiated n req t (err x) e = absurd cc
with_hash_negotiated n req t (ok hash) e = ground arith

negotiated_of :
    (max_chunk_size : ℕ) (req : FileReq) (t : Transfer)
    → check_request max_chunk_size req ≡ ok t
    → t.negotiated ≡ negotiated_chunk_size max_chunk_size req.sender_max_chunk_size
unfolding check_request
negotiated_of n req t e = elim (Result-cases req.file_hash_algo) [
  | inr (x, unknown) ↦ absurd (cc (rw unknown at e))
  | inl (sha256, known) ↦ with_hash_negotiated n req t _ (rw (known, check_request) at e)
]

-- A chunk that the transport can carry: its length has 32 bits.
abbrev IsCarriedChunk : Result FileChunk (Unit {0}) → Type 0
IsCarriedChunk (err _) = Unit {0}
IsCarriedChunk (ok chunk) = length chunk.bytes < 2 ^ 32

abbrev pub IsCarried : ChunkEvent → Type 0
IsCarried timed_out = Unit {0}
IsCarried recv_failed = Unit {0}
IsCarried unreadable = Unit {0}
IsCarried (arrived id parsed) = IsCarriedChunk parsed

waited_for :
    (id : ℕ) (event : ChunkEvent) (parsed : Result FileChunk (Unit {0}))
    → IsCarried event
    → wait_for_transfer_chunk id event ≡ some (ok parsed)
    → IsCarriedChunk parsed
unfolding wait_for_transfer_chunk
waited_for id timed_out parsed c e = cc
waited_for id recv_failed parsed c e = cc
waited_for id unreadable parsed c e = cc
waited_for id (arrived other body) parsed c e = elim (Bool-cases (other == id)) [
  | inl mine ↦ let same : body ≡ parsed = ground arith in subst IsCarriedChunk same c
  | inr his ↦ absurd (ground arith)
]

module _ {E : Type 0} (w : World E) (digest : List ℕ → List ℕ) (max_chunk : ℕ) where
  module _ (t : Transfer) (u32 : t.total_len < 2 ^ 32) where
    write_chunk_no_alloc-StepInv :
        (st : LoopState) (bytes : List ℕ) (copy_len : ℕ)
        → copy_len ≡ length bytes
        → Inv w digest t u32 st
        → st.next_offset < t.total_len
        → StepInv w digest t u32 (write_chunk_no_alloc w digest max_chunk t st bytes copy_len)
    unfolding write_chunk_no_alloc
    write_chunk_no_alloc-StepInv st bytes copy_len l v h =
        let n : ℕ = min copy_len (t.total_len - st.next_offset) in
        StepInv-if w digest t u32 (n == 0) _ _ (v, h)
          (write_done-StepInv w digest t u32 st (as_u32 n) (take n bytes) _ v
            (omega (arith, length-take n bytes)) (omega arith))

    chunk_step_no_alloc-StepInv :
        (st : LoopState) (parsed : Result FileChunk (Unit {0}))
        → Inv w digest t u32 st
        → st.next_offset < t.total_len
        → StepInv w digest t u32 (chunk_step_no_alloc w digest max_chunk t st parsed)
    unfolding chunk_step_no_alloc
    chunk_step_no_alloc-StepInv st (err _) v h = ground arith
    chunk_step_no_alloc-StepInv st (ok chunk) v h =
        let n : ℕ = min (length chunk.bytes) max_chunk in
        StepInv-if w digest t u32 (chunk.transfer_id == t.transfer_id) _ _
          (StepInv-if w digest t u32
            (ltb max_chunk (length chunk.bytes) || ltb t.negotiated (as_u32 (length chunk.bytes))) _
            _ (ground arith)
            (StepInv-if w digest t u32 (chunk.offset == st.next_offset) _ _
              (write_chunk_no_alloc-StepInv st (take n chunk.bytes) n
                (omega (arith, length-take n chunk.bytes)) v h)
              (send_progress-StepInv w digest t u32 st v h)))
          (ground arith)

  module _ (max_metadata max_chunk_size : ℕ) (req : FileReq) (events : List ChunkEvent) where
    -- For a request whose length has 32 bits, whatever the capacities are, whatever arrives and whatever
    -- fails, a call of `recv_file_no_alloc` does only legal operations in a legal order. It returns
    -- success only when the store has committed as many bytes as announced, with the announced digest,
    -- and the result repeats the request. On failure it leaves no write handle open, and while it waits
    -- nothing is committed.
    pub recv_file_no_alloc-Promise :
        HasU32Len req
        → let r =
            recv_file_no_alloc w digest max_chunk max_metadata max_chunk_size
              (request req)
              events in
          Promise digest req r.0 r.1
    unfolding recv_file_no_alloc recv_request
    recv_file_no_alloc-Promise u32 =
        elim (Result-cases (check_request_no_alloc max_metadata max_chunk_size req)) [
          | inr (reason, bad) ↦ rw bad (refl, (refl, tt))
          | inl (t, agreed) ↦ rw agreed (
              recv_transfer-Promise w digest max_chunk_size req events u32
                (chunk_step_no_alloc w digest max_chunk) chunk_step_no_alloc-StepInv t
                (check_request-IsAgreed max_chunk_size req t
                  (check_request_no_alloc_ok max_metadata max_chunk_size req t agreed)))
        ]

  take_all : (n : ℕ) (l : List ℕ) → length l ≤ n → take n l ≡ l
  take_all zero [] h = refl
  take_all zero (x ∷ l) h = absurd (omega arith)
  take_all (suc n) [] h = refl
  take_all (suc n) (x ∷ l) h = ap (λ l. x ∷ l) (take_all n l (omega arith))

  module _ (t : Transfer) (agreed : t.negotiated ≤ max_chunk) where
    write_chunk_same :
        (st : LoopState) (bytes : List ℕ)
        → length bytes < 2 ^ 32
        → length bytes ≤ max_chunk
        → let n = min (length bytes) max_chunk in
          write_chunk_no_alloc w digest max_chunk t st (take n bytes) n
          ≡ write_chunk w digest t st bytes
    unfolding write_chunk_no_alloc write_chunk
    write_chunk_same st bytes u h =
        let copied : min (length bytes) max_chunk ≡ length bytes = omega arith in
        let carried : as_u32 (length bytes) ≡ length bytes = omega arith in
        let again : as_u32 (min (length bytes) (t.total_len - st.next_offset))
            ≡ min (length bytes) (t.total_len - st.next_offset) =
          omega arith in
        rw copied (rw (take_all (length bytes) bytes (omega arith)) (rw again (rw carried refl)))

    chunk_step_same :
        (st : LoopState) (parsed : Result FileChunk (Unit {0}))
        → IsCarriedChunk parsed
        → chunk_step_no_alloc w digest max_chunk t st parsed ≡ chunk_step w digest t st parsed
    unfolding chunk_step_no_alloc chunk_step
    chunk_step_same st (err _) c = refl
    chunk_step_same st (ok chunk) c = elim (Bool-cases (ltb max_chunk (length chunk.bytes))) [
      | inl large ↦ ground arith
      | inr small ↦ rw small (rw (write_chunk_same st chunk.bytes c (ground arith)))
    ]

    chunk_loop_same :
        (events : List ChunkEvent) (st : LoopState)
        → All IsCarried events
        → chunk_loop w digest (chunk_step_no_alloc w digest max_chunk) t events st
          ≡ chunk_loop w digest (chunk_step w digest) t events st
    unfolding chunk_loop
    chunk_loop_same [] st c = refl
    chunk_loop_same (event ∷ events) st (c, cs) =
        elim (Option-cases (wait_for_transfer_chunk t.transfer_id event)) [
          | inl other ↦ rw (other, chunk_loop) (chunk_loop_same events st cs)
          | inr (err _, gone) ↦ rw (gone, chunk_loop) refl
          | inr (ok parsed, got) ↦
              rw (got, chunk_loop)
                (rw (chunk_step_same st parsed (waited_for t.transfer_id event parsed c got))
                  (elim (Step-cases (chunk_step w digest t st parsed)) [
                    | inl (st', on) ↦ rw on (rw (chunk_loop_same events st' cs) refl)
                    | inr (trace, outcome, off) ↦ rw off refl
                  ]))
        ]

    abbrev opened : List Op
    opened =
        sent (file_ack_accept t.transfer_id t.negotiated) ∷ began t.transfer_id t.total_len ∷ []

    recv_transfer_same :
        (events : List ChunkEvent)
        → All IsCarried events
        → recv_transfer w digest (chunk_step_no_alloc w digest max_chunk) t events
          ≡ recv_transfer w digest (chunk_step w digest) t events
    unfolding recv_transfer
    recv_transfer_same events c = elim (Result-cases (w.begin_write [] t.transfer_id t.total_len)) [
      | inr (e, broken) ↦ rw (broken, recv_transfer) refl
      | inl (_, begun) ↦
          rw (begun, recv_transfer)
            (rw (chunk_loop_same events (loop_start w digest opened) c) refl)
    ]

  module _ (max_metadata max_chunk_size : ℕ) (req : FileReq) (events : List ChunkEvent) where
    -- A request whose metadata and hash fit the arrays, with an agreed chunk size within the array for
    -- chunks, is handled by `recv_file_no_alloc` as by `recv_file`: both do the same operations in the
    -- same order and end alike, when the length of every chunk has 32 bits.
    pub recv_file_no_alloc-recv_file :
        length req.file_metadata ≤ max_metadata
        → length req.file_hash ≤ 32
        → negotiated_chunk_size max_chunk_size req.sender_max_chunk_size ≤ max_chunk
        → All IsCarried events
        → recv_file_no_alloc w digest max_chunk max_metadata max_chunk_size (request req) events
          ≡ recv_file w digest max_chunk_size (request req) events
    unfolding recv_file_no_alloc recv_file recv_request check_request_no_alloc
    recv_file_no_alloc-recv_file metadata hash size c = rw (le→ltb _ _ metadata) (
        rw (le→ltb _ _ hash) (elim (Result-cases (check_request max_chunk_size req)) [
          | inr (reason, bad) ↦ rw bad refl
          | inl (t, agreed) ↦
              rw agreed (
                recv_transfer_same t (rw (negotiated_of max_chunk_size req t agreed) size) events c)
        ]))
