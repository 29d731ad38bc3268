-- ===== src/FileTransfer/Receive/Loop/Complete.antt =====
-- A file that is sent in order is received: nothing but a failure keeps the receiver from its end.
use thincan.Common.{
  ==_refl, ℕ, ◌+◌, ◌-◌, ◌^◌, ◌≤◌, ◌<◌, ◌≡◌, some, refl, sym, ap, ◌∙◌, true, false, List, [], ◌∷◌,
  ◌++◌, append_assoc, append-nil, Result, ok, min, length, take, ltb, leb, ◌==◌, All, arith,
  Bool-cases, inl, inr, length-append, lt→ltb, le→ltb,
}
use thincan.Common.Bytes.{bytes_eq, bytes_eq_refl}
use thincan.FileTransfer.Messages.{
  as_u32, FileChunk, FileAck, file_ack_accept, file_ack_progress, file_ack_complete,
}
use thincan.FileTransfer.Receive.{
  Op, sent, began, wrote, committed, World, finished, ChunkEvent, arrived, wait_for_transfer_chunk,
  Transfer, LoopState, next, stop, accepted_result,
}
use thincan.FileTransfer.Receive.Loop.{
  saturating_add, saturating_mul, progress_ack_every_chunks, commit_file, finish, send_progress,
  after_write, write_done, write_chunk, chunk_step, chunk_loop, empty_file, loop_start,
  recv_transfer,
}
use thincan.FileTransfer.Receive.Loop.Trace.{written}

-- A bus that sends everything and a store that does not fail.
pub record IsCalm {E : Type 0} (w : World E) : Type 0 where
  pub sends : (trace : List Op) (a : FileAck) → w.send_ok trace a ≡ true
  pub begins : (trace : List Op) (id n : ℕ) → w.begin_write trace id n ≡ ok tt
  pub writes :
      (trace : List Op) (offset : ℕ) (bytes : List ℕ) → w.write_at trace offset bytes ≡ ok tt
  pub commits : (trace : List Op) → w.commit trace ≡ ok tt

-- The parts of a file in order, and the chunks that carry them.
abbrev pub whole : List (List ℕ) → List ℕ
whole [] = []
whole (part ∷ parts) = part ++ whole parts

abbrev pub chunks : ℕ → ℕ → List (List ℕ) → List ChunkEvent
chunks id offset [] = []
chunks id offset (part ∷ parts) =
    arrived id (ok (record { transfer_id = id; offset = offset; bytes = part }))
    ∷ chunks id (offset + length part) parts

abbrev pub IsPart : ℕ → List ℕ → Type 0
IsPart size part = (0 < length part) × (length part ≤ size)

take_whole : (l : List ℕ) → take (length l) l ≡ l
take_whole [] = refl
take_whole (x ∷ l) = ap (λ l. x ∷ l) (take_whole l)

empty : (l : List ℕ) → length l ≡ 0 → l ≡ []
empty [] e = refl
empty (x ∷ l) e = absurd (omega arith)

not_zero : (n : ℕ) → 0 < n → (n == 0) ≡ false
not_zero n h = ground arith

lt→leb : (m n : ℕ) → n < m → leb m n ≡ false
lt→leb m n h = ground arith

le→leb : (m n : ℕ) → m ≤ n → leb m n ≡ true
le→leb m n h = ground arith

module _ {E : Type 0} (w : World E) (digest : List ℕ → List ℕ) (calm : IsCalm w) (t : Transfer)
    (size32 : t.negotiated < 2 ^ 32) (len32 : t.total_len < 2 ^ 32) where
  -- These bytes were received.
  record Has (done : List ℕ) (st : LoopState) : Type 0 where
    pub offset : st.next_offset ≡ length done
    pub hashed_all : st.hashed ≡ done
    pub written_all : written st.trace ≡ done

  abbrev moved : LoopState → List ℕ → LoopState
  moved st part = record {
    next_offset = st.next_offset + length part;
    last_progress_offset = st.last_progress_offset;
    hashed = st.hashed ++ part;
    trace = wrote st.next_offset part ∷ st.trace;
  }

  chunk_step_part :
      (st : LoopState) (part : List ℕ)
      → IsPart t.negotiated part
      → st.next_offset + length part ≤ t.total_len
      → chunk_step w digest t st
          (ok (record { transfer_id = t.transfer_id; offset = st.next_offset; bytes = part }))
        ≡ after_write w digest t (moved st part)
  unfolding chunk_step write_chunk write_done
  chunk_step_part st part (some_bytes, fits) room =
      let carried : as_u32 (length part) ≡ length part = omega arith in
      let whole_part : min (length part) (t.total_len - st.next_offset) ≡ length part =
        omega arith in
      let ahead : saturating_add st.next_offset (length part) ≡ st.next_offset + length part =
        omega arith in
      rw (==_refl t.transfer_id) (
        rw (==_refl st.next_offset) (
          rw carried (
            rw (le→ltb _ _ fits) (
              rw whole_part (
                rw (take_whole part) (
                  rw (not_zero (length part) some_bytes)
                    (rw (calm.writes st.trace st.next_offset part) (rw ahead refl))))))))

  after_write_more :
      (done : List ℕ) (st : LoopState)
      → Has done st
      → st.next_offset < t.total_len
      → (st' : LoopState) × (after_write w digest t st ≡ next st') × Has done st'
  unfolding after_write send_progress
  after_write_more done st h more =
      rw (lt→leb _ _ more)
        (elim (Bool-cases (
          leb (saturating_mul t.negotiated progress_ack_every_chunks)
            (st.next_offset - st.last_progress_offset))) [
              | inl due ↦ rw due (
                  rw (calm.sends st.trace (file_ack_progress t.transfer_id st.next_offset)) (
                    _,
                    refl,
                    record {
                      offset = h.offset;
                      hashed_all = h.hashed_all;
                      written_all = h.written_all;
                    },
                  ))
              | inr not_due ↦ rw not_due (st, refl, h)
            ])

  after_write_last :
      (bytes : List ℕ) (st : LoopState)
      → Has bytes st
      → length bytes ≡ t.total_len
      → digest bytes ≡ t.expected_hash
      → (trace : List Op) × (after_write w digest t st
          ≡ stop trace (finished (accepted_result t t.total_len)))
        × (written trace ≡ bytes)
  unfolding after_write finish commit_file
  after_write_last bytes st h long same =
      let all : leb t.total_len st.next_offset ≡ true = le→leb _ _ (omega (arith, h.offset)) in
      let known : bytes_eq (digest st.hashed) t.expected_hash ≡ true =
        rw h.hashed_all (rw same (bytes_eq_refl t.expected_hash)) in
      rw all (
        rw known (
          rw (calm.commits st.trace) (
            rw (calm.sends (committed ∷ st.trace) (file_ack_complete t.transfer_id t.total_len))
              (_, refl, h.written_all))))

  moved-Has :
      (done : List ℕ) (st : LoopState) (part : List ℕ)
      → Has done st
      → Has (done ++ part) (moved st part)
  moved-Has done st part h = record {
    offset = omega (arith, h.offset, length-append done part);
    hashed_all = ap (λ l. l ++ part) h.hashed_all;
    written_all = ap (λ l. l ++ part) h.written_all;
  }

  mine :
      (parsed : Result FileChunk (Unit {0}))
      → wait_for_transfer_chunk t.transfer_id (arrived t.transfer_id parsed) ≡ some (ok parsed)
  unfolding wait_for_transfer_chunk
  mine parsed = rw (==_refl t.transfer_id) refl

  abbrev opened : List Op
  opened = sent (file_ack_accept t.transfer_id t.negotiated) ∷ began t.transfer_id t.total_len ∷ []

  chunk_loop_complete :
      (parts : List (List ℕ)) (done : List ℕ) (st : LoopState)
      → Has done st
      → All (IsPart t.negotiated) parts
      → length (done ++ whole parts) ≡ t.total_len
      → digest (done ++ whole parts) ≡ t.expected_hash
      → st.next_offset < t.total_len
      → let r =
          chunk_loop w digest
            (chunk_step w digest)
            t
            (chunks t.transfer_id st.next_offset parts)
            st in
        (r.1 ≡ finished (accepted_result t t.total_len)) × (written r.0 ≡ done ++ whole parts)
  unfolding chunk_loop
  chunk_loop_complete [] done st h ps long same more =
      absurd (omega (arith, h.offset, ap length (append-nil done)))
  chunk_loop_complete (part ∷ parts) done st h (p, ps) long same more =
      let st1 : LoopState = moved st part in
      let reached : length done + length part + length (whole parts) ≡ t.total_len =
        omega (arith, length-append done (part ++ whole parts), length-append part (whole parts)) in
      let h1 : Has (done ++ part) st1 = moved-Has done st part h in
      rw
        (
          mine (ok (record { transfer_id = t.transfer_id; offset = st.next_offset; bytes = part })),
          chunk_loop,
        )
        (rw (chunk_step_part st part p (omega (arith, h.offset)))
          (elim (Bool-cases (ltb st1.next_offset t.total_len)) [
            | inl left ↦
                let (st2, on, h2) = after_write_more (done ++ part) st1 h1 (ground (arith, left)) in
                let same_offset : st2.next_offset ≡ st.next_offset + length part =
                  omega (arith, h2.offset, h.offset, length-append done part) in
                let below : st2.next_offset < t.total_len = ground (arith, left) in
                let after = append_assoc done part (whole parts) in
                rw on (
                  rw (lt→ltb _ _ below) (
                    rw (← same_offset) (
                      rw (← after) (
                        chunk_loop_complete parts (done ++ part) st2 h2 ps (ap length after ∙ long)
                          (ap digest after ∙ same) below))))
            | inr none_left ↦
                let nothing : whole parts ≡ [] =
                  empty (whole parts) (ground (arith, reached, h.offset, none_left)) in
                let all : done ++ (part ++ whole parts) ≡ done ++ part =
                  ap (λ l. done ++ (part ++ l)) nothing ∙ ap (λ l. done ++ l) (append-nil part) in
                let (trace, off, w') =
                  after_write_last (done ++ part) st1 h1 (sym (ap length all) ∙ long)
                    (sym (ap digest all) ∙ same) in
                rw off (refl, w' ∙ sym all)
          ]))

  -- A transfer whose file arrives in order is finished.
  pub recv_transfer_complete :
      (parts : List (List ℕ))
      → All (IsPart t.negotiated) parts
      → length (whole parts) ≡ t.total_len
      → digest (whole parts) ≡ t.expected_hash
      → let r = recv_transfer w digest (chunk_step w digest) t (chunks t.transfer_id 0 parts) in
        (r.1 ≡ finished (accepted_result t t.total_len)) × (written r.0 ≡ whole parts)
  unfolding recv_transfer empty_file
  recv_transfer_complete parts ps long same =
      rw (calm.begins [] t.transfer_id t.total_len, recv_transfer)
        (rw
          (calm.sends (began t.transfer_id t.total_len ∷ [])
            (file_ack_accept t.transfer_id t.negotiated))
          (elim (Bool-cases (t.total_len == 0)) [
            | inl none_due ↦
                let zero_len : t.total_len ≡ 0 = ground (arith, none_due) in
                let nothing : whole parts ≡ [] = empty (whole parts) (long ∙ zero_len) in
                let known : bytes_eq (digest []) t.expected_hash ≡ true =
                  rw (← nothing) (rw same (bytes_eq_refl t.expected_hash)) in
                rw none_due (
                  rw known (
                    rw (calm.commits opened)
                      (ap (λ n. finished (accepted_result t n)) (sym zero_len), sym nothing)))
            | inr some_due ↦ rw some_due (
                chunk_loop_complete parts [] (loop_start w digest opened)
                  (record { offset = refl; hashed_all = refl; written_all = refl }) ps long same
                  (ground (arith, some_due)))
          ]))
