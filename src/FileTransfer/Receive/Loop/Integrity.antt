-- ===== src/FileTransfer/Receive/Loop/Integrity.antt =====
-- The receiver never leaks a handle, and what it commits is the file that was announced.
use thincan.Common.{
  ℕ, ◌+◌, ◌-◌, ◌^◌, ◌≤◌, ◌<◌, ◌≡◌, refl, sym, ap, subst, ◌⊎◌, lt→ltb, Bool, true, false, List, [],
  ◌∷◌, ◌++◌, min, Result, ok, err, length, take, ltb, leb, ◌==◌, if◌then◌else◌, arith, Bool-cases,
  Option-cases, Result-cases, inl, inr, length-append, length-take,
}
use thincan.Common.Bytes.{bytes_eq, bytes_eq_sound}
use thincan.FileTransfer.Messages.{as_u32, FileChunk, file_ack_accept}
use thincan.FileTransfer.Receive.{
  Op, sent, began, World, Outcome, finished, failed, waiting, ChunkEvent, wait_for_transfer_chunk,
  Transfer, LoopState, Step, next, stop, accepted_result,
}
use thincan.FileTransfer.Receive.Loop.{
  progress_ack_every_chunks, saturating_mul, commit_file, finish, loop_start, send_progress,
  after_write, write_done, write_chunk, chunk_step, chunk_loop, empty_file, recv_transfer,
}
use thincan.FileTransfer.Receive.Loop.Trace.{is_open, written, was_committed, IsLegal}

pub Step-cases :
    {E : Type 0} (s : Step E)
    → ((st : LoopState) × (s ≡ next st))
      ⊎ ((trace : List Op) × (outcome : Outcome E) × (s ≡ stop trace outcome))
Step-cases (next st) = inl (st, refl)
Step-cases (stop trace outcome) = inr (trace, outcome, refl)

module _ {E : Type 0} (w : World E) (digest : List ℕ → List ℕ) (t : Transfer)
    (u32 : t.total_len < 2 ^ 32) where
  -- The loop's variables agree with what was done.
  pub record Inv (st : LoopState) : Type 0 where
    pub legal : IsLegal digest t.total_len t.expected_hash st.trace
    pub open_handle : is_open st.trace ≡ true
    pub not_done : was_committed st.trace ≡ false
    pub hashed_all : st.hashed ≡ written st.trace
    pub offset_all : st.next_offset ≡ length (written st.trace)
    pub within : st.next_offset ≤ t.total_len

  -- How a call may end: no handle stays open unless it still waits, and success means that the whole
  -- file, with the digest that was announced, was committed.
  abbrev pub EndsWell : List Op → Outcome E → Type 0
  EndsWell trace (finished r) =
      IsLegal digest t.total_len t.expected_hash trace
      × (is_open trace ≡ false)
      × (was_committed trace ≡ true)
      × (length (written trace) ≡ t.total_len)
      × (digest (written trace) ≡ t.expected_hash)
      × (r ≡ accepted_result t t.total_len)
  EndsWell trace (failed e) =
      IsLegal digest t.total_len t.expected_hash trace × (is_open trace ≡ false)
  EndsWell trace waiting =
      IsLegal digest t.total_len t.expected_hash trace
      × (is_open trace ≡ true)
      × (was_committed trace ≡ false)

  abbrev pub StepInv : Step E → Type 0
  StepInv (next st) = Inv st × (st.next_offset < t.total_len)
  StepInv (stop trace outcome) = EndsWell trace outcome

  finish-StepInv :
      (st : LoopState) → Inv st → t.total_len ≤ st.next_offset → StepInv (finish w digest t st)
  unfolding finish commit_file
  finish-StepInv st v h = elim (Bool-cases (bytes_eq (digest st.hashed) t.expected_hash)) [
    | inr differ ↦ rw differ (ground arith)
    | inl same ↦ rw same (go (w.commit st.trace) (bytes_eq_sound _ _ same))
  ]
    where
      go :
          (r : Result (Unit {0}) E)
          → digest st.hashed ≡ t.expected_hash
          → StepInv (commit_file w digest t st.trace r)
      go (err e) d = ground arith
      go (ok _) d = ground arith

  pub send_progress-StepInv :
      (st : LoopState)
      → Inv st
      → st.next_offset < t.total_len
      → StepInv (send_progress w digest t st)
  unfolding send_progress
  send_progress-StepInv st v h = ground arith

  pub StepInv-if : (b : Bool) (x y : Step E) → StepInv x → StepInv y → StepInv (if b then x else y)
  StepInv-if true x y hx hy = hx
  StepInv-if false x y hx hy = hy

  after_write-StepInv : (st : LoopState) → Inv st → StepInv (after_write w digest t st)
  unfolding after_write
  after_write-StepInv st v = elim (Bool-cases (leb t.total_len st.next_offset)) [
    | inl all ↦ rw all (finish-StepInv st v (ground arith))
    | inr more ↦ rw more (
        StepInv-if (leb (saturating_mul t.negotiated progress_ack_every_chunks) _) _ _
          (send_progress-StepInv st v (ground arith)) (v, ground arith))
  ]

  pub write_done-StepInv :
      (st : LoopState) (n : ℕ) (part : List ℕ) (r : Result (Unit {0}) E)
      → Inv st
      → n ≡ length part
      → st.next_offset + n ≤ t.total_len
      → StepInv (write_done w digest t st n part r)
  unfolding write_done
  write_done-StepInv st n part (err e) v l h = ground arith
  write_done-StepInv st n part (ok _) v l h = after_write-StepInv _ (record {
    legal = (v.open_handle, v.offset_all, v.legal);
    open_handle = v.open_handle;
    not_done = v.not_done;
    hashed_all = ap (λ l. l ++ part) v.hashed_all;
    offset_all = omega (arith, length-append (written st.trace) part, v.offset_all);
    within = omega (arith, h);
  })

  write_chunk-StepInv :
      (st : LoopState) (bytes : List ℕ)
      → Inv st
      → st.next_offset < t.total_len
      → StepInv (write_chunk w digest t st bytes)
  unfolding write_chunk
  write_chunk-StepInv st bytes v h =
      let n : ℕ = min (as_u32 (length bytes)) (t.total_len - st.next_offset) in
      StepInv-if (n == 0) _ _ (v, h)
        (write_done-StepInv st n (take n bytes) _ v (omega (arith, length-take n bytes))
          (omega arith))

  -- A round keeps the invariant, or ends the call well.
  pub chunk_step-StepInv :
      (st : LoopState) (parsed : Result FileChunk (Unit {0}))
      → Inv st
      → st.next_offset < t.total_len
      → StepInv (chunk_step w digest t st parsed)
  unfolding chunk_step
  chunk_step-StepInv st (err _) v h = ground arith
  chunk_step-StepInv st (ok chunk) v h =
      StepInv-if (chunk.transfer_id == t.transfer_id) _ _
        (StepInv-if (ltb t.negotiated (as_u32 (length chunk.bytes))) _ _ (ground arith) (
          StepInv-if (chunk.offset == st.next_offset) _ _ (write_chunk-StepInv st chunk.bytes v h)
            (send_progress-StepInv st v h)))
        (ground arith)

  module _ (step : Transfer → LoopState → Result FileChunk (Unit {0}) → Step E)
      (keeps : (st : LoopState) (parsed : Result FileChunk (Unit {0}))
        → Inv st
        → st.next_offset < t.total_len
        → StepInv (step t st parsed)) where
    chunk_loop-EndsWell :
        (events : List ChunkEvent) (st : LoopState)
        → Inv st
        → st.next_offset < t.total_len
        → let r = chunk_loop w digest step t events st in EndsWell r.0 r.1
    unfolding chunk_loop
    chunk_loop-EndsWell [] st v h = ground arith
    chunk_loop-EndsWell (event ∷ events) st v h =
        elim (Option-cases (wait_for_transfer_chunk t.transfer_id event)) [
          | inl other ↦ rw (other, chunk_loop) (chunk_loop-EndsWell events st v h)
          | inr (err _, gone) ↦ rw (gone, chunk_loop) (ground arith)
          | inr (ok parsed, got) ↦
              rw (got, chunk_loop)
                (elim (Step-cases (step t st parsed)) [
                  | inl (st', on) ↦
                      let (v', h') = stepped (keeps st parsed v h) on in
                      rw on (rw (lt→ltb _ _ h') (chunk_loop-EndsWell events st' v' h'))
                  | inr (trace, outcome, off) ↦ rw off (ended (keeps st parsed v h) off)
                ])
        ]
      where
        stepped : {s : Step E} {st' : LoopState} → StepInv s → s ≡ next st' → StepInv (next st')
        stepped i e = subst StepInv e i

        ended :
            {s : Step E} {trace : List Op} {o : Outcome E}
            → StepInv s
            → s ≡ stop trace o
            → StepInv (stop trace o)
        ended i e = subst StepInv e i

    opening : List Op
    opening =
        sent (file_ack_accept t.transfer_id t.negotiated) ∷ began t.transfer_id t.total_len ∷ []

    empty_file-EndsWell :
        t.total_len ≡ 0 → let r = empty_file w digest t opening in EndsWell r.0 r.1
    unfolding empty_file opening
    empty_file-EndsWell none_due = elim (Bool-cases (bytes_eq (digest []) t.expected_hash)) [
      | inr differ ↦ rw differ (ground arith)
      | inl same ↦ rw same (elim (Result-cases (w.commit opening)) [
        | inr (e, broken) ↦ rw broken (ground arith)
        | inl (_, done) ↦ rw done (
          (refl, sym none_due, bytes_eq_sound _ _ same, ground arith),
          refl,
          refl,
          sym none_due,
          bytes_eq_sound _ _ same,
          ap (accepted_result t) (sym none_due),
        )
      ])
    ]

    opening-Inv : Inv (loop_start w digest opening)
    unfolding opening
    opening-Inv = ground arith

    -- Whatever the store, the bus and the sender do, a transfer ends well.
    pub recv_transfer-EndsWell :
        (events : List ChunkEvent)
        → let r = recv_transfer w digest step t events in EndsWell r.0 r.1
    unfolding recv_transfer opening
    recv_transfer-EndsWell events =
        elim (Result-cases (w.begin_write [] t.transfer_id t.total_len)) [
          | inr (e, broken) ↦ rw (broken, recv_transfer) (ground arith)
          | inl (_, begun) ↦
              rw (begun, recv_transfer)
                (elim (Bool-cases (
                  w.send_ok (began t.transfer_id t.total_len ∷ [])
                    (file_ack_accept t.transfer_id t.negotiated))) [
                      | inr lost ↦ rw lost (ground arith)
                      | inl sends ↦ rw sends (elim (Bool-cases (t.total_len == 0)) [
                        | inl none_due ↦ rw none_due (empty_file-EndsWell (ground arith))
                        | inr some_due ↦
                            rw some_due (chunk_loop-EndsWell events _ opening-Inv (ground arith))
                      ])
                    ])
        ]
