-- ===== src/FileTransfer/Send/Loop/Results.antt =====
-- What `send_file_with_id` promises its caller, and how it treats acknowledgements.
use native.Mathlib.Nat.{zero-mul, add-zero}
use thincan.Common.{
  ℕ, suc, ◌+◌, ◌^◌, ◌≤◌, ◌<◌, ◌≡◌, refl, sym, inl, inr, Bool, true, false, List, ◌∷◌, Result, ok,
  err, length, ltb, ◌==◌, if◌then◌else◌, ◌||◌, arith, Bool-cases, Result-cases,
}
use thincan.Protocol.Wire.{Error, other_error}
use thincan.FileTransfer.Messages.{FileAckKind, accept, ack, reject, complete, abort, FileAck}
use thincan.FileTransfer.Send.{SendConfig, is_timeout}
use thincan.FileTransfer.Send.Loop.{
  SendOp, offered, finished, failed, Window, Phase, offering, sending, Run, wait, stop, new_window,
  offer, send_offer, result, send_window, cumulative, on_ack, start_window, on_offer_ack, on_wait,
}
use thincan.FileTransfer.Send.Loop.Trace.{CoversBelow-le, chunk_count, sent_up_to}
use thincan.FileTransfer.Send.Loop.Invariant.{
  Faithful, IsWindow, IsWaiting, IsReady, Ends, IsPhase, IsRun, fill-IsRun,
}

module _ (send : List SendOp → SendOp → Result (Unit {0}) Error) (digest : List ℕ → List ℕ)
    (transfer_id : ℕ) (bytes : List ℕ) (config : SendConfig) (u32 : length bytes < 2 ^ 32) where
  abbrev Good : Run → Type 0
  Good = IsRun send digest transfer_id bytes config

  Good-if : (b : Bool) (x y : Run) → Good x → Good y → Good (if b then x else y)
  Good-if true x y hx hy = hx
  Good-if false x y hx hy = hy

  pub send_offer-IsRun :
      (n : ℕ) (trace : List SendOp)
      → IsPhase send digest transfer_id bytes config (offering n) trace
      → Good (send_offer send digest transfer_id bytes config n trace)
  unfolding send_offer
  send_offer-IsRun n trace (tries, none_up, no_chunks, faithful) =
      let o : SendOp = offered (offer send digest transfer_id bytes config) in
      elim (Result-cases (send trace o)) [
        | inl (_, went) ↦ rw (went, send_offer) (tries, none_up, no_chunks, (refl, faithful))
        | inr (e, lost) ↦
            rw (lost, send_offer)
              (Good-if (is_timeout e) (wait (offering n) (o ∷ trace)) (stop (o ∷ trace) (failed e))
                (tries, none_up, no_chunks, (refl, faithful)) (refl, faithful))
      ]

  finished-Ends :
      (c : ℕ) (st : Window) (trace : List SendOp)
      → IsWindow send digest transfer_id bytes config c st trace
      → length bytes ≤ st.last_acked
      → Ends send digest transfer_id bytes config trace
          (finished (result send digest transfer_id bytes config c st))
  finished-Ends c st trace v h =
      let all : st.next_to_send ≡ length bytes = omega (arith, v.ordered, v.within) in
      (
        v.faithful,
        rw (sym all) v.covered,
        refl,
        refl,
        v.some_size,
        v.agreed_size,
        v.counted,
        v.tries,
      )

  send_window-IsRun :
      (c : ℕ) (st : Window) (trace : List SendOp)
      → IsWindow send digest transfer_id bytes config c st trace
      → IsReady send digest transfer_id bytes config c st trace
      → Good (send_window send digest transfer_id bytes config c st trace)
  unfolding send_window
  send_window-IsRun c st trace v r = elim (Bool-cases (ltb st.last_acked (length bytes))) [
    | inl more ↦ rw more (
        fill-IsRun send digest transfer_id bytes config u32 (length bytes) c st trace v r
          (omega arith))
    | inr all ↦ rw all (finished-Ends c st trace v (ground arith))
  ]

  module _ (c : ℕ) (st : Window) (trace : List SendOp)
      (h : IsWaiting send digest transfer_id bytes config c st trace) where
    acked-IsWindow :
        (next : ℕ)
        → st.last_acked ≤ next
        → next ≤ st.next_to_send
        → IsWindow send digest transfer_id bytes config c (record st { last_acked = next }) trace
    acked-IsWindow next low high =
        let v = h.window in
        record {
          some_size = v.some_size;
          agreed_size = v.agreed_size;
          ordered = high;
          within = v.within;
          windowed = omega (arith, v.windowed);
          counted = v.counted;
          covered = v.covered;
          tries = v.tries;
          faithful = v.faithful;
          reach = omega (arith, v.reach);
          inside = v.inside;
        }

    cumulative-IsRun :
        (next : ℕ) (is_complete : Bool)
        → Good (cumulative send digest transfer_id bytes config c st trace next is_complete)
    unfolding cumulative
    cumulative-IsRun next is_complete =
        elim (Bool-cases
          (ltb next st.last_acked || (ltb (length bytes) next || ltb st.next_to_send next))) [
            | inl bad ↦ rw bad h.window.faithful
            | inr fine ↦
                let st' : Window = record st { last_acked = next } in
                let v = acked-IsWindow next (ground arith) (ground arith) in
                rw fine (
                  Good-if is_complete _ _
                    (completed (next == length bytes) (elim (Bool-cases (next == length bytes)) [
                      | inl all ↦ λ e. finished-Ends c st' trace v (ground arith)
                      | inr less ↦ λ e. absurd (cc (less, e))
                    ]))
                    (send_window-IsRun c st' trace v (inl h.highest)))
          ]
      where
        completed :
            (b : Bool)
            → (b ≡ true
                → Ends send digest transfer_id bytes config trace (
                    finished (
                      result send digest transfer_id bytes config c
                        (record st { last_acked = next }))))
            → Good (
                if b
                then stop trace (
                    finished (
                      result send digest transfer_id bytes config c
                        (record st { last_acked = next })))
                else stop trace (failed other_error))
        completed true e = e refl
        completed false e = h.window.faithful

    -- After a timeout the window starts again at the acknowledged offset.
    again-IsRun :
        suc st.retries ≤ config.max_retries
        → Good (
            send_window send digest transfer_id bytes config c
              (record st { next_to_send = st.last_acked; retries = st.retries + 1 })
              trace)
    again-IsRun tries =
        let v = h.window in
        send_window-IsRun c (record st { next_to_send = st.last_acked; retries = st.retries + 1 })
          trace
          (record {
            some_size = v.some_size;
            agreed_size = v.agreed_size;
            ordered = omega arith;
            within = omega (arith, v.ordered, v.within);
            windowed = omega arith;
            counted = v.counted;
            covered = CoversBelow-le trace st.last_acked st.next_to_send v.ordered v.covered;
            tries = omega (arith, tries);
            faithful = v.faithful;
            reach = v.reach;
            inside = v.inside;
          })
          (inr (0, rw zero-mul (sym (add-zero st.last_acked))))

    on_ack-IsRun :
        (kind : FileAckKind) (next : ℕ)
        → Good (on_ack send digest transfer_id bytes config c st trace kind next)
    unfolding on_ack
    on_ack-IsRun ack next = cumulative-IsRun next false
    on_ack-IsRun complete next = cumulative-IsRun next true
    on_ack-IsRun reject next = h.window.faithful
    on_ack-IsRun abort next = h.window.faithful
    on_ack-IsRun accept next = send_window-IsRun c st trace h.window (inl h.highest)

  start_window-IsRun :
      (c : ℕ) (trace : List SendOp)
      → sent_up_to trace ≡ 0
      → chunk_count trace ≡ 0
      → Faithful send digest transfer_id bytes config trace
      → Good (start_window send digest transfer_id bytes config c trace)
  unfolding start_window
  start_window-IsRun c trace none_up no_chunks faithful =
      elim (Bool-cases (c == 0 || ltb config.sender_max_chunk_size c)) [
        | inl bad ↦ rw bad faithful
        | inr fine ↦ rw fine (
            send_window-IsRun c new_window trace
              (record {
                some_size = ground arith;
                agreed_size = ground arith;
                ordered = omega arith;
                within = omega arith;
                windowed = omega arith;
                counted = sym no_chunks;
                covered = tt;
                tries = omega arith;
                faithful = faithful;
                reach = omega arith;
                inside = omega arith;
              })
              (inl (omega arith)))
      ]

  on_offer_ack-IsRun :
      (n : ℕ) (trace : List SendOp) (kind : FileAckKind) (chunk_size : ℕ)
      → IsPhase send digest transfer_id bytes config (offering n) trace
      → Good (on_offer_ack send digest transfer_id bytes config n trace kind chunk_size)
  unfolding on_offer_ack
  on_offer_ack-IsRun n trace accept c (tries, none_up, no_chunks, faithful) =
      start_window-IsRun c trace none_up no_chunks faithful
  on_offer_ack-IsRun n trace reject c (tries, none_up, no_chunks, faithful) = faithful
  on_offer_ack-IsRun n trace abort c (tries, none_up, no_chunks, faithful) = faithful
  on_offer_ack-IsRun n trace ack c h = send_offer-IsRun n trace h
  on_offer_ack-IsRun n trace complete c h = send_offer-IsRun n trace h

  -- From a wait of a call, with a file whose length has 32 bits, every acknowledgement and every error
  -- leads to a wait or to an end of such a call: at a wait the window is full or the file is sent, what
  -- was ever sent lies below the next offset and within the window, and at an end with success every
  -- byte was sent.
  pub on_wait-IsRun :
      (phase : Phase) (trace : List SendOp) (r : Result FileAck Error)
      → IsPhase send digest transfer_id bytes config phase trace
      → IsRun send digest transfer_id bytes config
          (on_wait send digest transfer_id bytes config phase trace r)
  unfolding on_wait
  on_wait-IsRun (offering n) trace (ok a) h = on_offer_ack-IsRun n trace a.kind a.chunk_size h
  on_wait-IsRun (sending c st) trace (ok a) h = on_ack-IsRun c st trace h a.kind a.next_offset
  on_wait-IsRun (offering n) trace (err e) (tries, none_up, no_chunks, faithful) =
      Good-if (is_timeout e) _ _
        (elim (Bool-cases (ltb config.max_retries (n + 1))) [
          | inl many ↦ rw many faithful
          | inr few ↦
              rw few (send_offer-IsRun (n + 1) trace (ground arith, none_up, no_chunks, faithful))
        ])
        faithful
  on_wait-IsRun (sending c st) trace (err e) h =
      Good-if (is_timeout e) _ _
        (elim (Bool-cases (ltb config.max_retries (st.retries + 1))) [
          | inl many ↦ rw many h.window.faithful
          | inr few ↦ rw few (again-IsRun c st trace h (ground arith))
        ])
        h.window.faithful
