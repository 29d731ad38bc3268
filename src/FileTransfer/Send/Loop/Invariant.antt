-- ===== src/FileTransfer/Send/Loop/Invariant.antt =====
-- What holds of the sender's window between two waits, and how a call ends.
use native.Mathlib.Nat.{mul-le-mul_right, suc-mul}
use thincan.Common.{
  ℕ, zero, suc, ◌+◌, ◌-◌, ◌*◌, ◌^◌, ◌≤◌, ◌<◌, ◌≡◌, refl, sym, ap, ◌⊎◌, inl, inr, true, false, List,
  ◌∷◌, Result, min, length, take, drop, ltb, leb, arith, Bool-cases, Result-cases, lt→ltb,
  length-take, length-drop,
}
use thincan.Protocol.Wire.{Error}
use thincan.FileTransfer.Messages.{FileChunk}
use thincan.FileTransfer.Send.{SendConfig, inflight_chunk_count}
use thincan.FileTransfer.Send.Window.{inflight_chunk_count_iff}
use thincan.FileTransfer.Send.Loop.{
  SendOp, sent_chunk, SendOutcome, finished, failed, waiting, Window, Phase, offering, sending, Run,
  wait, stop, offer, chunk_at, has_room, fill,
}
use thincan.FileTransfer.Send.Loop.Trace.{
  IsSlice, IsFaithful, CoversBelow, CoversBelow-next, chunk_count, sent_up_to,
}

module _ (send : List SendOp → SendOp → Result (Unit {0}) Error) (digest : List ℕ → List ℕ)
    (transfer_id : ℕ) (bytes : List ℕ) (config : SendConfig) where
  abbrev pub Faithful : List SendOp → Type 0
  Faithful = IsFaithful (offer send digest transfer_id bytes config) bytes

  -- The window, the chunks sent for it and the retries stay within their bounds.
  pub record IsWindow (chunk_size : ℕ) (st : Window) (trace : List SendOp) : Type 0 where
    pub some_size : 0 < chunk_size
    pub agreed_size : chunk_size ≤ config.sender_max_chunk_size
    pub ordered : st.last_acked ≤ st.next_to_send
    pub within : st.next_to_send ≤ length bytes
    pub windowed : st.next_to_send ≤ st.last_acked + config.window_chunks * chunk_size
    pub counted : st.chunks_sent ≡ chunk_count trace
    pub covered : CoversBelow trace st.next_to_send
    pub tries : st.retries ≤ config.max_retries
    pub faithful : Faithful trace
    pub reach : sent_up_to trace ≤ st.last_acked + config.window_chunks * chunk_size
    pub inside : sent_up_to trace ≤ length bytes

  -- While the sender waits, the window is full or the file has been sent to its end, and nothing was
  -- ever sent behind the next offset to send.
  pub record IsWaiting (chunk_size : ℕ) (st : Window) (trace : List SendOp) : Type 0 where
    pub window : IsWindow chunk_size st trace
    pub full : has_room send digest transfer_id bytes config chunk_size st ≡ false
    pub highest : sent_up_to trace ≤ st.next_to_send

  -- The window may be filled from here: nothing was sent behind it, or it starts again in full chunks.
  abbrev pub IsReady : ℕ → Window → List SendOp → Type 0
  IsReady chunk_size st trace =
      (sent_up_to trace ≤ st.next_to_send)
      ⊎ ((j : ℕ) × (st.next_to_send ≡ st.last_acked + j * chunk_size))

  abbrev pub Ends : List SendOp → SendOutcome → Type 0
  Ends trace (finished r) =
      Faithful trace
      × CoversBelow trace (length bytes)
      × (r.transfer_id ≡ transfer_id)
      × (r.total_len ≡ length bytes)
      × (0 < r.chunk_size)
      × (r.chunk_size ≤ config.sender_max_chunk_size)
      × (r.chunks_sent ≡ chunk_count trace)
      × (r.retries ≤ config.max_retries)
  Ends trace (failed e) = Faithful trace
  Ends trace waiting = Faithful trace

  abbrev pub IsPhase : Phase → List SendOp → Type 0
  IsPhase (offering offer_retries) trace =
      (offer_retries ≤ config.max_retries)
      × (sent_up_to trace ≡ 0)
      × (chunk_count trace ≡ 0)
      × Faithful trace
  IsPhase (sending chunk_size st) trace = IsWaiting chunk_size st trace

  -- A call that has ended does not wait.
  abbrev pub IsEnd : List SendOp → SendOutcome → Type 0
  IsEnd trace (finished r) = Ends trace (finished r)
  IsEnd trace (failed e) = Ends trace (failed e)
  IsEnd trace waiting = false ≡ true

  abbrev pub IsRun : Run → Type 0
  IsRun (wait phase trace) = IsPhase phase trace
  IsRun (stop trace outcome) = IsEnd trace outcome

  length-chunk_at :
      (chunk_size offset : ℕ)
      → length (chunk_at send digest transfer_id bytes config chunk_size offset).bytes
        ≡ min (offset + chunk_size) (length bytes) - offset
  length-chunk_at c o =
      omega
        (arith, length-take (min (o + c) (length bytes) - o) (drop o bytes), length-drop o bytes)

  chunk_at-IsSlice :
      (chunk_size offset : ℕ)
      → 0 < chunk_size
      → chunk_size ≤ config.sender_max_chunk_size
      → offset < length bytes
      → IsSlice transfer_id bytes config.sender_max_chunk_size
          (chunk_at send digest transfer_id bytes config chunk_size offset)
  chunk_at-IsSlice c o h m l = record {
    same_id = refl;
    some_bytes = omega (arith, length-chunk_at c o);
    bounded = omega (arith, length-chunk_at c o);
    inside = omega (arith, length-chunk_at c o);
    slice = ap (λ n. take n (drop o bytes)) (sym (length-chunk_at c o));
  }

  -- Where the window has room, it has room for a full chunk.
  has_room_next :
      (chunk_size : ℕ) (st : Window)
      → 0 < chunk_size
      → has_room send digest transfer_id bytes config chunk_size st ≡ true
      → (st.next_to_send < length bytes)
        × (st.next_to_send + chunk_size ≤ st.last_acked + config.window_chunks * chunk_size)
  unfolding has_room
  has_room_next c st h room =
      let few : inflight_chunk_count st.last_acked st.next_to_send c < config.window_chunks =
        ground arith in
      let k : ℕ = config.window_chunks - 1 in
      let reach : st.next_to_send ≤ st.last_acked + k * c =
        (inflight_chunk_count_iff st.last_acked st.next_to_send c k h).0 (omega arith) in
      let full : suc k ≡ config.window_chunks = omega arith in
      (ground arith, omega (arith, suc-mul k c, ap (λ n. n * c) full))

  -- A full window that starts in full chunks reaches as far as any window before it.
  full_reach :
      (chunk_size j : ℕ) (st : Window)
      → 0 < chunk_size
      → st.next_to_send ≡ st.last_acked + j * chunk_size
      → has_room send digest transfer_id bytes config chunk_size st ≡ false
      → (length bytes ≤ st.next_to_send)
        ⊎ (st.last_acked + config.window_chunks * chunk_size ≤ st.next_to_send)
  unfolding has_room
  full_reach c j st h e full = elim (Bool-cases (ltb st.next_to_send (length bytes))) [
    | inr all ↦ inl (ground arith)
    | inl more ↦
        let many : config.window_chunks ≤ inflight_chunk_count st.last_acked st.next_to_send c =
          ground arith in
        let few : inflight_chunk_count st.last_acked st.next_to_send c ≤ j =
          (inflight_chunk_count_iff st.last_acked st.next_to_send c j h).1 (omega arith) in
        let much : config.window_chunks * c ≤ j * c = mul-le-mul_right c (omega arith) in
        inr (omega arith)
  ]

  all_sent :
      (chunk_size : ℕ) (st : Window)
      → length bytes ≤ st.next_to_send
      → has_room send digest transfer_id bytes config chunk_size st ≡ false
  unfolding has_room
  all_sent c st h = ground arith

  module _ (u32 : length bytes < 2 ^ 32) where
    waits :
        (chunk_size : ℕ) (st : Window) (trace : List SendOp)
        → IsWindow chunk_size st trace
        → IsReady chunk_size st trace
        → has_room send digest transfer_id bytes config chunk_size st ≡ false
        → IsWaiting chunk_size st trace
    waits c st trace v (inl h) full = record { window = v; full = full; highest = h }
    waits c st trace v (inr (j, e)) full = elim (full_reach c j st v.some_size e full) [
      | inl all ↦ record { window = v; full = full; highest = omega (arith, v.inside) }
      | inr far ↦ record { window = v; full = full; highest = omega (arith, v.reach) }
    ]

    abbrev chunk_of : ℕ → Window → FileChunk
    chunk_of chunk_size st =
        chunk_at send digest transfer_id bytes config chunk_size st.next_to_send

    abbrev moved : ℕ → Window → Window
    moved chunk_size st = record {
      last_acked = st.last_acked;
      next_to_send = st.next_to_send + length (chunk_of chunk_size st).bytes;
      chunks_sent = st.chunks_sent + 1;
      retries = st.retries;
    }

    moved-IsWindow :
        (chunk_size : ℕ) (st : Window) (trace : List SendOp)
        → IsWindow chunk_size st trace
        → has_room send digest transfer_id bytes config chunk_size st ≡ true
        → IsWindow chunk_size (moved chunk_size st) (sent_chunk (chunk_of chunk_size st) ∷ trace)
    moved-IsWindow c st trace v room =
        let (more, far) = has_room_next c st v.some_size room in
        let l = length-chunk_at c st.next_to_send in
        record {
          some_size = v.some_size;
          agreed_size = v.agreed_size;
          ordered = omega (arith, v.ordered);
          within = omega (arith, l);
          windowed = omega (arith, l);
          counted = omega (arith, v.counted);
          covered = CoversBelow-next (chunk_of c st) trace v.covered;
          tries = v.tries;
          faithful =
              (chunk_at-IsSlice c st.next_to_send v.some_size v.agreed_size more, v.faithful);
          reach = omega (arith, l, v.reach);
          inside = omega (arith, l, v.inside);
        }

    moved-IsReady :
        (chunk_size : ℕ) (st : Window) (trace : List SendOp)
        → IsWindow chunk_size st trace
        → IsReady chunk_size st trace
        → st.next_to_send < length bytes
        → IsReady chunk_size (moved chunk_size st) (sent_chunk (chunk_of chunk_size st) ∷ trace)
    moved-IsReady c st trace v (inl h) more = inl (omega arith)
    moved-IsReady c st trace v (inr (j, e)) more =
        let l = length-chunk_at c st.next_to_send in
        elim (Bool-cases (leb (st.next_to_send + c) (length bytes))) [
          | inl whole ↦
              let fits : st.next_to_send + c ≤ length bytes = ground arith in
              inr (suc j, omega (arith, l, suc-mul j c))
          | inr short ↦
              let over : length bytes < st.next_to_send + c = ground arith in
              inl (omega (arith, l, v.inside))
        ]

    pub fill-IsRun :
        (fuel chunk_size : ℕ) (st : Window) (trace : List SendOp)
        → IsWindow chunk_size st trace
        → IsReady chunk_size st trace
        → length bytes ≤ st.next_to_send + fuel
        → IsRun (fill send digest transfer_id bytes config fuel chunk_size st trace)
    unfolding fill
    fill-IsRun zero c st trace v r enough = waits c st trace v r (all_sent c st (omega arith))
    fill-IsRun (suc fuel) c st trace v r enough =
        elim (Bool-cases (has_room send digest transfer_id bytes config c st)) [
          | inr full ↦ rw (full, fill) (waits c st trace v r full)
          | inl room ↦
              let (more, far) = has_room_next c st v.some_size room in
              let v' = moved-IsWindow c st trace v room in
              let below : (moved c st).next_to_send < 2 ^ 32 = omega (arith, v'.within) in
              rw (room, fill)
                (elim (Result-cases (send trace (sent_chunk (chunk_of c st)))) [
                  | inr (e, lost) ↦ rw lost v'.faithful
                  | inl (_, went) ↦ rw went (
                      rw (lt→ltb _ _ below) (
                        fill-IsRun fuel c (moved c st) _ v' (moved-IsReady c st trace v r more)
                          (omega (arith, length-chunk_at c st.next_to_send, v.some_size))))
                ])
        ]
