-- ===== src/FileTransfer/Send/Loop.antt =====
-- thincan-file-transfer/src/tokio_impl.rs: `send_file_with_id_impl` and `send_file_impl`. The code waits
-- for an acknowledgement at two places, for the offer and in the window loop; between two waits it runs
-- to the next one. So it is a machine with a state for each place, over the acknowledgements that it
-- waits for. The trace of what was sent is kept newest first.
pub mod Trace
pub mod Invariant
pub mod Results
pub mod Promise
pub mod Timeouts
mod Tests
use thincan.Common.{
  ℕ, zero, suc, ◌+◌, ◌-◌, ◌*◌, ◌^◌, Bool, true, false, Option, none, some, List, [], ◌∷◌, Result,
  ok, err, min, length, take, drop, ltb, leb, ◌==◌, if◌then◌else◌, ◌&&◌, ◌||◌,
}
use thincan.Protocol.Wire.{Error, other_error}
use thincan.FileTransfer.Messages.{
  FileAckKind, accept, ack, reject, complete, abort, sha256, FileReq, FileChunk, FileAck,
}
use thincan.FileTransfer.Send.{
  SendConfig, validate, SendState, alloc_transfer_id, observe_transfer_id, is_timeout, AckEvent,
  wait_for_transfer_ack, inflight_chunk_count,
}

-- What is sent, whether the send fails or not.
pub data SendOp : Type 0 where
  offered : FileReq → SendOp
  sent_chunk : FileChunk → SendOp

pub record SendFileResult : Type 0 where
  pub transfer_id : ℕ
  pub total_len : ℕ
  pub chunk_size : ℕ
  pub chunks_sent : ℕ
  pub retries : ℕ

-- How a call ends, or that it still waits for an acknowledgement.
pub data SendOutcome : Type 0 where
  finished : SendFileResult → SendOutcome
  failed : Error → SendOutcome
  waiting : SendOutcome

-- The variables of the window loop.
pub record Window : Type 0 where
  pub last_acked : ℕ
  pub next_to_send : ℕ
  pub chunks_sent : ℕ
  pub retries : ℕ

-- Where the call waits.
pub data Phase : Type 0 where
  offering : (offer_retries : ℕ) → Phase
  sending : (chunk_size : ℕ) → Window → Phase

-- The call runs to its next wait, or to its end.
pub data Run : Type 0 where
  wait : Phase → List SendOp → Run
  stop : List SendOp → SendOutcome → Run

abbrev pub new_window : Window
new_window = record { last_acked = 0; next_to_send = 0; chunks_sent = 0; retries = 0 }

-- `send` is the answer of the bus, from what was sent before. SHA-256 is a parameter.
module _ (send : List SendOp → SendOp → Result (Unit {0}) Error) (digest : List ℕ → List ℕ)
    (transfer_id : ℕ) (bytes : List ℕ) (config : SendConfig) where
  abbrev pub offer : FileReq
  offer = record {
    transfer_id = transfer_id;
    total_len = length bytes;
    file_metadata = [];
    sender_max_chunk_size = config.sender_max_chunk_size;
    file_hash_algo = ok sha256;
    file_hash = digest bytes;
  }

  -- The head of the offer loop.
  pub send_offer : ℕ → List SendOp → Run
  send_offer offer_retries trace = elim (send trace (offered offer)) [
    | ok _ ↦ wait (offering offer_retries) (offered offer ∷ trace)
    | err e ↦
        if is_timeout e
        then wait (offering offer_retries) (offered offer ∷ trace)
        else stop (offered offer ∷ trace) (failed e)
  ]

  abbrev pub result : ℕ → Window → SendFileResult
  result chunk_size st = record {
    transfer_id = transfer_id;
    total_len = length bytes;
    chunk_size = chunk_size;
    chunks_sent = st.chunks_sent;
    retries = st.retries;
  }

  abbrev pub chunk_at : ℕ → ℕ → FileChunk
  chunk_at chunk_size offset =
      let end = min (offset + chunk_size) (length bytes) in
      record {
        transfer_id = transfer_id;
        offset = offset;
        bytes = take (end - offset) (drop offset bytes);
      }

  -- The condition of the loop that fills the window.
  pub has_room : ℕ → Window → Bool
  has_room chunk_size st =
      ltb (inflight_chunk_count st.last_acked st.next_to_send chunk_size) config.window_chunks
      && ltb st.next_to_send (length bytes)

  -- Fills the window, with `fuel` rounds at most, and waits.
  pub fill : ℕ → ℕ → Window → List SendOp → Run
  unfolding has_room
  fill zero chunk_size st trace = wait (sending chunk_size st) trace
  fill (suc fuel) chunk_size st trace = elim (has_room chunk_size st) [
    | false ↦ wait (sending chunk_size st) trace
    | true ↦
        let chunk = chunk_at chunk_size st.next_to_send in
        elim (send trace (sent_chunk chunk)) [
          | err e ↦ stop (sent_chunk chunk ∷ trace) (failed e)
          | ok _ ↦
              let next = st.next_to_send + length chunk.bytes in
              let rest =
                fill fuel chunk_size
                  (record {
                    last_acked = st.last_acked;
                    next_to_send = next;
                    chunks_sent = st.chunks_sent + 1;
                    retries = st.retries;
                  })
                  (sent_chunk chunk ∷ trace) in
              if ltb next (2 ^ 32)
              then rest
              else stop (sent_chunk chunk ∷ trace) (failed other_error)
        ]
  ]

  -- The head of the window loop. A round of `fill` sends a byte at least, so as many rounds as there are
  -- bytes are enough.
  pub send_window : ℕ → Window → List SendOp → Run
  unfolding fill
  send_window chunk_size st trace =
      if ltb st.last_acked (length bytes)
      then fill (length bytes) chunk_size st trace
      else stop trace (finished (result chunk_size st))

  -- An acknowledgement of progress or of the end.
  pub cumulative : ℕ → Window → List SendOp → ℕ → Bool → Run
  unfolding send_window
  cumulative chunk_size st trace next is_complete =
      if ltb next st.last_acked || (ltb (length bytes) next || ltb st.next_to_send next)
      then stop trace (failed other_error)
      else if is_complete
      then if next == length bytes
        then stop trace (finished (result chunk_size (record st { last_acked = next })))
        else stop trace (failed other_error)
      else send_window chunk_size (record st { last_acked = next }) trace

  -- What the window loop does with an acknowledgement.
  pub on_ack : ℕ → Window → List SendOp → FileAckKind → ℕ → Run
  unfolding cumulative
  on_ack chunk_size st trace ack next = cumulative chunk_size st trace next false
  on_ack chunk_size st trace complete next = cumulative chunk_size st trace next true
  on_ack chunk_size st trace reject next = stop trace (failed other_error)
  on_ack chunk_size st trace abort next = stop trace (failed other_error)
  on_ack chunk_size st trace accept next = send_window chunk_size st trace

  -- The check of the chunk size that the receiver accepts.
  pub start_window : ℕ → List SendOp → Run
  unfolding send_window
  start_window chunk_size trace =
      if chunk_size == 0 || ltb config.sender_max_chunk_size chunk_size
      then stop trace (failed other_error)
      else send_window chunk_size new_window trace

  -- What the offer loop does with an acknowledgement.
  pub on_offer_ack : ℕ → List SendOp → FileAckKind → ℕ → Run
  unfolding start_window send_offer
  on_offer_ack offer_retries trace accept chunk_size = start_window chunk_size trace
  on_offer_ack offer_retries trace reject chunk_size = stop trace (failed other_error)
  on_offer_ack offer_retries trace abort chunk_size = stop trace (failed other_error)
  on_offer_ack offer_retries trace ack chunk_size = send_offer offer_retries trace
  on_offer_ack offer_retries trace complete chunk_size = send_offer offer_retries trace

  -- From one wait to the next.
  pub on_wait : Phase → List SendOp → Result FileAck Error → Run
  unfolding on_offer_ack on_ack send_window send_offer
  on_wait (offering offer_retries) trace (ok a) =
      on_offer_ack offer_retries trace a.kind a.chunk_size
  on_wait (offering offer_retries) trace (err e) =
      if is_timeout e
      then if ltb config.max_retries (offer_retries + 1)
        then stop trace (failed e)
        else send_offer (offer_retries + 1) trace
      else stop trace (failed e)
  on_wait (sending chunk_size st) trace (ok a) = on_ack chunk_size st trace a.kind a.next_offset
  on_wait (sending chunk_size st) trace (err e) =
      if is_timeout e
      then if ltb config.max_retries (st.retries + 1)
        then stop trace (failed e)
        else send_window chunk_size
            (record st { next_to_send = st.last_acked; retries = st.retries + 1 }) trace
      else stop trace (failed e)

  -- The call from a wait on, over what `wait_for_transfer_ack` meets.
  pub run : List AckEvent → Run → List SendOp × SendOutcome
  unfolding on_wait
  run events (stop trace outcome) = (trace, outcome)
  run [] (wait phase trace) = (trace, waiting)
  run (event ∷ events) (wait phase trace) = elim (wait_for_transfer_ack transfer_id event) [
    | none ↦ run events (wait phase trace)
    | some r ↦ run events (on_wait phase trace r)
  ]

  -- After the configuration and the id: the two conversions to 32 bits, and the offer.
  pub send_validated : List AckEvent → List SendOp × SendOutcome
  unfolding run send_offer
  send_validated events =
      if leb (2 ^ 32) (length bytes) || leb (2 ^ 32) config.sender_max_chunk_size
      then ([], failed other_error)
      else run events (send_offer 0 [])

  -- `send_file_with_id_impl`
  pub send_file_with_id : SendState → List AckEvent → SendState × (List SendOp × SendOutcome)
  unfolding send_validated
  send_file_with_id state events = elim (validate config) [
    | err e ↦ (state, ([], failed e))
    | ok _ ↦ (observe_transfer_id state transfer_id, send_validated events)
  ]

-- `send_file_impl`
pub send_file :
    (List SendOp → SendOp → Result (Unit {0}) Error)
    → (List ℕ → List ℕ)
    → List ℕ
    → SendConfig
    → SendState
    → List AckEvent
    → SendState × (List SendOp × SendOutcome)
unfolding send_file_with_id alloc_transfer_id
send_file send digest bytes config state events =
    let (state', transfer_id) = alloc_transfer_id state in
    send_file_with_id send digest transfer_id bytes config state' events
