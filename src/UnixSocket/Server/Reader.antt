-- ===== src/UnixSocket/Server/Reader.antt =====
-- The thread that reads from a client ends, and takes the client off the bus when it does.
use thincan.Common.{
  ℕ, zero, suc, ◌-◌, ◌<◌, ◌≡◌, refl, sym, ap, ◌∙◌, true, false, Option, some, List, [], ◌∷◌, ◌++◌,
  ok, All, length, take, drop, ltb, ◌==◌, arith, inl, inr, Bool-cases, Result-cases, All-append,
  ok_eq, ◌⊎◌, length-drop, append_assoc,
}
use thincan.Common.Bytes.{from_le_bytes}
use thincan.UnixSocket.Wire.{max_payload_len, msg_send_frame, msg_set_filters, read_msg_into}
use thincan.UnixSocket.Wire.Frames.{IdApi, decode_send_frame}
use thincan.UnixSocket.Wire.Filters.{decode_filters}
use thincan.UnixSocket.Server.{BusCommand, remove_client, send_frame, set_filters}
use thincan.UnixSocket.Server.Connection.{reader_message, client_reader_loop}

-- A command that the reader of a client sends before the last.
abbrev pub IsRequest : ℕ → BusCommand → Type 0
IsRequest id (send_frame i seq expect_ack frame) = i ≡ id
IsRequest id (set_filters i seq filters) = i ≡ id
IsRequest id _ = ⊥

-- Requests of the client, and then the command that removes it.
abbrev pub RemovedLast : ℕ → Option (List BusCommand) → Type 0
RemovedLast id loop =
    (requests : List BusCommand) × (loop ≡ some (requests ++ (remove_client id ∷ [])))
    × All (IsRequest id) requests

-- A message takes its header, at least, from the stream.
read_msg_into-shorter :
    (stream stream' payload : List ℕ) (msg_type : ℕ)
    → read_msg_into stream ≡ ok (msg_type, payload, stream')
    → length stream' < length stream
unfolding read_msg_into
read_msg_into-shorter stream stream' payload msg_type e =
    let len = from_le_bytes (take 4 (drop 1 (take 5 stream))) in
    elim (Bool-cases (ltb (length stream) 5)) [
      | inl short ↦ cc (rw short at e)
      | inr e1 ↦ elim (Bool-cases (ltb max_payload_len len)) [
        | inl long ↦ cc (rw long at rw e1 at e)
        | inr e2 ↦ elim (Bool-cases (ltb (length (drop 5 stream)) len)) [
          | inl part ↦ cc (rw part at rw e2 at rw e1 at e)
          | inr e3 ↦
              let same = ok_eq (rw e3 at rw e2 at rw e1 at e) in
              let behind : drop len (drop 5 stream) ≡ stream' = ap (λ m. m.2) same in
              let fewer : length (drop len (drop 5 stream)) ≡ length stream - 5 - len =
                omega (arith, length-drop len (drop 5 stream), length-drop 5 stream) in
              less (length stream) len (length stream') e1 (ap length (sym behind) ∙ fewer)
        ]
      ]
    ]
  where
    less : (n len m : ℕ) → ltb n 5 ≡ false → m ≡ n - 5 - len → m < n
    less n len m long e = ground arith

module _ (api : IdApi) (id : ℕ) where
  -- Either a request or none, and on; or the end.
  message_ends :
      (msg_type : ℕ) (payload : List ℕ)
      → let (commands, go_on) = reader_message api id msg_type payload in
        (((go_on ≡ true) × All (IsRequest id) commands)
          ⊎ ((go_on ≡ false) × (commands ≡ remove_client id ∷ [])))
  unfolding reader_message
  message_ends msg_type payload = elim (Bool-cases (msg_type == msg_send_frame)) [
    | inl e ↦
        rw (e, reader_message)
          (elim (Result-cases (decode_send_frame api payload)) [
            | inl (send, good) ↦ rw good (inl (refl, (refl, tt)))
            | inr (bad, fails) ↦ rw fails (inr (refl, refl))
          ])
    | inr e ↦
        rw (e, reader_message)
          (elim (Bool-cases (msg_type == msg_set_filters)) [
            | inl e' ↦
                rw (e', reader_message)
                  (elim (Result-cases (decode_filters api payload)) [
                    | inl (sent, good) ↦ rw good (inl (refl, (refl, tt)))
                    | inr (bad, fails) ↦ rw fails (inl (refl, (refl, tt)))
                  ])
            | inr e' ↦ rw (e', reader_message) (inl (refl, tt))
          ])
  ]

  -- On any stream, with fuel for one message more than the stream has bytes: the reader ends, its last
  -- command, and no other, removes the client, and those before send frames or set filters of this client.
  pub client_reader_loop-RemovedLast :
      (fuel : ℕ) (stream : List ℕ)
      → length stream < fuel
      → RemovedLast id (client_reader_loop api id fuel stream)
  unfolding client_reader_loop
  client_reader_loop-RemovedLast zero stream h = absurd (omega arith)
  client_reader_loop-RemovedLast (suc fuel) stream h = elim (Result-cases (read_msg_into stream)) [
    | inr (e, fails) ↦ ([], rw (fails, client_reader_loop) refl, tt)
    | inl ((msg_type, payload, stream'), came) ↦
        let shorter = read_msg_into-shorter stream stream' payload msg_type came in
        let (rest, later, requests) = client_reader_loop-RemovedLast fuel stream' (omega arith) in
        let commands = (reader_message api id msg_type payload).0 in
        elim (message_ends msg_type payload) [
          | inl (on, own) ↦ (
            commands ++ rest,
            rw (came, client_reader_loop)
                (rw on
                  (rw later (ap some (sym (append_assoc commands rest (remove_client id ∷ [])))))),
            All-append (IsRequest id) commands rest own requests,
          )
          | inr (stop, removed) ↦
              ([], rw (came, client_reader_loop) (rw stop (rw removed refl)), tt)
        ]
  ]
