-- ===== src/UnixSocket/Client/Io.antt =====
-- embedded-can/embedded-can-unix-socket/src/client.rs: the calls that read and write the socket. A call
-- that waits for an event that never comes returns nothing.
use thincan.Common.{
  ℕ, zero, suc, ◌-◌, ◌^◌, length, take, drop, ltb, Bool, true, false, Option, none, some, List, [],
  ◌∷◌, ◌++◌, Result, ok, err, if◌then◌else◌,
}
use thincan.Common.Bytes.{to_le_bytes}
use thincan.UnixSocket.Wire.Frames.{IdApi}
use thincan.UnixSocket.Client.{
  IoKind, would_block_kind, interrupted_kind, UnixCanError, io, timeout, disconnected, from_io,
  protocol, payload_too_large, UnixCan, DecodedMsg, next_decoded_msg,
}

-- One turn of a wait: the deadline has passed, or what `poll` returns.
pub data Poll : Type 0 where
  expired ready timed_out interrupted : Poll
  poll_failed : IoKind → Poll

-- What a `read` returns: bytes, the end of the stream, or an error; where it would block, the polls that
-- follow it, if the caller waits.
pub data Read : Type 0 where
  bytes : List ℕ → Read
  read_would_block : List Poll → Read
  read_failed : IoKind → Read

-- What a `write` returns: how many bytes it took, or an error, with the polls that follow it.
pub data Write : Type 0 where
  wrote : ℕ → Write
  write_would_block : List Poll → Write
  write_failed : IoKind → Write

-- `wait_readable`, and `wait_writable`, which differs in the event that it asks for.
unfoldable pub wait_ready : List Poll → Option (Result (Unit {0}) UnixCanError)
wait_ready [] = none
wait_ready (expired ∷ polls) = some (err timeout)
wait_ready (ready ∷ polls) = some (ok tt)
wait_ready (timed_out ∷ polls) = some (err timeout)
wait_ready (interrupted ∷ polls) = wait_ready polls
wait_ready (poll_failed interrupted_kind ∷ polls) = wait_ready polls
wait_ready (poll_failed e ∷ polls) = some (err (io e))

-- The state when a `read` has returned: whether it brought bytes.
abbrev pub read_more_once : Read → UnixCan → Result Bool UnixCanError × UnixCan
read_more_once (bytes []) can = (err disconnected, can)
read_more_once (bytes (b ∷ bs)) can = (ok true, record can { rx_bytes = can.rx_bytes ++ (b ∷ bs) })
read_more_once (read_would_block polls) can = (ok false, can)
read_more_once (read_failed would_block_kind) can = (ok false, can)
read_more_once (read_failed e) can = (err (from_io e), can)

-- The polls that stand behind a `read` that would block.
abbrev pub polls_of : Read → List Poll
polls_of (read_would_block polls) = polls
polls_of _ = []

-- A `read`, and the wait behind it if it would block.
unfoldable pub read_turn : Read → UnixCan → Option (Result (Unit {0}) UnixCanError × UnixCan)
read_turn r can =
    let (result, can') = read_more_once r can in
    elim result [
      | err e ↦ some (err e, can')
      | ok more ↦
          if more
          then some (ok tt, can')
          else elim (wait_ready (polls_of r)) [ none ↦ none | some waited ↦ some (waited, can') ]
    ]

-- What came, the state, and the events that are left.
abbrev pub Received : Type 0
Received = Result DecodedMsg UnixCanError × UnixCan × List Read

module _ (api : IdApi) where
  unfoldable pub recv_decoded_msg_blocking : List Read → UnixCan → Option Received
  recv_decoded_msg_blocking [] can =
      let (result, can') = next_decoded_msg api can in
      elim result [
        | err e ↦ some (err e, can', [])
        | ok found ↦ elim found [ some msg ↦ some (ok msg, can', []) | none ↦ none ]
      ]
  recv_decoded_msg_blocking (r ∷ reads) can =
      let (result, can') = next_decoded_msg api can in
      elim result [
        | err e ↦ some (err e, can', r ∷ reads)
        | ok found ↦ elim found [
          | some msg ↦ some (ok msg, can', r ∷ reads)
          | none ↦ elim (read_turn r can') [
            | none ↦ none
            | some turn ↦
                let (waited, can'') = turn in
                elim waited [
                  | err e ↦ some (err e, can'', reads)
                  | ok u ↦ recv_decoded_msg_blocking reads can''
                ]
          ]
        ]
      ]

-- The result, the bytes put on the socket, and the events that are left.
abbrev pub Written : Type 0
Written = Result (Unit {0}) UnixCanError × List ℕ × List Write

abbrev pub put_first : List ℕ → Option Written → Option Written
put_first sent none = none
put_first sent (some (result, wire, writes)) = some (result, sent ++ wire, writes)

unfoldable pub write_all_deadline : List Write → List ℕ → Option Written
write_all_deadline writes [] = some (ok tt, [], writes)
write_all_deadline [] (b ∷ bs) = none
write_all_deadline (wrote zero ∷ writes) (b ∷ bs) = some (err disconnected, [], writes)
write_all_deadline (wrote (suc n) ∷ writes) (b ∷ bs) =
    put_first (take (suc n) (b ∷ bs)) (write_all_deadline writes (drop (suc n) (b ∷ bs)))
write_all_deadline (write_would_block polls ∷ writes) (b ∷ bs) = elim (wait_ready polls) [
  | none ↦ none
  | some (err e) ↦ some (err e, [], writes)
  | some (ok u) ↦ write_all_deadline writes (b ∷ bs)
]
write_all_deadline (write_failed interrupted_kind ∷ writes) (b ∷ bs) =
    write_all_deadline writes (b ∷ bs)
write_all_deadline (write_failed would_block_kind ∷ writes) (b ∷ bs) = none
write_all_deadline (write_failed e ∷ writes) (b ∷ bs) = some (err (from_io e), [], writes)

-- The header first, then the payload.
abbrev pub then_payload : List ℕ → Option Written → Option Written
then_payload payload none = none
then_payload payload (some (err e, wire, writes)) = some (err e, wire, writes)
then_payload payload (some (ok u, wire, writes)) =
    put_first wire (write_all_deadline writes payload)

unfoldable pub write_msg_deadline : List Write → ℕ → List ℕ → Option Written
write_msg_deadline writes msg_type payload =
    if ltb (2 ^ 32 - 1) (length payload)
    then some (err (protocol payload_too_large), [], writes)
    else then_payload payload
        (write_all_deadline writes (msg_type ∷ to_le_bytes 4 (length payload)))
