-- ===== src/KernelIsoTp/Transfer.antt =====
-- iso-tp/linux-socketcan-iso-tp/src/linux.rs: sending and receiving on an open socket. The turns of a loop are
-- a list of what the kernel does at each; a call that waits for turns that never come returns nothing.
pub mod Copy
pub mod Polled
pub mod Send
pub mod Async
use thincan.Common.{
  ℕ, zero, suc, ◌+◌, ◌-◌, min, length, take, drop, Bool, true, false, Option, none, some, List, [],
  ◌∷◌, ◌++◌, Result, ok, err, if◌then◌else◌, ltb, leb, ◌==◌,
}
use thincan.IsoTpQueue.{SendError, send_timeout, send_backend, RecvError, recv_backend}
use thincan.IsoTpQueue.Endpoint.{RecvStatus, status_delivered_one, status_timed_out}
use thincan.KernelIsoTp.{Duration, IoError, would_block, interrupted, unexpected_eof, Error, io}
use thincan.KernelIsoTp.Stmin.{duration_to_poll_timeout}
use thincan.KernelIsoTp.Socket.{SocketCanIsoTp}

-- `revents` of one socket, as far as it is read: whether it has `POLLIN`, and one of `POLLERR`, `POLLHUP` and
-- `POLLNVAL`.
pub record Revents : Type 0 where
  pub readable : Bool
  pub failed : Bool

-- What `poll` returns: a count with the events of each socket, or an error.
pub data PollReply : Type 0 where
  polled : (count : ℕ) (revents : List Revents) → PollReply
  poll_failed : IoError → PollReply

-- What a `poll` that is called again while it is interrupted returns, by the timeout in milliseconds.
abbrev pub Polls : Type 0
Polls = ℕ → List PollReply

unfoldable pub poll_loop : List PollReply → Option (Result (ℕ × List Revents) IoError)
poll_loop [] = none
poll_loop (polled count revents ∷ replies) = some (ok (count, revents))
poll_loop (poll_failed interrupted ∷ replies) = poll_loop replies
poll_loop (poll_failed e ∷ replies) = some (err e)

unfoldable pub poll_fds : Polls → Duration → Option (Result (ℕ × List Revents) IoError)
poll_fds polls timeout = poll_loop (polls (duration_to_poll_timeout timeout))

-- Whether the one socket is ready.
unfoldable pub poll_fd : Polls → Duration → Option (Result Bool IoError)
unfolding poll_fds
poll_fd polls timeout = elim (poll_fds polls timeout) [
  | none ↦ none
  | some (err e) ↦ some (err e)
  | some (ok (count, revents)) ↦ some (ok (ltb 0 count))
]

-- After a call that would block: the clock, and what a `poll` returns.
pub record Wait : Type 0 where
  pub now : Duration
  pub polls : Polls

-- The wait is read only if the call would block.
pub data SendTurn : Type 0 where
  sent : ℕ → SendTurn
  send_failed : IoError → Wait → SendTurn

abbrev pub SocketSendResult : Type 0
SocketSendResult = Result (Unit {0}) (SendError Error)

-- `SocketCanIsoTp::send_to`, with the deadline computed: the result, and the turns that are left.
unfoldable pub send_loop : Duration → List SendTurn → Option (SocketSendResult × List SendTurn)
send_loop deadline [] = none
send_loop deadline (sent n ∷ turns) = some (ok tt, turns)
send_loop deadline (send_failed interrupted w ∷ turns) = send_loop deadline turns
send_loop deadline (send_failed would_block w ∷ turns) =
    let later = send_loop deadline turns in
    if leb deadline w.now
    then some (err send_timeout, turns)
    else elim (poll_fd w.polls (deadline - w.now)) [
      | none ↦ none
      | some (err e) ↦ some (err (send_backend (io e)), turns)
      | some (ok ready) ↦ if ready then later else some (err send_timeout, turns)
    ]
send_loop deadline (send_failed e w ∷ turns) = some (err (send_backend (io e)), turns)

-- `SocketCanIsoTp::send_to` and `send_functional_to`, which do not read the address, from the clock `start`.
unfoldable pub send_blocking :
    Duration → Duration → List SendTurn → Option (SocketSendResult × List SendTurn)
send_blocking start timeout turns = send_loop (start + timeout) turns

-- What the callback of a receive does with the sender's address and the payload.
abbrev pub OnPayload : Type 0
OnPayload = ℕ → List ℕ → Result (Unit {0}) Error

-- The result, what the callback was called with, and the socket.
abbrev pub ReadResult : Type 0
ReadResult = Result RecvStatus (RecvError Error) × List (ℕ × List ℕ) × SocketCanIsoTp

-- The buffer when the kernel has copied a message into it.
unfoldable pub copied_into : List ℕ → List ℕ → List ℕ
copied_into message buf = take (length buf) message ++ drop (length message) buf

-- A `recv` that brought a message: it returns how many bytes it copied.
unfoldable pub deliver : OnPayload → ℕ → List ℕ → SocketCanIsoTp → ReadResult
deliver on_payload reply_to message socket =
    let read = min (length message) (length socket.rx_buf) in
    let buf = copied_into message socket.rx_buf in
    let payload = take read buf in
    let after : SocketCanIsoTp = record socket { rx_buf = buf } in
    if read == 0
    then (err (recv_backend (io unexpected_eof)), [], after)
    else elim (on_payload reply_to payload) [
      | err e ↦ (err (recv_backend e), (reply_to, payload) ∷ [], after)
      | ok u ↦ (ok status_delivered_one, (reply_to, payload) ∷ [], after)
    ]

pub data RecvReply : Type 0 where
  brought : (message : List ℕ) → RecvReply
  recv_failed : IoError → RecvReply

-- `recv_one_ready`; the callback that it is given knows the address.
unfoldable pub recv_one_ready : OnPayload → ℕ → RecvReply → SocketCanIsoTp → ReadResult
recv_one_ready on_payload reply_to (brought message) socket =
    deliver on_payload reply_to message socket
recv_one_ready on_payload reply_to (recv_failed would_block) socket =
    (ok status_timed_out, [], socket)
recv_one_ready on_payload reply_to (recv_failed e) socket = (err (recv_backend (io e)), [], socket)

-- The wait is read only if the call would block.
pub data RecvTurn : Type 0 where
  took : (message : List ℕ) → RecvTurn
  took_none : IoError → Wait → RecvTurn

-- `SocketCanIsoTp::recv_one`, with the deadline computed.
unfoldable pub recv_one_loop :
    OnPayload → Duration → List RecvTurn → SocketCanIsoTp → Option ReadResult
recv_one_loop on_payload deadline [] socket = none
recv_one_loop on_payload deadline (took message ∷ turns) socket =
    some (deliver on_payload 0 message socket)
recv_one_loop on_payload deadline (took_none interrupted w ∷ turns) socket =
    recv_one_loop on_payload deadline turns socket
recv_one_loop on_payload deadline (took_none would_block w ∷ turns) socket =
    let later = recv_one_loop on_payload deadline turns socket in
    if leb deadline w.now
    then some (ok status_timed_out, [], socket)
    else elim (poll_fd w.polls (deadline - w.now)) [
      | none ↦ none
      | some (err e) ↦ some (err (recv_backend (io e)), [], socket)
      | some (ok ready) ↦ if ready then later else some (ok status_timed_out, [], socket)
    ]
recv_one_loop on_payload deadline (took_none e w ∷ turns) socket =
    some (err (recv_backend (io e)), [], socket)

unfoldable pub recv_blocking :
    OnPayload → Duration → Duration → List RecvTurn → SocketCanIsoTp → Option ReadResult
recv_blocking on_payload start timeout turns socket =
    recv_one_loop on_payload (start + timeout) turns socket
