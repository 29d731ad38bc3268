-- ===== src/KernelIsoTp/Transfer/Async.antt =====
-- iso-tp/linux-socketcan-iso-tp/src/linux.rs: `TokioSocketCanIsoTp`. Its calls wait for the socket to become
-- ready under one timeout, which can end them wherever they wait.
pub mod Whole
pub mod Equal
use thincan.Common.{
  ℕ, length, Option, none, some, List, [], ◌∷◌, Result, ok, err, if◌then◌else◌, ltb, ◌==◌,
}
use thincan.IsoTpQueue.{send_timeout, send_backend, RecvError, recv_buffer_too_small, recv_backend}
use thincan.IsoTpQueue.Endpoint.{
  status_delivered_one, status_timed_out, RecvMetaIntoStatus, delivered_one, timed_out,
}
use thincan.KernelIsoTp.{IoError, would_block, interrupted, unexpected_eof, Error, io}
use thincan.KernelIsoTp.Socket.{SocketCanIsoTp}
use thincan.KernelIsoTp.Transfer.{
  SocketSendResult, OnPayload, ReadResult, copied_into, deliver, RecvReply, brought, recv_failed,
  recv_one_ready,
}

-- How a wait for the socket ends: it is ready, the wait fails, or the timeout elapses.
pub data Wake : Type 0 where
  woken elapsed : Wake
  wake_failed : IoError → Wake

-- The wait behind a `send` is used only if the call would block.
pub data AsyncSend : Type 0 where
  async_sent : ℕ → AsyncSend
  async_failed : IoError → Wake → AsyncSend

-- `TokioSocketCanIsoTp::send_to` and `send_functional_to`
unfoldable pub send_async : List AsyncSend → Option SocketSendResult
send_async [] = none
send_async (async_sent n ∷ turns) = some (ok tt)
send_async (async_failed interrupted wake ∷ turns) = send_async turns
send_async (async_failed would_block woken ∷ turns) = send_async turns
send_async (async_failed would_block elapsed ∷ turns) = some (err send_timeout)
send_async (async_failed would_block (wake_failed e) ∷ turns) = some (err (send_backend (io e)))
send_async (async_failed e wake ∷ turns) = some (err (send_backend (io e)))

-- What the loop of `recv_one` does where `recv_one_ready` brought nothing.
pub record AsyncRecv : Type 0 where
  pub reply : RecvReply
  pub wake : Wake

-- `TokioSocketCanIsoTp::recv_one`
unfoldable pub recv_async : OnPayload → List AsyncRecv → SocketCanIsoTp → Option ReadResult
recv_async on_payload [] socket = none
recv_async on_payload (turn ∷ turns) socket =
    let (result, calls, after) = recv_one_ready on_payload 0 turn.reply socket in
    let later = recv_async on_payload turns after in
    elim result [
      | err e ↦ some (err e, calls, after)
      | ok status_delivered_one ↦ some (ok status_delivered_one, calls, after)
      | ok status_timed_out ↦ elim turn.wake [
        | woken ↦ later
        | elapsed ↦ some (ok status_timed_out, calls, after)
        | wake_failed e ↦ some (err (recv_backend (io e)), calls, after)
      ]
    ]

-- A `recv` into the caller's buffer, which returns the length of the whole message, or `try_io` that finds that the
-- socket was not ready.
pub data TryIo : Type 0 where
  try_brought : (message : List ℕ) → TryIo
  try_failed : IoError → TryIo
  try_io_would_block : TryIo

-- The reply is read only if the socket was ready.
pub record IntoTurn : Type 0 where
  pub wake : Wake
  pub reply : TryIo

-- The status, and the buffer of the caller.
abbrev pub IntoResult : Type 0
IntoResult = Result RecvMetaIntoStatus (RecvError Error) × List ℕ

-- A message that `recv` brought, with the buffer that it has copied into.
unfoldable pub into_result : List ℕ → List ℕ → Result RecvMetaIntoStatus (RecvError Error)
into_result message out =
    if length message == 0
    then err (recv_backend (io unexpected_eof))
    else if ltb (length out) (length message)
    then err (recv_buffer_too_small (length message) (length out))
    else ok (delivered_one 0 (length message))

-- One reply: the result if the loop ends here.
unfoldable pub try_turn : TryIo → List ℕ → Option IntoResult
try_turn (try_brought message) out = some (into_result message out, copied_into message out)
try_turn (try_failed interrupted) out = none
try_turn (try_failed would_block) out = none
try_turn (try_failed e) out = some (err (recv_backend (io e)), out)
try_turn try_io_would_block out = none

-- `TokioSocketCanIsoTp::recv_one_into`
unfoldable pub recv_into_async : List IntoTurn → List ℕ → Option IntoResult
recv_into_async [] out = none
recv_into_async (turn ∷ turns) out =
    let later = recv_into_async turns out in
    elim turn.wake [
      | elapsed ↦ some (ok timed_out, out)
      | wake_failed e ↦ some (err (recv_backend (io e)), out)
      | woken ↦ elim (try_turn turn.reply out) [ some r ↦ some r | none ↦ later ]
    ]
