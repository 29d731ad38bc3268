-- ===== src/KernelIsoTp/Transfer/Async/Equal.antt =====
-- iso-tp/linux-socketcan-iso-tp/src/linux.rs: the async calls against the blocking ones.
use thincan.Common.{
  ℕ, ◌-◌, ◌≡◌, ◌≢◌, ◌⊎◌, refl, inl, inr, true, false, Option, some, List, [], ◌∷◌, ok, err, leb,
  arith,
}
use mathlib.Core.Option.{map as option_map}
use thincan.IsoTpQueue.{recv_backend}
use thincan.IsoTpQueue.Endpoint.{status_delivered_one, status_timed_out}
use thincan.KernelIsoTp.{
  Duration, IoError, would_block, interrupted, unexpected_eof, poll_error, other, io,
}
use thincan.KernelIsoTp.Socket.{SocketCanIsoTp}
use thincan.KernelIsoTp.Transfer.{
  poll_fd, Wait, SendTurn, sent, send_failed, send_loop, OnPayload, ReadResult, deliver, brought,
  recv_failed, recv_one_ready, RecvTurn, took, took_none, recv_one_loop,
}
use thincan.KernelIsoTp.Transfer.Async.{
  Wake, woken, elapsed, wake_failed, AsyncSend, async_sent, async_failed, send_async, AsyncRecv,
  recv_async,
}

module _ (deadline : Duration) where
  -- A wait of the runtime that ends as a `poll` for the time that is left does.
  unfoldable pub WakesAs : Wait → Wake → Type 0
  WakesAs w woken =
      (leb deadline w.now ≡ false) × (poll_fd w.polls (deadline - w.now) ≡ some (ok true))
  WakesAs w elapsed =
      (leb deadline w.now ≡ true)
      ⊎ ((leb deadline w.now ≡ false) × (poll_fd w.polls (deadline - w.now) ≡ some (ok false)))
  WakesAs w (wake_failed e) =
      (leb deadline w.now ≡ false) × (poll_fd w.polls (deadline - w.now) ≡ some (err e))

  -- The kernel does the same in each turn.
  pub data SameSends : List SendTurn → List AsyncSend → Type 0 where
    no_sends : SameSends [] []
    both_sent :
        {n m : ℕ} {turns : List SendTurn} {asyncs : List AsyncSend}
        → SameSends turns asyncs
        → SameSends (sent n ∷ turns) (async_sent m ∷ asyncs)
    both_failed :
        {e : IoError} {w : Wait} {wake : Wake} {turns : List SendTurn} {asyncs : List AsyncSend}
        → WakesAs w wake
        → SameSends turns asyncs
        → SameSends (send_failed e w ∷ turns) (async_failed e wake ∷ asyncs)

  -- The same for a receive, no turn of which is interrupted.
  pub data SameReads : List RecvTurn → List AsyncRecv → Type 0 where
    no_reads : SameReads [] []
    both_took :
        {message : List ℕ} {t : AsyncRecv} {turns : List RecvTurn} {asyncs : List AsyncRecv}
        → t.reply ≡ brought message
        → SameReads turns asyncs
        → SameReads (took message ∷ turns) (t ∷ asyncs)
    both_took_none :
        {e : IoError} {w : Wait} {t : AsyncRecv} {turns : List RecvTurn} {asyncs : List AsyncRecv}
        → t.reply ≡ recv_failed e
        → e ≢ interrupted
        → WakesAs w t.wake
        → SameReads turns asyncs
        → SameReads (took_none e w ∷ turns) (t ∷ asyncs)

  would_block-Same :
      (w : Wait) (wake : Wake) (turns : List SendTurn) (asyncs : List AsyncSend)
      → WakesAs w wake
      → send_async asyncs ≡ option_map (λ x. x.0) (send_loop deadline turns)
      → send_async (async_failed would_block wake ∷ asyncs)
        ≡ option_map (λ x. x.0) (send_loop deadline (send_failed would_block w ∷ turns))
  unfolding send_async send_loop WakesAs
  would_block-Same w woken turns asyncs (early, ready) later = rw (early, ready) later
  would_block-Same w elapsed turns asyncs (inl late) later = rw late refl
  would_block-Same w elapsed turns asyncs (inr (early, full)) later = rw (early, full) refl
  would_block-Same w (wake_failed e) turns asyncs (early, fails) later = rw (early, fails) refl

  failed-Same :
      (e : IoError) (w : Wait) (wake : Wake) (turns : List SendTurn) (asyncs : List AsyncSend)
      → WakesAs w wake
      → send_async asyncs ≡ option_map (λ x. x.0) (send_loop deadline turns)
      → send_async (async_failed e wake ∷ asyncs)
        ≡ option_map (λ x. x.0) (send_loop deadline (send_failed e w ∷ turns))
  unfolding send_async send_loop
  failed-Same would_block w wake turns asyncs wakes later =
      would_block-Same w wake turns asyncs wakes later
  failed-Same interrupted w wake turns asyncs wakes later = later
  failed-Same unexpected_eof w wake turns asyncs wakes later = refl
  failed-Same poll_error w wake turns asyncs wakes later = refl
  failed-Same (other code) w wake turns asyncs wakes later = refl

  -- The async `send_to` returns what the blocking one returns, if the kernel does the same in each turn and the
  -- runtime's waits end as `poll` does.
  pub send_async-send_loop :
      (turns : List SendTurn) (asyncs : List AsyncSend)
      → SameSends turns asyncs
      → send_async asyncs ≡ option_map (λ x. x.0) (send_loop deadline turns)
  unfolding send_async send_loop
  send_async-send_loop _ _ no_sends = refl
  send_async-send_loop _ _ (both_sent same) = refl
  send_async-send_loop _ _ (both_failed {e} {w} {wake} {turns} {asyncs} wakes same) =
      failed-Same e w wake turns asyncs wakes (send_async-send_loop turns asyncs same)

  module _ (on_payload : OnPayload) where
    -- What `recv_one` of the wrapper does with a turn's result.
    abbrev async_turn : Wake → Option ReadResult → ReadResult → Option ReadResult
    async_turn wake later (result, calls, after) = elim result [
      | err e ↦ some (err e, calls, after)
      | ok status_delivered_one ↦ some (ok status_delivered_one, calls, after)
      | ok status_timed_out ↦ elim wake [
        | woken ↦ later
        | elapsed ↦ some (ok status_timed_out, calls, after)
        | wake_failed e ↦ some (err (recv_backend (io e)), calls, after)
      ]
    ]

    deliver_ends :
        (wake : Wake) (later : Option ReadResult) (message : List ℕ) (socket : SocketCanIsoTp)
        → async_turn wake later (deliver on_payload 0 message socket)
          ≡ some (deliver on_payload 0 message socket)
    unfolding deliver
    deliver_ends wake later message socket = ground arith

    took_none-Same :
        (e : IoError) (w : Wait) (t : AsyncRecv) (turns : List RecvTurn) (asyncs : List AsyncRecv)
        (socket : SocketCanIsoTp)
        → t.reply ≡ recv_failed e
        → e ≢ interrupted
        → WakesAs w t.wake
        → recv_async on_payload asyncs socket ≡ recv_one_loop on_payload deadline turns socket
        → recv_async on_payload (t ∷ asyncs) socket
          ≡ recv_one_loop on_payload deadline (took_none e w ∷ turns) socket
    unfolding recv_async recv_one_loop recv_one_ready WakesAs
    took_none-Same interrupted w t turns asyncs socket h calm wakes later = absurd (calm refl)
    took_none-Same unexpected_eof w t turns asyncs socket h calm wakes later = rw h refl
    took_none-Same poll_error w t turns asyncs socket h calm wakes later = rw h refl
    took_none-Same (other code) w t turns asyncs socket h calm wakes later = rw h refl
    took_none-Same would_block w t turns asyncs socket h calm wakes later = rw h (go t.wake wakes)
      where
        go :
            (wake : Wake)
            → WakesAs w wake
            → async_turn wake
                (recv_async on_payload asyncs socket)
                (ok status_timed_out, [], socket)
              ≡ recv_one_loop on_payload deadline (took_none would_block w ∷ turns) socket
        go woken (early, ready) = rw (early, ready) later
        go elapsed (inl late) = rw late refl
        go elapsed (inr (early, full)) = rw (early, full) refl
        go (wake_failed code) (early, fails) = rw (early, fails) refl

    -- The async `recv_one` returns what the blocking one returns, with the same calls of the callback and the same
    -- buffer, if the kernel does the same in each turn, interrupts none, and the runtime's waits end as `poll` does.
    pub recv_async-recv_one_loop :
        (turns : List RecvTurn) (asyncs : List AsyncRecv) (socket : SocketCanIsoTp)
        → SameReads turns asyncs
        → recv_async on_payload asyncs socket ≡ recv_one_loop on_payload deadline turns socket
    unfolding recv_async recv_one_loop recv_one_ready
    recv_async-recv_one_loop _ _ socket no_reads = refl
    recv_async-recv_one_loop _ _ socket (both_took {message} {t} {turns} {asyncs} h same) = rw h (
        deliver_ends t.wake (recv_async on_payload asyncs (deliver on_payload 0 message socket).2)
          message socket)
    recv_async-recv_one_loop _ _ socket
          (both_took_none {e} {w} {t} {turns} {asyncs} h calm wakes same) =
        took_none-Same e w t turns asyncs socket h calm wakes
          (recv_async-recv_one_loop turns asyncs socket same)
