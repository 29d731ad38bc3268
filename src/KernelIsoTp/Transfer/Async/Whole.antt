-- ===== src/KernelIsoTp/Transfer/Async/Whole.antt =====
-- iso-tp/linux-socketcan-iso-tp/src/linux.rs: what `recv_one_into` returns for what the kernel does.
use thincan.Common.{
  ℕ, ◌≤◌, ◌<◌, ◌≡◌, ◌≢◌, ◌⊎◌, refl, ap, inl, inr, Bool-cases, none, some, List, [], ◌∷◌, ◌++◌, All,
  length, take, ok, err, ltb, ltb→lt, ltb→le, arith, false, ◌==◌,
}
use thincan.IsoTpQueue.{recv_buffer_too_small, recv_backend}
use thincan.IsoTpQueue.Endpoint.{delivered_one, timed_out}
use thincan.KernelIsoTp.{IoError, would_block, interrupted, unexpected_eof, poll_error, other, io}
use thincan.KernelIsoTp.Transfer.{copied_into}
use thincan.KernelIsoTp.Transfer.Copy.{length-copied_into, take-copied_into}
use thincan.KernelIsoTp.Transfer.Async.{
  Wake, woken, elapsed, wake_failed, TryIo, try_brought, try_failed, try_io_would_block, IntoTurn,
  IntoResult, into_result, try_turn, recv_into_async,
}

-- A turn at which the call goes on waiting: the socket was woken, and had nothing, or the `recv` was interrupted.
pub GoesOn : IntoTurn → Type 0
GoesOn t =
    (t.wake ≡ woken)
    × ((t.reply ≡ try_io_would_block)
        ⊎ ((t.reply ≡ try_failed would_block) ⊎ (t.reply ≡ try_failed interrupted)))

-- What the call returns for a message that the kernel hands over, with the buffer, which was `out`: a message that fits
-- is delivered whole; one that is longer is refused with both lengths; and one of no bytes is an error.
pub data IsReceived (message out : List ℕ) : IntoResult → Type 0 where
  whole :
      {after : List ℕ}
      → 1 ≤ length message
      → length message ≤ length out
      → take (length message) after ≡ message
      → length after ≡ length out
      → IsReceived message out (ok (delivered_one 0 (length message)), after)
  too_long :
      {after : List ℕ}
      → length out < length message
      → length after ≡ length out
      → IsReceived message out (err (recv_buffer_too_small (length message) (length out)), after)
  no_bytes :
      {after : List ℕ}
      → message ≡ []
      → after ≡ out
      → IsReceived message out (err (recv_backend (io unexpected_eof)), after)

-- What the turn that ends the call makes it return: nothing is received when the timeout elapses or the wait fails, a
-- message is received as above, and another error of `recv` is returned.
pub data Returns (out : List ℕ) (t : IntoTurn) : IntoResult → Type 0 where
  at_timeout : t.wake ≡ elapsed → Returns out t (ok timed_out, out)
  wait_error :
      (code : IoError)
      → t.wake ≡ wake_failed code
      → Returns out t (err (recv_backend (io code)), out)
  received :
      (message : List ℕ) {r : IntoResult}
      → t.wake ≡ woken
      → t.reply ≡ try_brought message
      → IsReceived message out r
      → Returns out t r
  recv_error :
      (code : IoError)
      → t.wake ≡ woken
      → t.reply ≡ try_failed code
      → code ≢ would_block
      → code ≢ interrupted
      → Returns out t (err (recv_backend (io code)), out)

-- The call goes on through the turns in front of one, and that one ends it.
pub record IsWhole (turns : List IntoTurn) (out : List ℕ) (r : IntoResult) : Type 0 where
  pub waited : List IntoTurn
  pub last : IntoTurn
  pub rest : List IntoTurn
  pub split : turns ≡ waited ++ (last ∷ rest)
  pub all_waited : All GoesOn waited
  pub returns : Returns out last r

brought-IsReceived :
    (message out : List ℕ)
    → IsReceived message out (into_result message out, copied_into message out)
unfolding into_result copied_into
brought-IsReceived [] [] = no_bytes refl refl
brought-IsReceived [] (o ∷ out) = no_bytes refl refl
brought-IsReceived (b ∷ bs) out =
    let full : (length (b ∷ bs) == 0) ≡ false = ground arith in
    elim (Bool-cases (ltb (length out) (length (b ∷ bs)))) [
      | inl long ↦
          rw (full, long, into_result)
            (too_long (ltb→lt _ _ long) (length-copied_into (b ∷ bs) out))
      | inr fits ↦
          rw (full, fits, into_result)
            (whole (omega arith) (ltb→le _ _ fits) (take-copied_into (b ∷ bs) out (ltb→le _ _ fits))
              (length-copied_into (b ∷ bs) out))
    ]

-- A reply ends the call, or it goes on.
reply-Returns :
    (t : IntoTurn) (out : List ℕ) (reply : TryIo)
    → t.wake ≡ woken
    → t.reply ≡ reply
    → ((try_turn reply out ≡ none) × GoesOn t)
      ⊎ ((r : IntoResult) × (try_turn reply out ≡ some r) × Returns out t r)
unfolding try_turn GoesOn
reply-Returns t out (try_brought message) w h =
    inr (_, refl, received message w h (brought-IsReceived message out))
reply-Returns t out try_io_would_block w h = inl (refl, (w, inl h))
reply-Returns t out (try_failed would_block) w h = inl (refl, (w, inr (inl h)))
reply-Returns t out (try_failed interrupted) w h = inl (refl, (w, inr (inr h)))
reply-Returns t out (try_failed unexpected_eof) w h =
    inr (_, refl, recv_error unexpected_eof w h (λ e. cc) (λ e. cc))
reply-Returns t out (try_failed poll_error) w h =
    inr (_, refl, recv_error poll_error w h (λ e. cc) (λ e. cc))
reply-Returns t out (try_failed (other code)) w h =
    inr (_, refl, recv_error (other code) w h (λ e. cc) (λ e. cc))

module _ (t : IntoTurn) (turns : List IntoTurn) (out : List ℕ) where
  IsWhole-here : (r : IntoResult) → Returns out t r → IsWhole (t ∷ turns) out r
  IsWhole-here r h = record {
    waited = [];
    last = t;
    rest = turns;
    split = refl;
    all_waited = tt;
    returns = h;
  }

  IsWhole-later : (r : IntoResult) → GoesOn t → IsWhole turns out r → IsWhole (t ∷ turns) out r
  IsWhole-later r on later = record {
    waited = t ∷ later.waited;
    last = later.last;
    rest = later.rest;
    split = ap (λ l. t ∷ l) later.split;
    all_waited = (on, later.all_waited);
    returns = later.returns;
  }

  Finds : List IntoTurn → Type 0
  Finds ts = (r : IntoResult) × (recv_into_async ts out ≡ some r) × IsWhole ts out r

  into_step : Finds turns → Finds (t ∷ turns)
  unfolding Finds recv_into_async
  into_step (r, e, found) = go t.wake refl
    where
      go : (w : Wake) → t.wake ≡ w → Finds (t ∷ turns)
      go elapsed h = (_, rw h refl, IsWhole-here _ (at_timeout h))
      go (wake_failed code) h = (_, rw h refl, IsWhole-here _ (wait_error code h))
      go woken h = elim (reply-Returns t out t.reply h refl) [
        | inl (again, on) ↦ (r, rw (h, again) e, IsWhole-later r on found)
        | inr (r', ends, returns) ↦ (r', rw (h, ends) refl, IsWhole-here r' returns)
      ]

-- `recv_one_into` returns, at the latest when its timeout elapses while it waits. It waits while the socket has
-- nothing and while it is interrupted, and the first other turn decides what it returns. A message of at least one byte
-- that fits is delivered whole, at the front of the buffer, with its length; for every one that is longer than the
-- buffer it reports the message's length and the buffer's; and one of no bytes is an unexpected end. An error of the
-- wait, and every other error of `recv`, is returned as it is. The buffer keeps its length, and at a timeout or such an
-- error it is as it was.
pub recv_into_async-IsWhole :
    (turns : List IntoTurn) (reply : TryIo) (rest : List IntoTurn) (out : List ℕ)
    → (r : IntoResult) × (recv_into_async
          (turns ++ (record { wake = elapsed; reply = reply } ∷ rest))
          out
        ≡ some r)
      × IsWhole (turns ++ (record { wake = elapsed; reply = reply } ∷ rest)) out r
unfolding recv_into_async Finds
recv_into_async-IsWhole [] reply rest out =
    ((ok timed_out, out), refl, IsWhole-here _ rest out _ (at_timeout refl))
recv_into_async-IsWhole (t ∷ turns) reply rest out =
    into_step t _ out (recv_into_async-IsWhole turns reply rest out)
