-- ===== src/KernelIsoTp/Transfer/Send.antt =====
-- iso-tp/linux-socketcan-iso-tp/src/linux.rs: what the loop of `send_to` reports, against what the kernel did.
use thincan.Common.{
  ℕ, ◌-◌, ◌≤◌, ◌≡◌, ◌⊎◌, refl, ap, inl, inr, Bool-cases, Bool, true, false, some, List, [], ◌∷◌,
  ◌++◌, All, Result, ok, err, leb, arith, ◌<◌, ◌≢◌, ◌↔◌, subst, zero, suc,
}
use thincan.IsoTpQueue.{send_timeout, send_backend}
use thincan.KernelIsoTp.{
  Duration, IoError, would_block, interrupted, unexpected_eof, poll_error, other, io,
}
use thincan.KernelIsoTp.Transfer.Polled.{PolledFor, IsVerdict, poll_fd-PolledFor}
use thincan.KernelIsoTp.Transfer.{
  Revents, PollReply, polled, poll_failed, poll_fd, Wait, SendTurn, sent, send_failed,
  SocketSendResult, send_loop,
}

leb→le : (a b : ℕ) → leb a b ≡ true → a ≤ b
leb→le a b e = ground arith

le→leb : (a b : ℕ) → a ≤ b → leb a b ≡ true
le→leb a b h = ground arith

lt→leb : (a b : ℕ) → b < a → leb a b ≡ false
lt→leb a b h = ground arith

leb→lt : (a b : ℕ) → leb a b ≡ false → b < a
leb→lt a b e = ground arith

not_ready : (count : ℕ) → (false ≡ true) ↔ (0 < count) → count ≡ 0
not_ready zero v = refl
not_ready (suc n) v = absurd (cc (v.1 (omega arith)))

module _ (deadline : Duration) where
  -- A `poll` for the time that was left ends with such a reply, before the deadline.
  pub IsWaited : Wait → PollReply → Type 0
  IsWaited w reply = (w.now < deadline) × PolledFor (deadline - w.now) w.polls reply

  -- The kernel has not taken the payload, and the loop tries again: it was interrupted, or the socket was full and
  -- became ready in time.
  pub GoesOn : SendTurn → Type 0
  GoesOn (send_failed interrupted w) = Unit
  GoesOn (send_failed would_block w) =
      (count : ℕ) × (revents : List Revents) × (0 < count) × IsWaited w (polled count revents)
  GoesOn _ = ⊥

  -- What the loop finds when it waits: the deadline has passed, or the time that was left, as `poll` takes it, is over
  -- and the socket is not ready, or `poll` fails.
  pub IsWaitEnd : Wait → SocketSendResult → Type 0
  IsWaitEnd w r =
      ((r ≡ err send_timeout)
        × ((deadline ≤ w.now) ⊎ ((revents : List Revents) × IsWaited w (polled 0 revents))))
      ⊎ ((e : IoError) × (r ≡ err (send_backend (io e)))
          × (e ≢ interrupted)
          × IsWaited w (poll_failed e))

  -- Why the loop ends at a turn.
  pub IsReason : SendTurn → SocketSendResult → Type 0
  IsReason (sent n) r = r ≡ ok tt
  IsReason (send_failed would_block w) r = IsWaitEnd w r
  IsReason (send_failed interrupted w) r = ⊥
  IsReason (send_failed e w) r = r ≡ err (send_backend (io e))

  pub record Ended (turns : List SendTurn) (r : SocketSendResult) (rest : List SendTurn)
      : Type 0 where
    pub used : List SendTurn
    pub last : SendTurn
    pub split : turns ≡ used ++ (last ∷ rest)
    pub waited : All GoesOn used
    pub reason : IsReason last r

  -- A turn that lets the loop go on only if `poll` answers.
  unfoldable pub IsAnswered : SendTurn → Type 0
  IsAnswered (sent n) = Unit
  IsAnswered (send_failed e w) =
      (b : Result Bool IoError) × (poll_fd w.polls (deadline - w.now) ≡ some b)

  EndsSo : List SendTurn → Type 0
  EndsSo turns =
      (r : SocketSendResult) × (rest : List SendTurn) × (send_loop deadline turns ≡ some (r, rest))
      × Ended turns r rest

  Ended-step :
      (t : SendTurn) (turns : List SendTurn) (r : SocketSendResult) (rest : List SendTurn)
      → GoesOn t
      → Ended turns r rest
      → Ended (t ∷ turns) r rest
  Ended-step t turns r rest u e = record {
    used = t ∷ e.used;
    last = e.last;
    split = ap (λ l. t ∷ l) e.split;
    waited = (u, e.waited);
    reason = e.reason;
  }

  Ended-here :
      (t : SendTurn) (turns : List SendTurn) (r : SocketSendResult)
      → IsReason t r
      → Ended (t ∷ turns) r turns
  Ended-here t turns r h = record { used = []; last = t; split = refl; waited = tt; reason = h }

  would_block_late :
      (w : Wait) (turns : List SendTurn)
      → deadline ≤ w.now
      → EndsSo (send_failed would_block w ∷ turns)
  unfolding send_loop IsReason IsWaitEnd EndsSo
  would_block_late w turns late = (
    err send_timeout,
    turns,
    rw (le→leb deadline w.now late) refl,
    Ended-here _ turns _ (inl (refl, inl late)),
  )

  would_block_early :
      (w : Wait) (turns : List SendTurn) (b : Result Bool IoError) (reply : PollReply)
      → w.now < deadline
      → poll_fd w.polls (deadline - w.now) ≡ some b
      → PolledFor (deadline - w.now) w.polls reply
      → IsVerdict b reply
      → EndsSo turns
      → EndsSo (send_failed would_block w ∷ turns)
  unfolding send_loop IsReason IsWaitEnd EndsSo GoesOn IsWaited IsVerdict
  would_block_early w turns (ok true) (polled count revents) early answer was v later =
      let (r, rest, e, ended) = later in
      (
        r,
        rest,
        rw (lt→leb deadline w.now early, answer, e) refl,
        Ended-step _ turns r rest (count, revents, v.0 refl, (early, was)) ended,
      )
  would_block_early w turns (ok false) (polled count revents) early answer was v later =
      let idle : count ≡ 0 = not_ready count v in
      (
        err send_timeout,
        turns,
        rw (lt→leb deadline w.now early, answer) refl,
        Ended-here _ turns _ (
            inl (
              refl,
              inr (
                revents,
                (
                  early,
                  subst (λ n. PolledFor (deadline - w.now) w.polls (polled n revents)) idle was,
                ),
              ),
            )),
      )
  would_block_early w turns (ok ready) (poll_failed e) early answer was v later = absurd v
  would_block_early w turns (err code) (poll_failed e) early answer was (same, real) later = (
    err (send_backend (io code)),
    turns,
    rw (lt→leb deadline w.now early, answer) refl,
    Ended-here _ turns _ (
        inr (
          code,
          refl,
          real,
          (early, subst (λ f. PolledFor (deadline - w.now) w.polls (poll_failed f)) same was),
        )),
  )
  would_block_early w turns (err code) (polled count revents) early answer was v later = absurd v

  send_step :
      (t : SendTurn) (turns : List SendTurn) → IsAnswered t → EndsSo turns → EndsSo (t ∷ turns)
  unfolding send_loop IsReason IsAnswered EndsSo GoesOn
  send_step (sent n) turns answered later = (ok tt, turns, refl, Ended-here _ turns _ refl)
  send_step (send_failed would_block w) turns (b, answer) later =
      elim (Bool-cases (leb deadline w.now)) [
        | inl late ↦ would_block_late w turns (leb→le deadline w.now late)
        | inr early ↦
            let (reply, was, v) = poll_fd-PolledFor w.polls (deadline - w.now) b answer in
            would_block_early w turns b reply (leb→lt deadline w.now early) answer was v later
      ]
  send_step (send_failed interrupted w) turns answered (r, rest, e, ended) =
      (r, rest, e, Ended-step _ turns r rest tt ended)
  send_step (send_failed unexpected_eof w) turns answered later =
      (_, turns, refl, Ended-here _ turns _ refl)
  send_step (send_failed poll_error w) turns answered later =
      (_, turns, refl, Ended-here _ turns _ refl)
  send_step (send_failed (other code) w) turns answered later =
      (_, turns, refl, Ended-here _ turns _ refl)

  -- `send_to` returns: at the latest at a turn that finds the socket full and the deadline passed, when each
  -- `poll` in front of it answers. It ends at the first turn in which the kernel takes the payload, and then it
  -- reports success, so a payload is sent once at most and never reported as failed; it tries again only when it was
  -- interrupted, or when a `poll` before the deadline reports the socket ready; an error of the kernel is reported as
  -- it is; and a timeout only if the deadline has passed, or a `poll` before the deadline reports nothing. Such a
  -- `poll` is for the time that was left, in whole milliseconds, rounded down, and at most 2 ^ 31 - 1 of them; it is
  -- called again while it is interrupted.
  pub send_loop-Ended :
      (turns : List SendTurn) (w : Wait) (rest : List SendTurn)
      → All IsAnswered turns
      → deadline ≤ w.now
      → (r : SocketSendResult) × (left : List SendTurn) × (send_loop deadline
            (turns ++ (send_failed would_block w ∷ rest))
          ≡ some (r, left))
        × Ended (turns ++ (send_failed would_block w ∷ rest)) r left
  unfolding EndsSo
  send_loop-Ended [] w rest answered late = would_block_late w rest late
  send_loop-Ended (t ∷ turns) w rest (a, answered) late =
      send_step t _ a (send_loop-Ended turns w rest answered late)
