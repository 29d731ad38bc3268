-- ===== src/KernelIsoTp/Transfer/Polled.antt =====
-- iso-tp/linux-socketcan-iso-tp/src/linux.rs: what `poll_fd` asks of the kernel, and what it makes of the answer.
use thincan.Common.{
  ℕ, suc, ◌+◌, ◌-◌, ◌*◌, ◌/◌, ◌^◌, ◌≤◌, ◌<◌, ◌≡◌, ◌≢◌, ◌⊎◌, ◌↔◌, refl, sym, ap, ◌∙◌, subst, inl,
  inr, Option-cases, min, Bool, true, none, some, some_eq, List, [], ◌∷◌, ◌++◌, Result, ok, err,
  replicate, ltb, arith,
}
use thincan.KernelIsoTp.{
  Duration, IoError, would_block, interrupted, unexpected_eof, poll_error, other,
}
use thincan.KernelIsoTp.Stmin.{duration_to_poll_timeout}
use thincan.KernelIsoTp.Transfer.{
  Revents, PollReply, polled, poll_failed, Polls, poll_loop, poll_fds, poll_fd,
}

-- A `poll` for so long, called again while it is interrupted, ends with this reply. `poll` takes whole milliseconds:
-- the time is rounded down, and is at most the largest `i32`.
pub record PolledFor (time : Duration) (polls : Polls) (reply : PollReply) : Type 0 where
  pub ms : ℕ
  pub whole : ms * 1_000_000 ≤ time
  pub bounded : ms ≤ 2 ^ 31 - 1
  pub longest : (time < (ms + 1) * 1_000_000) ⊎ (ms ≡ 2 ^ 31 - 1)
  pub interruptions : ℕ
  pub later : List PollReply
  pub replies : polls ms ≡ replicate interruptions (poll_failed interrupted) ++ (reply ∷ later)

-- What a reply means: some socket is ready, none is, or an error that is no interruption.
unfoldable pub IsVerdict : Result Bool IoError → PollReply → Type 0
IsVerdict (ok ready) (polled count revents) = (ready ≡ true) ↔ (0 < count)
IsVerdict (err e) (poll_failed f) = (f ≡ e) × (e ≢ interrupted)
IsVerdict _ _ = ⊥

IsAnswer : Result (ℕ × List Revents) IoError → PollReply → Type 0
IsAnswer (ok (count, revents)) reply = reply ≡ polled count revents
IsAnswer (err e) reply = (reply ≡ poll_failed e) × (e ≢ interrupted)

-- The replies are interruptions, and then the one that is returned.
AnswersWith : List PollReply → Result (ℕ × List Revents) IoError → Type 0
AnswersWith replies x =
    (reply : PollReply) × (n : ℕ) × (later : List PollReply) × (replies
      ≡ replicate n (poll_failed interrupted) ++ (reply ∷ later))
    × IsAnswer x reply

poll_loop-AnswersWith :
    (replies : List PollReply) (x : Result (ℕ × List Revents) IoError)
    → poll_loop replies ≡ some x
    → AnswersWith replies x
unfolding poll_loop AnswersWith IsAnswer
poll_loop-AnswersWith [] x e = absurd (cc)
poll_loop-AnswersWith (polled c r ∷ replies) x e =
    (polled c r, 0, replies, refl, subst (λ y. IsAnswer y (polled c r)) (some_eq e) refl)
poll_loop-AnswersWith (poll_failed interrupted ∷ replies) x e =
    let (reply, n, later, split, answer) = poll_loop-AnswersWith replies x e in
    (reply, suc n, later, ap (λ l. poll_failed interrupted ∷ l) split, answer)
poll_loop-AnswersWith (poll_failed would_block ∷ replies) x e = (
  poll_failed would_block,
  0,
  replies,
  refl,
  subst (λ y. IsAnswer y (poll_failed would_block)) (some_eq e) (refl, λ h. cc),
)
poll_loop-AnswersWith (poll_failed unexpected_eof ∷ replies) x e = (
  poll_failed unexpected_eof,
  0,
  replies,
  refl,
  subst (λ y. IsAnswer y (poll_failed unexpected_eof)) (some_eq e) (refl, λ h. cc),
)
poll_loop-AnswersWith (poll_failed poll_error ∷ replies) x e = (
  poll_failed poll_error,
  0,
  replies,
  refl,
  subst (λ y. IsAnswer y (poll_failed poll_error)) (some_eq e) (refl, λ h. cc),
)
poll_loop-AnswersWith (poll_failed (other code) ∷ replies) x e = (
  poll_failed (other code),
  0,
  replies,
  refl,
  subst (λ y. IsAnswer y (poll_failed (other code))) (some_eq e) (refl, λ h. cc),
)

PolledFor-AnswersWith :
    (time : Duration) (polls : Polls) (x : Result (ℕ × List Revents) IoError)
    → AnswersWith (polls (duration_to_poll_timeout time)) x
    → (reply : PollReply) × PolledFor time polls reply × IsAnswer x reply
unfolding duration_to_poll_timeout AnswersWith
PolledFor-AnswersWith time polls x (reply, n, later, split, answer) = (
  reply,
  record {
    ms = min (time / 1_000_000) (2 ^ 31 - 1);
    whole = ground arith;
    bounded = ground arith;
    longest = ground arith;
    interruptions = n;
    later = later;
    replies = split;
  },
  answer,
)

-- A reply that is returned, and what `poll_fd` makes of it.
module _ (polls : Polls) (time : Duration) where
  answered :
      (x : Result (ℕ × List Revents) IoError)
      → poll_fds polls time ≡ some x
      → (reply : PollReply) × PolledFor time polls reply × IsAnswer x reply
  unfolding poll_fds
  answered x h = PolledFor-AnswersWith time polls x (poll_loop-AnswersWith _ x h)

  verdict :
      (x : Result (ℕ × List Revents) IoError) (b : Result Bool IoError)
      → poll_fds polls time ≡ some x
      → poll_fd polls time ≡ some b
      → (reply : PollReply) × PolledFor time polls reply × IsVerdict b reply
  unfolding poll_fd IsVerdict IsAnswer
  verdict (ok (count, revents)) b h e =
      let (reply, was, meant) = answered _ h in
      let told : poll_fd polls time ≡ some (ok (ltb 0 count)) = rw (h, poll_fd) refl in
      (
        polled count revents,
        subst (PolledFor time polls) meant was,
        subst (λ y. IsVerdict y (polled count revents)) (some_eq (sym told ∙ e))
            ((λ t. ground (arith, t)), λ t. ground (arith, t)),
      )
  verdict (err code) b h e =
      let (reply, was, (meant, real)) = answered _ h in
      let told : poll_fd polls time ≡ some (err code) = rw (h, poll_fd) refl in
      (
        poll_failed code,
        subst (PolledFor time polls) meant was,
        subst (λ y. IsVerdict y (poll_failed code)) (some_eq (sym told ∙ e)) (refl, real),
      )

  -- `poll_fd` returns what the first reply means that is no interruption, to a `poll` for the time that it is given.
  pub poll_fd-PolledFor :
      (b : Result Bool IoError)
      → poll_fd polls time ≡ some b
      → (reply : PollReply) × PolledFor time polls reply × IsVerdict b reply
  unfolding poll_fd
  poll_fd-PolledFor b e = elim (Option-cases (poll_fds polls time)) [
    | inl never ↦
        let told : poll_fd polls time ≡ none = rw (never, poll_fd) refl in absurd (cc (told, e))
    | inr (x, h) ↦ verdict x b h e
  ]
