-- ===== src/SocketCan/Settings.antt =====
-- embedded-can/embedded-can-socketcan/src/linux.rs: the settings that an operation runs under, and that they are put
-- back.
use thincan.Common.{
  ℕ, ◌≡◌, ◌⊎◌, refl, sym, ap, inl, inr, Bool, true, false, Option, none, some, Result, err,
  if◌then◌else◌, ◌+◌, ◌∷◌,
}
use thincan.SocketCan.{
  SocketcanError, RawSocket, SocketCan, OnCan, FrameOp, counted, used, get_nonblocking, answered,
  switched_back, switched, found_mode, timeout_reset, timeout_set, found_timeout, with_nonblocking,
  with_write_timeout,
}

-- An adapter that takes its socket for nonblocking is right.
abbrev pub IsHonest : SocketCan → Type 0
IsHonest can = can.nonblocking ≡ true → can.inner.is_nonblocking ≡ true

module _ (refuses : ℕ → Option SocketcanError) where
  -- The kernel has refused a call on the settings with this error.
  pub IsRefused : SocketcanError → Type 0
  IsRefused e = (n : ℕ) × (refuses n ≡ some e)

  module _ {A : Type 0} (f : FrameOp A) where
    -- The operation ran once, on the socket made nonblocking, its result is returned, and the settings are as before.
    pub record Ran (can : SocketCan) (r : Result A SocketcanError) (can' : SocketCan) : Type 0 where
      pub socket : RawSocket
      pub on : socket.is_nonblocking ≡ true
      pub others :
          (socket.write_timeout ≡ can.inner.write_timeout) × (socket.filters ≡ can.inner.filters)
      pub result : r ≡ f socket
      pub mode : can'.inner.is_nonblocking ≡ can.inner.is_nonblocking
      pub timeout : can'.inner.write_timeout ≡ can.inner.write_timeout
      pub ran : can'.inner.ran ≡ true ∷ can.inner.ran

    -- The kernel refused the first call, which asks for the mode, or the second, which makes the socket nonblocking: its
    -- error is returned, the operation did not run, and the settings are as before.
    pub record NotRun (can : SocketCan) (r : Result A SocketcanError) (can' : SocketCan)
        : Type 0 where
      pub error : SocketcanError
      pub refused :
          (refuses can.inner.done ≡ some error) ⊎ (refuses (can.inner.done + 1) ≡ some error)
      pub result : r ≡ err error
      pub mode : can'.inner.is_nonblocking ≡ can.inner.is_nonblocking
      pub timeout : can'.inner.write_timeout ≡ can.inner.write_timeout
      pub ran : can'.inner.ran ≡ can.inner.ran

    -- The operation ran once, on a nonblocking socket that was blocking before, and the kernel refused the call behind
    -- it, which sets the mode back: its error is returned, and the socket stays nonblocking.
    pub record NotSetBack (can : SocketCan) (r : Result A SocketcanError) (can' : SocketCan)
        : Type 0 where
      pub error : SocketcanError
      pub refused : refuses (can.inner.done + 1 + 1 + 1) ≡ some error
      pub result : r ≡ err error
      pub was : can.inner.is_nonblocking ≡ false
      pub mode : can'.inner.is_nonblocking ≡ true
      pub timeout : can'.inner.write_timeout ≡ can.inner.write_timeout
      pub ran : can'.inner.ran ≡ true ∷ can.inner.ran

    pub RanNonblocking : SocketCan → OnCan A → Type 0
    RanNonblocking can (r, can') =
        IsHonest can' × (Ran can r can' ⊎ (NotRun can r can' ⊎ NotSetBack can r can'))

    -- What the socket is when it has been made nonblocking.
    abbrev made_nonblocking : SocketCan → RawSocket
    made_nonblocking can = record (counted (counted can.inner)) { is_nonblocking = true }

    switched_back-RanNonblocking :
        (can : SocketCan) (x : Option SocketcanError)
        → can.nonblocking ≡ false
        → can.inner.is_nonblocking ≡ false
        → refuses (can.inner.done + 1 + 1 + 1) ≡ x
        → let s = made_nonblocking can in
          RanNonblocking can (
            switched_back refuses
              (f s)
              can
              (answered x (used s) tt (record (used s) { is_nonblocking = false })))
    unfolding RanNonblocking
    switched_back-RanNonblocking can none c b h = (
      (λ z. cc),
      inl (record {
        socket = made_nonblocking can;
        on = refl;
        others = (refl, refl);
        result = refl;
        mode = sym b;
        timeout = refl;
        ran = refl;
      }),
    )
    switched_back-RanNonblocking can (some e) c b h = (
      (λ z. refl),
      inr (
          inr (record {
            error = e;
            refused = h;
            result = refl;
            was = b;
            mode = refl;
            timeout = refl;
            ran = refl;
          })),
    )

    -- A call that was refused before the operation.
    refused_first :
        (can : SocketCan) (s : RawSocket) (e : SocketcanError)
        → can.nonblocking ≡ false
        → (refuses can.inner.done ≡ some e) ⊎ (refuses (can.inner.done + 1) ≡ some e)
        → s.is_nonblocking ≡ can.inner.is_nonblocking
        → s.write_timeout ≡ can.inner.write_timeout
        → s.ran ≡ can.inner.ran
        → RanNonblocking can (err e, record can { inner = s })
    unfolding RanNonblocking
    refused_first can s e c h m t r = (
      (λ z. cc),
      inr (inl (record { error = e; refused = h; result = refl; mode = m; timeout = t; ran = r })),
    )

    switched-RanNonblocking :
        (can : SocketCan) (x : Option SocketcanError)
        → can.nonblocking ≡ false
        → can.inner.is_nonblocking ≡ false
        → refuses (can.inner.done + 1) ≡ x
        → let s = counted can.inner in
          RanNonblocking can
            (switched refuses f can (answered x s tt (record s { is_nonblocking = true })))
    switched-RanNonblocking can none c b h = switched_back-RanNonblocking can _ c b refl
    switched-RanNonblocking can (some e) c b h = refused_first can _ e c (inr h) refl refl refl

    found_mode-RanNonblocking :
        (can : SocketCan) (x : Option SocketcanError) (was : Bool)
        → can.nonblocking ≡ false
        → can.inner.is_nonblocking ≡ was
        → refuses can.inner.done ≡ x
        → RanNonblocking can (found_mode refuses f can (answered x can.inner was can.inner))
    unfolding RanNonblocking
    found_mode-RanNonblocking can (some e) was c b h =
        refused_first can _ e c (inl h) refl refl refl
    found_mode-RanNonblocking can none true c b h = (
      (λ z. b),
      inl (record {
        socket = counted can.inner;
        on = b;
        others = (refl, refl);
        result = refl;
        mode = refl;
        timeout = refl;
        ran = ap (λ m. m ∷ can.inner.ran) b;
      }),
    )
    found_mode-RanNonblocking can none false c b h = switched-RanNonblocking can _ c b refl

    by_flag-RanNonblocking :
        (can : SocketCan) (flag : Bool)
        → can.nonblocking ≡ flag
        → IsHonest can
        → RanNonblocking can (
            if flag
            then (f can.inner, record can { inner = used can.inner })
            else found_mode refuses f can (get_nonblocking refuses can.inner))
    unfolding RanNonblocking
    by_flag-RanNonblocking can true on honest = (
      (λ z. honest on),
      inl (record {
        socket = can.inner;
        on = honest on;
        others = (refl, refl);
        result = refl;
        mode = refl;
        timeout = refl;
        ran = ap (λ m. m ∷ can.inner.ran) (honest on);
      }),
    )
    by_flag-RanNonblocking can false off honest =
        found_mode-RanNonblocking can _ can.inner.is_nonblocking off refl refl

    -- An adapter that is right when it takes its socket for nonblocking: `try_send` and `try_recv` never run the
    -- operation on a blocking socket, and stay right. Either the operation runs once, on the nonblocking socket, its
    -- result is returned, and the socket is in the mode that it was in before, with its write timeout. Or the kernel
    -- refuses to tell the mode or to make the socket nonblocking: its error is returned, the operation does not run, and
    -- the settings are as before. Or the operation has run on a blocking socket made nonblocking, and the kernel
    -- refuses to set the mode back: its error is returned, and the socket stays nonblocking.
    pub with_nonblocking-RanNonblocking :
        (can : SocketCan) → IsHonest can → RanNonblocking can (with_nonblocking refuses f can)
    unfolding with_nonblocking
    with_nonblocking-RanNonblocking can honest =
        by_flag-RanNonblocking can can.nonblocking refl honest

    -- The operation has run under the timeout, and the settings are as before; or the kernel has refused a call.
    pub RanTimed : ℕ → SocketCan → OnCan A → Type 0
    RanTimed timeout can (r, can') =
        ((s : RawSocket) × (s.write_timeout ≡ some timeout)
          × (r ≡ f s)
          × (can'.inner.write_timeout ≡ can.inner.write_timeout)
          × (can'.inner.is_nonblocking ≡ can.inner.is_nonblocking))
        ⊎ ((e : SocketcanError) × (r ≡ err e) × IsRefused e)

    timeout_reset-RanTimed :
        (timeout : ℕ) (can : SocketCan) (s : RawSocket) (x : Option SocketcanError)
        → s.write_timeout ≡ some timeout
        → s.is_nonblocking ≡ can.inner.is_nonblocking
        → refuses (counted s).done ≡ x
        → RanTimed timeout can (
            timeout_reset refuses (f s) can (
              answered x (used s) tt (record (used s) { write_timeout = can.inner.write_timeout })))
    unfolding RanTimed IsRefused
    timeout_reset-RanTimed timeout can s none t m h = inl (s, t, refl, refl, m)
    timeout_reset-RanTimed timeout can s (some e) t m h = inr (e, refl, ((counted s).done, h))

    timeout_set-RanTimed :
        (timeout : ℕ) (can : SocketCan) (s : RawSocket) (x : Option SocketcanError)
        → s.is_nonblocking ≡ can.inner.is_nonblocking
        → refuses s.done ≡ x
        → RanTimed timeout can (
            timeout_set refuses f can.inner.write_timeout can
              (answered x s tt (record s { write_timeout = some timeout })))
    unfolding RanTimed IsRefused
    timeout_set-RanTimed timeout can s none m h =
        timeout_reset-RanTimed timeout can (record (counted s) { write_timeout = some timeout }) _
          refl m refl
    timeout_set-RanTimed timeout can s (some e) m h = inr (e, refl, (s.done, h))

    found_timeout-RanTimed :
        (timeout : ℕ) (can : SocketCan) (x : Option SocketcanError)
        → refuses can.inner.done ≡ x
        → RanTimed timeout can (
            found_timeout refuses timeout f can
              (answered x can.inner can.inner.write_timeout can.inner))
    unfolding RanTimed IsRefused
    found_timeout-RanTimed timeout can none h =
        timeout_set-RanTimed timeout can (counted can.inner) _ refl refl
    found_timeout-RanTimed timeout can (some e) h = inr (e, refl, (can.inner.done, h))

    -- `send_timeout` writes under the timeout that it was given, and puts the old one back; or the kernel has refused a
    -- call on the timeout, and its error is returned.
    pub with_write_timeout-RanTimed :
        (timeout : ℕ) (can : SocketCan)
        → RanTimed timeout can (with_write_timeout refuses timeout f can)
    unfolding with_write_timeout
    with_write_timeout-RanTimed timeout can = found_timeout-RanTimed timeout can _ refl
