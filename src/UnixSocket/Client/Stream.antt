-- ===== src/UnixSocket/Client/Stream.antt =====
-- However the bytes are split into reads, the client finds the messages that the whole stream holds.
use thincan.Common.{
  ℕ, ◌≡◌, refl, sym, ap, ◌∙◌, none, some, List, [], ◌∷◌, ◌++◌, ok, All, inl, inr, append-nil,
  append_assoc, drop-append_le,
}
use thincan.UnixSocket.Wire.Frames.{IdApi}
use thincan.UnixSocket.Client.{UnixCan, DecodedMsg, unread, decode_msg, next_decoded_msg}
use thincan.UnixSocket.Client.Parser.{parse, found, left, with_next_msg-parse}
use thincan.UnixSocket.Client.Parser.Front.{parse_front}
use thincan.UnixSocket.Client.Buffer.{
  IsBuffer, SameRest, with_next_msg-IsBuffer, with_next_msg-SameRest, read_more_once-IsBuffer,
}
use thincan.UnixSocket.Client.Io.{
  Read, bytes, read_would_block, read_failed, read_more_once, wait_ready, read_turn,
  recv_decoded_msg_blocking,
}

-- The bytes that the reads bring.
abbrev pub brought : Read → List ℕ
brought (bytes bs) = bs
brought _ = []

abbrev pub coming : List Read → List ℕ
coming [] = []
coming (r ∷ reads) = brought r ++ coming reads

-- A read that brings bytes, or one that would block until the socket can be read.
abbrev pub IsFlow : Read → Type 0
IsFlow (bytes []) = ⊥
IsFlow (bytes (b ∷ bs)) = Unit
IsFlow (read_would_block polls) = wait_ready polls ≡ some (ok tt)
IsFlow (read_failed e) = ⊥

filled : Read → UnixCan → UnixCan
filled r can = (read_more_once r can).1

turn_flow : (r : Read) (can : UnixCan) → IsFlow r → read_turn r can ≡ some (ok tt, filled r can)
unfolding read_turn filled
turn_flow (bytes []) can h = absurd h
turn_flow (bytes (b ∷ bs)) can h = refl
turn_flow (read_would_block polls) can h = rw h refl
turn_flow (read_failed e) can h = absurd h

unread-filled :
    (r : Read) (can : UnixCan)
    → IsFlow r
    → IsBuffer can
    → (unread (filled r can) ≡ unread can ++ brought r)
      × IsBuffer (filled r can)
      × SameRest can (filled r can)
unfolding filled
unread-filled (bytes []) can h b = absurd h
unread-filled (bytes (x ∷ xs)) can h b = (
  drop-append_le can.rx_off can.rx_bytes (x ∷ xs) b.inside,
  read_more_once-IsBuffer (bytes (x ∷ xs)) can b,
  (refl, refl, refl),
)
unread-filled (read_would_block polls) can h b = (sym (append-nil _), b, (refl, refl, refl))
unread-filled (read_failed e) can h b = absurd h

-- The client once a message is found, and the reads that are left.
pub record Found (api : IdApi) (reads : List Read) (can : UnixCan) (msg : DecodedMsg)
    (rest : List ℕ) : Type 0 where
  pub can' : UnixCan
  pub reads' : List Read
  pub returned : recv_decoded_msg_blocking api reads can ≡ some (ok msg, can', reads')
  pub rest_unread : unread can' ++ coming reads' ≡ rest
  pub flow : All IsFlow reads'
  pub buffer : IsBuffer can'
  pub same : SameRest can can'

SameRest-trans : (a b c : UnixCan) → SameRest a b → SameRest b c → SameRest a c
SameRest-trans a b c (q, n, f) (q', n', f') = (q' ∙ q, n' ∙ n, f' ∙ f)

module _ (api : IdApi) where
  -- The client behind one look at its buffer.
  looked : UnixCan → UnixCan
  looked can = (next_decoded_msg api can).1

  look :
      (can : UnixCan)
      → ((next_decoded_msg api can).0 ≡ found (parse (decode_msg api) (unread can)))
        × (unread (looked can) ≡ left (parse (decode_msg api) (unread can)) (unread can))
  unfolding next_decoded_msg looked
  look can = let (same, rest, kept) = with_next_msg-parse (decode_msg api) can in (same, rest)

  looked-IsBuffer :
      (can : UnixCan) → IsBuffer can → IsBuffer (looked can) × SameRest can (looked can)
  unfolding next_decoded_msg looked
  looked-IsBuffer can b =
      (with_next_msg-IsBuffer (decode_msg api) can b, with_next_msg-SameRest (decode_msg api) can b)

  recv_now :
      (reads : List Read) (can : UnixCan) (msg : DecodedMsg)
      → (next_decoded_msg api can).0 ≡ ok (some msg)
      → recv_decoded_msg_blocking api reads can ≡ some (ok msg, looked can, reads)
  unfolding recv_decoded_msg_blocking looked
  recv_now [] can msg e = rw (e, recv_decoded_msg_blocking) refl
  recv_now (r ∷ reads) can msg e = rw (e, recv_decoded_msg_blocking) refl

  recv_later :
      (r : Read) (reads : List Read) (can : UnixCan)
      → IsFlow r
      → (next_decoded_msg api can).0 ≡ ok none
      → recv_decoded_msg_blocking api (r ∷ reads) can
        ≡ recv_decoded_msg_blocking api reads (filled r (looked can))
  unfolding recv_decoded_msg_blocking looked
  recv_later r reads can h e =
      rw (e, recv_decoded_msg_blocking)
        (rw (turn_flow r (looked can) h, recv_decoded_msg_blocking) refl)

  at_once :
      (reads : List Read) (can : UnixCan) (msg : DecodedMsg) (mid rest : List ℕ)
      → All IsFlow reads
      → IsBuffer can
      → parse (decode_msg api) (unread can) ≡ ok (some (msg, mid))
      → mid ++ coming reads ≡ rest
      → Found api reads can msg rest
  at_once reads can msg mid rest flow b now behind =
      let (result, after) = look can in
      let (b', same) = looked-IsBuffer can b in
      record {
        can' = looked can;
        reads' = reads;
        returned = recv_now reads can msg (result ∙ ap found now);
        rest_unread =
            ap (λ l. l ++ coming reads) (after ∙ ap (λ p. left p (unread can)) now) ∙ behind;
        flow = flow;
        buffer = b';
        same = same;
      }

  -- What the client holds when it has looked in vain and read once.
  unread-later :
      (r : Read) (can : UnixCan)
      → IsFlow r
      → IsBuffer can
      → parse (decode_msg api) (unread can) ≡ ok none
      → (unread (filled r (looked can)) ≡ unread can ++ brought r)
        × IsBuffer (filled r (looked can))
        × SameRest can (filled r (looked can))
  unread-later r can h b nothing =
      let (b', same) = looked-IsBuffer can b in
      let (more, b'', same') = unread-filled r (looked can) h b' in
      (
        more ∙ ap (λ l. l ++ brought r) ((look can).1 ∙ ap (λ p. left p (unread can)) nothing),
        b'',
        SameRest-trans can (looked can) (filled r (looked can)) same same',
      )

  -- Reads that bring bytes or would block until more can be read: when the bytes that the client has not
  -- yet read and those to come begin with a message, the client returns that message, whatever its buffer
  -- has been through and however the bytes are split, and what it leaves is the bytes behind the message.
  pub recv_decoded_msg_blocking-Found :
      (reads : List Read) (can : UnixCan) (msg : DecodedMsg) (rest : List ℕ)
      → All IsFlow reads
      → IsBuffer can
      → parse (decode_msg api) (unread can ++ coming reads) ≡ ok (some (msg, rest))
      → Found api reads can msg rest
  recv_decoded_msg_blocking-Found [] can msg rest flow b e =
      elim (parse_front (decode_msg api) (unread can) [] msg rest e) [
        | inr (mid, now, behind) ↦ at_once [] can msg mid rest flow b now behind
        | inl nothing ↦ cc (rw (append-nil (unread can)) at e)
      ]
  recv_decoded_msg_blocking-Found (r ∷ reads) can msg rest (h, flow) b e =
      elim (parse_front (decode_msg api) (unread can) (coming (r ∷ reads)) msg rest e) [
        | inr (mid, now, behind) ↦ at_once (r ∷ reads) can msg mid rest (h, flow) b now behind
        | inl nothing ↦
            let (more, b', same) = unread-later r can h b nothing in
            let stream : unread (filled r (looked can)) ++ coming reads
                ≡ unread can ++ (brought r ++ coming reads) =
              ap (λ l. l ++ coming reads) more
              ∙ append_assoc (unread can) (brought r) (coming reads) in
            let later =
              recv_decoded_msg_blocking-Found reads (filled r (looked can)) msg rest flow b'
                (ap (parse (decode_msg api)) stream ∙ e) in
            record {
              can' = later.can';
              reads' = later.reads';
              returned =
                  recv_later r reads can h ((look can).0 ∙ ap found nothing) ∙ later.returned;
              rest_unread = later.rest_unread;
              flow = later.flow;
              buffer = later.buffer;
              same = SameRest-trans can (filled r (looked can)) later.can' same later.same;
            }
      ]
