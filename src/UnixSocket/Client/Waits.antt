-- ===== src/UnixSocket/Client/Waits.antt =====
-- A client that waits keeps the frames that come before what it waits for.
use thincan.Common.{
  ℕ, zero, suc, ◌<◌, ◌≡◌, refl, sym, ap, ◌∙◌, subst, none, some, List, [], ◌∷◌, ◌++◌, Result, ok,
  All, length, arith, append-nil, append_assoc,
}
use thincan.UnixSocket.Frame.{UnixFrame}
use thincan.UnixSocket.Wire.Frames.{IdApi}
use thincan.UnixSocket.Client.{
  UnixCanError, UnixCan, DecodedMsg, frame, ack, filters_ack, hello, unknown, unread, decode_msg,
}
use thincan.UnixSocket.Client.Io.{Read, recv_decoded_msg_blocking}
use thincan.UnixSocket.Client.Parser.{parse}
use thincan.UnixSocket.Client.Buffer.{IsBuffer}
use thincan.UnixSocket.Client.Stream.{coming, IsFlow, recv_decoded_msg_blocking-Found}
use thincan.UnixSocket.Client.Ops.{Verdict, queued, wait_for}

-- The bytes are these messages, and the rest.
abbrev pub Holds : IdApi → List ℕ → List DecodedMsg → List ℕ → Type 0
Holds api bs [] rest = bs ≡ rest
Holds api bs (msg ∷ msgs) rest =
    (mid : List ℕ) × (parse (decode_msg api) bs ≡ ok (some (msg, mid))) × Holds api mid msgs rest

abbrev pub frames_of : List DecodedMsg → List UnixFrame
frames_of [] = []
frames_of (frame f ∷ msgs) = f ∷ frames_of msgs
frames_of (ack seq status ∷ msgs) = frames_of msgs
frames_of (filters_ack seq status ∷ msgs) = frames_of msgs
frames_of (hello ∷ msgs) = frames_of msgs
frames_of (unknown ∷ msgs) = frames_of msgs

-- The client once the wait is over: what has come before is in the queue, what comes behind is unread.
pub record Ended (api : IdApi) (verdict : Verdict) (fuel : ℕ) (reads : List Read) (can : UnixCan)
    (ended : Result (Unit {0}) UnixCanError) (frames : List UnixFrame) (rest : List ℕ)
    : Type 0 where
  pub can' : UnixCan
  pub reads' : List Read
  pub returned : wait_for api verdict fuel reads can ≡ some (ended, can', reads')
  pub queue : can'.rx_queue ≡ can.rx_queue ++ frames
  pub rest_unread : unread can' ++ coming reads' ≡ rest
  pub flow : All IsFlow reads'
  pub buffer : IsBuffer can'

queued_buffer :
    (msg : DecodedMsg) (can : UnixCan)
    → IsBuffer can
    → (unread (queued msg can) ≡ unread can) × IsBuffer (queued msg can)
queued_buffer (frame f) can b = (refl, record { inside = b.inside; compacted = b.compacted })
queued_buffer (ack seq status) can b = (refl, b)
queued_buffer (filters_ack seq status) can b = (refl, b)
queued_buffer hello can b = (refl, b)
queued_buffer unknown can b = (refl, b)

queued_queue :
    (msg : DecodedMsg) (msgs : List DecodedMsg) (can : UnixCan)
    → (queued msg can).rx_queue ++ frames_of msgs ≡ can.rx_queue ++ frames_of (msg ∷ msgs)
queued_queue (frame f) msgs can = append_assoc can.rx_queue (f ∷ []) (frames_of msgs)
queued_queue (ack seq status) msgs can = refl
queued_queue (filters_ack seq status) msgs can = refl
queued_queue hello msgs can = refl
queued_queue unknown msgs can = refl

module _ (api : IdApi) (verdict : Verdict) where
  wait_on :
      (fuel : ℕ) (reads reads' : List Read) (can can' : UnixCan) (msg : DecodedMsg)
      → recv_decoded_msg_blocking api reads can ≡ some (ok msg, can', reads')
      → verdict msg ≡ none
      → wait_for api verdict (suc fuel) reads can
        ≡ wait_for api verdict fuel reads' (queued msg can')
  unfolding wait_for
  wait_on fuel reads reads' can can' msg came on = rw (came, wait_for) (rw on refl)

  wait_over :
      (fuel : ℕ) (reads reads' : List Read) (can can' : UnixCan) (msg : DecodedMsg)
      (ended : Result (Unit {0}) UnixCanError)
      → recv_decoded_msg_blocking api reads can ≡ some (ok msg, can', reads')
      → verdict msg ≡ some ended
      → wait_for api verdict (suc fuel) reads can ≡ some (ended, can', reads')
  unfolding wait_for
  wait_over fuel reads reads' can can' msg ended came over = rw (came, wait_for) (rw over refl)

  -- Reads that bring bytes or would block until more can be read, and fuel for one message more than
  -- those in front: when the bytes that are unread or still to come hold some messages that do not end the
  -- wait and then one that does, the call returns with the outcome of that one, the frames among the
  -- others stand behind the queue in their order, and the bytes behind are still to be read.
  pub wait_for-Ended :
      (msgs : List DecodedMsg) (last : DecodedMsg) (ended : Result (Unit {0}) UnixCanError)
      (rest : List ℕ) (fuel : ℕ) (reads : List Read) (can : UnixCan)
      → All IsFlow reads
      → IsBuffer can
      → Holds api (unread can ++ coming reads) (msgs ++ (last ∷ [])) rest
      → All (λ m. verdict m ≡ none) msgs
      → verdict last ≡ some ended
      → length msgs < fuel
      → Ended api verdict fuel reads can ended (frames_of msgs) rest
  wait_for-Ended msgs last ended rest zero reads can flow b holds on over enough =
      absurd (omega arith)
  wait_for-Ended [] last ended rest (suc fuel) reads can flow b (mid, first, behind) on over
        enough =
      let found = recv_decoded_msg_blocking-Found api reads can last mid flow b first in
      record {
        can' = found.can';
        reads' = found.reads';
        returned = wait_over fuel reads found.reads' can found.can' last ended found.returned over;
        queue = found.same.0 ∙ sym (append-nil can.rx_queue);
        rest_unread = found.rest_unread ∙ behind;
        flow = found.flow;
        buffer = found.buffer;
      }
  wait_for-Ended (msg ∷ msgs) last ended rest (suc fuel) reads can flow b (mid, first, behind)
        (on, ons) over enough =
      let found = recv_decoded_msg_blocking-Found api reads can msg mid flow b first in
      let (same, b') = queued_buffer msg found.can' found.buffer in
      let stream : mid ≡ unread (queued msg found.can') ++ coming found.reads' =
        sym (ap (λ l. l ++ coming found.reads') same ∙ found.rest_unread) in
      let later =
        wait_for-Ended msgs last ended rest fuel found.reads' (queued msg found.can') found.flow b'
          (subst (λ l. Holds api l (msgs ++ (last ∷ [])) rest) stream behind) ons over
          (omega arith) in
      record {
        can' = later.can';
        reads' = later.reads';
        returned =
            wait_on fuel reads found.reads' can found.can' msg found.returned on ∙ later.returned;
        queue =
            later.queue
            ∙ queued_queue msg msgs found.can'
            ∙ ap (λ q. q ++ frames_of (msg ∷ msgs)) found.same.0;
        rest_unread = later.rest_unread;
        flow = later.flow;
        buffer = later.buffer;
      }
