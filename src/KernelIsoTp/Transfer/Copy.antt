-- ===== src/KernelIsoTp/Transfer/Copy.antt =====
-- iso-tp/linux-socketcan-iso-tp/src/linux.rs: what a `recv` leaves in the buffer, and what the callback gets.
use thincan.Common.{
  ℕ, ◌≤◌, ◌≡◌, refl, List, [], ◌∷◌, length, take, drop, min, length-append, length-take,
  length-drop, take-append, take-all, ok, arith, ne→==,
}
use thincan.IsoTpQueue.Endpoint.{status_delivered_one}
use thincan.KernelIsoTp.Socket.{SocketCanIsoTp}
use thincan.KernelIsoTp.Transfer.{OnPayload, copied_into, deliver}

pub length-copied_into : (message buf : List ℕ) → length (copied_into message buf) ≡ length buf
unfolding copied_into
length-copied_into message buf = grind (
  arith,
  length-append (take (length buf) message) (drop (length message) buf),
  length-take,
  length-drop,
)

pub take-copied_into :
    (message buf : List ℕ)
    → length message ≤ length buf
    → take (length message) (copied_into message buf) ≡ message
unfolding copied_into
take-copied_into message buf h = rw (take-all (length buf) message h) (take-append message _ refl)

-- The bytes that a `recv` returns are the message's first ones, as many as fit.
take_read-copied_into :
    (message buf : List ℕ)
    → take (min (length message) (length buf)) (copied_into message buf) ≡ take (length buf) message
unfolding copied_into
take_read-copied_into message buf =
    take-append (take (length buf) message) _ (omega (arith, length-take (length buf) message))

-- A message that is not empty reaches the callback.
pub deliver_lem :
    (on_payload : OnPayload) (reply_to : ℕ) (message : List ℕ) (s : SocketCanIsoTp)
    → 1 ≤ length message
    → 1 ≤ length s.rx_buf
    → on_payload reply_to (take (length s.rx_buf) message) ≡ ok tt
    → let (result, calls, after) = deliver on_payload reply_to message s in
      (result ≡ ok status_delivered_one) × (calls ≡ (reply_to, take (length s.rx_buf) message) ∷ [])
unfolding deliver
deliver_lem on_payload reply_to message s m b h =
    rw
      (
        ne→== (min (length message) (length s.rx_buf)) 0 (λ z. omega arith),
        take_read-copied_into message s.rx_buf,
        h,
      )
      (refl, rw (take_read-copied_into message s.rx_buf) refl)
