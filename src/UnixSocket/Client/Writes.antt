-- ===== src/UnixSocket/Client/Writes.antt =====
-- A message written in pieces is on the socket whole.
use thincan.Common.{
  ℕ, zero, suc, ◌-◌, ◌^◌, ◌≡◌, refl, sym, ap, ◌∙◌, subst, append_assoc, Option, none, some, List,
  [], ◌∷◌, ◌++◌, Result, ok, err, length, take, drop, ltb, inl, inr, Bool-cases, Option-cases,
  take-append-drop,
}
use thincan.Common.Bytes.{to_le_bytes}
use thincan.UnixSocket.Wire.{IoError, write_msg}
use thincan.UnixSocket.Client.{
  would_block_kind, timed_out_kind, interrupted_kind, other_kind, protocol, payload_too_large,
}
use thincan.UnixSocket.Client.Io.{
  wait_ready, Write, wrote, write_would_block, write_failed, Written, put_first, write_all_deadline,
  then_payload, write_msg_deadline,
}

-- A success means that all of the bytes, and only they, are on the socket; an error, that a front of them is.
abbrev pub WroteFront : List ℕ → Option Written → Type 0
WroteFront bs none = Unit
WroteFront bs (some (ok u, wire, writes)) = wire ≡ bs
WroteFront bs (some (err e, wire, writes)) = (more : List ℕ) × (wire ++ more ≡ bs)

front_put :
    (sent bs : List ℕ) (o : Option Written)
    → WroteFront bs o
    → WroteFront (sent ++ bs) (put_first sent o)
front_put sent bs none h = tt
front_put sent bs (some (ok u, wire, writes)) h = ap (λ l. sent ++ l) h
front_put sent bs (some (err e, wire, writes)) (more, h) =
    (more, append_assoc sent wire more ∙ ap (λ l. sent ++ l) h)

write_all_deadline-WroteFront :
    (writes : List Write) (bs : List ℕ) → WroteFront bs (write_all_deadline writes bs)
unfolding write_all_deadline
write_all_deadline-WroteFront writes [] = refl
write_all_deadline-WroteFront [] (b ∷ bs) = tt
write_all_deadline-WroteFront (wrote zero ∷ writes) (b ∷ bs) = (b ∷ bs, refl)
write_all_deadline-WroteFront (wrote (suc n) ∷ writes) (b ∷ bs) =
    subst (λ l. WroteFront l (write_all_deadline (wrote (suc n) ∷ writes) (b ∷ bs)))
      (take-append-drop (suc n) (b ∷ bs))
      (front_put (take (suc n) (b ∷ bs)) _ _
        (write_all_deadline-WroteFront writes (drop (suc n) (b ∷ bs))))
write_all_deadline-WroteFront (write_would_block polls ∷ writes) (b ∷ bs) =
    elim (Option-cases (wait_ready polls)) [
      | inl never ↦ rw (never, write_all_deadline) tt
      | inr (ok u, go) ↦ rw (go, write_all_deadline) (write_all_deadline-WroteFront writes (b ∷ bs))
      | inr (err e, stop) ↦ rw (stop, write_all_deadline) (b ∷ bs, refl)
    ]
write_all_deadline-WroteFront (write_failed would_block_kind ∷ writes) (b ∷ bs) = tt
write_all_deadline-WroteFront (write_failed timed_out_kind ∷ writes) (b ∷ bs) = (b ∷ bs, refl)
write_all_deadline-WroteFront (write_failed interrupted_kind ∷ writes) (b ∷ bs) =
    write_all_deadline-WroteFront writes (b ∷ bs)
write_all_deadline-WroteFront (write_failed other_kind ∷ writes) (b ∷ bs) = (b ∷ bs, refl)

-- What `write_msg` makes of the message, and how far it has come on the socket.
abbrev pub Framed : List Write → Result (List ℕ) IoError → Option Written → Type 0
Framed writes (ok bytes) o = WroteFront bytes o
Framed writes (err e) o = o ≡ some (err (protocol payload_too_large), [], writes)

then_payload-WroteFront :
    (header payload : List ℕ) (o : Option Written)
    → WroteFront header o
    → WroteFront (header ++ payload) (then_payload payload o)
then_payload-WroteFront header payload none h = tt
then_payload-WroteFront header payload (some (ok u, wire, writes)) h =
    subst (λ l. WroteFront (l ++ payload) (then_payload payload (some (ok u, wire, writes)))) h
      (front_put wire payload _ (write_all_deadline-WroteFront writes payload))
then_payload-WroteFront header payload (some (err e, wire, writes)) (more, h) =
    (more ++ payload, sym (append_assoc wire more payload) ∙ ap (λ l. l ++ payload) h)

-- Whatever the socket takes at a time, and however often it would block or is interrupted: a success of
-- `write_msg_deadline` has put on the socket exactly the bytes of the server's `write_msg`, an error a
-- front of them, and a payload that `write_msg` refuses is refused with nothing written.
pub write_msg_deadline-Framed :
    (writes : List Write) (msg_type : ℕ) (payload : List ℕ)
    → Framed writes (write_msg msg_type payload) (write_msg_deadline writes msg_type payload)
unfolding write_msg write_msg_deadline
write_msg_deadline-Framed writes msg_type payload =
    elim (Bool-cases (ltb (2 ^ 32 - 1) (length payload))) [
      | inl large ↦ rw large refl
      | inr small ↦ rw small (
          then_payload-WroteFront (msg_type ∷ to_le_bytes 4 (length payload)) payload _
            (write_all_deadline-WroteFront writes (msg_type ∷ to_le_bytes 4 (length payload))))
    ]
