-- ===== src/Protocol/Interface/Delivery.antt =====
-- From a sender's buffer to the receiver that waits for the message.
use mathlib.Core.Option
use thincan.Common.{
  ok_eq, ==_refl, ℕ, ◌+◌, ◌≤◌, ◌<◌, ◌^◌, ◌≡◌, refl, sym, ap, ap₂, subst, ◌∙◌, Bool, true, not,
  Option, none, some, List, [], ◌∷◌, ◌++◌, Result, ok, err, length, get_or, set, arith, ◌==◌,
  Option-cases, inl, inr, get_or-set_self,
}
use thincan.Protocol.Wire.{RawMessage}
use thincan.Protocol.Wire.RoundTrip.{wire, decode_wire-wire}
use thincan.Protocol.Maplet.{slot_for_id}
use thincan.Protocol.Maplet.Slots.{slot_for_id-lt}
use thincan.Protocol.Mailbox.{MailboxSlot, IngestError}
use thincan.Protocol.Mailbox.Contents.{take_first, take_first-none, take_first-append}
use thincan.Protocol.Mailbox.Queue.{message, matches}
use thincan.Protocol.Interface.{
  RxState, IngestOutcome, notified, ingest, recv_poll, recv_round, recv_loop, received,
  recv_next_capnp_from_where,
}
use thincan.Protocol.Interface.Ingest.{
  IsValidRx, queue, ingest-IsValidRx, ingest-Outcomes, ingest-wire, IsDelivered, Outcomes,
}
use thincan.Protocol.Interface.Receive.{
  HasNone, queue-recv_poll, poll_misses, recv_loop_misses, recv_poll-IsValidRx,
}

map-none {ℓ κ} :
    {A : Type ℓ} {B : Type κ} (f : A → B) (o : Option A) → Option.map f o ≡ none → o ≡ none
map-none f none e = refl
map-none f (some a) e = cc

received_state : (from id : ℕ) (r : RxState × Option MailboxSlot) → (received from id r).0 ≡ r.0
received_state from id (st, none) = refl
received_state from id (st, some s) = refl

received-none :
    (from id : ℕ) (r : RxState × Option MailboxSlot) → (received from id r).1 ≡ ok none → r.1 ≡ none
received-none from id (st, none) e = refl
received-none from id (st, some s) e = ground arith

received-some :
    (from id : ℕ) (body : List ℕ) (r : RxState × Option MailboxSlot)
    → Option.map message r.1 ≡ some (from, body)
    → (received from id r).1 ≡ ok (some (record { from = from; id = id; body = body }))
received-some from id body (st, none) e = cc
received-some from id body (st, some s) e = ground arith

module _ (ids : List ℕ) (max_body depth : ℕ) (id slot from : ℕ) (predicate : List ℕ → Bool) where
  -- A call on a valid state, for an id of the maplet, that still waits after all arrivals waits for
  -- something that is not there: no message in its queue is from its sender and accepted by its
  -- predicate.
  pub recv_next_waits :
      (arrivals : List (ℕ × List ℕ)) (st : RxState)
      → IsValidRx ids max_body depth st
      → slot_for_id ids id ≡ some slot
      → (recv_next_capnp_from_where ids max_body depth id from predicate true arrivals st).1
        ≡ ok none
      → HasNone ids max_body depth
          (recv_next_capnp_from_where ids max_body depth id from predicate true arrivals st).0
          slot
          from
          predicate
  unfolding recv_next_capnp_from_where
  recv_next_waits arrivals st v known e =
      let final = recv_loop ids max_body depth arrivals true st slot from predicate in
      rw (known, recv_next_capnp_from_where)
        (rw (received_state from id final) (
          recv_loop_misses ids max_body depth slot from predicate (slot_for_id-lt ids id slot known)
            arrivals true st v (λ x. cc)
            (received-none from id final (rw (known, recv_next_capnp_from_where) at e))))

  module _ (st : RxState) (body : List ℕ) (v : IsValidRx ids max_body depth st) (hid : id < 2 ^ 16)
      (known : slot_for_id ids id ≡ some slot)
      (fresh : HasNone ids max_body depth st slot from predicate) (wanted : predicate body ≡ true)
      (fits : length body ≤ max_body)
      (room : length (queue ids max_body depth st slot) < depth) where
    next : RxState
    next = (ingest ids max_body depth st from (wire id body)).0

    outcome : IngestOutcome
    outcome = record { from = from; id = id; len = length body }

    accepted : (ingest ids max_body depth st from (wire id body)).1 ≡ ok outcome
    unfolding outcome
    accepted =
        ingest-wire ids max_body depth st from (wire id body) v id slot body hid refl known
        ∙ ground arith

    delivered_of :
        (r : RxState × Result IngestOutcome IngestError)
        → r.1 ≡ ok outcome
        → Outcomes ids max_body depth st from (wire id body) r
        → IsDelivered ids max_body depth st r.0 from (wire id body) outcome
    delivered_of (s, err e) h o = cc
    delivered_of (s, ok x) h o =
        let same : x ≡ outcome = cc in
        subst (λ y. IsDelivered ids max_body depth st s from (wire id body) y) same o

    arrival : IsDelivered ids max_body depth st next from (wire id body) outcome
    unfolding next
    arrival =
        delivered_of (ingest ids max_body depth st from (wire id body)) accepted
          (ingest-Outcomes ids max_body depth st from (wire id body) v)

    at_slot : arrival.slot ≡ slot
    unfolding outcome
    at_slot = cc (arrival.known, known)

    same_body : arrival.body ≡ body
    unfolding outcome
    same_body =
        ap (λ (m : RawMessage). m.body) (ok_eq (sym arrival.decoded ∙ decode_wire-wire id body hid))

    queue-next :
        queue ids max_body depth next slot ≡ queue ids max_body depth st slot ++ ((from, body) ∷ [])
    queue-next =
        ap (queue ids max_body depth next) (sym at_slot)
        ∙ (rw (==_refl arrival.slot) at (arrival.queues arrival.slot))
        ∙ ap₂ (λ s b. queue ids max_body depth st s ++ ((from, b) ∷ [])) at_slot same_body

    bump : notified ids max_body depth next slot ≡ notified ids max_body depth st slot + 1
    bump =
        ap (λ n. get_or n slot 0) arrival.wakes
        ∙ ap (λ k. get_or (set st.notify k (notified ids max_body depth st k + 1)) slot 0) at_slot
        ∙ get_or-set_self st.notify slot _ 0
            (omega (arith, v.watches, slot_for_id-lt ids id slot known))

    next-IsValidRx : IsValidRx ids max_body depth next
    unfolding next
    next-IsValidRx = ingest-IsValidRx ids max_body depth st from (wire id body) v

    -- The next look of the receiver finds the message.
    found :
        Option.map message (recv_poll ids max_body depth next slot from predicate).1
        ≡ some (from, body)
    found =
        ap (λ (p : List (ℕ × List ℕ) × Option (ℕ × List ℕ)). p.1)
          (queue-recv_poll ids max_body depth next slot from predicate next-IsValidRx
              (slot_for_id-lt ids id slot known)
            ∙ ap (take_first (matches from predicate)) queue-next
            ∙ take_first-append (matches from predicate) _ (from, body) fresh (ground arith))

    -- So does one that looks before anything else arrives.
    woken_loop :
        (arrivals : List (ℕ × List ℕ))
        → Option.map message (recv_loop ids max_body depth arrivals true next slot from predicate).1
          ≡ some (from, body)
    unfolding recv_loop recv_round
    woken_loop [] = found
    woken_loop ((sender, payload) ∷ arrivals) =
        elim (Option-cases (recv_poll ids max_body depth next slot from predicate).1) [
          | inl miss ↦ cc (rw miss at found)
          | inr (s, hit) ↦ rw (hit, recv_loop) (rw hit at found)
        ]

    woken :
        not (notified ids max_body depth next slot == notified ids max_body depth st slot) ≡ true
    woken = ground (arith, bump)

  loop_delivers :
      (st : RxState) (body : List ℕ) (arrivals : List (ℕ × List ℕ))
      → IsValidRx ids max_body depth st
      → id < 2 ^ 16
      → slot_for_id ids id ≡ some slot
      → HasNone ids max_body depth st slot from predicate
      → predicate body ≡ true
      → length body ≤ max_body
      → length (queue ids max_body depth st slot) < depth
      → Option.map message
          (recv_loop ids max_body depth
            ((from, wire id body) ∷ arrivals)
            true
            st
            slot
            from
            predicate).1
        ≡ some (from, body)
  unfolding recv_loop recv_round next
  loop_delivers st body arrivals v hid known fresh wanted fits room =
      let lt = slot_for_id-lt ids id slot known in
      let looked = (recv_poll ids max_body depth st slot from predicate).0 in
      let spec = queue-recv_poll ids max_body depth st slot from predicate v lt in
      let same : queue ids max_body depth looked slot ≡ queue ids max_body depth st slot =
        ap (λ (p : List (ℕ × List ℕ) × Option (ℕ × List ℕ)). p.0) spec
        ∙ take_first-none (matches from predicate) _ fresh in
      let miss : (recv_poll ids max_body depth st slot from predicate).1 ≡ none =
        map-none message _
          (ap (λ (p : List (ℕ × List ℕ) × Option (ℕ × List ℕ)). p.1) spec ∙ fresh) in
      let w = recv_poll-IsValidRx ids max_body depth st slot from predicate v in
      let fresh' = poll_misses ids max_body depth slot from predicate lt st v miss in
      let room' : length (queue ids max_body depth looked slot) < depth = rw same room in
      rw (miss, recv_loop)
        (rw (woken looked body w hid known fresh' wanted fits room')
          (woken_loop looked body w hid known fresh' wanted fits room' arrivals))

  -- A call waits, on a valid state, for an id of the maplet, and its queue holds no match. When the
  -- wire form of a message with this id arrives from its sender, with a body that the predicate accepts,
  -- that is within the bound, while the queue has room, the call wakes and returns the sender, the id
  -- and the body, whatever arrives later.
  pub recv_next_delivers :
      (st : RxState) (body : List ℕ) (arrivals : List (ℕ × List ℕ))
      → IsValidRx ids max_body depth st
      → id < 2 ^ 16
      → slot_for_id ids id ≡ some slot
      → HasNone ids max_body depth st slot from predicate
      → predicate body ≡ true
      → length body ≤ max_body
      → length (queue ids max_body depth st slot) < depth
      → (recv_next_capnp_from_where ids max_body depth id from predicate true
          ((from, wire id body) ∷ arrivals)
          st).1
        ≡ ok (some (record { from = from; id = id; body = body }))
  unfolding recv_next_capnp_from_where
  recv_next_delivers st body arrivals v hid known fresh wanted fits room =
      rw (known, recv_next_capnp_from_where)
        (received-some from id body _
          (loop_delivers st body arrivals v hid known fresh wanted fits room))
