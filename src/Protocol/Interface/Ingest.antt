-- ===== src/Protocol/Interface/Ingest.antt =====
-- What `ingest` does to the mailboxes and to the receivers.
use thincan.Common.{
  ℕ, ◌+◌, ◌<◌, ◌^◌, ◌≡◌, ◌≢◌, refl, ap, ◌∙◌, some, List, [], ◌∷◌, ◌++◌, Result, ok, err, length,
  set, All, arith, ltb, ◌==◌, if◌then◌else◌, Bool-cases, Option-cases, Result-cases, inl, inr,
  length-set, All-set, All-get_or, All-replicate, length-replicate, get_or-set_self, get_or-set_ne,
}
use thincan.Protocol.Wire.{RawMessage, decode_wire}
use thincan.Protocol.Wire.RoundTrip.{wire, decode_wire-wire}
use thincan.Protocol.Maplet.{slot_for_id}
use thincan.Protocol.Maplet.Slots.{slot_for_id-lt}
use thincan.Protocol.Mailbox.{
  IngestError, body_too_large, mailbox_full, TypeMailbox, new_mailbox, push,
}
use thincan.Protocol.Mailbox.Invariant.{IsValid, push-IsValid, new_mailbox-IsValid}
use thincan.Protocol.Mailbox.Queue.{contents, post, contents-push}
use thincan.Protocol.Interface.{
  RxState, IngestOutcome, new_rx, mailbox, notified, after_push, ingest_body, ingest,
}

module _ (ids : List ℕ) (max_body depth : ℕ) where
  -- One valid mailbox and one `Watch` for each message id.
  pub record IsValidRx (st : RxState) : Type 0 where
    pub mailboxes : length st.by_type ≡ length ids
    pub watches : length st.notify ≡ length ids
    pub each : All (IsValid max_body depth) st.by_type

  -- The messages that wait in a slot.
  abbrev pub queue : RxState → ℕ → List (ℕ × List ℕ)
  queue st slot = contents (mailbox ids max_body depth st slot)

  pub mailbox-IsValid :
      (st : RxState) (slot : ℕ)
      → IsValidRx st
      → IsValid max_body depth (mailbox ids max_body depth st slot)
  mailbox-IsValid st slot v =
      All-get_or (IsValid max_body depth) st.by_type slot (new_mailbox max_body depth) v.each
        (new_mailbox-IsValid max_body depth)

  pub new_rx-IsValidRx : IsValidRx (new_rx ids max_body depth)
  unfolding new_rx
  new_rx-IsValidRx = record {
    mailboxes = length-replicate (length ids) _;
    watches = length-replicate (length ids) 0;
    each =
        All-replicate (IsValid max_body depth) (length ids) _ (new_mailbox-IsValid max_body depth);
  }

  after_push-IsValidRx :
      (st : RxState) (slot : ℕ) (outcome : IngestOutcome)
      (r : TypeMailbox × Result (Unit {0}) IngestError)
      → IsValidRx st
      → IsValid max_body depth r.0
      → IsValidRx (after_push ids max_body depth st slot outcome r).0
  after_push-IsValidRx st slot outcome (m, err e) v w = record {
    mailboxes = length-set st.by_type slot m ∙ v.mailboxes;
    watches = v.watches;
    each = All-set (IsValid max_body depth) st.by_type slot m v.each w;
  }
  after_push-IsValidRx st slot outcome (m, ok _) v w = record {
    mailboxes = length-set st.by_type slot m ∙ v.mailboxes;
    watches = length-set st.notify slot _ ∙ v.watches;
    each = All-set (IsValid max_body depth) st.by_type slot m v.each w;
  }

  -- Whatever payload is ingested, a valid state stays valid: one mailbox and one `Watch` for each
  -- message id, and every mailbox within its bounds.
  pub ingest-IsValidRx :
      (st : RxState) (from : ℕ) (payload : List ℕ)
      → IsValidRx st
      → IsValidRx (ingest ids max_body depth st from payload).0
  unfolding ingest ingest_body
  ingest-IsValidRx st from payload v = elim (Result-cases (decode_wire payload)) [
    | inr (e, bad) ↦ rw bad v
    | inl (raw, good) ↦ rw good (elim (Option-cases (slot_for_id ids raw.id)) [
      | inl unknown ↦ rw unknown v
      | inr (slot, known) ↦ rw known (
          after_push-IsValidRx st slot _ _ v
            (push-IsValid max_body depth _ (mailbox-IsValid st slot v) from raw.body))
    ])
  ]

  -- Nothing that a receiver can see has changed.
  pub record IsUnchanged (st st' : RxState) : Type 0 where
    pub queues : (j : ℕ) → queue st' j ≡ queue st j
    pub wakes : st'.notify ≡ st.notify

  -- One message has been appended to the queue of its slot, and that slot's receivers are woken.
  pub record IsDelivered (st st' : RxState) (from : ℕ) (payload : List ℕ) (outcome : IngestOutcome)
      : Type 0 where
    pub slot : ℕ
    pub body : List ℕ
    pub decoded : decode_wire payload ≡ ok (record { id = outcome.id; body = body })
    pub known : slot_for_id ids outcome.id ≡ some slot
    pub in_range : slot < length ids
    pub reported : (outcome.from ≡ from) × (outcome.len ≡ length body)
    pub queues :
        (j : ℕ)
        → queue st' j ≡ (if slot == j then queue st j ++ ((from, body) ∷ []) else queue st j)
    pub wakes : st'.notify ≡ set st.notify slot (notified ids max_body depth st slot + 1)

  abbrev pub Outcomes : RxState → ℕ → List ℕ → RxState × Result IngestOutcome IngestError → Type 0
  Outcomes st from payload (st', err e) = IsUnchanged st st'
  Outcomes st from payload (st', ok outcome) = IsDelivered st st' from payload outcome

  pub queue-set :
      (st : RxState) (slot : ℕ) (m : TypeMailbox)
      → slot < length st.by_type
      → queue (record st { by_type = set st.by_type slot m }) slot ≡ contents m
  queue-set st slot m h = ap contents (get_or-set_self st.by_type slot m _ h)

  queue-set_ne :
      (st : RxState) (slot j : ℕ) (m : TypeMailbox)
      → slot ≢ j
      → queue (record st { by_type = set st.by_type slot m }) j ≡ queue st j
  queue-set_ne st slot j m h = ap contents (get_or-set_ne st.by_type slot j m _ h)

  queue_same :
      (st : RxState) (slot : ℕ) (m : TypeMailbox)
      → slot < length st.by_type
      → contents m ≡ queue st slot
      → (j : ℕ) → queue (record st { by_type = set st.by_type slot m }) j ≡ queue st j
  queue_same st slot m h e j = elim (Bool-cases (slot == j)) [
    | inl same ↦ let at : slot ≡ j = ground arith in rw (← at) (queue-set st slot m h ∙ e)
    | inr other ↦ queue-set_ne st slot j m (ground arith)
  ]

  delivered_queue :
      (st : RxState) (slot j : ℕ) (m : TypeMailbox) (from : ℕ) (body : List ℕ)
      → slot < length st.by_type
      → contents m ≡ queue st slot ++ ((from, body) ∷ [])
      → queue (record st { by_type = set st.by_type slot m }) j
        ≡ (if slot == j then queue st j ++ ((from, body) ∷ []) else queue st j)
  delivered_queue st slot j m from body h e = elim (Bool-cases (slot == j)) [
    | inl same ↦ let at : slot ≡ j = ground arith in rw same (rw (← at) (queue-set st slot m h ∙ e))
    | inr other ↦ rw other (queue-set_ne st slot j m (ground arith))
  ]

  module _ (st : RxState) (from : ℕ) (payload : List ℕ) (v : IsValidRx st) where
    post_inv :
        (raw : RawMessage) (slot : ℕ) (r : TypeMailbox × Result (Unit {0}) IngestError)
        → decode_wire payload ≡ ok raw
        → slot_for_id ids raw.id ≡ some slot
        → (contents r.0, r.1) ≡ post max_body depth (queue st slot) from raw.body
        → Outcomes st from payload (
            after_push ids max_body depth st slot
              (record { from = from; id = raw.id; len = length raw.body })
              r)
    post_inv raw slot (m, err e) good known spec = record {
      queues =
          queue_same st slot m (omega (arith, v.mailboxes, slot_for_id-lt ids raw.id slot known))
            (ground arith);
      wakes = refl;
    }
    post_inv raw slot (m, ok t) good known spec = record {
      slot = slot;
      body = raw.body;
      decoded = good;
      known = known;
      in_range = slot_for_id-lt ids raw.id slot known;
      reported = (refl, refl);
      queues = λ j.
          delivered_queue st slot j m from raw.body
            (omega (arith, v.mailboxes, slot_for_id-lt ids raw.id slot known)) (ground arith);
      wakes = refl;
    }

    -- On a valid state, a payload is either refused, and then no queue changes and nobody is woken, or
    -- it decodes to a message of the maplet, and then this message joins the queue of its slot, the
    -- other queues stay as they are, and the receivers of that slot alone are woken.
    pub ingest-Outcomes : Outcomes st from payload (ingest ids max_body depth st from payload)
    unfolding ingest ingest_body
    ingest-Outcomes = elim (Result-cases (decode_wire payload)) [
      | inr (e, bad) ↦ rw bad (record { queues = λ j. refl; wakes = refl })
      | inl (raw, good) ↦ rw good (elim (Option-cases (slot_for_id ids raw.id)) [
        | inl unknown ↦ rw unknown (record { queues = λ j. refl; wakes = refl })
        | inr (slot, known) ↦ rw known (
            post_inv raw slot _ good known
              (contents-push max_body depth _ (mailbox-IsValid st slot v) from raw.body))
      ])
    ]

    -- On a valid state, the wire form of a message of the maplet is taken unless its body is over the
    -- bound or its queue holds as many messages as the depth. The first error reports the length and the
    -- bound, and success reports the sender, the id and the length.
    pub ingest-wire :
        (id slot : ℕ) (body : List ℕ)
        → id < 2 ^ 16
        → payload ≡ wire id body
        → slot_for_id ids id ≡ some slot
        → (ingest ids max_body depth st from payload).1 ≡ (
            if ltb max_body (length body)
            then err (body_too_large (length body) max_body)
            else if length (queue st slot) == depth
            then err mailbox_full
            else ok (record { from = from; id = id; len = length body }))
    unfolding ingest ingest_body
    ingest-wire id slot body h e known =
        rw (e, decode_wire-wire id body h)
          (rw known (
            result (push max_body depth (mailbox ids max_body depth st slot) from body)
              (contents-push max_body depth _ (mailbox-IsValid st slot v) from body)))
      where
        result :
            (r : TypeMailbox × Result (Unit {0}) IngestError)
            → (contents r.0, r.1) ≡ post max_body depth (queue st slot) from body
            → (after_push ids max_body depth st slot
                (record { from = from; id = id; len = length body })
                r).1
              ≡ (if ltb max_body (length body)
                  then err (body_too_large (length body) max_body)
                  else if length (queue st slot) == depth
                  then err mailbox_full
                  else ok (record { from = from; id = id; len = length body }))
        result (m, err x) spec = ground arith
        result (m, ok t) spec = ground arith
