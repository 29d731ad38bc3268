-- ===== src/Protocol/Interface/Receive.antt =====
-- What a receiver gets, and that it never sleeps on a message it waits for.
use mathlib.Core.Option
use thincan.Common.{
  ℕ, ◌+◌, ◌<◌, ◌≡◌, refl, sym, ap, ◌∙◌, Bool, true, false, not, Option, none, List, [], ◌∷◌, Result,
  ok, err, length, get_or, set, arith, ◌==◌, Bool-cases, Option-cases, inl, inr, length-set,
  All-set, get_or-set_self,
}
use thincan.Protocol.Mailbox.{IngestError, pop_matching_where}
use thincan.Protocol.Mailbox.Invariant.{IsValid, pop_matching_where-IsValid}
use thincan.Protocol.Mailbox.Contents.{take_first, take_first-none}
use thincan.Protocol.Mailbox.Queue.{message, matches, contents-pop_matching_where}
use thincan.Protocol.Interface.{
  RxState, IngestOutcome, mailbox, notified, ingest, recv_poll, recv_round, recv_loop,
}
use thincan.Protocol.Interface.Ingest.{
  IsValidRx, mailbox-IsValid, queue, queue-set, ingest-IsValidRx, ingest-Outcomes, Outcomes,
}

module _ (ids : List ℕ) (max_body depth : ℕ) where
  module _ (st : RxState) (slot from : ℕ) (predicate : List ℕ → Bool)
      (v : IsValidRx ids max_body depth st) where
    pub recv_poll-IsValidRx :
        IsValidRx ids max_body depth (recv_poll ids max_body depth st slot from predicate).0
    unfolding recv_poll
    recv_poll-IsValidRx = record {
      mailboxes = length-set st.by_type slot _ ∙ v.mailboxes;
      watches = v.watches;
      each = All-set (IsValid max_body depth) st.by_type slot _ v.each (
          pop_matching_where-IsValid max_body depth _ (mailbox-IsValid ids max_body depth st slot v)
            from predicate);
    }

    -- One round takes the first message of this sender that the predicate accepts.
    pub queue-recv_poll :
        slot < length ids
        → (
          queue ids max_body depth (recv_poll ids max_body depth st slot from predicate).0 slot,
          Option.map message (recv_poll ids max_body depth st slot from predicate).1,
        )
          ≡ take_first (matches from predicate) (queue ids max_body depth st slot)
    unfolding recv_poll
    queue-recv_poll h =
        ap
          (λ q. (
            q,
            Option.map message
                (pop_matching_where max_body (mailbox ids max_body depth st slot) from predicate).1,
          ))
          (queue-set ids max_body depth st slot _ (omega (arith, v.mailboxes)))
        ∙ contents-pop_matching_where max_body depth _
            (mailbox-IsValid ids max_body depth st slot v) from predicate

  -- No message in the slot's queue is one that the receiver waits for.
  abbrev pub HasNone : RxState → ℕ → ℕ → (List ℕ → Bool) → Type 0
  HasNone st slot from predicate =
      (take_first (matches from predicate) (queue ids max_body depth st slot)).1 ≡ none

  not-false : {b : Bool} → not b ≡ false → b ≡ true
  not-false {b} e = ground arith

  -- An ingest that does not wake the slot leaves its queue alone.
  quiet_ingest :
      (st : RxState) (slot sender : ℕ) (payload : List ℕ)
      → IsValidRx ids max_body depth st
      → slot < length ids
      → let next = (ingest ids max_body depth st sender payload).0 in
        (notified ids max_body depth next slot == notified ids max_body depth st slot) ≡ true
        → queue ids max_body depth next slot ≡ queue ids max_body depth st slot
  quiet_ingest st slot sender payload v h =
      quiet (ingest ids max_body depth st sender payload)
        (ingest-Outcomes ids max_body depth st sender payload v)
    where
      quiet :
          (r : RxState × Result IngestOutcome IngestError)
          → Outcomes ids max_body depth st sender payload r
          → (notified ids max_body depth r.0 slot == notified ids max_body depth st slot) ≡ true
          → queue ids max_body depth r.0 slot ≡ queue ids max_body depth st slot
      quiet (next, err e) same woke = same.queues slot
      quiet (next, ok outcome) d woke = elim (Bool-cases (d.slot == slot)) [
        | inl same ↦
            let at : d.slot ≡ slot = ground arith in
            let bump : notified ids max_body depth next slot
                ≡ notified ids max_body depth st slot + 1 =
              ap (λ n. get_or n slot 0) d.wakes
              ∙ ap (λ k. get_or (set st.notify k (notified ids max_body depth st k + 1)) slot 0) at
              ∙ get_or-set_self st.notify slot _ 0 (omega (arith, v.watches)) in
            absurd (ground arith)
        | inr other ↦ rw other at (d.queues slot)
      ]

  module _ (slot from : ℕ) (predicate : List ℕ → Bool) (h : slot < length ids) where
    pub recv_round-IsValidRx :
        (woken : Bool) (st : RxState)
        → IsValidRx ids max_body depth st
        → IsValidRx ids max_body depth
            (recv_round ids max_body depth woken st slot from predicate).0
    unfolding recv_round
    recv_round-IsValidRx true st v = recv_poll-IsValidRx st slot from predicate v
    recv_round-IsValidRx false st v = v

    pub poll_misses :
        (st : RxState)
        → IsValidRx ids max_body depth st
        → (recv_poll ids max_body depth st slot from predicate).1 ≡ none
        → HasNone (recv_poll ids max_body depth st slot from predicate).0 slot from predicate
    poll_misses st v e =
        let q = queue ids max_body depth st slot in
        let found = queue-recv_poll st slot from predicate v h in
        let none_taken : (take_first (matches from predicate) q).1 ≡ none =
          sym (ap (λ (p : List (ℕ × List ℕ) × Option (ℕ × List ℕ)). p.1) found)
          ∙ ap (Option.map message) e in
        ap (λ l. (take_first (matches from predicate) l).1)
          (ap (λ (p : List (ℕ × List ℕ) × Option (ℕ × List ℕ)). p.0) found
            ∙ take_first-none (matches from predicate) q none_taken)
        ∙ none_taken

    pub round_misses :
        (woken : Bool) (st : RxState)
        → IsValidRx ids max_body depth st
        → (woken ≡ false → HasNone st slot from predicate)
        → (recv_round ids max_body depth woken st slot from predicate).1 ≡ none
        → HasNone (recv_round ids max_body depth woken st slot from predicate).0 slot from predicate
    unfolding recv_round
    round_misses true st v asleep e = poll_misses st v e
    round_misses false st v asleep e = asleep refl

    pub recv_loop_misses :
        (arrivals : List (ℕ × List ℕ)) (woken : Bool) (st : RxState)
        → IsValidRx ids max_body depth st
        → (woken ≡ false → HasNone st slot from predicate)
        → (recv_loop ids max_body depth arrivals woken st slot from predicate).1 ≡ none
        → HasNone
            (recv_loop ids max_body depth arrivals woken st slot from predicate).0
            slot
            from
            predicate
    unfolding recv_loop
    recv_loop_misses [] woken st v asleep e = round_misses woken st v asleep e
    recv_loop_misses ((sender, payload) ∷ arrivals) woken st v asleep e =
        elim (Option-cases (recv_round ids max_body depth woken st slot from predicate).1) [
          | inr (s, hit) ↦ cc (rw (hit, recv_loop) at e)
          | inl miss ↦
              let looked = (recv_round ids max_body depth woken st slot from predicate).0 in
              let w = recv_round-IsValidRx woken st v in
              rw (miss, recv_loop)
                (recv_loop_misses arrivals _ (ingest ids max_body depth looked sender payload).0
                  (ingest-IsValidRx ids max_body depth looked sender payload w)
                  (λ quiet.
                    ap (λ l. (take_first (matches from predicate) l).1)
                      (quiet_ingest looked slot sender payload w h (not-false quiet))
                    ∙ round_misses woken st v asleep miss)
                  (rw (miss, recv_loop) at e))
        ]
