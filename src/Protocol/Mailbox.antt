-- ===== src/Protocol/Mailbox.antt =====
-- thincan/src/lib.rs: `TypeMailbox`, the bounded mailbox of one message type. `DEPTH` and `MAX_BODY`
-- are the section's parameters. The predicate of `pop_matching_where` is a function of the body.
pub mod Contents
pub mod Invariant
pub mod Queue
use thincan.Common.{
  ℕ, zero, suc, ◌+◌, ◌-◌, Bool, Option, none, some, List, [], ◌++◌, Result, ok, err, length, get_or,
  set, take, drop, replicate, ltb, ◌==◌, if◌then◌else◌,
}

pub data IngestError : Type 0 where
  malformed_payload : IngestError
  unknown_id : (id : ℕ) → IngestError
  body_too_large : (got max : ℕ) → IngestError
  mailbox_full : IngestError

pub record MailboxSlot : Type 0 where
  pub from : ℕ
  pub len : ℕ
  pub body : List ℕ

pub record TypeMailbox : Type 0 where
  pub slots : List MailboxSlot
  pub used : ℕ

module _ (max_body : ℕ) where
  -- `MailboxSlot::empty`
  abbrev pub empty_slot : MailboxSlot
  empty_slot = record { from = 0; len = 0; body = replicate max_body 0 }

  unfoldable pub new_mailbox : ℕ → TypeMailbox
  new_mailbox depth = record { slots = replicate depth empty_slot; used = 0 }

  -- `copy_from_slice` into the front of the slot's array
  abbrev pub filled : MailboxSlot → ℕ → List ℕ → MailboxSlot
  filled slot from body = record {
    from = from;
    len = length body;
    body = body ++ drop (length body) slot.body;
  }

  unfoldable pub push : ℕ → TypeMailbox → ℕ → List ℕ → TypeMailbox × Result (Unit {0}) IngestError
  push depth m from body =
      if ltb max_body (length body)
      then (m, err (body_too_large (length body) max_body))
      else if m.used == depth
      then (m, err mailbox_full)
      else (
        record {
          slots = set m.slots m.used (filled (get_or m.slots m.used empty_slot) from body);
          used = m.used + 1;
        },
        ok tt,
      )

  -- The first loop of `pop_matching_where`, with `k` rounds left at index `i`.
  pub find_loop : ℕ → ℕ → List MailboxSlot → ℕ → (List ℕ → Bool) → Option ℕ
  find_loop zero i slots from predicate = none
  find_loop (suc k) i slots from predicate =
      let rest = find_loop k (suc i) slots from predicate in
      let slot = get_or slots i empty_slot in
      if slot.from == from
      then (if predicate (take slot.len slot.body) then some i else rest)
      else rest

  -- The second loop, with `k` rounds left at index `j`.
  pub shift_loop : ℕ → ℕ → List MailboxSlot → List MailboxSlot
  shift_loop zero j slots = slots
  shift_loop (suc k) j slots = shift_loop k (suc j) (set slots j (get_or slots (suc j) empty_slot))

  pub pop_at : TypeMailbox → Option ℕ → TypeMailbox × Option MailboxSlot
  unfolding shift_loop
  pop_at m none = (m, none)
  pop_at m (some idx) = (
    record {
      slots = set (shift_loop (m.used - (idx + 1)) idx m.slots) (m.used - 1) empty_slot;
      used = m.used - 1;
    },
    some (get_or m.slots idx empty_slot),
  )

  unfoldable pub pop_matching_where :
      TypeMailbox → ℕ → (List ℕ → Bool) → TypeMailbox × Option MailboxSlot
  unfolding find_loop pop_at
  pop_matching_where m from predicate = pop_at m (find_loop m.used 0 m.slots from predicate)
