-- ===== src/Protocol/Mailbox/Invariant.antt =====
-- The arrays of a mailbox keep their lengths, and no count or length points out of its array.
use thincan.Common.{
  ℕ, zero, suc, ◌+◌, ◌-◌, ◌≤◌, ◌≡◌, ◌∙◌, Option, none, some, List, length, get_or, drop, All, arith,
  ltb, ◌==◌, Bool, Bool-cases, inl, inr, length-set, length-append, length-replicate, length-drop,
  All-set, All-get_or, All-replicate,
}
use thincan.Protocol.Mailbox.{
  MailboxSlot, TypeMailbox, empty_slot, new_mailbox, filled, push, shift_loop, pop_at,
  pop_matching_where,
}
use thincan.Protocol.Mailbox.Contents.{length-shift_loop}

module _ (max_body : ℕ) where
  abbrev pub SlotFits : MailboxSlot → Type 0
  SlotFits slot = (length slot.body ≡ max_body) × (slot.len ≤ max_body)

  -- The arrays have their lengths, and no count or length points out of its array.
  pub record IsValid (depth : ℕ) (m : TypeMailbox) : Type 0 where
    pub depth_slots : length m.slots ≡ depth
    pub used_slots : m.used ≤ depth
    pub bodies : All SlotFits m.slots

  empty_slot-SlotFits : SlotFits (empty_slot max_body)
  empty_slot-SlotFits = (length-replicate max_body 0, omega arith)

  pub new_mailbox-IsValid : (depth : ℕ) → IsValid depth (new_mailbox max_body depth)
  unfolding new_mailbox
  new_mailbox-IsValid depth = record {
    depth_slots = length-replicate depth (empty_slot max_body);
    used_slots = omega arith;
    bodies = All-replicate SlotFits depth (empty_slot max_body) empty_slot-SlotFits;
  }

  shift_loop-SlotFits :
      (k j : ℕ) (slots : List MailboxSlot)
      → All SlotFits slots
      → All SlotFits (shift_loop max_body k j slots)
  unfolding shift_loop
  shift_loop-SlotFits zero j slots h = h
  shift_loop-SlotFits (suc k) j slots h = shift_loop-SlotFits k (suc j) _ (
      All-set SlotFits slots j _ h
        (All-get_or SlotFits slots (suc j) (empty_slot max_body) h empty_slot-SlotFits))

  module _ (depth : ℕ) (m : TypeMailbox) (v : IsValid depth m) where
    filled-SlotFits :
        (from : ℕ) (body : List ℕ)
        → length body ≤ max_body
        → SlotFits (filled max_body (get_or m.slots m.used (empty_slot max_body)) from body)
    filled-SlotFits from body h =
        let old = get_or m.slots m.used (empty_slot max_body) in
        let fits =
          All-get_or SlotFits m.slots m.used (empty_slot max_body) v.bodies empty_slot-SlotFits in
        (
          omega (
            arith,
            fits.0,
            length-append body (drop (length body) old.body),
            length-drop (length body) old.body,
          ),
          h,
        )

    -- `push` keeps a mailbox valid, whether it takes the message or not.
    pub push-IsValid :
        (from : ℕ) (body : List ℕ) → IsValid depth (push max_body depth m from body).0
    unfolding push
    push-IsValid from body = elim (Bool-cases (ltb max_body (length body))) [
      | inl large ↦ rw large v
      | inr small ↦ rw small (elim (Bool-cases (m.used == depth)) [
        | inl full ↦ rw full v
        | inr room ↦ rw room (record {
          depth_slots = length-set m.slots m.used _ ∙ v.depth_slots;
          used_slots = ground (arith, v.used_slots);
          bodies =
              All-set SlotFits m.slots m.used _ v.bodies (filled-SlotFits from body (ground arith));
        })
      ])
    ]

    pop_at-IsValid : (o : Option ℕ) → IsValid depth (pop_at max_body m o).0
    unfolding pop_at
    pop_at-IsValid none = v
    pop_at-IsValid (some idx) =
        let k : ℕ = m.used - (idx + 1) in
        let shifted : List MailboxSlot = shift_loop max_body k idx m.slots in
        record {
          depth_slots =
              length-set shifted (m.used - 1) (empty_slot max_body)
              ∙ length-shift_loop max_body k idx m.slots
              ∙ v.depth_slots;
          used_slots = omega (arith, v.used_slots);
          bodies =
              All-set SlotFits shifted (m.used - 1) (empty_slot max_body)
                (shift_loop-SlotFits k idx m.slots v.bodies) empty_slot-SlotFits;
        }

    -- `pop_matching_where` keeps a mailbox valid, whether it finds a message or not.
    pub pop_matching_where-IsValid :
        (from : ℕ) (predicate : List ℕ → Bool)
        → IsValid depth (pop_matching_where max_body m from predicate).0
    unfolding pop_matching_where
    pop_matching_where-IsValid from predicate = pop_at-IsValid _
