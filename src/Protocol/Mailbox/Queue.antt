-- ===== src/Protocol/Mailbox/Queue.antt =====
-- The mailbox as a queue of messages, each with its sender: `push` appends and `pop_matching_where`
-- takes the first message that matches out of the middle.
use mathlib.Core.Option
use native.Mathlib.Numerals.{add-one}
use native.Mathlib.Nat.{le_refl}
use thincan.Common.{
  ℕ, suc, ◌+◌, ◌-◌, ◌<◌, ◌≡◌, refl, sym, ap, ap₂, ◌∙◌, Bool, false, Option, none, some, List, [],
  ◌∷◌, ◌++◌, map, map-append, Result, ok, err, length, get_or, get_elem?, set, take, arith, ltb,
  ◌==◌, if◌then◌else◌, take-set, take-suc, take-append, get_or-set_self, get_or-take, length-set,
  length-map, length-take,
}
use thincan.Protocol.Mailbox.{
  IngestError, body_too_large, mailbox_full, MailboxSlot, TypeMailbox, empty_slot, filled, push,
  shift_loop, find_loop, pop_at, pop_matching_where,
}
use thincan.Protocol.Mailbox.Invariant.{IsValid}
use thincan.Protocol.Mailbox.Contents.{
  first_index, remove_at, slot_matches, find_loop-first_index, shift_loop-remove_at,
  first_index_bounds, take_first, pick, take_first-pick, first_index-map, remove_at-map,
  get_elem?-map,
}

-- A message with its sender.
abbrev pub Message : Type 0
Message = ℕ × List ℕ

abbrev pub message : MailboxSlot → Message
message slot = (slot.from, take slot.len slot.body)

abbrev pub contents : TypeMailbox → List Message
contents m = map message (take m.used m.slots)

abbrev pub matches : ℕ → (List ℕ → Bool) → Message → Bool
matches from predicate msg = if msg.0 == from then predicate msg.1 else false

sub_one_suc : (n : ℕ) → suc n - 1 ≡ n
sub_one_suc n = omega arith

module _ (max_body : ℕ) where
  -- What a bounded queue does with a message.
  abbrev pub post : ℕ → List Message → ℕ → List ℕ → List Message × Result (Unit {0}) IngestError
  post depth q from body =
      if ltb max_body (length body)
      then (q, err (body_too_large (length body) max_body))
      else if length q == depth
      then (q, err mailbox_full)
      else (q ++ ((from, body) ∷ []), ok tt)

  module _ (depth : ℕ) (m : TypeMailbox) (v : IsValid max_body depth m) where
    length-contents : length (contents m) ≡ m.used
    length-contents = omega (
      arith,
      v.depth_slots,
      v.used_slots,
      length-map (take m.used m.slots) message,
      length-take m.used m.slots,
    )

    contents-filled :
        (from : ℕ) (body : List ℕ)
        → m.used < depth
        → let slot = filled max_body (get_or m.slots m.used (empty_slot max_body)) from body in
          contents (record { slots = set m.slots m.used slot; used = m.used + 1 })
          ≡ contents m ++ ((from, body) ∷ [])
    contents-filled from body room =
        let slot = filled max_body (get_or m.slots m.used (empty_slot max_body)) from body in
        let new : List MailboxSlot = set m.slots m.used slot in
        let place : m.used < length m.slots = omega (arith, v.depth_slots) in
        rw (add-one m.used) (
          ap (map message) (
            take-suc m.used new (empty_slot max_body) (rw length-set place)
            ∙ ap₂ (λ l s. l ++ (s ∷ [])) (take-set m.used m.slots m.used slot (le_refl m.used))
                (get_or-set_self m.slots m.used slot (empty_slot max_body) place))
          ∙ map-append message (take m.used m.slots) (slot ∷ [])
          ∙ ap (λ b. contents m ++ ((from, b) ∷ [])) (take-append body _ refl))

    -- On a valid mailbox, `push` does to the queue of messages what a bounded queue does: it refuses a
    -- body over the bound, then a message to a full queue, with these errors and an unchanged queue,
    -- and otherwise appends the sender and the body.
    pub contents-push :
        (from : ℕ) (body : List ℕ)
        → (contents (push max_body depth m from body).0, (push max_body depth m from body).1)
          ≡ post depth (contents m) from body
    unfolding push
    contents-push from body =
        ground (arith, length-contents, contents-filled from body, v.used_slots)

    popped : ℕ → TypeMailbox
    popped idx = (pop_at max_body m (some idx)).0

    contents-popped : (idx : ℕ) → idx < m.used → contents (popped idx) ≡ remove_at idx (contents m)
    unfolding popped pop_at
    contents-popped idx h =
        let k : ℕ = m.used - (idx + 1) in
        ap (map message) (
          take-set (m.used - 1) (shift_loop max_body k idx m.slots) (m.used - 1)
            (empty_slot max_body) (le_refl _)
          ∙ shift idx k (omega arith))
        ∙ sym (remove_at-map message idx (take m.used m.slots))
      where
        shift :
            (j k : ℕ)
            → m.used ≡ suc (j + k)
            → take (m.used - 1) (shift_loop max_body k j m.slots)
              ≡ remove_at j (take m.used m.slots)
        shift j k e = rw e (
            rw (sub_one_suc (j + k)) (
              shift_loop-remove_at max_body j k m.slots
                (omega (arith, v.depth_slots, v.used_slots))))

    contents-pop_at :
        (o : Option ℕ)
        → ((j : ℕ) → o ≡ some j → j < m.used)
        → (contents (pop_at max_body m o).0, Option.map message (pop_at max_body m o).1)
          ≡ pick (contents m) o
    unfolding pop_at popped
    contents-pop_at none h = refl
    contents-pop_at (some idx) h =
        ap₂ (λ q r. (q, r)) (contents-popped idx (h idx refl)) (taken ∙ sym place)
      where
        used_front : List MailboxSlot
        used_front = take m.used m.slots

        place :
            get_elem? (contents m) idx ≡ some (message (get_or m.slots idx (empty_slot max_body)))
        place =
            get_elem?-map message idx used_front (empty_slot max_body)
              (omega (arith, h idx refl, length-contents, length-map used_front message))
            ∙ ap (λ s. some (message s))
                (get_or-take m.used m.slots idx (empty_slot max_body) (h idx refl))

        taken :
            Option.map message (pop_at max_body m (some idx)).1
            ≡ some (message (get_or m.slots idx (empty_slot max_body)))
        taken = refl

    -- The search, as an index among the used slots.
    found_index :
        (from : ℕ) (predicate : List ℕ → Bool)
        → find_loop max_body m.used 0 m.slots from predicate
          ≡ first_index (slot_matches from predicate) 0 (take m.used m.slots)
    found_index from predicate =
        find_loop-first_index max_body m.used 0 m.slots from predicate
          (omega (arith, v.depth_slots, v.used_slots))

    found_bound :
        (from : ℕ) (predicate : List ℕ → Bool) (j : ℕ)
        → find_loop max_body m.used 0 m.slots from predicate ≡ some j
        → j < m.used
    found_bound from predicate j e = omega (
      arith,
      first_index_bounds (slot_matches from predicate) 0 j (take m.used m.slots)
          (sym (found_index from predicate) ∙ e),
      length-contents,
      length-map (take m.used m.slots) message,
    )

    -- On a valid mailbox, `pop_matching_where` takes the first message of this sender that the
    -- predicate accepts out of the queue and keeps the order of the others; the queue stays as it is
    -- when no message matches.
    pub contents-pop_matching_where :
        (from : ℕ) (predicate : List ℕ → Bool)
        → (
          contents (pop_matching_where max_body m from predicate).0,
          Option.map message (pop_matching_where max_body m from predicate).1,
        )
          ≡ take_first (matches from predicate) (contents m)
    unfolding pop_matching_where
    contents-pop_matching_where from predicate =
        contents-pop_at _ (found_bound from predicate)
        ∙ ap (pick (contents m)) (
            found_index from predicate
            ∙ sym (first_index-map message (matches from predicate) 0 (take m.used m.slots)))
        ∙ sym (take_first-pick (matches from predicate) (contents m))
