-- ===== src/Protocol/Maplet/Slots.antt =====
-- The message ids of a maplet are those of its bundles in order, and slots and ids correspond.
use thincan.Common.{
  ℕ, zero, suc, ◌+◌, ◌<◌, ◌≡◌, refl, ap, ◌∙◌, ◌↔◌, true, false, some, List, [], ◌∷◌, ◌++◌,
  append_assoc, append-nil, length, length-append, get_elem?, set, replicate, arith, ◌==◌,
  Bool-cases, inl, inr, length-replicate,
}
use native.Mathlib.Nat.{zero-add, suc-add}
use thincan.Protocol.Maplet.{
  slot_loop, slot_for_id, message_count, copy_ids, copy_bundles, message_ids, equals_later,
  has_duplicate, maplet_ids,
}

-- The ids of all bundles, in order.
abbrev pub joined : List (List ℕ) → List ℕ
joined [] = []
joined (ids ∷ bundles) = ids ++ joined bundles

abbrev zeros : ℕ → List ℕ
zeros n = replicate n 0

set-append :
    (front rest : List ℕ) (x y : ℕ)
    → set (front ++ (y ∷ rest)) (length front) x ≡ front ++ (x ∷ rest)
set-append [] rest x y = refl
set-append (z ∷ front) rest x y = ap (λ l. z ∷ l) (set-append front rest x y)

-- Ids copied behind `front` overwrite as many entries.
copy_ids_lem :
    (front ids old rest : List ℕ) (at : ℕ)
    → at ≡ length front
    → length old ≡ length ids
    → copy_ids (front ++ (old ++ rest)) at ids ≡ (front ++ ids) ++ rest
unfolding copy_ids
copy_ids_lem front [] [] rest at e l = rw append-nil
copy_ids_lem front [] (y ∷ old) rest at e l = absurd (omega arith)
copy_ids_lem front (x ∷ ids) [] rest at e l = absurd (omega arith)
copy_ids_lem front (x ∷ ids) (y ∷ old) rest at e l = rw e (
    rw (set-append front (old ++ rest) x y) (
      rw (← append_assoc front (x ∷ []) (old ++ rest)) (
        copy_ids_lem (front ++ (x ∷ [])) ids old rest _
          (omega (arith, length-append front (x ∷ []))) (omega arith)
        ∙ ap (λ l. l ++ rest) (append_assoc front (x ∷ []) ids))))

zeros-add : (m n : ℕ) → zeros (m + n) ≡ zeros m ++ zeros n
zeros-add zero n = rw zero-add
zeros-add (suc m) n = rw suc-add (ap (λ l. 0 ∷ l) (zeros-add m n))

copy_bundles_lem :
    (front : List ℕ) (bundles : List (List ℕ)) (at : ℕ)
    → at ≡ length front
    → copy_bundles (front ++ zeros (message_count bundles)) at bundles ≡ front ++ joined bundles
unfolding copy_bundles message_count
copy_bundles_lem front [] at e = refl
copy_bundles_lem front (ids ∷ bundles) at e = rw (zeros-add (length ids) (message_count bundles)) (
    rw
      (copy_ids_lem front ids (zeros (length ids)) (zeros (message_count bundles)) at e
        (length-replicate (length ids) 0))
      (copy_bundles_lem (front ++ ids) bundles _ (omega (arith, length-append front ids))
        ∙ append_assoc front ids (joined bundles)))

-- `MESSAGE_IDS`, which is filled by index, holds the ids of the bundles in the order in which they are
-- named.
pub message_ids-joined : (bundles : List (List ℕ)) → message_ids bundles ≡ joined bundles
unfolding message_ids
message_ids-joined bundles = copy_bundles_lem [] bundles 0 refl

-- A slot that is found holds the id.
slot_loop-get :
    (ids : List ℕ) (i id s : ℕ)
    → slot_loop ids i id ≡ some s
    → (j : ℕ) × (s ≡ i + j) × (get_elem? ids j ≡ some id)
unfolding slot_loop
slot_loop-get [] i id s e = cc
slot_loop-get (x ∷ ids) i id s e = elim (Bool-cases (x == id)) [
  | inl here ↦ (0, ground arith, ground arith)
  | inr later ↦
      let (j, place, found) = slot_loop-get ids (i + 1) id s (rw later at e) in
      (suc j, omega arith, found)
]

equals_later-get :
    (x : ℕ) (ids : List ℕ) (j : ℕ) → get_elem? ids j ≡ some x → equals_later x ids ≡ true
unfolding equals_later
equals_later-get x [] j e = cc
equals_later-get x (y ∷ ids) zero e = ground arith
equals_later-get x (y ∷ ids) (suc j) e = ground (arith, equals_later-get x ids j)

-- Without duplicates, the slot of an id is the place where it stands.
slot_loop-place :
    (ids : List ℕ) (i id j : ℕ)
    → has_duplicate ids ≡ false
    → get_elem? ids j ≡ some id
    → slot_loop ids i id ≡ some (i + j)
unfolding slot_loop has_duplicate
slot_loop-place [] i id j d e = cc
slot_loop-place (x ∷ ids) i id zero d e = ground arith
slot_loop-place (x ∷ ids) i id (suc j) d e =
    ground (arith, slot_loop-place ids (i + 1) id j, equals_later-get id ids j)

get_elem?-lt : (ids : List ℕ) (j id : ℕ) → get_elem? ids j ≡ some id → j < length ids
get_elem?-lt [] j id e = cc
get_elem?-lt (x ∷ ids) zero id e = omega arith
get_elem?-lt (x ∷ ids) (suc j) id e = omega (arith, get_elem?-lt ids j id e)

-- A slot is an index of a mailbox.
pub slot_for_id-lt : (ids : List ℕ) (id s : ℕ) → slot_for_id ids id ≡ some s → s < length ids
unfolding slot_for_id
slot_for_id-lt ids id s e =
    let (j, place, at) = slot_loop-get ids 0 id s e in omega (arith, get_elem?-lt ids j id at)

-- In a maplet that compiles, the slot of an id is `s` exactly when the id stands at place `s` among
-- the ids of its bundles: no two ids share a slot, every id of a bundle has one, and no other id has.
pub slot_for_id-maplet_ids :
    (bundles : List (List ℕ)) (ids : List ℕ) (id s : ℕ)
    → maplet_ids bundles ≡ some ids
    → (slot_for_id ids id ≡ some s) ↔ (get_elem? (joined bundles) s ≡ some id)
unfolding slot_for_id maplet_ids
slot_for_id-maplet_ids bundles ids id s e =
    elim (Bool-cases (has_duplicate (message_ids bundles))) [
      | inl twice ↦ cc (rw twice at e)
      | inr once ↦
          let same : message_ids bundles ≡ ids = ground (arith, once, e) in
          rw (← message_ids-joined bundles) (
            rw same (
              λ found.
                  let (j, place, at) = slot_loop-get ids 0 id s found in rw place (rw zero-add at),
              λ at. rw (slot_loop-place ids 0 id s (rw same at once) at) (rw zero-add),
            ))
    ]
