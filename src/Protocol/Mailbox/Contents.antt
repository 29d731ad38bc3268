-- ===== src/Protocol/Mailbox/Contents.antt =====
-- The two loops of `pop_matching_where` as functions of the list of used slots.
use thincan.Common.{
  ℕ, zero, suc, ◌+◌, ◌≤◌, ◌<◌, ◌≡◌, refl, ap, ◌∙◌, Bool, true, false, Option, none, some, List, [],
  ◌∷◌, ◌++◌, length, get_or, take, drop, arith, ◌==◌, if◌then◌else◌, drop-step, length-set, map,
  get_elem?,
}
use native.Mathlib.Nat.{zero-add, suc-add}
use mathlib.Core.Option
use thincan.Protocol.Mailbox.{MailboxSlot, empty_slot, find_loop, shift_loop}

-- The first element that passes a test, with its index counted from `i`.
abbrev pub first_index {ℓ} : {A : Type ℓ} → (A → Bool) → ℕ → List A → Option ℕ
first_index q i [] = none
first_index q i (x ∷ xs) = let rest = first_index q (suc i) xs in if q x then some i else rest

abbrev pub remove_at {ℓ} : {A : Type ℓ} → ℕ → List A → List A
remove_at j [] = []
remove_at zero (x ∷ xs) = xs
remove_at (suc j) (x ∷ xs) = x ∷ remove_at j xs

abbrev pub slot_matches : ℕ → (List ℕ → Bool) → MailboxSlot → Bool
slot_matches from predicate slot =
    if slot.from == from then predicate (take slot.len slot.body) else false

module _ (max_body : ℕ) where
  pub find_loop-first_index :
      (k i : ℕ) (slots : List MailboxSlot) (from : ℕ) (predicate : List ℕ → Bool)
      → i + k ≤ length slots
      → find_loop max_body k i slots from predicate
        ≡ first_index (slot_matches from predicate) i (take k (drop i slots))
  unfolding find_loop
  find_loop-first_index zero i slots from predicate h = refl
  find_loop-first_index (suc k) i slots from predicate h =
      rw (drop-step i slots (empty_slot max_body) (omega arith))
        (rw (find_loop-first_index k (suc i) slots from predicate (omega arith)) (ground arith))

  shift_loop-cons :
      (k j : ℕ) (x : MailboxSlot) (slots : List MailboxSlot)
      → shift_loop max_body k (suc j) (x ∷ slots) ≡ x ∷ shift_loop max_body k j slots
  unfolding shift_loop
  shift_loop-cons zero j x slots = refl
  shift_loop-cons (suc k) j x slots = shift_loop-cons k (suc j) x _

  -- The shift drops the slot at `j`, among the slots in use.
  shift_front :
      (k : ℕ) (x : MailboxSlot) (slots : List MailboxSlot)
      → k ≤ length slots
      → take k (shift_loop max_body k 0 (x ∷ slots)) ≡ take k slots
  unfolding shift_loop
  shift_front zero x slots h = refl
  shift_front (suc k) x [] h = absurd (omega arith)
  shift_front (suc k) x (y ∷ slots) h =
      ap (take (suc k)) (shift_loop-cons k 0 y (y ∷ slots))
      ∙ ap (λ l. y ∷ l) (shift_front k y slots (omega arith))

  pub shift_loop-remove_at :
      (j k : ℕ) (slots : List MailboxSlot)
      → j + k < length slots
      → take (j + k) (shift_loop max_body k j slots) ≡ remove_at j (take (suc (j + k)) slots)
  shift_loop-remove_at j k [] h = absurd (omega arith)
  shift_loop-remove_at zero k (x ∷ slots) h = rw zero-add (shift_front k x slots (omega arith))
  shift_loop-remove_at (suc j) k (x ∷ slots) h =
      rw shift_loop-cons
        (rw suc-add (ap (λ l. x ∷ l) (shift_loop-remove_at j k slots (omega arith))))

  pub length-shift_loop :
      (k j : ℕ) (slots : List MailboxSlot) → length (shift_loop max_body k j slots) ≡ length slots
  unfolding shift_loop
  length-shift_loop zero j slots = refl
  length-shift_loop (suc k) j slots =
      length-shift_loop k (suc j) _
      ∙ length-set slots j (get_or slots (suc j) (empty_slot max_body))

module _ {ℓ} {A : Type ℓ} (q : A → Bool) where
  pub first_index-suc :
      (i : ℕ) (xs : List A) → first_index q (suc i) xs ≡ Option.map suc (first_index q i xs)
  first_index-suc i [] = refl
  first_index-suc i (x ∷ xs) = ground (arith, first_index-suc (suc i) xs)

  pub first_index_bounds :
      (i j : ℕ) (xs : List A) → first_index q i xs ≡ some j → (i ≤ j) × (j < i + length xs)
  first_index_bounds i j [] e = cc
  first_index_bounds i j (x ∷ xs) e = ground (arith, first_index_bounds (suc i) j xs)

-- Takes the first element that passes a test out of a list.
unfoldable pub take_first {ℓ} : {A : Type ℓ} → (A → Bool) → List A → List A × Option A
take_first q [] = ([], none)
take_first q (x ∷ xs) =
    let (rest, found) = take_first q xs in if q x then (xs, some x) else (x ∷ rest, found)

module _ {ℓ} {A : Type ℓ} where
  abbrev pub pick : List A → Option ℕ → List A × Option A
  pick xs none = (xs, none)
  pick xs (some j) = (remove_at j xs, get_elem? xs j)

  pick-suc :
      (x : A) (xs : List A) (o : Option ℕ)
      → pick (x ∷ xs) (Option.map suc o) ≡ (x ∷ (pick xs o).0, (pick xs o).1)
  pick-suc x xs none = refl
  pick-suc x xs (some j) = refl

  pub take_first-pick :
      (q : A → Bool) (xs : List A) → take_first q xs ≡ pick xs (first_index q 0 xs)
  unfolding take_first
  take_first-pick q [] = refl
  take_first-pick q (x ∷ xs) =
      ground
        (arith, take_first-pick q xs, first_index-suc q 0 xs, pick-suc x xs (first_index q 0 xs))

-- Where nothing is found, nothing is taken.
pub take_first-none {ℓ} :
    {A : Type ℓ} (q : A → Bool) (xs : List A)
    → (take_first q xs).1 ≡ none
    → (take_first q xs).0 ≡ xs
unfolding take_first
take_first-none q [] e = refl
take_first-none q (x ∷ xs) e = ground (arith, take_first-none q xs)

-- An element behind a list without a match is found, if it matches.
pub take_first-append {ℓ} :
    {A : Type ℓ} (q : A → Bool) (xs : List A) (x : A)
    → (take_first q xs).1 ≡ none
    → q x ≡ true
    → take_first q (xs ++ (x ∷ [])) ≡ (xs, some x)
unfolding take_first
take_first-append q [] x e h = rw h
take_first-append q (y ∷ xs) x e h = ground (arith, take_first-append q xs x)

module _ {ℓ κ} {A : Type ℓ} {B : Type κ} (f : A → B) where
  pub first_index-map :
      (q : B → Bool) (i : ℕ) (xs : List A)
      → first_index q i (map f xs) ≡ first_index (λ x. q (f x)) i xs
  first_index-map q i [] = refl
  first_index-map q i (x ∷ xs) = rw (first_index-map q (suc i) xs)

  pub remove_at-map : (j : ℕ) (xs : List A) → remove_at j (map f xs) ≡ map f (remove_at j xs)
  remove_at-map j [] = refl
  remove_at-map zero (x ∷ xs) = refl
  remove_at-map (suc j) (x ∷ xs) = ap (λ l. f x ∷ l) (remove_at-map j xs)

  pub get_elem?-map :
      (j : ℕ) (xs : List A) (d : A)
      → j < length xs
      → get_elem? (map f xs) j ≡ some (f (get_or xs j d))
  get_elem?-map j [] d h = absurd (omega arith)
  get_elem?-map zero (x ∷ xs) d h = refl
  get_elem?-map (suc j) (x ∷ xs) d h = get_elem?-map j xs d (omega arith)
