-- ===== src/Protocol/Maplet.antt =====
-- thincan/src/lib.rs: `MapletSpec::slot_for_id`, and the constants that `maplet!` builds from the
-- bundles of a maplet. A bundle is the list of its message ids.
pub mod Slots
use thincan.Common.{
  ℕ, suc, ◌+◌, Bool, true, false, Option, none, some, List, [], ◌∷◌, length, set, replicate, ◌==◌,
  if◌then◌else◌,
}

-- The scan of `MESSAGE_IDS` from index `i` on.
slot_loop : List ℕ → ℕ → ℕ → Option ℕ
slot_loop [] i id = none
slot_loop (x ∷ ids) i id = if x == id then some i else slot_loop ids (i + 1) id

unfoldable pub slot_for_id : List ℕ → ℕ → Option ℕ
unfolding slot_loop
slot_for_id message_ids id = slot_loop message_ids 0 id

-- `MESSAGE_COUNT`
message_count : List (List ℕ) → ℕ
message_count [] = 0
message_count (ids ∷ bundles) = length ids + message_count bundles

-- The inner loop: the ids of one bundle go to `out` from index `at` on.
copy_ids : List ℕ → ℕ → List ℕ → List ℕ
copy_ids out at [] = out
copy_ids out at (x ∷ ids) = copy_ids (set out at x) (at + 1) ids

copy_bundles : List ℕ → ℕ → List (List ℕ) → List ℕ
copy_bundles out at [] = out
copy_bundles out at (ids ∷ bundles) = copy_bundles (copy_ids out at ids) (at + length ids) bundles

-- `MESSAGE_IDS`
pub message_ids : List (List ℕ) → List ℕ
unfolding message_count copy_ids copy_bundles
message_ids bundles = copy_bundles (replicate (message_count bundles) 0) 0 bundles

-- The two loops of the duplicate check, over the ids behind `i` and over every `i`.
equals_later : ℕ → List ℕ → Bool
equals_later x [] = false
equals_later x (y ∷ ids) = if x == y then true else equals_later x ids

pub has_duplicate : List ℕ → Bool
unfolding equals_later
has_duplicate [] = false
has_duplicate (x ∷ ids) = if equals_later x ids then true else has_duplicate ids

-- The message ids of a maplet over bundles; `none` is the panic at compile time.
unfoldable pub maplet_ids : List (List ℕ) → Option (List ℕ)
unfolding message_ids has_duplicate
maplet_ids bundles =
    if has_duplicate (message_ids bundles) then none else some (message_ids bundles)
