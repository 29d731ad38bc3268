-- ===== src/Common/Maps.antt =====
-- Maps with numbers as keys, `HashMap<u64, _>`: the entries in the order in which `values` gives them.
use Prim.Native.Nat.{ℕ}
use mathlib.Core.Path.{◌≡◌, refl, ◌∙◌, subst, ap₂}
use mathlib.Core.Logic.{◌≢◌, inl, inr}
use mathlib.Core.Bool.{false}
use mathlib.Core.List.{List, [], ◌∷◌}
use mathlib.Core.Option.{Option, none, some}
use native.Mathlib.Omega.{arith}
use thincan.Common.Tests.{◌==◌, if◌then◌else◌, Bool-cases, ==_refl, ne→==}
use thincan.Common.Lists.{All}
use thincan.Common.Results.{some_eq}

module _ {ℓ} {A : Type ℓ} where
  unfoldable pub lookup : ℕ → List (ℕ × A) → Option A
  lookup k [] = none
  lookup k ((k', a) ∷ m) = let rest = lookup k m in if k == k' then some a else rest

  unfoldable pub remove : ℕ → List (ℕ × A) → List (ℕ × A)
  remove k [] = []
  remove k ((k', a) ∷ m) = let rest = remove k m in if k == k' then rest else (k', a) ∷ rest

  unfoldable pub insert : ℕ → A → List (ℕ × A) → List (ℕ × A)
  insert k a m = (k, a) ∷ remove k m

  -- No key twice.
  abbrev pub Unique : List (ℕ × A) → Type ℓ
  Unique [] = Unit {ℓ}
  Unique ((k, a) ∷ m) = (lookup k m ≡ none) × Unique m

  pub lookup-remove_self : (k : ℕ) (m : List (ℕ × A)) → lookup k (remove k m) ≡ none
  unfolding lookup remove
  lookup-remove_self k [] = refl
  lookup-remove_self k ((k', a) ∷ m) = elim (Bool-cases (k == k')) [
    | inl e ↦ rw (e, remove) (lookup-remove_self k m)
    | inr e ↦ rw (e, remove) (rw e (lookup-remove_self k m))
  ]

  pub lookup-remove_ne : (k j : ℕ) (m : List (ℕ × A)) → k ≢ j → lookup k (remove j m) ≡ lookup k m
  unfolding lookup remove
  lookup-remove_ne k j [] h = refl
  lookup-remove_ne k j ((k', a) ∷ m) h = elim (Bool-cases (j == k')) [
    | inl e ↦
        let other : (k == k') ≡ false = ground arith in
        rw (e, remove) (rw (other, lookup) (lookup-remove_ne k j m h))
    | inr e ↦ rw (e, remove) (rw (lookup-remove_ne k j m h, lookup) refl)
  ]

  pub lookup-insert_self : (k : ℕ) (a : A) (m : List (ℕ × A)) → lookup k (insert k a m) ≡ some a
  unfolding lookup insert
  lookup-insert_self k a m = rw (==_refl k) refl

  pub lookup-insert_ne :
      (k j : ℕ) (a : A) (m : List (ℕ × A)) → k ≢ j → lookup k (insert j a m) ≡ lookup k m
  unfolding lookup insert
  lookup-insert_ne k j a m h = rw (ne→== k j h) (lookup-remove_ne k j m h)

  remove-none : (k j : ℕ) (m : List (ℕ × A)) → lookup k m ≡ none → lookup k (remove j m) ≡ none
  remove-none k j m h = elim (Bool-cases (k == j)) [
    | inl e ↦ let same : k ≡ j = ground arith in rw same (lookup-remove_self j m)
    | inr e ↦ lookup-remove_ne k j m (λ s. ground arith) ∙ h
  ]

  pub remove-Unique : (k : ℕ) (m : List (ℕ × A)) → Unique m → Unique (remove k m)
  unfolding remove
  remove-Unique k [] u = tt
  remove-Unique k ((k', a) ∷ m) (fresh, u) = elim (Bool-cases (k == k')) [
    | inl e ↦ rw (e, remove) (remove-Unique k m u)
    | inr e ↦ rw (e, remove) (remove-none k' k m fresh, remove-Unique k m u)
  ]

  pub insert-Unique : (k : ℕ) (a : A) (m : List (ℕ × A)) → Unique m → Unique (insert k a m)
  unfolding insert
  insert-Unique k a m u = (lookup-remove_self k m, remove-Unique k m u)

  pub remove-All {κ} :
      (P : ℕ × A → Type κ) (k : ℕ) (m : List (ℕ × A)) → All P m → All P (remove k m)
  unfolding remove
  remove-All P k [] h = tt
  remove-All P k ((k', a) ∷ m) (p, h) = elim (Bool-cases (k == k')) [
    | inl e ↦ rw (e, remove) (remove-All P k m h)
    | inr e ↦ rw (e, remove) (p, remove-All P k m h)
  ]

  -- The property of the entry that a key has.
  pub lookup-All {κ} :
      (P : ℕ × A → Type κ) (k : ℕ) (a : A) (m : List (ℕ × A))
      → All P m
      → lookup k m ≡ some a
      → P (k, a)
  unfolding lookup
  lookup-All P k a [] h e = cc
  lookup-All P k a ((k', b) ∷ m) (p, h) e = elim (Bool-cases (k == k')) [
    | inl same ↦
        let key : k' ≡ k = ground arith in
        let value : b ≡ a = some_eq (rw (same, lookup) at e) in
        subst (λ entry. P entry) (ap₂ (λ i c. (i, c)) key value) p
    | inr other ↦ lookup-All P k a m h (rw (other, lookup) at e)
  ]
