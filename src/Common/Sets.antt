-- ===== src/Common/Sets.antt =====
-- `HashSet` as a list, and what is read out of one in order. A set's iteration order is not
-- relied on: its items are sorted before they leave it.
use Prim.Native.Nat.{ℕ, ◌≤◌}
use shinrai_trade.Common.Tests.{Eq, ◌==◌, if◌then◌else◌, leb, nat_eq}
use mathlib.Core.Path.{◌≡◌, refl}
use mathlib.Core.Bool.{Bool, false, ◌||◌}
use mathlib.Core.List.{List, [], ◌∷◌}
use native.Mathlib.Omega.{arith}

module _ {ℓ} {A : Type ℓ} ⦃e : Eq A⦄ where
  unfoldable pub member : A → List A → Bool
  member a [] = false
  member a (x ∷ xs) = x == a || member a xs

  unfoldable pub include : A → List A → List A
  include a xs = if member a xs then xs else a ∷ xs

  unfoldable pub exclude : A → List A → List A
  exclude a [] = []
  exclude a (x ∷ xs) = let rest = exclude a xs in if x == a then rest else x ∷ rest

  -- `into_iter().collect()` into a set.
  unfoldable pub collect : List A → List A
  collect [] = []
  collect (x ∷ xs) = include x (collect xs)

  pub member-include : (a b : A) (xs : List A) → member a (include b xs) ≡ (b == a || member a xs)
  unfolding include member
  member-include a b xs = ground (arith, e.beq_iff b a)

  pub member-exclude_self : (a : A) (xs : List A) → member a (exclude a xs) ≡ false
  unfolding exclude member
  member-exclude_self a [] = refl
  member-exclude_self a (x ∷ xs) = ground (arith, member-exclude_self a xs)

  pub member-collect : (a : A) (xs : List A) → member a (collect xs) ≡ member a xs
  unfolding collect member
  member-collect a [] = refl
  member-collect a (x ∷ xs) = ground (arith, member-include a x (collect xs), member-collect a xs)

-- `sort_by_key`, of numbers by themselves.
unfoldable pub place : ℕ → List ℕ → List ℕ
place a [] = a ∷ []
place a (x ∷ xs) = let rest = place a xs in if leb a x then a ∷ x ∷ xs else x ∷ rest

unfoldable pub sort : List ℕ → List ℕ
sort [] = []
sort (x ∷ xs) = place x (sort xs)

member-place : (a b : ℕ) (xs : List ℕ) → member a (place b xs) ≡ (nat_eq.beq b a || member a xs)
unfolding place member
member-place a b [] = refl
member-place a b (x ∷ xs) = ground (arith, member-place a b xs)

pub member-sort : (a : ℕ) (xs : List ℕ) → member a (sort xs) ≡ member a xs
unfolding sort member
member-sort a [] = refl
member-sort a (x ∷ xs) = ground (arith, member-place a x (sort xs), member-sort a xs)

-- The head is at most `b`'s follower.
abbrev pub From : ℕ → List ℕ → Type 0
From b [] = Unit
From b (x ∷ xs) = (b ≤ x) × From x xs

abbrev pub IsSorted : List ℕ → Type 0
IsSorted [] = Unit
IsSorted (x ∷ xs) = From x xs

place-From : (a b : ℕ) (xs : List ℕ) → b ≤ a → From b xs → From b (place a xs)
unfolding place
place-From a b [] h k = (h, tt)
place-From a b (x ∷ xs) h (k, s) = ground (arith, place-From a x xs)

place-IsSorted : (a : ℕ) (xs : List ℕ) → IsSorted xs → IsSorted (place a xs)
unfolding place
place-IsSorted a [] s = tt
place-IsSorted a (x ∷ xs) s = ground (arith, place-From a x xs)

pub sort-IsSorted : (xs : List ℕ) → IsSorted (sort xs)
unfolding sort
sort-IsSorted [] = tt
sort-IsSorted (x ∷ xs) = place-IsSorted x (sort xs) (sort-IsSorted xs)
