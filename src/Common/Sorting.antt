-- ===== src/Common/Sorting.antt =====
-- `Array.prototype.sort` with a comparator: a stable sort. A comparator's number is read by its
-- sign alone; NaN counts as zero.
use Prim.Native.Nat.{◌+◌, Ordering}
use mathlib.Core.Path.{◌≡◌, refl}
use mathlib.Core.Logic.{◌≢◌}
use mathlib.Core.Bool.{Bool}
use mathlib.Core.List.{List, [], ◌∷◌}
use native.Mathlib.Omega.{arith}
use codeweaknesses.Common.Tests.{if◌then◌else◌}
use codeweaknesses.Common.Lists.{All, count}

module _ {ℓ} {A : Type ℓ} (cmp : A → A → Ordering) where
  unfoldable pub insert_sorted : A → List A → List A
  insert_sorted x [] = x ∷ []
  insert_sorted x (y ∷ ys) =
      let later = insert_sorted x ys in elim (cmp x y) [ Ordering.gt ↦ y ∷ later | _ ↦ x ∷ y ∷ ys ]

  unfoldable pub sort : List A → List A
  unfolding insert_sorted
  sort [] = []
  sort (x ∷ xs) = insert_sorted x (sort xs)

  -- Sorting keeps how often each test holds, so it neither drops nor repeats an element.
  count-insert_sorted :
      (p : A → Bool) (x : A) (ys : List A)
      → count p (insert_sorted x ys) ≡ (if p x then 1 else 0) + count p ys
  unfolding insert_sorted
  count-insert_sorted p x [] = refl
  count-insert_sorted p x (y ∷ ys) = ground (arith, count-insert_sorted p x ys)

  pub count-sort : (p : A → Bool) (xs : List A) → count p (sort xs) ≡ count p xs
  unfolding sort
  count-sort p [] = refl
  count-sort p (x ∷ xs) = omega (arith, count-insert_sorted p x (sort xs), count-sort p xs)

  module _ {κ} (P : A → Type κ) where
    All-insert_sorted : (x : A) (ys : List A) → P x → All P ys → All P (insert_sorted x ys)
    unfolding insert_sorted
    All-insert_sorted x [] px h = (px, tt)
    All-insert_sorted x (y ∷ ys) px h = ground (arith, All-insert_sorted x ys px h.1)

    pub All-sort : (xs : List A) → All P xs → All P (sort xs)
    unfolding sort
    All-sort [] h = tt
    All-sort (x ∷ xs) h = All-insert_sorted x (sort xs) h.0 (All-sort xs h.1)

-- Every element stands in the relation to all that follow it.
abbrev pub IsOrdered {ℓ κ} : {A : Type ℓ} → (A → A → Type κ) → List A → Type κ
IsOrdered Le [] = Unit
IsOrdered Le (x ∷ xs) = All (Le x) xs × IsOrdered Le xs

-- A sort is ordered by a key relation that the comparator respects, whatever it does with ties.
module _ {ℓ κ} {A : Type ℓ} (cmp : A → A → Ordering) (Le : A → A → Type κ)
    (trans : (x y z : A) → Le x y → Le y z → Le x z)
    (after : (x y : A) → cmp x y ≡ Ordering.gt → Le y x)
    (before : (x y : A) → cmp x y ≢ Ordering.gt → Le x y) where
  All-Le_trans : (x y : A) (ys : List A) → Le x y → All (Le y) ys → All (Le x) ys
  All-Le_trans x y [] h hs = tt
  All-Le_trans x y (z ∷ zs) h hs = (trans x y z h hs.0, All-Le_trans x y zs h hs.1)

  insert_sorted-IsOrdered :
      (x : A) (ys : List A) → IsOrdered Le ys → IsOrdered Le (insert_sorted cmp x ys)
  unfolding insert_sorted
  insert_sorted-IsOrdered x [] h = (tt, tt)
  insert_sorted-IsOrdered x (y ∷ ys) h = ground (
    arith,
    after x y,
    before x y,
    λ (le : Le y x). All-insert_sorted cmp (Le y) x ys le h.0,
    insert_sorted-IsOrdered x ys h.1,
    λ (le : Le x y). All-Le_trans x y ys le h.0,
  )

  pub sort-IsOrdered : (xs : List A) → IsOrdered Le (sort cmp xs)
  unfolding sort
  sort-IsOrdered [] = tt
  sort-IsOrdered (x ∷ xs) = insert_sorted-IsOrdered x (sort cmp xs) (sort-IsOrdered xs)
