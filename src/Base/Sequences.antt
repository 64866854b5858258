-- ===== src/Base/Sequences.antt =====
-- Sorting, filtering and indexing of lists.
pub mod Sorted
use Prim.Native.Nat.{ℕ, zero, suc}
use mathlib.Core.Bool.{Bool}
use mathlib.Core.Option.{Option, none, some}
use mathlib.Core.List.{List, [], ◌∷◌}
use package.web_hooks.Base.Tests.{leb, if◌then◌else◌}

module _ {A : Type 0} where
  -- A stable sort by a key.
  unfoldable pub insert_by : (A → ℕ) → A → List A → List A
  insert_by key a [] = a ∷ []
  insert_by key a (b ∷ bs) =
      let rest = insert_by key a bs in if leb (key a) (key b) then a ∷ b ∷ bs else b ∷ rest

  unfoldable pub sort_by : (A → ℕ) → List A → List A
  unfolding insert_by
  sort_by key [] = []
  sort_by key (a ∷ as_) = insert_by key a (sort_by key as_)

  -- An index past the end raises.
  unfoldable pub nth : List A → ℕ → Option A
  nth [] i = none
  nth (a ∷ as_) zero = some a
  nth (a ∷ as_) (suc i) = nth as_ i

  unfoldable pub last? : List A → Option A
  last? [] = none
  last? (a ∷ []) = some a
  last? (a ∷ b ∷ bs) = last? (b ∷ bs)

  unfoldable pub filter : (A → Bool) → List A → List A
  filter p [] = []
  filter p (a ∷ as_) = let rest = filter p as_ in if p a then a ∷ rest else rest

  unfoldable pub drop : ℕ → List A → List A
  drop zero xs = xs
  drop (suc n) [] = []
  drop (suc n) (x ∷ xs) = drop n xs
