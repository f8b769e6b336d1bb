-- ===== src/Prelude/Find.antt =====
-- The iterator calls that the sources make on vectors: `position` with the element it finds, the
-- write through that index, `remove` of that index, `retain`, `filter().count()` and `sum`.
use Prim.Native.Nat.{ℕ, suc, ◌+◌}
use mathlib.Core.Bool.{Bool}
use mathlib.Core.Option.{Option, none, some}
use mathlib.Core.List.{List, [], ◌∷◌}
use vt_ferry.Prelude.Tests.{if◌then◌else◌}

module _ {ℓ} {A : Type ℓ} (p : A → Bool) where
  -- The element at the first position that passes the test.
  unfoldable pub find_first : List A → Option A
  find_first [] = none
  find_first (x ∷ xs) = if p x then some x else find_first xs

  -- A write to the element at the first position that passes the test.
  unfoldable pub modify_first : (A → A) → List A → List A
  modify_first f [] = []
  modify_first f (x ∷ xs) = if p x then f x ∷ xs else x ∷ modify_first f xs

  unfoldable pub remove_first : List A → List A
  remove_first [] = []
  remove_first (x ∷ xs) = if p x then xs else x ∷ remove_first xs

  unfoldable pub retain : List A → List A
  retain [] = []
  retain (x ∷ xs) = let rest = retain xs in if p x then x ∷ rest else rest

  unfoldable pub count_if : List A → ℕ
  count_if [] = 0
  count_if (x ∷ xs) = let rest = count_if xs in if p x then suc rest else rest

unfoldable pub sum_by {ℓ} : {A : Type ℓ} → (A → ℕ) → List A → ℕ
sum_by f [] = 0
sum_by f (x ∷ xs) = f x + sum_by f xs
