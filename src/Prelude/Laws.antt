-- ===== src/Prelude/Laws.antt =====
-- The laws of the vector operations in `Find`: lengths, sums, lookups and predicates over all elements.
use Prim.Native.Nat.{ℕ, ◌+◌, ◌≤◌}
use mathlib.Core.Path.{◌≡◌, refl, subst}
use mathlib.Core.Logic.{inl, inr}
use mathlib.Core.Bool.{Bool, true, not}
use mathlib.Core.Option.{some, some-injective}
use mathlib.Core.List.{List, [], ◌∷◌, ◌++◌}
use native.Mathlib.Omega.{arith}
use vt_ferry.Prelude.Tests.{Bool-cases}
use vt_ferry.Prelude.Lists.{length}
use vt_ferry.Prelude.Find.{find_first, modify_first, remove_first, retain, sum_by}

module _ {ℓ} {A : Type ℓ} where
  abbrev pub All {κ} : (A → Type κ) → List A → Type κ
  All P [] = Unit
  All P (x ∷ xs) = P x × All P xs

  pub All-append {κ} :
      (P : A → Type κ) (xs : List A) (y : A) → All P xs → P y → All P (xs ++ y ∷ [])
  All-append P [] y h k = (k, tt)
  All-append P (x ∷ xs) y h k = (h.0, All-append P xs y h.1 k)

  pub All-map {κ μ} :
      (P : A → Type κ) (Q : A → Type μ) (xs : List A) → ((x : A) → P x → Q x) → All P xs → All Q xs
  All-map P Q [] f h = tt
  All-map P Q (x ∷ xs) f h = (f x h.0, All-map P Q xs f h.1)

  pub All-modify_first {κ} :
      (P : A → Type κ) (p : A → Bool) (f : A → A) (xs : List A)
      → ((x : A) → P x → P (f x))
      → All P xs
      → All P (modify_first p f xs)
  unfolding modify_first
  All-modify_first P p f [] k h = tt
  All-modify_first P p f (x ∷ xs) k h = elim (Bool-cases (p x)) [
    | inl e ↦ rw e (k x h.0, h.1)
    | inr e ↦ rw e (h.0, All-modify_first P p f xs k h.1)
  ]

  pub All-retain {κ} :
      (P : A → Type κ) (p : A → Bool) (xs : List A) → All P xs → All P (retain p xs)
  unfolding retain
  All-retain P p [] h = tt
  All-retain P p (x ∷ xs) h = elim (Bool-cases (p x)) [
    | inl e ↦ rw e (h.0, All-retain P p xs h.1)
    | inr e ↦ rw e (All-retain P p xs h.1)
  ]

  pub All-remove_first {κ} :
      (P : A → Type κ) (p : A → Bool) (xs : List A) → All P xs → All P (remove_first p xs)
  unfolding remove_first
  All-remove_first P p [] h = tt
  All-remove_first P p (x ∷ xs) h = elim (Bool-cases (p x)) [
    | inl e ↦ rw e h.1
    | inr e ↦ rw e (h.0, All-remove_first P p xs h.1)
  ]

  -- What all elements have, the found one has.
  pub All-find_first {κ} :
      (P : A → Type κ) (p : A → Bool) (xs : List A) {x : A}
      → All P xs
      → find_first p xs ≡ some x
      → P x
  unfolding find_first
  All-find_first P p [] h e = cc
  All-find_first P p (y ∷ xs) h e = elim (Bool-cases (p y)) [
    | inl t ↦ subst P (some-injective _ _ (rw t at e)) h.0
    | inr t ↦ All-find_first P p xs h.1 (rw t at e)
  ]

  pub find_first-holds :
      (p : A → Bool) (xs : List A) {x : A} → find_first p xs ≡ some x → p x ≡ true
  unfolding find_first
  find_first-holds p [] e = cc
  find_first-holds p (y ∷ xs) {x} e = ground (arith, find_first-holds p xs {x = x})

  pub find_first-append :
      (p : A → Bool) (xs ys : List A) {x : A}
      → find_first p xs ≡ some x
      → find_first p (xs ++ ys) ≡ some x
  unfolding find_first
  find_first-append p [] ys e = cc
  find_first-append p (y ∷ xs) ys {x} e = ground (arith, find_first-append p xs ys {x = x})

  -- What is written to the found element is found there.
  pub find_first-modify_self :
      (p : A → Bool) (f : A → A) (xs : List A) {x : A}
      → find_first p xs ≡ some x
      → p (f x) ≡ true
      → find_first p (modify_first p f xs) ≡ some (f x)
  unfolding find_first modify_first
  find_first-modify_self p f [] e k = cc
  find_first-modify_self p f (y ∷ xs) {x} e k =
      ground (arith, find_first-modify_self p f xs {x = x})

  -- A found element that a filter keeps is found behind the filter.
  pub find_first-retain :
      (p q : A → Bool) (xs : List A) {x : A}
      → find_first p xs ≡ some x
      → q x ≡ true
      → find_first p (retain q xs) ≡ some x
  unfolding find_first retain
  find_first-retain p q [] e k = cc
  find_first-retain p q (y ∷ xs) {x} e k = ground (arith, find_first-retain p q xs {x = x})

  pub length-modify_first :
      (p : A → Bool) (f : A → A) (xs : List A) → length (modify_first p f xs) ≡ length xs
  unfolding modify_first
  length-modify_first p f [] = refl
  length-modify_first p f (x ∷ xs) = ground (arith, length-modify_first p f xs)

  pub length-retain-le : (p : A → Bool) (xs : List A) → length (retain p xs) ≤ length xs
  unfolding retain
  length-retain-le p [] = omega arith
  length-retain-le p (x ∷ xs) = ground (arith, length-retain-le p xs)

  pub length-remove_first-le : (p : A → Bool) (xs : List A) → length (remove_first p xs) ≤ length xs
  unfolding remove_first
  length-remove_first-le p [] = omega arith
  length-remove_first-le p (x ∷ xs) = ground (arith, length-remove_first-le p xs)

  pub sum_by-append :
      (f : A → ℕ) (xs : List A) (y : A) → sum_by f (xs ++ y ∷ []) ≡ sum_by f xs + f y
  unfolding sum_by
  sum_by-append f [] y = omega arith
  sum_by-append f (x ∷ xs) y = omega (arith, sum_by-append f xs y)

  pub sum_by-modify_first :
      (f : A → ℕ) (p : A → Bool) (g : A → A) (xs : List A)
      → ((x : A) → f (g x) ≡ f x)
      → sum_by f (modify_first p g xs) ≡ sum_by f xs
  unfolding sum_by modify_first
  sum_by-modify_first f p g [] k = refl
  sum_by-modify_first f p g (x ∷ xs) k = ground (arith, k x, sum_by-modify_first f p g xs k)

  -- A filter and its complement share the sum.
  pub sum_by-retain :
      (f : A → ℕ) (p : A → Bool) (xs : List A)
      → sum_by f (retain p xs) + sum_by f (retain (λ x. not (p x)) xs) ≡ sum_by f xs
  unfolding sum_by retain
  sum_by-retain f p [] = omega arith
  sum_by-retain f p (x ∷ xs) = ground (arith, sum_by-retain f p xs)

  pub sum_by-remove_first :
      (f : A → ℕ) (p : A → Bool) (xs : List A) {x : A}
      → find_first p xs ≡ some x
      → f x + sum_by f (remove_first p xs) ≡ sum_by f xs
  unfolding sum_by remove_first find_first
  sum_by-remove_first f p [] e = cc
  sum_by-remove_first f p (y ∷ xs) {x} e = ground (arith, sum_by-remove_first f p xs {x = x})
