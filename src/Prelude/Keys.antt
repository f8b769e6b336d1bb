-- ===== src/Prelude/Keys.antt =====
-- Vectors whose elements were pushed under growing numbers: the numbers are distinct, and below the
-- next one.
use Prim.Native.Nat.{ℕ, ◌+◌, ◌≤◌, ◌<◌}
use mathlib.Core.Path.{◌≡◌, refl}
use mathlib.Core.Logic.{inl, inr}
use mathlib.Core.Bool.{Bool, true}
use mathlib.Core.Option.{some}
use mathlib.Core.List.{List, [], ◌∷◌, ◌++◌}
use native.Mathlib.Omega.{arith}
use vt_ferry.Prelude.Tests.{◌==◌, Bool-cases}
use vt_ferry.Prelude.Find.{find_first, modify_first, remove_first, retain}

module _ {ℓ} {A : Type ℓ} (key : A → ℕ) where
  -- The keys of the list rise, from `lo` on, and stay below `hi`.
  abbrev pub Rising : ℕ → List A → ℕ → Type 0
  Rising lo [] hi = lo ≤ hi
  Rising lo (x ∷ xs) hi = (lo ≤ key x) × Rising (key x + 1) xs hi

  pub Rising-le : (lo : ℕ) (xs : List A) (hi : ℕ) → Rising lo xs hi → lo ≤ hi
  Rising-le lo [] hi h = h
  Rising-le lo (x ∷ xs) hi h = omega (arith, Rising-le (key x + 1) xs hi h.1)

  pub Rising-lower :
      (lo lo' : ℕ) (xs : List A) (hi : ℕ) → lo' ≤ lo → Rising lo xs hi → Rising lo' xs hi
  Rising-lower lo lo' [] hi k h = omega arith
  Rising-lower lo lo' (x ∷ xs) hi k h = (omega arith, h.1)

  pub Rising-raise :
      (lo : ℕ) (xs : List A) (hi hi' : ℕ) → hi ≤ hi' → Rising lo xs hi → Rising lo xs hi'
  Rising-raise lo [] hi hi' k h = omega arith
  Rising-raise lo (x ∷ xs) hi hi' k h = (h.0, Rising-raise (key x + 1) xs hi hi' k h.1)

  pub Rising-append :
      (lo : ℕ) (xs : List A) (y : A) (hi : ℕ)
      → Rising lo xs (key y)
      → key y < hi
      → Rising lo (xs ++ y ∷ []) hi
  Rising-append lo [] y hi h k = (h, omega arith)
  Rising-append lo (x ∷ xs) y hi h k = (h.0, Rising-append (key x + 1) xs y hi h.1 k)

  pub Rising-modify_first :
      (p : A → Bool) (f : A → A) (lo : ℕ) (xs : List A) (hi : ℕ)
      → ((x : A) → p x ≡ true → key (f x) ≡ key x)
      → Rising lo xs hi
      → Rising lo (modify_first p f xs) hi
  unfolding modify_first
  Rising-modify_first p f lo [] hi k h = h
  Rising-modify_first p f lo (x ∷ xs) hi k h =
      ground (arith, k x, Rising-modify_first p f (key x + 1) xs hi k h.1)

  pub Rising-retain :
      (p : A → Bool) (lo : ℕ) (xs : List A) (hi : ℕ) → Rising lo xs hi → Rising lo (retain p xs) hi
  unfolding retain
  Rising-retain p lo [] hi h = h
  Rising-retain p lo (x ∷ xs) hi h =
      let rest = Rising-retain p (key x + 1) xs hi h.1 in
      elim (Bool-cases (p x)) [
        | inl e ↦ rw e (h.0, rest)
        | inr e ↦ rw e (Rising-lower (key x + 1) lo (retain p xs) hi (omega arith) rest)
      ]

  pub Rising-remove_first :
      (p : A → Bool) (lo : ℕ) (xs : List A) (hi : ℕ)
      → Rising lo xs hi
      → Rising lo (remove_first p xs) hi
  unfolding remove_first
  Rising-remove_first p lo [] hi h = h
  Rising-remove_first p lo (x ∷ xs) hi h = elim (Bool-cases (p x)) [
    | inl e ↦ rw e (Rising-lower (key x + 1) lo xs hi (omega arith) h.1)
    | inr e ↦ rw e (h.0, Rising-remove_first p (key x + 1) xs hi h.1)
  ]

  -- A found element lies in the range.
  pub Rising-found :
      (p : A → Bool) (lo : ℕ) (xs : List A) (hi : ℕ) {x : A}
      → Rising lo xs hi
      → find_first p xs ≡ some x
      → (lo ≤ key x) × (key x < hi)
  unfolding find_first
  Rising-found p lo [] hi h e = cc
  Rising-found p lo (y ∷ xs) hi {x} h e =
      ground (arith, Rising-found p (key y + 1) xs hi {x = x} h.1, Rising-le (key y + 1) xs hi h.1)

  -- Keys are distinct, so the element that any test finds is the one that its key finds,
  pub Rising-find_key :
      (p : A → Bool) (lo : ℕ) (xs : List A) (hi : ℕ) {x : A}
      → Rising lo xs hi
      → find_first p xs ≡ some x
      → find_first (λ y. key y == key x) xs ≡ some x
  unfolding find_first
  Rising-find_key p lo [] hi h e = cc
  Rising-find_key p lo (y ∷ xs) hi {x} h e = ground (
    arith,
    Rising-found p (key y + 1) xs hi {x = x} h.1,
    Rising-find_key p (key y + 1) xs hi {x = x} h.1,
  )

  -- and a write to the one is a write to the other.
  pub Rising-modify_key :
      (p : A → Bool) (f : A → A) (lo : ℕ) (xs : List A) (hi : ℕ) {x : A}
      → Rising lo xs hi
      → find_first p xs ≡ some x
      → modify_first p f xs ≡ modify_first (λ y. key y == key x) f xs
  unfolding find_first modify_first
  Rising-modify_key p f lo [] hi h e = refl
  Rising-modify_key p f lo (y ∷ xs) hi {x} h e = ground (
    arith,
    Rising-found p (key y + 1) xs hi {x = x} h.1,
    Rising-modify_key p f (key y + 1) xs hi {x = x} h.1,
  )
