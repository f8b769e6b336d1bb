-- ===== src/Real/Maps.antt =====
-- The hash maps of crates/vt-ferry-worker/src/vt_real.rs. None of the operations here walks over a map, so
-- a map is the function that looks its keys up.
use vt_ferry.Prelude.{
  ℕ, ◌≡◌, refl, inl, inr, Bool, Bool-cases, true, false, ◌==◌, ==-refl, if◌then◌else◌, Option, none,
  some,
}

abbrev pub HashMap : Type 0 → Type 0
HashMap V = ℕ → Option V

abbrev pub empty : {V : Type 0} → HashMap V
empty key = none

unfoldable pub insert : {V : Type 0} → ℕ → V → HashMap V → HashMap V
insert key value m = λ k. if k == key then some value else m k

unfoldable pub remove : {V : Type 0} → ℕ → HashMap V → HashMap V
remove key m = λ k. if k == key then none else m k

unfoldable pub contains_key : {V : Type 0} → ℕ → HashMap V → Bool
contains_key key m = elim (m key) [ none ↦ false | some _ ↦ true ]

module _ {V : Type 0} where
  pub insert-get : (key : ℕ) (value : V) (m : HashMap V) → insert key value m key ≡ some value
  unfolding insert
  insert-get key value m = rw (==-refl key) refl

  pub insert-at :
      (key : ℕ) (value : V) (m : HashMap V) (k : ℕ)
      → (k == key) ≡ true
      → insert key value m k ≡ some value
  unfolding insert
  insert-at key value m k e = rw e refl

  pub insert-else :
      (key : ℕ) (value : V) (m : HashMap V) (k : ℕ)
      → (k == key) ≡ false
      → insert key value m k ≡ m k
  unfolding insert
  insert-else key value m k e = rw e refl

  pub insert-insert :
      (key : ℕ) (old value : V) (m : HashMap V)
      → insert key value (insert key old m) ≡ insert key value m
  unfolding insert
  insert-insert key old value m = λ i k. at k i
    where
      at : (k : ℕ) → insert key value (insert key old m) k ≡ insert key value m k
      at k = elim (Bool-cases (k == key)) [ inl e ↦ rw e refl | inr e ↦ rw e refl ]

  pub remove-insert :
      (key : ℕ) (value : V) (m : HashMap V) → remove key (insert key value m) ≡ remove key m
  unfolding insert remove
  remove-insert key value m = λ i k. at k i
    where
      at : (k : ℕ) → remove key (insert key value m) k ≡ remove key m k
      at k = elim (Bool-cases (k == key)) [ inl e ↦ rw e refl | inr e ↦ rw e refl ]

  pub remove-get : (key : ℕ) (m : HashMap V) → remove key m key ≡ none
  unfolding remove
  remove-get key m = rw (==-refl key) refl

  pub remove-remove : (key : ℕ) (m : HashMap V) → remove key (remove key m) ≡ remove key m
  unfolding remove
  remove-remove key m = λ i k. at k i
    where
      at : (k : ℕ) → remove key (remove key m) k ≡ remove key m k
      at k = elim (Bool-cases (k == key)) [ inl e ↦ rw e refl | inr e ↦ rw e refl ]
