-- ===== src/Mock/Invariant/Slots.antt =====
-- Slots under the changes that the backend makes to its pools and buffers.
use vt_ferry.Prelude.{
  ℕ, ◌≤◌, ◌≡◌, ◌≢◌, sym, ◌∙◌, inl, inr, Bool, ◌==◌, List, [], ◌∷◌, ◌++◌, some, arith, find_first,
  modify_first, retain, All, All-map, All-append, All-retain, All-modify_first, All-find_first,
  find_first-append, Bool-cases,
}
use vt_ferry.Mock.State.{MockPool, MockBuffer}
use vt_ferry.Mock.Handles.{pool_is, buffer_is}
use vt_ferry.Mock.Invariant.Defs.{HasSlot, OtherSlot, Apart}

-- A pool whose shape is kept, and which may have handed out more slots.
pub record Grows (p q : MockPool) : Type 0 where
  pub same_id : q.id ≡ p.id
  pub same_region : q.slot_region_size ≡ p.slot_region_size
  pub more : p.buffer_count ≤ q.buffer_count

-- Every lookup survives the replacement of a pool by one that grew from it.
find_first-grow :
    (pools : List MockPool) (p q : MockPool) (k : ℕ) {r : MockPool}
    → Grows p q
    → find_first (pool_is p.id) pools ≡ some p
    → find_first (pool_is k) pools ≡ some r
    → (r' : MockPool) × (find_first (pool_is k) (modify_first (pool_is p.id) (λ _. q) pools)
        ≡ some r')
      × Grows r r'
unfolding find_first modify_first
find_first-grow [] p q k g e d = cc
find_first-grow (h ∷ pools) p q k {r} g e d = elim (Bool-cases (h.id == p.id)) [
  | inl hit ↦ elim (Bool-cases (h.id == k)) [
    | inl own ↦ (q, ground arith, ground arith)
    | inr other ↦ (r, ground arith, ground arith)
  ]
  | inr miss ↦ elim (Bool-cases (h.id == k)) [
    | inl own ↦ (r, ground arith, ground arith)
    | inr other ↦
        let (r', found, grown) =
          find_first-grow pools p q k {r = r} g (ground arith) (ground arith) in
        (r', ground arith, grown)
  ]
]

pub HasSlot-grow :
    (pools : List MockPool) (p q : MockPool) (x : MockBuffer)
    → Grows p q
    → find_first (pool_is p.id) pools ≡ some p
    → HasSlot pools x
    → HasSlot (modify_first (pool_is p.id) (λ _. q) pools) x
HasSlot-grow pools p q x g e (r, found, fits, size, pos) =
    let (r', found', grown) = find_first-grow pools p q x.pool_id g e found in
    (r', found', omega arith, omega arith, omega arith)

pub HasSlot-append :
    (pools : List MockPool) (p : MockPool) (x : MockBuffer)
    → HasSlot pools x
    → HasSlot (pools ++ p ∷ []) x
HasSlot-append pools p x (r, found, fits, size, pos) =
    (r, find_first-append (pool_is x.pool_id) pools (p ∷ []) found, fits, size, pos)

pub Apart-append :
    (xs : List MockBuffer) (y : MockBuffer)
    → Apart xs
    → All (λ x. OtherSlot x y) xs
    → Apart (xs ++ y ∷ [])
Apart-append [] y h k = (tt, tt)
Apart-append (x ∷ xs) y h k = (All-append (OtherSlot x) xs y h.0 k.0, Apart-append xs y h.1 k.1)

pub Apart-retain : (p : MockBuffer → Bool) (xs : List MockBuffer) → Apart xs → Apart (retain p xs)
unfolding retain
Apart-retain p [] h = tt
Apart-retain p (x ∷ xs) h = elim (Bool-cases (p x)) [
  | inl e ↦ rw e (All-retain (OtherSlot x) p xs h.0, Apart-retain p xs h.1)
  | inr e ↦ rw e (Apart-retain p xs h.1)
]

-- A write that leaves a buffer in its slot.
pub Apart-modify_first :
    (p : MockBuffer → Bool) (f : MockBuffer → MockBuffer) (xs : List MockBuffer)
    → ((x : MockBuffer) → ((f x).pool_id ≡ x.pool_id) × ((f x).slot_index ≡ x.slot_index))
    → Apart xs
    → Apart (modify_first p f xs)
unfolding modify_first
Apart-modify_first p f [] k h = tt
Apart-modify_first p f (x ∷ xs) k h = elim (Bool-cases (p x)) [
  | inl e ↦ rw e (
    All-map (OtherSlot x) (OtherSlot (f x)) xs
        (λ y o same_pool same_slot. o (sym (k x).0 ∙ same_pool) (sym (k x).1 ∙ same_slot)) h.0,
    h.1,
  )
  | inr e ↦ rw e (
    All-modify_first (OtherSlot x) p f xs
        (λ y o same_pool same_slot. o (same_pool ∙ (k y).0) (same_slot ∙ (k y).1)) h.0,
    Apart-modify_first p f xs k h.1,
  )
]

-- Buffers found under different handles have different slots.
pub Apart-found :
    (i j : ℕ) (xs : List MockBuffer) (x y : MockBuffer)
    → Apart xs
    → find_first (buffer_is i) xs ≡ some x
    → find_first (buffer_is j) xs ≡ some y
    → i ≢ j
    → OtherSlot x y
unfolding find_first
Apart-found i j [] x y h e d n = absurd (cc)
Apart-found i j (z ∷ xs) x y h e d n = elim (Bool-cases (z.id == i)) [
  | inl hit ↦ λ same_pool same_slot.
      All-find_first (OtherSlot z) (buffer_is j) xs {x = y} h.0 (ground arith) (ground arith)
        (ground arith)
  | inr miss ↦ elim (Bool-cases (z.id == j)) [
    | inl own ↦ λ same_pool same_slot.
        All-find_first (OtherSlot z) (buffer_is i) xs {x = x} h.0 (ground arith) (ground arith)
          (ground arith)
    | inr other ↦ Apart-found i j xs x y h.1 (ground arith) (ground arith) n
  ]
]
