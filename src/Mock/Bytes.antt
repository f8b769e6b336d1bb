-- ===== src/Mock/Bytes.antt =====
-- The bytes of a slot of crates/vt-ferry-worker/src/mock.rs under a write to the backing.
use vt_ferry.Prelude.{
  ℕ, zero, suc, ◌+◌, ◌-◌, ◌≤◌, ◌≡◌, refl, ap, ◌∙◌, ◌⊎◌, inl, inr, List, [], ◌∷◌, ◌++◌, take, drop,
  length, length-drop, arith,
}
use native.Mathlib.Nat.{sub-zero}
use vt_ferry.Mock.Handles.{bytes_at, put_bytes}

-- Before the write nothing changes.
take-put_bytes :
    (n start : ℕ) (new_bytes bytes : List ℕ)
    → n ≤ start
    → start ≤ length bytes
    → take n (put_bytes start new_bytes bytes) ≡ take n bytes
take-put_bytes zero start new_bytes bytes h k = refl
take-put_bytes (suc n) zero new_bytes bytes h k = absurd (omega arith)
take-put_bytes (suc n) (suc start) new_bytes [] h k = absurd (omega arith)
take-put_bytes (suc n) (suc start) new_bytes (b ∷ bytes) h k =
    ap (λ t. b ∷ t) (take-put_bytes n start new_bytes bytes (omega arith) (omega arith))

drop-over :
    (n : ℕ) (new_bytes bytes : List ℕ)
    → length new_bytes ≤ n
    → length new_bytes ≤ length bytes
    → drop n (new_bytes ++ drop (length new_bytes) bytes) ≡ drop n bytes
drop-over n [] bytes h k = refl
drop-over zero (x ∷ new_bytes) bytes h k = absurd (omega arith)
drop-over (suc n) (x ∷ new_bytes) [] h k = absurd (omega arith)
drop-over (suc n) (x ∷ new_bytes) (b ∷ bytes) h k =
    drop-over n new_bytes bytes (omega arith) (omega arith)

-- Nor does anything behind it.
drop-put_bytes_after :
    (n start : ℕ) (new_bytes bytes : List ℕ)
    → start + length new_bytes ≤ n
    → start + length new_bytes ≤ length bytes
    → drop n (put_bytes start new_bytes bytes) ≡ drop n bytes
drop-put_bytes_after n zero new_bytes bytes h k =
    drop-over n new_bytes bytes (omega arith) (omega arith)
drop-put_bytes_after zero (suc start) new_bytes bytes h k = absurd (omega arith)
drop-put_bytes_after (suc n) (suc start) new_bytes [] h k = absurd (omega arith)
drop-put_bytes_after (suc n) (suc start) new_bytes (b ∷ bytes) h k =
    drop-put_bytes_after n start new_bytes bytes (omega arith) (omega arith)

-- The view from an offset before the write.
drop-put_bytes_before :
    (n start : ℕ) (new_bytes bytes : List ℕ)
    → n ≤ start
    → start ≤ length bytes
    → drop n (put_bytes start new_bytes bytes) ≡ put_bytes (start - n) new_bytes (drop n bytes)
drop-put_bytes_before zero start new_bytes bytes h k = rw sub-zero
drop-put_bytes_before (suc n) zero new_bytes bytes h k = absurd (omega arith)
drop-put_bytes_before (suc n) (suc start) new_bytes [] h k = absurd (omega arith)
drop-put_bytes_before (suc n) (suc start) new_bytes (b ∷ bytes) h k =
    drop-put_bytes_before n start new_bytes bytes (omega arith) (omega arith)
    ∙ ap (λ i. put_bytes i new_bytes (drop n bytes)) (omega arith)

take-take-front :
    (count : ℕ) (new_bytes rest : List ℕ)
    → length new_bytes ≤ count
    → take (length new_bytes) (take count (new_bytes ++ rest)) ≡ new_bytes
take-take-front count [] rest h = refl
take-take-front zero (x ∷ new_bytes) rest h = absurd (omega arith)
take-take-front (suc count) (x ∷ new_bytes) rest h =
    ap (λ t. x ∷ t) (take-take-front count new_bytes rest (omega arith))

-- Within a window of `count` bytes the written bytes are read back.
bytes_at-take-put_bytes :
    (offset count : ℕ) (new_bytes bytes : List ℕ)
    → offset + length new_bytes ≤ count
    → offset ≤ length bytes
    → bytes_at offset (length new_bytes) (take count (put_bytes offset new_bytes bytes)) ≡ new_bytes
bytes_at-take-put_bytes zero count new_bytes bytes h k =
    take-take-front count new_bytes _ (omega arith)
bytes_at-take-put_bytes (suc offset) zero new_bytes bytes h k = absurd (omega arith)
bytes_at-take-put_bytes (suc offset) (suc count) new_bytes [] h k = absurd (omega arith)
bytes_at-take-put_bytes (suc offset) (suc count) new_bytes (b ∷ bytes) h k =
    bytes_at-take-put_bytes offset count new_bytes bytes (omega arith) (omega arith)

-- A write at an offset of a slot is read back from the slot,
pub slot-put_bytes_self :
    (start offset size : ℕ) (new_bytes bytes : List ℕ)
    → offset + length new_bytes ≤ size
    → start + size ≤ length bytes
    → bytes_at offset
        (length new_bytes)
        (bytes_at start size (put_bytes (start + offset) new_bytes bytes))
      ≡ new_bytes
slot-put_bytes_self start offset size new_bytes bytes h k =
    let before =
      drop-put_bytes_before start (start + offset) new_bytes bytes (omega arith) (omega arith) in
    let shift : start + offset - start ≡ offset = omega arith in
    rw (before, shift)
      (bytes_at-take-put_bytes offset size new_bytes (drop start bytes) h
        (omega (arith, length-drop start bytes)))

-- and leaves every window that it does not meet.
pub window-put_bytes :
    (start size at : ℕ) (new_bytes bytes : List ℕ)
    → (at + length new_bytes ≤ start) ⊎ (start + size ≤ at)
    → at + length new_bytes ≤ length bytes
    → bytes_at start size (put_bytes at new_bytes bytes) ≡ bytes_at start size bytes
window-put_bytes start size at new_bytes bytes (inl h) k =
    ap (take size) (drop-put_bytes_after start at new_bytes bytes h k)
window-put_bytes start size at new_bytes bytes (inr h) k =
    ap (take size) (drop-put_bytes_before start at new_bytes bytes (omega arith) (omega arith))
    ∙ take-put_bytes size (at - start) new_bytes (drop start bytes) (omega arith)
        (omega (arith, length-drop start bytes))
