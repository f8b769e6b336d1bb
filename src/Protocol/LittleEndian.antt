-- ===== src/Protocol/LittleEndian.antt =====
-- Bytemuck on a little-endian machine: a struct is its scalars, each low byte first. This shows that
-- the laws of the interface can be met.
use vt_ferry.Prelude.{
  ℕ, zero, suc, ◌+◌, ◌*◌, ◌/◌, ◌%◌, ◌^◌, ◌<◌, ◌≡◌, refl, ap, ◌∙◌, List, [], ◌∷◌, ◌++◌, take, drop,
  length, sum_by, length-append, take-append_at, drop-append_at, arith,
}
use native.Mathlib.Nat.{pow-suc}
use vt_ferry.Protocol.Wire.{Layout, InWidths, IsStruct, Bytemuck}

to_le_bytes : ℕ → ℕ → List ℕ
to_le_bytes zero v = []
to_le_bytes (suc w) v = (v % 256) ∷ to_le_bytes w (v / 256)

from_le_bytes : List ℕ → ℕ
from_le_bytes [] = 0
from_le_bytes (b ∷ bs) = b % 256 + 256 * from_le_bytes bs

pub scalars_to_bytes : List ℕ → List ℕ → List ℕ
unfolding to_le_bytes
scalars_to_bytes [] vs = []
scalars_to_bytes (w ∷ ws) [] = to_le_bytes w 0 ++ scalars_to_bytes ws []
scalars_to_bytes (w ∷ ws) (v ∷ vs) = to_le_bytes w v ++ scalars_to_bytes ws vs

pub scalars_of_bytes : List ℕ → List ℕ → List ℕ
unfolding from_le_bytes
scalars_of_bytes [] bs = []
scalars_of_bytes (w ∷ ws) bs = from_le_bytes (take w bs) ∷ scalars_of_bytes ws (drop w bs)

length-to_le_bytes : (w v : ℕ) → length (to_le_bytes w v) ≡ w
unfolding to_le_bytes
length-to_le_bytes zero v = refl
length-to_le_bytes (suc w) v = ap suc (length-to_le_bytes w (v / 256))

from_le_bytes-to_le_bytes : (w v : ℕ) → v < 256 ^ w → from_le_bytes (to_le_bytes w v) ≡ v
unfolding to_le_bytes from_le_bytes
from_le_bytes-to_le_bytes zero v h = omega arith
from_le_bytes-to_le_bytes (suc w) v h =
    omega
      (arith, pow-suc 256 w, from_le_bytes-to_le_bytes w (v / 256) (omega (arith, pow-suc 256 w)))

pub length-scalars_to_bytes :
    (ws vs : List ℕ) → length (scalars_to_bytes ws vs) ≡ sum_by (λ w. w) ws
unfolding scalars_to_bytes sum_by
length-scalars_to_bytes [] vs = refl
length-scalars_to_bytes (w ∷ ws) [] = omega (
  arith,
  length-append (to_le_bytes w 0) (scalars_to_bytes ws []),
  length-to_le_bytes w 0,
  length-scalars_to_bytes ws [],
)
length-scalars_to_bytes (w ∷ ws) (v ∷ vs) = omega (
  arith,
  length-append (to_le_bytes w v) (scalars_to_bytes ws vs),
  length-to_le_bytes w v,
  length-scalars_to_bytes ws vs,
)

-- Scalars in range come back from their bytes.
pub scalars_of_bytes-to_bytes :
    (ws vs : List ℕ) → InWidths ws vs → scalars_of_bytes ws (scalars_to_bytes ws vs) ≡ vs
unfolding scalars_of_bytes scalars_to_bytes
scalars_of_bytes-to_bytes [] [] h = refl
scalars_of_bytes-to_bytes [] (v ∷ vs) h = absurd h
scalars_of_bytes-to_bytes (w ∷ ws) [] h = absurd h
scalars_of_bytes-to_bytes (w ∷ ws) (v ∷ vs) h =
    let bs = to_le_bytes w v in
    let rest = scalars_to_bytes ws vs in
    let size = length-to_le_bytes w v in
    let cut = take-append_at w bs rest size in
    let left = drop-append_at w bs rest size in
    rw (cut, left, from_le_bytes-to_le_bytes w v h.0, scalars_of_bytes-to_bytes ws vs h.1)

from_le_bytes-lt : (w : ℕ) (bs : List ℕ) → from_le_bytes (take w bs) < 256 ^ w
unfolding from_le_bytes
from_le_bytes-lt zero bs = omega arith
from_le_bytes-lt (suc w) [] = omega (arith, pow-suc 256 w, from_le_bytes-lt w [])
from_le_bytes-lt (suc w) (b ∷ bs) = omega (arith, pow-suc 256 w, from_le_bytes-lt w bs)

length-scalars_of_bytes : (ws bs : List ℕ) → length (scalars_of_bytes ws bs) ≡ length ws
unfolding scalars_of_bytes
length-scalars_of_bytes [] bs = refl
length-scalars_of_bytes (w ∷ ws) bs = ap suc (length-scalars_of_bytes ws (drop w bs))

scalars_of_bytes-InWidths : (ws bs : List ℕ) → InWidths ws (scalars_of_bytes ws bs)
unfolding scalars_of_bytes
scalars_of_bytes-InWidths [] bs = tt
scalars_of_bytes-InWidths (w ∷ ws) bs =
    (from_le_bytes-lt w bs, scalars_of_bytes-InWidths ws (drop w bs))

pub read_scalars-InWidths :
    {A : Type 0} (l : Layout A) (bs : List ℕ)
    → IsStruct l
    → InWidths l.widths (l.words (l.of_words (scalars_of_bytes l.widths bs)))
read_scalars-InWidths l bs h =
    rw (h _ (length-scalars_of_bytes l.widths bs)) (scalars_of_bytes-InWidths l.widths bs)

unfoldable pub little_endian : Bytemuck
unfolding scalars_to_bytes scalars_of_bytes
little_endian = record {
  bytes_of = λ l a. scalars_to_bytes l.widths (l.words a);
  pod_read_unaligned = λ l bs. l.of_words (scalars_of_bytes l.widths bs);
  length-bytes_of = λ l a. length-scalars_to_bytes l.widths (l.words a);
  pod_read-bytes_of = λ l a h. ap l.of_words (scalars_of_bytes-to_bytes _ _ h.1) ∙ h.0;
  pod_read-InWidths = read_scalars-InWidths;
}
