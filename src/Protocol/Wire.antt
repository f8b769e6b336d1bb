-- ===== src/Protocol/Wire.antt =====
-- The memory of the `#[repr(C)]` structs of crates/vt-ferry-protocol/src/lib.rs, and what the program
-- takes from the bytemuck crate.
use vt_ferry.Prelude.{ℕ, ◌^◌, ◌<◌, ◌≡◌, List, [], ◌∷◌, length, sum_by}

-- A struct without padding is a row of scalar fields; a scalar stands for its bit pattern, so that an
-- i64 or an f64 is the number below 2 ^ 64 with its bits. Array fields add one scalar an element.
pub record Layout (A : Type 0) : Type 0 where
  pub widths : List ℕ
  pub words : A → List ℕ
  pub of_words : List ℕ → A

-- std::mem::size_of
abbrev pub size_of : {A : Type 0} → Layout A → ℕ
size_of l = sum_by (λ w. w) l.widths

-- Each scalar is below 256 ^ its width.
abbrev pub InWidths : List ℕ → List ℕ → Type 0
InWidths [] [] = Unit
InWidths [] (v ∷ vs) = ⊥
InWidths (w ∷ ws) [] = ⊥
InWidths (w ∷ ws) (v ∷ vs) = (v < 256 ^ w) × InWidths ws vs

-- A value that the struct can hold: its scalars are in range, and its arrays have their lengths.
abbrev pub IsWireValue : {A : Type 0} → Layout A → A → Type 0
IsWireValue l a = (l.of_words (l.words a) ≡ a) × InWidths l.widths (l.words a)

-- The layout names every scalar of the struct once: any row of scalars makes up a value.
abbrev pub IsStruct : {A : Type 0} → Layout A → Type 0
IsStruct l = (ws : List ℕ) → length ws ≡ length l.widths → l.words (l.of_words ws) ≡ ws

-- bytemuck's `bytes_of` and `pod_read_unaligned`, with what it documents of them: the bytes of a value
-- are as many as `size_of` says, reading them gives the value back, and what is read is a value of the
-- struct, with each scalar in the range of its type.
pub record Bytemuck : Type 1 where
  pub bytes_of : {A : Type 0} → Layout A → A → List ℕ
  pub pod_read_unaligned : {A : Type 0} → Layout A → List ℕ → A
  pub length-bytes_of : {A : Type 0} (l : Layout A) (a : A) → length (bytes_of l a) ≡ size_of l
  pub pod_read-bytes_of :
      {A : Type 0} (l : Layout A) (a : A)
      → IsWireValue l a
      → pod_read_unaligned l (bytes_of l a) ≡ a
  pub pod_read-InWidths :
      {A : Type 0} (l : Layout A) (bytes : List ℕ)
      → IsStruct l
      → InWidths l.widths (l.words (pod_read_unaligned l bytes))
