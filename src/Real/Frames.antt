-- ===== src/Real/Frames.antt =====
-- The canonical layout of the frames that crates/vt-ferry-worker/src/vt_real.rs says it takes in GET_CAPS.
use vt_ferry.Prelude.{
  ℕ, zero, suc, ◌+◌, ◌*◌, ◌/◌, ◌≤◌, ◌<◌, ◌≡◌, sym, subst, inl, inr, Bool-cases, [], ◌∷◌, get_or,
  arith,
}
use native.Mathlib.Nat.{mul-le-mul_right, mul_comm}
use vt_ferry.Protocol.Buffers.{BufferLayoutReply}
use vt_ferry.Mock.PixelLayout.{to_u32, is_nv12, is_p010}
use vt_ferry.Mock.Handles.{to_u64}
use vt_ferry.Real.Pixels.{
  vtf_align_size, vtf_buffer_total_size, two_planes, one_plane, vtf_fill_buffer_layout,
}

abbrev pub caps_max_width : ℕ
caps_max_width = 7680

abbrev pub caps_max_height : ℕ
caps_max_height = 4320

-- The planes lie within the total, which is `total`.
abbrev pub Holds : BufferLayoutReply → ℕ → Type 0
Holds layout total =
    (layout.total_size ≡ total)
    × ((plane : ℕ)
        → plane < layout.plane_count
        → get_or layout.plane_offsets plane 0
            + get_or layout.plane_bytes_per_row plane 0 * get_or layout.plane_heights plane 0
          ≤ layout.total_size)

vtf_align_size-le : (value : ℕ) → vtf_align_size value 64 ≤ value + 64
unfolding vtf_align_size
vtf_align_size-le value = ground arith

product-le : (a b c d : ℕ) → a ≤ c → b ≤ d → a * b ≤ c * d
product-le a b c d h k =
    let left = mul-le-mul_right {m = a} {n = c} b h in
    let right = mul-le-mul_right {m = b} {n = d} c k in
    omega (arith, left, right, mul_comm c b, mul_comm d c)

two_planes-Holds :
    (stride width height : ℕ)
    → stride ≤ 30784
    → height ≤ caps_max_height
    → Holds
        (two_planes (to_u32 stride) width height)
        (to_u64 (stride * height + stride * (height / 2)))
two_planes-Holds stride width height s h =
    let y = product-le stride height 30784 4320 s h in
    let uv = product-le stride (height / 2) 30784 4320 s (omega (arith, h)) in
    let same : to_u32 stride ≡ stride = omega (arith, s) in
    let fits : to_u32 (to_u32 (stride * height) + to_u32 (stride * (height / 2)))
        ≡ stride * height + stride * (height / 2) =
      omega (arith, y, uv) in
    subst
      (λ n. Holds (two_planes n width height) (to_u64 (stride * height + stride * (height / 2))))
      (sym same) (omega (arith, y, uv), within y uv fits)
  where
    within :
        stride * height ≤ 30784 * 4320
        → stride * (height / 2) ≤ 30784 * 4320
        → to_u32 (to_u32 (stride * height) + to_u32 (stride * (height / 2)))
          ≡ stride * height + stride * (height / 2)
        → (plane : ℕ) → plane < 2
        → get_or (0 ∷ to_u32 (stride * height) ∷ 0 ∷ 0 ∷ []) plane 0
            + get_or (stride ∷ stride ∷ 0 ∷ 0 ∷ []) plane 0
              * get_or (height ∷ (height / 2) ∷ 0 ∷ 0 ∷ []) plane 0
          ≤ to_u32 (to_u32 (stride * height) + to_u32 (stride * (height / 2)))
    within y uv fits zero lt = omega (arith, y, uv)
    within y uv fits (suc zero) lt = omega (arith, y, uv)
    within y uv fits (suc (suc n)) lt = let never : ⊥ = omega (arith, lt) in absurd never

one_plane-Holds :
    (stride width height : ℕ)
    → stride ≤ 30784
    → height ≤ caps_max_height
    → Holds (one_plane (to_u32 stride) width height) (to_u64 (stride * height))
one_plane-Holds stride width height s h =
    let y = product-le stride height 30784 4320 s h in
    let same : to_u32 stride ≡ stride = omega (arith, s) in
    subst (λ n. Holds (one_plane n width height) (to_u64 (stride * height))) (sym same)
      (omega (arith, y), within y)
  where
    within :
        stride * height ≤ 30784 * 4320
        → (plane : ℕ) → plane < 1
        → get_or (0 ∷ 0 ∷ 0 ∷ 0 ∷ []) plane 0
            + get_or (stride ∷ 0 ∷ 0 ∷ 0 ∷ []) plane 0 * get_or (height ∷ 0 ∷ 0 ∷ 0 ∷ []) plane 0
          ≤ to_u32 (stride * height)
    within y zero lt = omega (arith, y)
    within y (suc n) lt = let never : ⊥ = omega (arith, lt) in absurd never

-- For a frame within the width and the height that the worker announces, in any pixel format, the layout
-- has the size that the other function computes, nothing wraps, and every plane ends within it, so that
-- the copies stay in their destination.
pub vtf_fill_buffer_layout-Holds :
    (width height pixel_format : ℕ)
    → width ≤ caps_max_width
    → height ≤ caps_max_height
    → Holds
        (vtf_fill_buffer_layout width height pixel_format)
        (vtf_buffer_total_size width height pixel_format)
unfolding vtf_fill_buffer_layout vtf_buffer_total_size
vtf_fill_buffer_layout-Holds width height pixel_format w h =
    elim (Bool-cases (is_nv12 pixel_format)) [
      | inl e ↦
          let le = vtf_align_size-le width in
          rw e (two_planes-Holds (vtf_align_size width 64) width height (omega (arith, le, w)) h)
      | inr e ↦ rw e (elim (Bool-cases (is_p010 pixel_format)) [
        | inl f ↦
            let le = vtf_align_size-le (width * 2) in
            rw f (
              two_planes-Holds (vtf_align_size (width * 2) 64) width height (omega (arith, le, w))
                h)
        | inr f ↦
            let le = vtf_align_size-le (width * 4) in
            rw f (
              one_plane-Holds (vtf_align_size (width * 4) 64) width height (omega (arith, le, w)) h)
      ])
    ]
