-- ===== src/Real/Ranges.antt =====
-- A range of a frame that crates/vt-ferry-worker/src/vt_real.rs copies is the range of the whole frame.
use vt_ferry.Prelude.{
  ℕ, zero, suc, ◌+◌, ◌-◌, ◌*◌, ◌/◌, ◌≤◌, ◌<◌, ◌≡◌, refl, sym, ap, subst, ◌∙◌, inl, inr, min, max,
  Bool-cases, Option-cases, true, false, ◌||◌, ◌==◌, ltb, leb, none, some, arith,
}
use native.Mathlib.Nat.{
  div-mul-le_self, lt-div-mul-add, mul-le-mul_right, add-mul, mul_comm, mul-zero,
}
use vt_ferry.Protocol.Buffers.{BufferLayoutReply}
use vt_ferry.Real.Frameworks.{Frameworks}
use vt_ferry.Real.Pixels.{
  Memory, write_zeros, copy_nonoverlapping, copy_rows, range_rows, plane_offset_of, stride_of,
  rows_of, copy_planes, range_planes, copy_layout_to_bytes, vtf_copy_pixel_buffer_byte_range,
}
use vt_ferry.Real.Rows.{Agree, copy-hit, copy-miss, rows-from, rows-outside}

module _ (plane_base : Memory) (src_stride stride plane_offset offset len : ℕ) (dst : Memory) where
  -- A plane that meets the range, in both copies.
  plane-Agree :
      (rows : ℕ) (r f : Memory)
      → let local_start = max offset plane_offset - plane_offset in
        let local_end = min (offset + len) (plane_offset + stride * rows) - plane_offset in
        let first_row = local_start / stride in
        let last_row = (local_end - 1) / stride in
        max offset plane_offset < min (offset + len) (plane_offset + stride * rows)
        → Agree offset len dst r f
        → Agree offset len dst
            (range_rows plane_base src_stride stride plane_offset offset local_start local_end
              (last_row + 1 - first_row)
              first_row
              r)
            (copy_rows plane_base src_stride stride plane_offset rows 0 f)
  plane-Agree rows r f meets h =
      let local_start = max offset plane_offset - plane_offset in
      let local_end = min (offset + len) (plane_offset + stride * rows) - plane_offset in
      let first_row = local_start / stride in
      let last_row = (local_end - 1) / stride in
      let turned : stride * rows ≡ rows * stride = mul_comm stride rows in
      let flat : stride ≡ 0 → rows * stride ≡ 0 = λ e. ap (λ s. rows * s) e ∙ mul-zero rows in
      let some_bytes : 0 < stride =
        positive stride (rows * stride) flat (omega (arith, meets, turned)) in
      let below = div-mul-le_self local_start stride in
      let last_below = div-mul-le_self (local_end - 1) stride in
      let last_above = lt-div-mul-add {a = local_end - 1} {b = stride} some_bytes in
      let one_more : (last_row + 1) * stride ≡ last_row * stride + stride = step last_row in
      let order : first_row + 1 ≤ last_row + 1 =
        cancelled first_row (last_row + 1) (omega (arith, below, last_above, one_more, meets)) in
      let within : last_row + 1 ≤ rows =
        cancelled last_row rows (omega (arith, last_below, meets, turned)) in
      let whole : first_row + (last_row + 1 - first_row) ≡ last_row + 1 = omega (arith, order) in
      let zero_on : (0 + rows) * stride ≡ rows * stride = ap (λ m. m * stride) (omega arith) in
      let at_end : (first_row + (last_row + 1 - first_row)) * stride ≡ (last_row + 1) * stride =
        ap (λ m. m * stride) whole in
      rows-from plane_base src_stride stride plane_offset offset len dst (stride * rows) local_start
        local_end refl refl meets first_row (last_row + 1 - first_row) rows 0 r f (omega arith)
        (omega (arith, whole, within)) below (omega (arith, turned, zero_on))
        (omega (arith, at_end, last_above, one_more)) h
    where
      positive : (s size : ℕ) → (s ≡ 0 → size ≡ 0) → 0 < size → 0 < s
      positive zero size flat more = omega (arith, flat refl, more)
      positive (suc s) size flat more = omega arith

      step : (n : ℕ) → (n + 1) * stride ≡ n * stride + stride
      step n =
          let once : 1 * stride ≡ stride = omega arith in
          add-mul n 1 stride ∙ ap (λ m. n * stride + m) once

      cancelled : (m n : ℕ) → m * stride < n * stride → m + 1 ≤ n
      cancelled m n lt = elim (Bool-cases (leb n m)) [
        | inl e ↦
            let up = mul-le-mul_right {m = n} {n = m} stride (ground (arith, e)) in
            omega (arith, up, lt)
        | inr e ↦ ground (arith, e)
      ]

  -- A plane that does not.
  plane-skipped :
      (rows : ℕ) (r f : Memory)
      → 0 < len
      → min (offset + len) (plane_offset + stride * rows) ≤ max offset plane_offset
      → Agree offset len dst r f
      → Agree offset len dst r (copy_rows plane_base src_stride stride plane_offset rows 0 f)
  unfolding copy_rows
  plane-skipped zero r f some_bytes apart h = h
  plane-skipped (suc m) r f some_bytes apart h =
      let turned : stride * suc m ≡ suc m * stride = mul_comm stride (suc m) in
      let zero_on : (0 + suc m) * stride ≡ suc m * stride = ap (λ n. n * stride) (omega arith) in
      let none_on : 0 * stride ≡ 0 = omega arith in
      let once : 1 * stride ≡ stride = omega arith in
      let up = mul-le-mul_right {m = 1} {n = suc m} stride (omega arith) in
      rows-outside plane_base src_stride stride plane_offset offset len dst (suc m) 0 r f
        (elim (Bool-cases (leb (plane_offset + suc m * stride) offset)) [
          | inl e ↦
              let le : plane_offset + suc m * stride ≤ offset = ground (arith, e) in
              inl (omega (arith, le, zero_on))
          | inr e ↦
              let lt : offset < plane_offset + suc m * stride = ground (arith, e) in
              elim (Bool-cases (leb (offset + len) plane_offset)) [
                | inl e' ↦
                    let le : offset + len ≤ plane_offset = ground (arith, e') in
                    inr (inl (omega (arith, le, none_on)))
                | inr e' ↦
                    let lt' : plane_offset < offset + len = ground (arith, e') in
                    inr (inr (omega (arith, lt, lt', apart, turned, once, up, some_bytes)))
              ]
        ])
        h

module _ (fw : Frameworks) (cv_ref : fw.CvImageBuffer) (layout : BufferLayoutReply) where
  copy_planes-none :
      (rounds plane : ℕ) (f : Memory)
      → fw.get_base_address_of_plane cv_ref plane ≡ none
      → copy_planes fw cv_ref layout (suc rounds) plane f ≡ none
  unfolding copy_planes
  copy_planes-none rounds plane f n = rw (n, copy_planes) refl

  copy_planes-some :
      (rounds plane : ℕ) (f plane_base : Memory)
      → fw.get_base_address_of_plane cv_ref plane ≡ some plane_base
      → copy_planes fw cv_ref layout (suc rounds) plane f
        ≡ copy_planes fw cv_ref layout rounds (plane + 1) (
            copy_rows plane_base
              (fw.get_bytes_per_row_of_plane cv_ref plane)
              (stride_of fw cv_ref layout plane)
              (plane_offset_of fw cv_ref layout plane)
              (rows_of fw cv_ref layout plane)
              0
              f)
  unfolding copy_planes
  copy_planes-some rounds plane f plane_base n = rw (n, copy_planes) refl

  planes-Agree :
      (offset len : ℕ) (dst : Memory) (rounds plane : ℕ) (r f f' : Memory)
      → 0 < len
      → copy_planes fw cv_ref layout rounds plane f ≡ some f'
      → Agree offset len dst r f
      → (r' : Memory) × (range_planes fw cv_ref layout offset len rounds plane r ≡ some r')
        × Agree offset len dst r' f'
  unfolding copy_planes range_planes
  planes-Agree offset len dst zero plane r f f' some_bytes e h =
      let same : f ≡ f' = cc in (r, refl, subst (Agree offset len dst r) same h)
  planes-Agree offset len dst (suc rounds) plane r f f' some_bytes e h =
      let plane_offset = plane_offset_of fw cv_ref layout plane in
      let stride = stride_of fw cv_ref layout plane in
      let rows = rows_of fw cv_ref layout plane in
      let src_stride = fw.get_bytes_per_row_of_plane cv_ref plane in
      elim (Option-cases (fw.get_base_address_of_plane cv_ref plane)) [
        | inl n ↦ let stop = copy_planes-none rounds plane f n in absurd (cc)
        | inr (plane_base, n) ↦
            let rest = sym (copy_planes-some rounds plane f plane_base n) ∙ e in
            let copied = copy_rows plane_base src_stride stride plane_offset rows 0 f in
            elim (Bool-cases
              (leb (min (offset + len) (plane_offset + stride * rows)) (max offset plane_offset))) [
                | inl s ↦
                    let apart : min (offset + len) (plane_offset + stride * rows)
                        ≤ max offset plane_offset =
                      ground (arith, s) in
                    let next =
                      planes-Agree offset len dst rounds (plane + 1) r copied f' some_bytes rest (
                        plane-skipped plane_base src_stride stride plane_offset offset len dst rows
                          r f some_bytes apart h) in
                    (next.0, rw s next.1, next.2)
                | inr s ↦
                    let meets : max offset plane_offset
                        < min (offset + len) (plane_offset + stride * rows) =
                      ground (arith, s) in
                    let local_start = max offset plane_offset - plane_offset in
                    let local_end =
                      min (offset + len) (plane_offset + stride * rows) - plane_offset in
                    let first_row = local_start / stride in
                    let last_row = (local_end - 1) / stride in
                    let next =
                      planes-Agree offset len dst rounds (plane + 1)
                        (range_rows plane_base src_stride stride plane_offset offset local_start
                          local_end (last_row + 1 - first_row) first_row r)
                        copied f' some_bytes rest
                        (plane-Agree plane_base src_stride stride plane_offset offset len dst rows r
                          f meets h) in
                    (next.0, rw s (rw (n, range_planes) next.1), next.2)
              ]
      ]

  zeros-Agree :
      (offset len : ℕ) (destination : Memory)
      → Agree offset len destination (write_zeros destination len) (λ _. 0)
  zeros-Agree offset len destination i = (
    λ lt. let below : ltb i len ≡ true = ground (arith, lt) in rw below refl,
    λ le. let above : ltb i len ≡ false = ground (arith, le) in rw above refl,
  )

  base-Agree :
      (offset len : ℕ) (destination base : Memory)
      → offset + len ≤ layout.total_size
      → Agree offset len destination
          (copy_nonoverlapping base offset (write_zeros destination len) 0 len)
          (copy_nonoverlapping base 0 (λ _. 0) 0 layout.total_size)
  base-Agree offset len destination base within i =
      let zeroed = write_zeros destination len in
      (
        λ lt.
            copy-hit base offset zeroed 0 len i (omega arith) (omega (arith, lt))
            ∙ ap base (omega arith)
            ∙ sym (
                copy-hit base 0 (λ _. 0) 0 layout.total_size (offset + i) (omega arith)
                  (omega (arith, lt, within))),
        λ le.
            copy-miss base offset zeroed 0 len i (omega (arith, le))
            ∙ (zeros-Agree offset len destination i).1 le,
      )

  -- A range of a pixel buffer, copied for itself, is what the copy of the whole frame into zeroed bytes has
  -- in that range, and the copy writes nothing behind it; and it succeeds if the copy of the whole frame
  -- does. The range is not empty, and within the frame.
  pub byte_range-slices :
      (offset len : ℕ) (destination whole : Memory)
      → 0 < len
      → offset + len ≤ layout.total_size
      → copy_layout_to_bytes fw cv_ref layout (λ _. 0) ≡ some whole
      → (r : Memory) × (vtf_copy_pixel_buffer_byte_range fw cv_ref layout offset len destination
          ≡ some r)
        × ((i : ℕ) → (i < len → r i ≡ whole (offset + i)) × (len ≤ i → r i ≡ destination i))
  unfolding vtf_copy_pixel_buffer_byte_range copy_layout_to_bytes
  byte_range-slices offset len destination whole some_bytes within e =
      let inside : (ltb layout.total_size offset || ltb (layout.total_size - offset) len) ≡ false =
        ground (arith, within) in
      let filled : (len == 0) ≡ false = ground (arith, some_bytes) in
      elim (Bool-cases (layout.plane_count == 0)) [
        | inl c ↦
            let stop : copy_layout_to_bytes fw cv_ref layout (λ _. 0) ≡ none =
              rw (c, copy_layout_to_bytes) refl in
            absurd (cc)
        | inr c ↦
            rw (c, inside, filled)
              (elim (Bool-cases (layout.plane_count == 1 || fw.get_plane_count cv_ref == 0)) [
                | inl one ↦ rw one (elim (Option-cases (fw.get_base_address cv_ref)) [
                  | inl n ↦
                      let stop : copy_layout_to_bytes fw cv_ref layout (λ _. 0) ≡ none =
                        rw (c, one, n, copy_layout_to_bytes) refl in
                      absurd (cc)
                  | inr (base, n) ↦
                      let full : copy_layout_to_bytes fw cv_ref layout (λ _. 0)
                          ≡ some (copy_nonoverlapping base 0 (λ _. 0) 0 layout.total_size) =
                        rw (c, one, n, copy_layout_to_bytes) refl in
                      let same : copy_nonoverlapping base 0 (λ _. 0) 0 layout.total_size ≡ whole =
                        cc in
                      (
                        copy_nonoverlapping base offset (write_zeros destination len) 0 len,
                        rw n refl,
                        subst
                            (Agree offset len destination
                              (copy_nonoverlapping base offset (write_zeros destination len) 0 len))
                            same (base-Agree offset len destination base within),
                      )
                ])
                | inr more ↦ rw more (
                    let full : copy_layout_to_bytes fw cv_ref layout (λ _. 0)
                        ≡ copy_planes fw cv_ref layout layout.plane_count 0 (λ _. 0) =
                      rw (c, more, copy_layout_to_bytes) refl in
                    planes-Agree offset len destination layout.plane_count 0
                      (write_zeros destination len) (λ _. 0) whole some_bytes (sym full ∙ e)
                      (zeros-Agree offset len destination))
              ])
      ]
