-- ===== src/Real/Rows.antt =====
-- The rows of a plane in the two copies of crates/vt-ferry-worker/src/vt_real.rs.
use vt_ferry.Prelude.{
  ℕ, zero, suc, ◌+◌, ◌-◌, ◌*◌, ◌≤◌, ◌<◌, ◌≡◌, ◌⊎◌, refl, sym, ap, subst, ◌∙◌, inl, inr, min, max,
  Bool-cases, true, false, ◌&&◌, ◌==◌, ltb, leb, arith,
}
use native.Mathlib.Nat.{mul-le-mul_right, add-mul}
use vt_ferry.Real.Pixels.{Memory, copy_nonoverlapping, copy_rows, range_row, range_rows}

-- The range holds what the frame has there, and nothing else has been written.
abbrev pub Agree : ℕ → ℕ → Memory → Memory → Memory → Type 0
Agree offset len dst r f = (i : ℕ) → (i < len → r i ≡ f (offset + i)) × (len ≤ i → r i ≡ dst i)

pub copy-hit :
    (src : Memory) (from : ℕ) (dst : Memory) (to len i : ℕ)
    → to ≤ i
    → i < to + len
    → copy_nonoverlapping src from dst to len i ≡ src (from + (i - to))
unfolding copy_nonoverlapping
copy-hit src from dst to len i lo hi =
    let inside : (leb to i && ltb i (to + len)) ≡ true = ground (arith, lo, hi) in rw inside refl

pub copy-miss :
    (src : Memory) (from : ℕ) (dst : Memory) (to len i : ℕ)
    → (i < to) ⊎ (to + len ≤ i)
    → copy_nonoverlapping src from dst to len i ≡ dst i
unfolding copy_nonoverlapping
copy-miss src from dst to len i out =
    let outside : (leb to i && ltb i (to + len)) ≡ false = ground (arith, out) in rw outside refl

between : (to len i : ℕ) → (leb to i && ltb i (to + len)) ≡ true → (to ≤ i) × (i < to + len)
between to len i e = ground (arith, e)

apart : (to len i : ℕ) → (leb to i && ltb i (to + len)) ≡ false → (i < to) ⊎ (to + len ≤ i)
apart to len i e = ground (arith, e)

module _ (plane_base : Memory) (src_stride stride plane_offset offset len : ℕ) (dst : Memory) where
  -- A row that does not meet the range.
  row-outside :
      (row_offset from : ℕ) (r f : Memory)
      → (plane_offset + row_offset + stride ≤ offset)
        ⊎ ((offset + len ≤ plane_offset + row_offset) ⊎ (stride ≤ 0))
      → Agree offset len dst r f
      → Agree offset len dst r (
          copy_nonoverlapping plane_base from f (plane_offset + row_offset) (min stride src_stride))
  row-outside row_offset from r f out h i = (
    λ lt.
        (h i).0 lt
        ∙ sym (
            copy-miss plane_base from f (plane_offset + row_offset) (min stride src_stride)
              (offset + i) (omega (arith, out, lt))),
    (h i).1,
  )

  module _ (size local_start local_end : ℕ)
      (starts : local_start ≡ max offset plane_offset - plane_offset)
      (ends : local_end ≡ min (offset + len) (plane_offset + size) - plane_offset)
      (meets : max offset plane_offset < min (offset + len) (plane_offset + size)) where
    -- A row of the plane, in both copies.
    row-inside :
        (row : ℕ) (r f : Memory)
        → row * stride + stride ≤ size
        → Agree offset len dst r f
        → Agree offset len dst
            (range_row plane_base src_stride stride plane_offset offset local_start local_end row r)
            (copy_nonoverlapping plane_base
              (row * src_stride)
              f
              (plane_offset + row * stride)
              (min stride src_stride))
    unfolding range_row
    row-inside row r f within h =
        let row_offset = row * stride in
        let col_start = max local_start row_offset - row_offset in
        let copy_end =
          min (min local_end (row_offset + stride) - row_offset) (min src_stride stride) in
        let to = row_offset + col_start + plane_offset - offset in
        elim (Bool-cases (leb copy_end col_start)) [
          | inl e ↦ rw e (
              let no_more : copy_end ≤ col_start = ground (arith, e) in
              λ i. (
                λ lt.
                    (h i).0 lt
                    ∙ sym (
                        copy-miss plane_base (row * src_stride) f (plane_offset + row_offset)
                          (min stride src_stride) (offset + i)
                          (omega (arith, lt, no_more, starts, ends, meets, within))),
                (h i).1,
              ))
          | inr e ↦ rw e (
              let more : col_start < copy_end = ground (arith, e) in
              λ i. (
                λ lt. elim (Bool-cases (leb to i && ltb i (to + (copy_end - col_start)))) [
                  | inl inside ↦
                      let (lo, hi) = between to (copy_end - col_start) i inside in
                      copy-hit plane_base (row * src_stride + col_start) r to (copy_end - col_start)
                        i lo hi
                      ∙ ap plane_base (omega (arith, lo, hi, more, starts, ends, meets))
                      ∙ sym (
                          copy-hit plane_base (row * src_stride) f (plane_offset + row_offset)
                            (min stride src_stride) (offset + i)
                            (omega (arith, lo, hi, more, starts, ends, meets))
                            (omega (arith, lo, hi, more, starts, ends, meets)))
                  | inr outside ↦
                      let out = apart to (copy_end - col_start) i outside in
                      copy-miss plane_base (row * src_stride + col_start) r to
                        (copy_end - col_start) i out
                      ∙ (h i).0 lt
                      ∙ sym (
                          copy-miss plane_base (row * src_stride) f (plane_offset + row_offset)
                            (min stride src_stride) (offset + i)
                            (omega (arith, lt, out, more, starts, ends, meets, within)))
                ],
                λ le.
                    copy-miss plane_base (row * src_stride + col_start) r to (copy_end - col_start)
                      i (omega (arith, le, more, starts, ends, meets))
                    ∙ (h i).1 le,
              ))
        ]

  next-row : (row : ℕ) → (row + 1) * stride ≡ row * stride + stride
  next-row row =
      let once : 1 * stride ≡ stride = omega arith in
      add-mul row 1 stride ∙ ap (λ n. row * stride + n) once

  shift-row : (row n : ℕ) → (row + suc n) * stride ≡ (row + 1 + n) * stride
  shift-row row n = ap (λ m. m * stride) (omega arith)

  later-row : (row n : ℕ) → row * stride + stride ≤ (row + suc n) * stride
  later-row row n =
      let up = mul-le-mul_right {m = row + 1} {n = row + suc n} stride (omega arith) in
      omega (arith, up, next-row row)

  pub rows-outside :
      (rounds row : ℕ) (r f : Memory)
      → (plane_offset + (row + rounds) * stride ≤ offset)
        ⊎ ((offset + len ≤ plane_offset + row * stride) ⊎ (stride ≤ 0))
      → Agree offset len dst r f
      → Agree offset len dst r (copy_rows plane_base src_stride stride plane_offset rounds row f)
  unfolding copy_rows
  rows-outside zero row r f out h = h
  rows-outside (suc n) row r f out h =
      rows-outside n (row + 1) r
        (copy_nonoverlapping plane_base (row * src_stride) f (plane_offset + row * stride)
          (min stride src_stride))
        (elim out [
          | inl a ↦ inl (omega (arith, a, shift-row row n))
          | inr (inl b) ↦ inr (inl (omega (arith, b, next-row row)))
          | inr (inr c) ↦ inr (inr c)
        ])
        (row-outside (row * stride) (row * src_stride) r f
          (elim out [ inl a ↦ inl (omega (arith, a, later-row row n)) | inr o ↦ inr o ]) h)

  module _ (size local_start local_end : ℕ)
      (starts : local_start ≡ max offset plane_offset - plane_offset)
      (ends : local_end ≡ min (offset + len) (plane_offset + size) - plane_offset)
      (meets : max offset plane_offset < min (offset + len) (plane_offset + size)) where
    -- From the first row of the range on.
    rows-inside :
        (k rounds row : ℕ) (r f : Memory)
        → k ≤ rounds
        → (row + rounds) * stride ≤ size
        → local_end ≤ (row + k) * stride
        → Agree offset len dst r f
        → Agree offset len dst
            (range_rows plane_base src_stride stride plane_offset offset local_start local_end k row
              r)
            (copy_rows plane_base src_stride stride plane_offset rounds row f)
    unfolding range_rows copy_rows
    rows-inside zero zero row r f le within past h = h
    rows-inside zero (suc n) row r f le within past h =
        let here : (row + 0) * stride ≡ row * stride = ap (λ m. m * stride) (omega arith) in
        rows-outside (suc n) row r f
          (elim (Bool-cases (leb (offset + len) (plane_offset + row * stride))) [
            | inl e ↦ inr (inl (ground (arith, e)))
            | inr e ↦
                let before : plane_offset + row * stride < offset + len = ground (arith, e) in
                inr (inr (omega (arith, before, ends, past, here, later-row row n, within)))
          ])
          h
    rows-inside (suc k) zero row r f le within past h =
        let never : ⊥ = omega (arith, le) in absurd never
    rows-inside (suc k) (suc n) row r f le within past h =
        rows-inside k n (row + 1)
          (range_row plane_base src_stride stride plane_offset offset local_start local_end row r)
          (copy_nonoverlapping plane_base (row * src_stride) f (plane_offset + row * stride)
            (min stride src_stride))
          (omega (arith, le)) (omega (arith, within, shift-row row n))
          (omega (arith, past, shift-row row k))
          (row-inside size local_start local_end starts ends meets row r f
            (omega (arith, within, later-row row n)) h)

    -- All rows of the plane, of which the range starts at `first`.
    pub rows-from :
        (first k rounds row : ℕ) (r f : Memory)
        → row ≤ first
        → first + k ≤ row + rounds
        → first * stride ≤ local_start
        → (row + rounds) * stride ≤ size
        → local_end ≤ (first + k) * stride
        → Agree offset len dst r f
        → Agree offset len dst
            (range_rows plane_base src_stride stride plane_offset offset local_start local_end k
              first r)
            (copy_rows plane_base src_stride stride plane_offset rounds row f)
    unfolding copy_rows
    rows-from first k zero row r f le fits before within past h =
        let same : row ≡ first = omega (arith, le, fits) in
        rows-inside k 0 first r f (omega (arith, fits, same))
          (subst (λ x. (x + 0) * stride ≤ size) same within) past h
    rows-from first k (suc n) row r f le fits before within past h =
        elim (Bool-cases (row == first)) [
          | inl e ↦
              let same : row ≡ first = ground (arith, e) in
              rw same (
                rows-inside k (suc n) first r f (omega (arith, fits, same))
                  (subst (λ x. (x + suc n) * stride ≤ size) same within) past h)
          | inr e ↦
              let sooner : row < first = ground (arith, e, le) in
              let up = mul-le-mul_right {m = row + 1} {n = first} stride (omega (arith, sooner)) in
              rows-from first k n (row + 1) r
                (copy_nonoverlapping plane_base (row * src_stride) f (plane_offset + row * stride)
                  (min stride src_stride))
                (omega (arith, sooner)) (omega (arith, fits)) before
                (omega (arith, within, shift-row row n)) past
                (row-outside (row * stride) (row * src_stride) r f (early row up) h)
        ]
      where
        early :
            (row' : ℕ)
            → (row' + 1) * stride ≤ first * stride
            → (plane_offset + row' * stride + stride ≤ offset)
              ⊎ ((offset + len ≤ plane_offset + row' * stride) ⊎ (stride ≤ 0))
        early row' up = elim (Bool-cases (leb stride 0)) [
          | inl e ↦ inr (inr (ground (arith, e)))
          | inr e ↦
              let some_bytes : 0 < stride = ground (arith, e) in
              inl (omega (arith, up, before, starts, next-row row', some_bytes))
        ]
