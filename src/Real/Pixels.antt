-- ===== src/Real/Pixels.antt =====
-- The canonical layout of a frame and the two ways in which crates/vt-ferry-worker/src/vt_real.rs copies a
-- pixel buffer to it, whole or a range of its bytes.
use vt_ferry.Prelude.{
  ℕ, zero, suc, ◌+◌, ◌-◌, ◌*◌, ◌/◌, ◌%◌, min, max, ◌||◌, ◌&&◌, ◌==◌, ltb, leb, if◌then◌else◌,
  Option, none, some, [], ◌∷◌, get_or,
}
use vt_ferry.Protocol.Buffers.{BufferLayoutReply}
use vt_ferry.Mock.PixelLayout.{to_u32, is_nv12, is_p010}
use vt_ferry.Mock.Handles.{to_u64}
use vt_ferry.Real.Frameworks.{Frameworks}

unfoldable pub vtf_align_size : ℕ → ℕ → ℕ
vtf_align_size value alignment =
    if alignment == 0
    then value
    else if value % alignment == 0
    then value
    else value + (alignment - value % alignment)

unfoldable pub vtf_buffer_total_size : ℕ → ℕ → ℕ → ℕ
unfolding vtf_align_size
vtf_buffer_total_size width height pixel_format =
    let planar = λ (stride : ℕ). to_u64 (stride * height + stride * (height / 2)) in
    if is_nv12 pixel_format
    then planar (vtf_align_size width 64)
    else if is_p010 pixel_format
    then planar (vtf_align_size (width * 2) 64)
    else to_u64 (vtf_align_size (width * 4) 64 * height)

abbrev pub two_planes : ℕ → ℕ → ℕ → BufferLayoutReply
two_planes stride width height = record {
  plane_count = 2;
  total_size = to_u32 (to_u32 (stride * height) + to_u32 (stride * (height / 2)));
  plane_offsets = 0 ∷ to_u32 (stride * height) ∷ 0 ∷ 0 ∷ [];
  plane_widths = width ∷ (width / 2) ∷ 0 ∷ 0 ∷ [];
  plane_heights = height ∷ (height / 2) ∷ 0 ∷ 0 ∷ [];
  plane_bytes_per_row = stride ∷ stride ∷ 0 ∷ 0 ∷ [];
}

abbrev pub one_plane : ℕ → ℕ → ℕ → BufferLayoutReply
one_plane stride width height = record {
  plane_count = 1;
  total_size = to_u32 (stride * height);
  plane_offsets = 0 ∷ 0 ∷ 0 ∷ 0 ∷ [];
  plane_widths = width ∷ 0 ∷ 0 ∷ 0 ∷ [];
  plane_heights = height ∷ 0 ∷ 0 ∷ 0 ∷ [];
  plane_bytes_per_row = stride ∷ 0 ∷ 0 ∷ 0 ∷ [];
}

unfoldable pub vtf_fill_buffer_layout : ℕ → ℕ → ℕ → BufferLayoutReply
unfolding vtf_align_size
vtf_fill_buffer_layout width height pixel_format =
    if is_nv12 pixel_format
    then two_planes (to_u32 (vtf_align_size width 64)) width height
    else if is_p010 pixel_format
    then two_planes (to_u32 (vtf_align_size (width * 2) 64)) width height
    else one_plane (to_u32 (vtf_align_size (width * 4) 64)) width height

-- The bytes from an address on.
abbrev pub Memory : Type 0
Memory = ℕ → ℕ

-- `len` bytes from `from` in one memory to `to` in another.
unfoldable pub copy_nonoverlapping : Memory → ℕ → Memory → ℕ → ℕ → Memory
copy_nonoverlapping src from dst to len =
    λ i. if leb to i && ltb i (to + len) then src (from + (i - to)) else dst i

abbrev pub write_zeros : Memory → ℕ → Memory
write_zeros dst len = λ i. if ltb i len then 0 else dst i

-- `for row in row..row + rounds` of the whole copy.
unfoldable pub copy_rows : Memory → ℕ → ℕ → ℕ → ℕ → ℕ → Memory → Memory
unfolding copy_nonoverlapping
copy_rows plane_base src_stride dst_stride plane_offset zero row dst = dst
copy_rows plane_base src_stride dst_stride plane_offset (suc rounds) row dst =
    copy_rows plane_base src_stride dst_stride plane_offset rounds (row + 1) (
      copy_nonoverlapping plane_base (row * src_stride) dst (plane_offset + row * dst_stride)
        (min dst_stride src_stride))

-- One row of the copy of a range: what of the row is in the range and not padding.
unfoldable pub range_row : Memory → ℕ → ℕ → ℕ → ℕ → ℕ → ℕ → ℕ → Memory → Memory
unfolding copy_nonoverlapping
range_row plane_base src_stride plane_stride plane_offset offset local_start local_end row dst =
    let row_byte_offset = row * plane_stride in
    let row_start = max local_start row_byte_offset in
    let row_end = min local_end (row_byte_offset + plane_stride) in
    let col_start = row_start - row_byte_offset in
    let copy_end = min (row_end - row_byte_offset) (min src_stride plane_stride) in
    if leb copy_end col_start
    then dst
    else copy_nonoverlapping plane_base (row * src_stride + col_start) dst
        (row_byte_offset + col_start + plane_offset - offset) (copy_end - col_start)

unfoldable pub range_rows : Memory → ℕ → ℕ → ℕ → ℕ → ℕ → ℕ → ℕ → ℕ → Memory → Memory
unfolding range_row
range_rows plane_base src_stride plane_stride plane_offset offset local_start local_end zero row
      dst =
    dst
range_rows plane_base src_stride plane_stride plane_offset offset local_start local_end (suc rounds)
      row dst =
    range_rows plane_base src_stride plane_stride plane_offset offset local_start local_end rounds
      (row + 1)
      (range_row plane_base src_stride plane_stride plane_offset offset local_start local_end row
        dst)

module _ (fw : Frameworks) (cv_ref : fw.CvImageBuffer) (layout : BufferLayoutReply) where
  abbrev pub plane_offset_of : ℕ → ℕ
  plane_offset_of plane = get_or layout.plane_offsets plane 0

  abbrev pub stride_of : ℕ → ℕ
  stride_of plane = get_or layout.plane_bytes_per_row plane 0

  abbrev pub rows_of : ℕ → ℕ
  rows_of plane = get_or layout.plane_heights plane 0

  unfoldable pub copy_planes : ℕ → ℕ → Memory → Option Memory
  unfolding copy_rows
  copy_planes zero plane dst = some dst
  copy_planes (suc rounds) plane dst = elim (fw.get_base_address_of_plane cv_ref plane) [
    | none ↦ none
    | some plane_base ↦ copy_planes rounds (plane + 1) (
        copy_rows plane_base (fw.get_bytes_per_row_of_plane cv_ref plane) (stride_of plane)
          (plane_offset_of plane) (rows_of plane) 0 dst)
  ]

  -- The loop over the planes that meet the range.
  unfoldable pub range_planes : ℕ → ℕ → ℕ → ℕ → Memory → Option Memory
  unfolding range_rows
  range_planes offset len zero plane dst = some dst
  range_planes offset len (suc rounds) plane dst =
      let plane_offset = plane_offset_of plane in
      let plane_stride = stride_of plane in
      let range_start = max offset plane_offset in
      let range_end = min (offset + len) (plane_offset + plane_stride * rows_of plane) in
      let local_start = range_start - plane_offset in
      let local_end = range_end - plane_offset in
      let first_row = local_start / plane_stride in
      let last_row = (local_end - 1) / plane_stride in
      if leb range_end range_start
      then range_planes offset len rounds (plane + 1) dst
      else (elim (fw.get_base_address_of_plane cv_ref plane) [
        | none ↦ none
        | some plane_base ↦ range_planes offset len rounds (plane + 1) (
            range_rows plane_base (fw.get_bytes_per_row_of_plane cv_ref plane) plane_stride
              plane_offset offset local_start local_end (last_row + 1 - first_row) first_row dst)
      ])

  -- `none` is the return of false.
  unfoldable pub vtf_copy_pixel_buffer_byte_range : ℕ → ℕ → Memory → Option Memory
  unfolding range_planes copy_nonoverlapping
  vtf_copy_pixel_buffer_byte_range offset len destination =
      let zeroed = write_zeros destination len in
      if layout.plane_count == 0
      then none
      else if ltb layout.total_size offset || ltb (layout.total_size - offset) len
      then none
      else if len == 0
      then some destination
      else if layout.plane_count == 1 || fw.get_plane_count cv_ref == 0
      then (elim (fw.get_base_address cv_ref) [
        | none ↦ none
        | some base ↦ some (copy_nonoverlapping base offset zeroed 0 len)
      ])
      else range_planes offset len layout.plane_count 0 zeroed

  -- `vtf_copy_pixel_buffer_to_bytes`, of which the layout is that of the width, the height and the format.
  unfoldable pub copy_layout_to_bytes : Memory → Option Memory
  unfolding copy_planes copy_nonoverlapping
  copy_layout_to_bytes destination =
      if layout.plane_count == 0
      then none
      else if layout.plane_count == 1 || fw.get_plane_count cv_ref == 0
      then (elim (fw.get_base_address cv_ref) [
        | none ↦ none
        | some base ↦ some (copy_nonoverlapping base 0 destination 0 layout.total_size)
      ])
      else copy_planes layout.plane_count 0 destination

module _ (fw : Frameworks) where
  unfoldable pub vtf_copy_pixel_buffer_to_bytes :
      fw.CvImageBuffer → Memory → ℕ → ℕ → ℕ → Option Memory
  unfolding copy_layout_to_bytes vtf_fill_buffer_layout
  vtf_copy_pixel_buffer_to_bytes cv_ref destination width height pixel_format =
      copy_layout_to_bytes fw cv_ref (vtf_fill_buffer_layout width height pixel_format) destination
