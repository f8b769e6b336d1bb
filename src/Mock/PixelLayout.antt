-- ===== src/Mock/PixelLayout.antt =====
-- `align_size` and `fill_buffer_layout` of crates/vt-ferry-worker/src/mock.rs. The products and sums of
-- u32 wrap, as they do in the release profile.
use vt_ferry.Prelude.{ℕ, ◌+◌, ◌-◌, ◌*◌, ◌/◌, ◌%◌, ◌^◌, Bool, ◌||◌, ◌==◌, if◌then◌else◌, [], ◌∷◌}
use vt_ferry.Protocol.Buffers.{BufferLayoutReply}

abbrev pub to_u32 : ℕ → ℕ
to_u32 n = n % 2 ^ 32

unfoldable pub align_size : ℕ → ℕ → ℕ
align_size value alignment =
    if alignment == 0
    then value
    else if value % alignment == 0
    then value
    else value + (alignment - value % alignment)

-- '420v' and '420f'
abbrev pub is_nv12 : ℕ → Bool
is_nv12 pixel_format = pixel_format == 0x34323076 || pixel_format == 0x34323066

-- 'x420' and 'xf20'
abbrev pub is_p010 : ℕ → Bool
is_p010 pixel_format = pixel_format == 0x78343230 || pixel_format == 0x78663230

unfoldable pub biplanar : ℕ → ℕ → ℕ → BufferLayoutReply
biplanar stride width height = record {
  plane_count = 2;
  total_size = to_u32 (to_u32 (stride * height) + to_u32 (stride * (height / 2)));
  plane_offsets = 0 ∷ to_u32 (stride * height) ∷ 0 ∷ 0 ∷ [];
  plane_widths = width ∷ (width / 2) ∷ 0 ∷ 0 ∷ [];
  plane_heights = height ∷ (height / 2) ∷ 0 ∷ 0 ∷ [];
  plane_bytes_per_row = stride ∷ stride ∷ 0 ∷ 0 ∷ [];
}

unfoldable pub packed : ℕ → ℕ → ℕ → BufferLayoutReply
packed stride width height = record {
  plane_count = 1;
  total_size = to_u32 (stride * height);
  plane_offsets = 0 ∷ 0 ∷ 0 ∷ 0 ∷ [];
  plane_widths = width ∷ 0 ∷ 0 ∷ 0 ∷ [];
  plane_heights = height ∷ 0 ∷ 0 ∷ 0 ∷ [];
  plane_bytes_per_row = stride ∷ 0 ∷ 0 ∷ 0 ∷ [];
}

unfoldable pub fill_buffer_layout : ℕ → ℕ → ℕ → BufferLayoutReply
unfolding align_size biplanar packed
fill_buffer_layout width height pixel_format =
    if is_nv12 pixel_format
    then biplanar (to_u32 (align_size width 64)) width height
    else if is_p010 pixel_format
    then biplanar (to_u32 (align_size (width * 2) 64)) width height
    else packed (to_u32 (align_size (width * 4) 64)) width height
