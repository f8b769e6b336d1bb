-- ===== src/Broker/Sizes.antt =====
-- The sizes of pool slots in crates/vt-ferry-broker/src/pool.rs.
use Prim.Native.Nat.{bit_and}
use vt_ferry.Prelude.{ℕ, ◌+◌, ◌-◌, ◌*◌, ◌/◌, ◌^◌, ◌==◌, if◌then◌else◌, Option, none, some}
use vt_ferry.Mock.Handles.{to_u64}

abbrev pub bgra_fourcc : ℕ
bgra_fourcc = 0x42475241

abbrev pub nv12_fourcc : ℕ
nv12_fourcc = 0x34323076

-- `(value + alignment - 1) & !(alignment - 1)` on u64, with the wrap-around of a release build.
unfoldable pub align_up : ℕ → ℕ → ℕ
align_up value alignment =
    if alignment == 0
    then value
    else bit_and (to_u64 (value + (alignment - 1))) (2 ^ 64 - 1 - (alignment - 1))

-- `page_size` is what sysconf answers.
unfoldable pub page_round_up : ℕ → ℕ → ℕ
page_round_up page_size value =
    if page_size == 0
    then value
    else bit_and (to_u64 (value + (page_size - 1))) (2 ^ 64 - 1 - (page_size - 1))

-- `none` for a pixel format that is not supported.
unfoldable pub pool_slot_alloc_size : ℕ → ℕ → ℕ → ℕ → Option ℕ
unfolding align_up page_round_up
pool_slot_alloc_size page_size width height pixel_format =
    if pixel_format == bgra_fourcc
    then some (page_round_up page_size (to_u64 (width * 4 * height)))
    else if pixel_format == nv12_fourcc
    then (let stride = align_up width 64 in
        some (
          page_round_up page_size
            (to_u64 (to_u64 (stride * height) + to_u64 (stride * (height / 2))))))
    else none
