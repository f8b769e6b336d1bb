-- ===== src/Protocol/Codes.antt =====
-- The constants of crates/vt-ferry-protocol/src/lib.rs.
use vt_ferry.Prelude.{ℕ, ◌^◌, ◌==◌, if◌then◌else◌, Option, none, some}

abbrev pub vtf_transport_version : ℕ
vtf_transport_version = 1

-- CAP_CODEC_H264 | CAP_CODEC_HEVC and the like are sums, since the bits are distinct.
abbrev pub cap_codec_h264 : ℕ
cap_codec_h264 = 2 ^ 0

abbrev pub cap_codec_hevc : ℕ
cap_codec_hevc = 2 ^ 1

abbrev pub cap_pixel_format_nv12 : ℕ
cap_pixel_format_nv12 = 2 ^ 0

abbrev pub cap_pixel_format_bgra : ℕ
cap_pixel_format_bgra = 2 ^ 1

abbrev pub cap_pixel_format_p010 : ℕ
cap_pixel_format_p010 = 2 ^ 2

abbrev pub cap_session_feature_async_complete : ℕ
cap_session_feature_async_complete = 2 ^ 0

abbrev pub cap_session_feature_buffer_sync : ℕ
cap_session_feature_buffer_sync = 2 ^ 1

abbrev pub vtf_transport_max_output_batch : ℕ
vtf_transport_max_output_batch = 24

abbrev pub vtf_transport_max_pool_slots : ℕ
vtf_transport_max_pool_slots = 64

abbrev pub status_ok : ℕ
status_ok = 0

abbrev pub status_unsupported_opcode : ℕ
status_unsupported_opcode = 1

abbrev pub status_unsupported_version : ℕ
status_unsupported_version = 2

abbrev pub status_unsupported_codec_or_format : ℕ
status_unsupported_codec_or_format = 3

abbrev pub status_invalid_handle : ℕ
status_invalid_handle = 4

abbrev pub status_stale_generation : ℕ
status_stale_generation = 5

abbrev pub status_invalid_state : ℕ
status_invalid_state = 6

abbrev pub status_bounds_violation : ℕ
status_bounds_violation = 7

abbrev pub status_internal_failure : ℕ
status_internal_failure = 8

abbrev pub status_timeout : ℕ
status_timeout = 9

abbrev pub status_resource_exhausted : ℕ
status_resource_exhausted = 10

abbrev pub vtf_session_kind_encode : ℕ
vtf_session_kind_encode = 1

abbrev pub vtf_session_kind_decode : ℕ
vtf_session_kind_decode = 2

abbrev pub vtf_transport_max_parameter_sets : ℕ
vtf_transport_max_parameter_sets = 4

abbrev pub vtf_transport_max_parameter_set_bytes : ℕ
vtf_transport_max_parameter_set_bytes = 128

-- The opcodes that the in-memory backend serves.
pub data Opcode : Type 0 where
  hello ping get_caps create_session set_property prepare_session create_buffer_pool : Opcode
  alloc_buffer read_buffer write_buffer recycle_buffer encode_frame dequeue_output : Opcode
  dequeue_output_batch read_output release_output drain destroy_session : Opcode

-- The numbers of the opcodes, as the arms of `dispatch` match them.
unfoldable pub opcode_of : ℕ → Option Opcode
opcode_of n =
    if n == 0x0001
    then some hello
    else if n == 0x0002
    then some ping
    else if n == 0x0010
    then some get_caps
    else if n == 0x0020
    then some create_session
    else if n == 0x0030
    then some create_buffer_pool
    else if n == 0x0032
    then some alloc_buffer
    else if n == 0x0034
    then some read_buffer
    else if n == 0x0036
    then some write_buffer
    else if n == 0x0060
    then some recycle_buffer
    else if n == 0x0022
    then some set_property
    else if n == 0x0023
    then some prepare_session
    else if n == 0x0040
    then some encode_frame
    else if n == 0x0050
    then some dequeue_output
    else if n == 0x0056
    then some dequeue_output_batch
    else if n == 0x0052
    then some read_output
    else if n == 0x0054
    then some release_output
    else if n == 0x0080
    then some destroy_session
    else if n == 0x0070
    then some drain
    else none
