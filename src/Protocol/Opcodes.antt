-- ===== src/Protocol/Opcodes.antt =====
-- The opcodes, as numbers on the wire, and the limits of the decode and batch operations.
use vt_ferry.Prelude.{ℕ, ◌*◌}

abbrev pub op_hello : ℕ
op_hello = 0x0001

abbrev pub op_ping : ℕ
op_ping = 0x0002

abbrev pub op_get_caps : ℕ
op_get_caps = 0x0010

abbrev pub op_create_session : ℕ
op_create_session = 0x0020

abbrev pub op_set_property : ℕ
op_set_property = 0x0022

abbrev pub op_prepare_session : ℕ
op_prepare_session = 0x0023

abbrev pub op_create_buffer_pool : ℕ
op_create_buffer_pool = 0x0030

abbrev pub op_alloc_buffer : ℕ
op_alloc_buffer = 0x0032

abbrev pub op_read_buffer : ℕ
op_read_buffer = 0x0034

abbrev pub op_write_buffer : ℕ
op_write_buffer = 0x0036

abbrev pub op_recycle_buffer : ℕ
op_recycle_buffer = 0x0060

abbrev pub op_encode_frame : ℕ
op_encode_frame = 0x0040

abbrev pub op_encode_frame_batch : ℕ
op_encode_frame_batch = 0x0042

abbrev pub op_dequeue_output : ℕ
op_dequeue_output = 0x0050

abbrev pub op_dequeue_output_batch : ℕ
op_dequeue_output_batch = 0x0056

abbrev pub op_read_output : ℕ
op_read_output = 0x0052

abbrev pub op_release_output : ℕ
op_release_output = 0x0054

abbrev pub op_release_output_batch : ℕ
op_release_output_batch = 0x0058

abbrev pub op_drain : ℕ
op_drain = 0x0070

abbrev pub op_destroy_session : ℕ
op_destroy_session = 0x0080

abbrev pub op_enqueue_encoded_frame : ℕ
op_enqueue_encoded_frame = 0x0090

abbrev pub op_dequeue_decoded_frame : ℕ
op_dequeue_decoded_frame = 0x0092

abbrev pub op_release_decoded_frame : ℕ
op_release_decoded_frame = 0x0094

abbrev pub op_set_decode_format : ℕ
op_set_decode_format = 0x0096

abbrev pub op_read_decoded_frame : ℕ
op_read_decoded_frame = 0x0098

abbrev pub op_bind_decode_output_pool : ℕ
op_bind_decode_output_pool = 0x009A

abbrev pub op_read_decoded_frame_chunk : ℕ
op_read_decoded_frame_chunk = 0x009C

abbrev pub op_destroy_buffer_pool : ℕ
op_destroy_buffer_pool = 0x009E

abbrev pub op_enqueue_encoded_frame_chunk : ℕ
op_enqueue_encoded_frame_chunk = 0x00A0

abbrev pub vtf_transport_max_encoded_frame_bytes : ℕ
vtf_transport_max_encoded_frame_bytes = 4 * 1024 * 1024

abbrev pub vtf_transport_max_decoded_frame_bytes : ℕ
vtf_transport_max_decoded_frame_bytes = 1_500_000

abbrev pub create_buffer_pool_compact_reply_format : ℕ
create_buffer_pool_compact_reply_format = 1

abbrev pub vtf_transport_max_encode_batch : ℕ
vtf_transport_max_encode_batch = 32
