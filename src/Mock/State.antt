-- ===== src/Mock/State.antt =====
-- The state of the in-memory backend: its constants, its structs, `new`, `reset` and
-- `reset_from_env` of crates/vt-ferry-worker/src/mock.rs.
use vt_ferry.Prelude.{ℕ, ◌*◌, min, Bool, List, [], Option, none, some}
use vt_ferry.Protocol.Outputs.{DequeueOutputReply}

abbrev pub max_sessions : ℕ
max_sessions = 32

abbrev pub max_pools : ℕ
max_pools = 64

abbrev pub max_buffers_total : ℕ
max_buffers_total = 256

abbrev pub max_outputs_total : ℕ
max_outputs_total = 128

abbrev pub default_max_output_bytes : ℕ
default_max_output_bytes = max_outputs_total * 512

abbrev pub default_pool_buffers : ℕ
default_pool_buffers = 4

abbrev pub encode_output_flag_sync : ℕ
encode_output_flag_sync = 1

-- The three BUFFER_STATE constants.
pub data BufferState : Type 0 where
  guest_writable queued_to_host recycled : BufferState

pub record MockSession : Type 0 where
  pub id : ℕ
  pub kind : ℕ
  pub codec : ℕ
  pub width : ℕ
  pub height : ℕ
  pub pixel_format : ℕ
  pub prepared : Bool
  pub frames_encoded : ℕ

pub record MockPool : Type 0 where
  pub id : ℕ
  pub session_id : ℕ
  pub width : ℕ
  pub height : ℕ
  pub pixel_format : ℕ
  pub max_buffers : ℕ
  pub buffer_count : ℕ
  pub slot_region_size : ℕ
  pub backing : List ℕ

pub record MockBuffer : Type 0 where
  pub id : ℕ
  pub pool_id : ℕ
  pub generation : ℕ
  pub slot_index : ℕ
  pub width : ℕ
  pub height : ℕ
  pub pixel_format : ℕ
  pub state : BufferState
  pub total_size : ℕ

pub record MockOutput : Type 0 where
  pub reply : DequeueOutputReply
  pub source_buffer_id : ℕ
  pub source_buffer_generation : ℕ
  pub sample_data : List ℕ
  pub dequeued : Bool

pub record MockBackend : Type 0 where
  pub next_host_id : ℕ
  pub next_output_id : ℕ
  pub max_output_count : ℕ
  pub max_output_bytes : ℕ
  pub output_bytes_total : ℕ
  pub sessions : List MockSession
  pub pools : List MockPool
  pub buffers : List MockBuffer
  pub outputs : List MockOutput

unfoldable pub new : MockBackend
new = record {
  next_host_id = 1000;
  next_output_id = 5000;
  max_output_count = max_outputs_total;
  max_output_bytes = default_max_output_bytes;
  output_bytes_total = 0;
  sessions = [];
  pools = [];
  buffers = [];
  outputs = [];
}

-- Every field of the backend is written.
unfoldable pub reset : MockBackend → MockBackend
reset b = record b {
  next_host_id = 1000;
  next_output_id = 5000;
  max_output_count = max_outputs_total;
  max_output_bytes = default_max_output_bytes;
  output_bytes_total = 0;
  sessions = [];
  pools = [];
  buffers = [];
  outputs = [];
}

-- `var` is what the environment holds under the name, parsed as a usize, if both succeed.
unfoldable pub parse_size_env : Option ℕ → ℕ → ℕ
parse_size_env none default_value = default_value
parse_size_env (some var) default_value = var

-- `outputs_var` is VT_FERRY_MOCK_MAX_OUTPUTS and `bytes_var` VT_FERRY_MOCK_MAX_OUTPUT_BYTES.
unfoldable pub reset_from_env : Option ℕ → Option ℕ → MockBackend → MockBackend
unfolding reset parse_size_env
reset_from_env outputs_var bytes_var b = record (reset b) {
  max_output_count = min (parse_size_env outputs_var max_outputs_total) max_outputs_total;
  max_output_bytes = parse_size_env bytes_var default_max_output_bytes;
}
