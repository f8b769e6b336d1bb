-- ===== src/Examples/Backend.antt =====
-- A backend with one prepared session, a pool of two slots, a writable and a recycled buffer, and two
-- outputs.
use vt_ferry.Prelude.{ℕ, refl, true, false, [], ◌∷◌, replicate, arith, sum_by, find_first}
use vt_ferry.Mock.State.{
  MockBackend, MockSession, MockPool, MockBuffer, MockOutput, guest_writable, recycled,
}
use vt_ferry.Mock.OutputOps.{zeroed_output}
use vt_ferry.Mock.Invariant.Defs.{Inv, HasHandles}

abbrev pub one_session : MockSession
one_session = record {
  id = 1000;
  kind = 1;
  codec = 0x61766331;
  width = 1;
  height = 1;
  pixel_format = 0x42475241;
  prepared = true;
  frames_encoded = 3;
}

abbrev pub one_pool : MockPool
one_pool = record {
  id = 1001;
  session_id = 1000;
  width = 1;
  height = 1;
  pixel_format = 0x42475241;
  max_buffers = 2;
  buffer_count = 2;
  slot_region_size = 64;
  backing = replicate 128 0;
}

abbrev pub writable_buffer : MockBuffer
writable_buffer = record {
  id = 1002;
  pool_id = 1001;
  generation = 2;
  slot_index = 0;
  width = 1;
  height = 1;
  pixel_format = 0x42475241;
  state = guest_writable;
  total_size = 64;
}

abbrev pub recycled_buffer : MockBuffer
recycled_buffer = record {
  id = 1003;
  pool_id = 1001;
  generation = 1;
  slot_index = 1;
  width = 1;
  height = 1;
  pixel_format = 0x42475241;
  state = recycled;
  total_size = 64;
}

abbrev pub output_of : ℕ → MockOutput
output_of output_id = record {
  reply = record zeroed_output { session_id = 1000; output_id = output_id; sample_size = 28 };
  source_buffer_id = 1003;
  source_buffer_generation = 1;
  sample_data = replicate 28 7;
  dequeued = false;
}

abbrev pub small_backend : MockBackend
small_backend = record {
  next_host_id = 1004;
  next_output_id = 5002;
  max_output_count = 128;
  max_output_bytes = 65536;
  output_bytes_total = 56;
  sessions = one_session ∷ [];
  pools = one_pool ∷ [];
  buffers = writable_buffer ∷ recycled_buffer ∷ [];
  outputs = output_of 5000 ∷ output_of 5001 ∷ [];
}

pub small_backend-Inv : Inv small_backend
unfolding sum_by find_first
small_backend-Inv = record {
  sessions_ok = record { rise = (omega arith, omega arith); room = omega arith };
  pools_ok = record {
    rise = (omega arith, omega arith);
    room = omega arith;
    each = (
      record {
        counted = omega arith;
        countable = omega arith;
        backed = refl;
        addressable = omega arith;
      },
      tt,
    );
  };
  buffers_ok = record {
    rise = (omega arith, (omega arith, omega arith));
    room = omega arith;
    each = (
      (one_pool, refl, omega arith, refl, omega arith),
      ((one_pool, refl, omega arith, refl, omega arith), tt),
    );
    apart = ((λ _ e. omega arith, tt), (tt, tt));
  };
  outputs_ok = record {
    rise = (omega arith, (omega arith, omega arith));
    room = omega arith;
    each = (refl, (refl, tt));
    total_exact = refl;
    total_room = omega arith;
    bytes_usize = omega arith;
  };
}

pub small_backend-HasHandles : HasHandles small_backend
small_backend-HasHandles = record { host = omega arith; output = omega arith }
