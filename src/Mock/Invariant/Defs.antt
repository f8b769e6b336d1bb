-- ===== src/Mock/Invariant/Defs.antt =====
-- The invariant of the backend, in parts.
use vt_ferry.Prelude.{
  ℕ, ◌+◌, ◌*◌, ◌^◌, ◌≤◌, ◌<◌, ◌≡◌, List, [], ◌∷◌, some, length, find_first, sum_by, All, Rising,
}
use vt_ferry.Mock.State.{
  MockSession, MockPool, MockBuffer, MockOutput, MockBackend, max_sessions, max_pools,
  max_buffers_total,
}
use vt_ferry.Mock.Handles.{pool_is}

-- The backing holds `max_buffers` slots, which a u32 counts and a usize addresses.
pub record IsPool (p : MockPool) : Type 0 where
  pub counted : p.buffer_count ≤ p.max_buffers
  pub countable : p.max_buffers < 2 ^ 32
  pub backed : length p.backing ≡ p.max_buffers * p.slot_region_size
  pub addressable : length p.backing < 2 ^ 64

-- The buffer's pool exists, and the buffer is one of the slots that the pool has handed out.
abbrev pub HasSlot : List MockPool → MockBuffer → Type 0
HasSlot pools x =
    (p : MockPool) × (find_first (pool_is x.pool_id) pools ≡ some p)
    × (x.slot_index < p.buffer_count)
    × (x.total_size ≡ p.slot_region_size)
    × (0 < p.slot_region_size)

-- No two buffers share a slot.
abbrev pub OtherSlot : MockBuffer → MockBuffer → Type 0
OtherSlot x y = x.pool_id ≡ y.pool_id → x.slot_index ≡ y.slot_index → ⊥

abbrev pub Apart : List MockBuffer → Type 0
Apart [] = Unit
Apart (x ∷ xs) = All (OtherSlot x) xs × Apart xs

abbrev pub HasSample : MockOutput → Type 0
HasSample o = length o.sample_data ≡ o.reply.sample_size

abbrev pub session_key : MockSession → ℕ
session_key s = s.id

abbrev pub pool_key : MockPool → ℕ
pool_key p = p.id

abbrev pub buffer_key : MockBuffer → ℕ
buffer_key x = x.id

abbrev pub output_key : MockOutput → ℕ
output_key o = o.reply.output_id

abbrev pub sample_size : MockOutput → ℕ
sample_size o = o.reply.sample_size

-- Handles are fresh numbers, never zero, and at most 32 sessions are open.
pub record SessionsOk (next : ℕ) (sessions : List MockSession) : Type 0 where
  pub rise : Rising session_key 1 sessions next
  pub room : length sessions ≤ max_sessions

pub record PoolsOk (next : ℕ) (pools : List MockPool) : Type 0 where
  pub rise : Rising pool_key 1 pools next
  pub room : length pools ≤ max_pools
  pub each : All IsPool pools

pub record BuffersOk (next : ℕ) (pools : List MockPool) (buffers : List MockBuffer) : Type 0 where
  pub rise : Rising buffer_key 1 buffers next
  pub room : length buffers ≤ max_buffers_total
  pub each : All (HasSlot pools) buffers
  pub apart : Apart buffers

-- The account of the output bytes is exact, and within the two limits.
pub record OutputsOk (next count bytes total : ℕ) (outputs : List MockOutput) : Type 0 where
  pub rise : Rising output_key 1 outputs next
  pub room : length outputs ≤ count
  pub each : All HasSample outputs
  pub total_exact : total ≡ sum_by sample_size outputs
  pub total_room : total ≤ bytes
  pub bytes_usize : bytes < 2 ^ 64

pub record Inv (b : MockBackend) : Type 0 where
  pub sessions_ok : SessionsOk b.next_host_id b.sessions
  pub pools_ok : PoolsOk b.next_host_id b.pools
  pub buffers_ok : BuffersOk b.next_host_id b.pools b.buffers
  pub outputs_ok :
      OutputsOk b.next_output_id b.max_output_count b.max_output_bytes b.output_bytes_total
        b.outputs

-- The 64-bit counters of handles have not run out.
pub record HasHandles (b : MockBackend) : Type 0 where
  pub host : b.next_host_id + 1 < 2 ^ 64
  pub output : b.next_output_id + 1 < 2 ^ 64
