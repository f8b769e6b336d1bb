-- ===== src/Examples/Allocated.antt =====
-- Two pools of which the second gets a surface but no port.
use vt_ferry.Prelude.{ℕ, suc, ◌+◌, ◌≡◌, true, ◌==◌, if◌then◌else◌, some, List, [], ◌∷◌, length}
use vt_ferry.Broker.Pools.{PoolSpec, Frameworks, allocate_pools}
use vt_ferry.Broker.Balance.{times_created, times_released, owned_after, allocate_pools-Balanced}

-- Surfaces are numbered by the calls before them; surface 3 has no port.
abbrev scripted : Frameworks
scripted = record {
  page_size = 4096;
  create_surface = λ log width height size. some (suc (length log), 7);
  create_mach_port = λ log surface. if surface == 3 then 0 else surface + 100;
  mach_ports_register = λ ports. 0;
}

abbrev pool_of : ℕ → PoolSpec
pool_of address = record {
  guest_phys_addr = address;
  slot_count = 2;
  width = 64;
  height = 16;
  pixel_format = 0x42475241;
  writable = true;
}

abbrev two_pools : List PoolSpec
two_pools = pool_of 4096 ∷ pool_of 65536 ∷ []

allocate_pools-Balanced_example :
    let (got, log) = allocate_pools scripted two_pools in
    times_created 1 log ≡ times_released 1 log + owned_after 1 scripted got
allocate_pools-Balanced_example = allocate_pools-Balanced 1 scripted two_pools
