-- ===== src/Broker/Pools.antt =====
-- `allocate_pools` and `register_ports` of crates/vt-ferry-broker/src/pool.rs. The IOSurface and Mach
-- frameworks are parameters; the model keeps a log of the calls that create and give up surfaces and ports.
use vt_ferry.Prelude.{
  ℕ, ◌+◌, ◌-◌, ◌*◌, ◌/◌, ◌^◌, max, Bool, true, false, ◌==◌, ltb, leb, ◌||◌, if◌then◌else◌, Option,
  none, some, List, [], ◌∷◌, ◌++◌, length, map,
}
use vt_ferry.Mock.PixelLayout.{to_u32}
use vt_ferry.Mock.Handles.{to_u64}
use vt_ferry.Broker.Sizes.{pool_slot_alloc_size}

pub record PoolSpec : Type 0 where
  pub guest_phys_addr : ℕ
  pub slot_count : ℕ
  pub width : ℕ
  pub height : ℕ
  pub pixel_format : ℕ
  pub writable : Bool

pub record WorkerIoSurfacePoolSpec : Type 0 where
  pub width : ℕ
  pub height : ℕ
  pub pixel_format : ℕ
  pub slot_count : ℕ
  pub iosurface_id : ℕ

-- The five numbers that `pool_region_name` prints.
pub record PoolRegionName : Type 0 where
  pub pixel_format : ℕ
  pub width : ℕ
  pub height : ℕ
  pub slot_count : ℕ
  pub slot_alloc : ℕ

pub record OwnedIoSurfacePoolEntry : Type 0 where
  pub surface : ℕ
  pub mach_port : ℕ
  pub iosurface_id : ℕ
  pub guest_phys_addr : ℕ
  pub len : ℕ
  pub writable : Bool
  pub name : PoolRegionName

abbrev pub max_registered_iosurface_ports : ℕ
max_registered_iosurface_ports = 3

-- A call that creates a surface or a port, or gives one up.
pub data Call : Type 0 where
  created released : (surface : ℕ) → Call
  port_created deallocated : (port : ℕ) → Call

-- What the frameworks answer, by the calls so far: the surface that IOSurfaceCreate makes for a width, a
-- height and a size, if any, with its id; and the port of a surface, zero if there is none.
pub record Frameworks : Type 0 where
  pub page_size : ℕ
  pub create_surface : List Call → ℕ → ℕ → ℕ → Option (ℕ × ℕ)
  pub create_mach_port : List Call → ℕ → ℕ
  pub mach_ports_register : List ℕ → ℕ

-- `Drop`: a port of zero is not deallocated. A surface that was created is not null.
unfoldable pub drop_entry : OwnedIoSurfacePoolEntry → List Call
drop_entry e =
    (if e.mach_port == 0 then [] else deallocated e.mach_port ∷ []) ++ released e.surface ∷ []

-- An early return drops the entries, the first one first.
unfoldable pub drop_entries : List OwnedIoSurfacePoolEntry → List Call
unfolding drop_entry
drop_entries [] = []
drop_entries (e ∷ es) = drop_entry e ++ drop_entries es

module _ (fw : Frameworks) where
  unfoldable pub pool_region_name : ℕ → ℕ → ℕ → ℕ → Option PoolRegionName
  pool_region_name width height pixel_format slot_count =
      elim (pool_slot_alloc_size fw.page_size width height pixel_format) [
        | none ↦ none
        | some slot_alloc ↦ some (record {
          pixel_format = pixel_format;
          width = width;
          height = height;
          slot_count = slot_count;
          slot_alloc = slot_alloc;
        })
      ]

  abbrev pub pool_entry : PoolSpec → ℕ → ℕ × ℕ → ℕ → PoolRegionName → OwnedIoSurfacePoolEntry
  pool_entry spec total (surface, surface_id) port name = record {
    surface = surface;
    mach_port = port;
    iosurface_id = surface_id;
    guest_phys_addr = spec.guest_phys_addr;
    len = total;
    writable = spec.writable;
    name = name;
  }

  -- The surface of one pool, with what is left to do when it is there; the log has all calls so far.
  unfoldable pub port_and_name :
      PoolSpec → ℕ → ℕ × ℕ → List Call → Option OwnedIoSurfacePoolEntry × List Call
  unfolding pool_region_name
  port_and_name spec total (surface, surface_id) log =
      let log' = log ++ created surface ∷ [] in
      let port = fw.create_mach_port log' surface in
      if port == 0
      then (none, log' ++ released surface ∷ [])
      else (elim (pool_region_name spec.width spec.height spec.pixel_format spec.slot_count) [
        | none ↦ (none, log' ++ port_created port ∷ [])
        | some name ↦ (
          some (pool_entry spec total (surface, surface_id) port name),
          log' ++ port_created port ∷ [],
        )
      ])

  -- A round from the slot size on: a size past u64 and a width of zero are refused.
  unfoldable pub allocate_sized :
      PoolSpec → ℕ → List Call → Option OwnedIoSurfacePoolEntry × List Call
  allocate_sized spec slot_aligned log =
      let total = slot_aligned * spec.slot_count in
      let raw_bpr = spec.width * 4 in
      let raw_height = to_u32 (to_u64 (total + (raw_bpr - 1)) / raw_bpr) in
      let raw_alloc = max (raw_bpr * raw_height) total in
      if leb (2 ^ 64) total || raw_bpr == 0
      then (none, log)
      else (elim (fw.create_surface log spec.width raw_height raw_alloc) [
        | none ↦ (none, log)
        | some made ↦ port_and_name spec total made log
      ])

  -- One round of the loop.
  unfoldable pub allocate_one : PoolSpec → List Call → Option OwnedIoSurfacePoolEntry × List Call
  allocate_one spec log =
      if spec.slot_count == 0
      then (none, log)
      else (elim (pool_slot_alloc_size fw.page_size spec.width spec.height spec.pixel_format) [
        | none ↦ (none, log)
        | some slot_aligned ↦ allocate_sized spec slot_aligned log
      ])

  abbrev pub worker_spec : PoolSpec → OwnedIoSurfacePoolEntry → WorkerIoSurfacePoolSpec
  worker_spec spec e = record {
    width = spec.width;
    height = spec.height;
    pixel_format = spec.pixel_format;
    slot_count = spec.slot_count;
    iosurface_id = e.iosurface_id;
  }

  -- The loop over the specs, with the entries so far.
  unfoldable pub allocate_all :
      List PoolSpec
      → List OwnedIoSurfacePoolEntry
      → List WorkerIoSurfacePoolSpec
      → List Call
      → Option (List OwnedIoSurfacePoolEntry × List WorkerIoSurfacePoolSpec) × List Call
  allocate_all [] entries worker_specs log = (some (entries, worker_specs), log)
  allocate_all (spec ∷ specs) entries worker_specs log =
      let (made, log') = allocate_one spec log in
      elim made [
        | none ↦ (none, log' ++ drop_entries entries)
        | some e ↦
            allocate_all specs (entries ++ e ∷ []) (worker_specs ++ worker_spec spec e ∷ []) log'
      ]

  unfoldable pub allocate_pools :
      List PoolSpec
      → Option (List OwnedIoSurfacePoolEntry × List WorkerIoSurfacePoolSpec) × List Call
  unfolding allocate_all
  allocate_pools specs =
      if ltb max_registered_iosurface_ports (length specs)
      then (none, [])
      else allocate_all specs [] [] []

  -- Whether the ports were registered.
  unfoldable pub register_ports : List OwnedIoSurfacePoolEntry → Bool
  register_ports [] = true
  register_ports (e ∷ es) =
      if ltb max_registered_iosurface_ports (length (e ∷ es))
      then false
      else fw.mach_ports_register (map (λ x. x.mach_port) (e ∷ es)) == 0
