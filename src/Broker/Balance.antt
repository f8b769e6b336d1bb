-- ===== src/Broker/Balance.antt =====
-- No surface that crates/vt-ferry-broker/src/pool.rs creates is lost.
use vt_ferry.Prelude.{
  ℕ, ◌+◌, ◌*◌, ◌^◌, ◌≡◌, refl, ap, ◌∙◌, Bool, Bool-cases, Option-cases, inl, inr, false, ◌==◌, leb,
  ltb, ◌||◌, ◌-◌, ◌/◌, max, if◌then◌else◌, Option, none, some, List, [], ◌∷◌, ◌++◌, length,
  count_if, arith,
}
use vt_ferry.Mock.PixelLayout.{to_u32}
use vt_ferry.Mock.Handles.{to_u64}
use vt_ferry.Broker.Sizes.{pool_slot_alloc_size}
use vt_ferry.Broker.Pools.{
  PoolSpec, WorkerIoSurfacePoolSpec, OwnedIoSurfacePoolEntry, Call, created, released, port_created,
  deallocated, Frameworks, drop_entry, drop_entries, pool_region_name, port_and_name, allocate_one,
  allocate_sized, worker_spec, allocate_all, allocate_pools, max_registered_iosurface_ports,
}

abbrev is_created : ℕ → Call → Bool
is_created s (created t) = t == s
is_created s (released t) = false
is_created s (port_created p) = false
is_created s (deallocated p) = false

abbrev is_released : ℕ → Call → Bool
is_released s (created t) = false
is_released s (released t) = t == s
is_released s (port_created p) = false
is_released s (deallocated p) = false

-- How often the surface was created, and how often given up.
unfoldable pub times_created : ℕ → List Call → ℕ
times_created s log = count_if (is_created s) log

unfoldable pub times_released : ℕ → List Call → ℕ
times_released s log = count_if (is_released s) log

-- How many entries own the surface.
unfoldable pub owners : ℕ → List OwnedIoSurfacePoolEntry → ℕ
owners s entries = count_if (λ (e : OwnedIoSurfacePoolEntry). e.surface == s) entries

count_if-append :
    {A : Type 0} (p : A → Bool) (xs ys : List A)
    → count_if p (xs ++ ys) ≡ count_if p xs + count_if p ys
unfolding count_if
count_if-append p [] ys = omega arith
count_if-append p (x ∷ xs) ys = ground (arith, count_if-append p xs ys)

module _ (s : ℕ) where
  drop_entry-counts :
      (e : OwnedIoSurfacePoolEntry)
      → (times_created s (drop_entry e) ≡ 0)
        × (times_released s (drop_entry e) ≡ (if e.surface == s then 1 else 0))
  unfolding drop_entry times_created times_released count_if
  drop_entry-counts e = elim (Bool-cases (e.mach_port == 0)) [
    | inl p ↦ rw p (refl, refl)
    | inr p ↦ rw p (refl, refl)
  ]

  drop_entries-counts :
      (es : List OwnedIoSurfacePoolEntry)
      → (times_created s (drop_entries es) ≡ 0) × (times_released s (drop_entries es) ≡ owners s es)
  unfolding drop_entries times_created times_released owners count_if
  drop_entries-counts [] = (refl, refl)
  drop_entries-counts (e ∷ es) =
      let one = drop_entry-counts e in
      let rest = drop_entries-counts es in
      (
        count_if-append (is_created s) (drop_entry e) (drop_entries es)
            ∙ omega (arith, one.0, rest.0),
        count_if-append (is_released s) (drop_entry e) (drop_entries es)
            ∙ ground (arith, one.1, rest.1),
      )

  -- The surfaces of a log are those given up and those owned.
  abbrev Balanced : List Call → ℕ → Type 0
  Balanced log owned = times_created s log ≡ times_released s log + owned

  abbrev owner : Option OwnedIoSurfacePoolEntry → ℕ
  owner none = 0
  owner (some e) = if e.surface == s then 1 else 0

  module _ (fw : Frameworks) where
    port_and_name-Balanced :
        (spec : PoolSpec) (total surface surface_id slot_aligned owned : ℕ) (log : List Call)
        → pool_slot_alloc_size fw.page_size spec.width spec.height spec.pixel_format
          ≡ some slot_aligned
        → Balanced log owned
        → let (made, log') = port_and_name fw spec total (surface, surface_id) log in
          Balanced log' (owned + owner made)
    unfolding port_and_name pool_region_name times_created times_released count_if
    port_and_name-Balanced spec total surface surface_id slot_aligned owned log sized h =
        let c = count_if-append (is_created s) log (created surface ∷ []) in
        let r = count_if-append (is_released s) log (created surface ∷ []) in
        let log' = log ++ created surface ∷ [] in
        let port = fw.create_mach_port log' surface in
        let c0 = count_if-append (is_created s) log' (released surface ∷ []) in
        let r0 = count_if-append (is_released s) log' (released surface ∷ []) in
        let c1 = count_if-append (is_created s) log' (port_created port ∷ []) in
        let r1 = count_if-append (is_released s) log' (port_created port ∷ []) in
        elim (Bool-cases (port == 0)) [
          | inl e ↦ rw e (ground (arith, c, r, c0, r0, h))
          | inr e ↦ rw e (rw (sized, pool_region_name) (ground (arith, c, r, c1, r1, h)))
        ]

    allocate_sized-Balanced :
        (spec : PoolSpec) (slot_aligned owned : ℕ) (log : List Call)
        → pool_slot_alloc_size fw.page_size spec.width spec.height spec.pixel_format
          ≡ some slot_aligned
        → Balanced log owned
        → let (made, log') = allocate_sized fw spec slot_aligned log in
          Balanced log' (owned + owner made)
    unfolding allocate_sized
    allocate_sized-Balanced spec slot_aligned owned log sized h =
        let same : Balanced log (owned + 0) = omega (arith, h) in
        let total = slot_aligned * spec.slot_count in
        let raw_height = to_u32 (to_u64 (total + (spec.width * 4 - 1)) / (spec.width * 4)) in
        elim (Bool-cases (leb (2 ^ 64) total || spec.width * 4 == 0)) [
          | inl e ↦ rw e same
          | inr e ↦
              elim (Option-cases (
                fw.create_surface log spec.width raw_height
                  (max (spec.width * 4 * raw_height) total))) [
                    | inl f ↦ rw e (rw (f, allocate_sized) same)
                    | inr ((surface, surface_id), f) ↦ rw e (
                        rw (f, allocate_sized)
                          (port_and_name-Balanced spec total surface surface_id slot_aligned owned
                            log sized h))
                  ]
        ]

    allocate_one-Balanced :
        (spec : PoolSpec) (owned : ℕ) (log : List Call)
        → Balanced log owned
        → let (made, log') = allocate_one fw spec log in Balanced log' (owned + owner made)
    unfolding allocate_one
    allocate_one-Balanced spec owned log h =
        let same : Balanced log (owned + 0) = omega (arith, h) in
        elim (Bool-cases (spec.slot_count == 0)) [
          | inl e ↦ rw e same
          | inr e ↦
              elim (Option-cases
                (pool_slot_alloc_size fw.page_size spec.width spec.height spec.pixel_format)) [
                  | inl f ↦ rw e (rw (f, allocate_one) same)
                  | inr (slot_aligned, f) ↦ rw e (
                      rw (f, allocate_one)
                        (allocate_sized-Balanced spec slot_aligned owned log f h))
                ]
        ]

    -- Whom the surfaces belong to at the end.
    abbrev pub owned_after :
        Option (List OwnedIoSurfacePoolEntry × List WorkerIoSurfacePoolSpec) → ℕ
    owned_after none = 0
    owned_after (some (entries, worker_specs)) = owners s entries

    allocate_all-Balanced :
        (specs : List PoolSpec) (entries : List OwnedIoSurfacePoolEntry)
        (worker_specs : List WorkerIoSurfacePoolSpec) (log : List Call)
        → Balanced log (owners s entries)
        → let (got, log') = allocate_all fw specs entries worker_specs log in
          Balanced log' (owned_after got)
    unfolding allocate_all times_created times_released owners count_if
    allocate_all-Balanced [] entries worker_specs log h = h
    allocate_all-Balanced (spec ∷ specs) entries worker_specs log h =
        let one = allocate_one-Balanced spec (owners s entries) log h in
        let log' = (allocate_one fw spec log).1 in
        elim (Option-cases (allocate_one fw spec log).0) [
          | inl e ↦
              let dropped = drop_entries-counts entries in
              let left = ap (λ o. owners s entries + owner o) e in
              rw (e, allocate_all)
                (omega (
                  arith,
                  one,
                  left,
                  dropped.0,
                  dropped.1,
                  count_if-append (is_created s) log' (drop_entries entries),
                  count_if-append (is_released s) log' (drop_entries entries),
                ))
          | inr (made, e) ↦
              let more =
                count_if-append (λ (x : OwnedIoSurfacePoolEntry). x.surface == s) entries
                  (made ∷ []) in
              let left = ap (λ o. owners s entries + owner o) e in
              rw (e, allocate_all)
                (allocate_all-Balanced specs (entries ++ made ∷ [])
                  (worker_specs ++ worker_spec fw spec made ∷ []) log'
                  (ground (arith, one, left, more)))
        ]

    -- Whatever the frameworks answer, a surface that was created and not given up belongs to an entry that
    -- allocate_pools returns, once; and if it fails, at whichever pool, each surface has been given up as
    -- often as it was created.
    pub allocate_pools-Balanced :
        (specs : List PoolSpec)
        → let (got, log) = allocate_pools fw specs in
          times_created s log ≡ times_released s log + owned_after got
    unfolding allocate_pools times_created times_released owners count_if
    allocate_pools-Balanced specs =
        elim (Bool-cases (ltb max_registered_iosurface_ports (length specs))) [
          | inl e ↦ rw e refl
          | inr e ↦ rw e (allocate_all-Balanced specs [] [] [] refl)
        ]
