-- ===== src/Directory/Loading.antt =====
-- `load` of crates/vt-ferry-worker/src/iosurface_pool_directory.rs hands each surface out once.
use vt_ferry.Prelude.{
  ℕ, ◌+◌, ◌≡◌, inl, inr, Bool, Option-cases, ◌==◌, if◌then◌else◌, Option, none, some, List, [], ◌∷◌,
  count_if, find_first, remove_first, arith,
}
use vt_ferry.Directory.Entries.{IoSurfacePoolSpec, DirectoryEntry, take_by_id, load_specs, load}

-- Taking out the first element that passes a test takes it out of each count.
count_if-remove_first :
    {A : Type 0} (p q : A → Bool) (xs : List A) {x : A}
    → find_first p xs ≡ some x
    → count_if q xs ≡ (if q x then 1 else 0) + count_if q (remove_first p xs)
unfolding count_if find_first remove_first
count_if-remove_first p q [] e = cc
count_if-remove_first p q (y ∷ ys) {x} e = ground (arith, count_if-remove_first p q ys {x = x})

module _ (Surface : Type 0) (surface_id : Surface → ℕ) where
  -- The entries with a surface that passes the test.
  unfoldable pub holding : (Surface → Bool) → List (DirectoryEntry Surface) → ℕ
  holding q entries = count_if (λ (e : DirectoryEntry Surface). q e.pool.surface) entries

  load_specs-shares :
      (q : Surface → Bool) (specs : List IoSurfacePoolSpec) (registry : List Surface)
      → let (entries, left) = load_specs Surface surface_id specs registry in
        holding q entries + count_if q left ≡ count_if q registry
  unfolding load_specs holding count_if take_by_id
  load_specs-shares q [] registry = omega arith
  load_specs-shares q (spec ∷ specs) registry =
      let test : Surface → Bool = λ s. surface_id s == spec.iosurface_id in
      elim (Option-cases (find_first test registry)) [
        | inl e ↦ rw (e, load_specs, take_by_id) (load_specs-shares q specs registry)
        | inr (s, e) ↦
            let rest = load_specs-shares q specs (remove_first test registry) in
            let counts = count_if-remove_first test q registry {x = s} e in
            rw (e, load_specs, take_by_id) (ground (arith, rest, counts))
      ]

  -- Loading neither loses nor doubles a surface: whichever surfaces are counted, those in the entries and
  -- those left in the registry are together as many as the registry had. So no two entries share a surface
  -- of which the registry has one.
  pub load-shares :
      (q : Surface → Bool) (parsed : Option (List IoSurfacePoolSpec)) (registry : List Surface)
      → let (entries, left) = load Surface surface_id parsed registry in
        holding q entries + count_if q left ≡ count_if q registry
  unfolding load holding count_if
  load-shares q none registry = omega arith
  load-shares q (some specs) registry = load_specs-shares q specs registry
