-- ===== src/Directory/Entries.antt =====
-- The structs and operations of crates/vt-ferry-worker/src/iosurface_pool_directory.rs, with `take_by_id`
-- of crates/vt-ferry-worker/src/iosurface_bridge.rs. A surface is an object of the IOSurface framework: its
-- type is a parameter, with the id that the framework gives it; a retained reference is the same surface.
use vt_ferry.Prelude.{
  ℕ, zero, suc, Bool, true, false, not, ◌==◌, ◌&&◌, if◌then◌else◌, Option, none, some, List, [],
  ◌∷◌, find_first, remove_first,
}

pub record IoSurfacePoolSpec : Type 0 where
  pub width : ℕ
  pub height : ℕ
  pub pixel_format : ℕ
  pub slot_count : ℕ
  pub iosurface_id : ℕ

pub record PoolShape : Type 0 where
  pub width : ℕ
  pub height : ℕ
  pub pixel_format : ℕ

pub record IoSurfacePool (Surface : Type 0) : Type 0 where
  pub spec : IoSurfacePoolSpec
  pub surface : Surface

pub record DirectoryEntry (Surface : Type 0) : Type 0 where
  pub shape : PoolShape
  pub pool : IoSurfacePool Surface
  pub claimed : Bool

-- The test of the loop of `take_matching`.
abbrev pub is_free : {Surface : Type 0} → PoolShape → DirectoryEntry Surface → Bool
is_free shape e =
    not e.claimed
    && (e.shape.width == shape.width
        && (e.shape.height == shape.height && e.shape.pixel_format == shape.pixel_format))

-- The first free entry of the shape is claimed; the answer is its index and its pool. `next` is the index
-- of the first entry of the list.
unfoldable pub take_from :
    {Surface : Type 0}
    → PoolShape
    → ℕ
    → List (DirectoryEntry Surface)
    → Option ((ℕ × IoSurfacePool Surface) × List (DirectoryEntry Surface))
take_from shape next [] = none
take_from shape next (e ∷ es) =
    let rest = take_from shape (suc next) es in
    if is_free shape e
    then some ((next, e.pool), record e { claimed = true } ∷ es)
    else (elim rest [ none ↦ none | some (got, es') ↦ some (got, e ∷ es') ])

-- `take_matching`, which does not look at the requested slot count.
unfoldable pub take_matching :
    {Surface : Type 0} (width height pixel_format requested_slot_count : ℕ)
    → List (DirectoryEntry Surface)
    → Option ((ℕ × IoSurfacePool Surface) × List (DirectoryEntry Surface))
unfolding take_from
take_matching width height pixel_format requested_slot_count entries =
    take_from (record { width = width; height = height; pixel_format = pixel_format }) 0 entries

unfoldable pub release_entry :
    {Surface : Type 0} → ℕ → List (DirectoryEntry Surface) → List (DirectoryEntry Surface)
release_entry id [] = []
release_entry zero (e ∷ es) = record e { claimed = false } ∷ es
release_entry (suc id) (e ∷ es) = e ∷ release_entry id es

module _ (Surface : Type 0) (surface_id : Surface → ℕ) where
  -- The surface of the id, taken out of the registry.
  unfoldable pub take_by_id : ℕ → List Surface → Option (Surface × List Surface)
  take_by_id id surfaces = elim (find_first (λ s. surface_id s == id) surfaces) [
    | none ↦ none
    | some s ↦ some (s, remove_first (λ t. surface_id t == id) surfaces)
  ]

  -- The loop of `load` over the parsed specs: a spec without a surface in the registry is skipped.
  unfoldable pub load_specs :
      List IoSurfacePoolSpec → List Surface → List (DirectoryEntry Surface) × List Surface
  unfolding take_by_id
  load_specs [] registry = ([], registry)
  load_specs (spec ∷ specs) registry = elim (take_by_id spec.iosurface_id registry) [
    | none ↦ load_specs specs registry
    | some (surface, registry') ↦
        let (entries, left) = load_specs specs registry' in
        (
          record {
            shape = record {
              width = spec.width;
              height = spec.height;
              pixel_format = spec.pixel_format;
            };
            pool = record { spec = spec; surface = surface };
            claimed = false;
          }
              ∷ entries,
          left,
        )
  ]

  -- `load`: `parsed` is what the environment variable holds, if it is set, not empty and parses as JSON.
  unfoldable pub load :
      Option (List IoSurfacePoolSpec) → List Surface → List (DirectoryEntry Surface) × List Surface
  unfolding load_specs
  load none registry = ([], registry)
  load (some specs) registry = load_specs specs registry
