-- ===== src/Directory/Claims.antt =====
-- Claims on the entries of crates/vt-ferry-worker/src/iosurface_pool_directory.rs are exclusive.
use vt_ferry.Prelude.{
  ℕ, zero, suc, ◌+◌, ◌≡◌, ◌≢◌, refl, sym, ap, ◌∙◌, ◌⊎◌, inl, inr, Bool, Bool-cases, true, false,
  Option, none, some, List, [], ◌∷◌, count_if, arith,
}
use vt_ferry.Directory.Entries.{
  IoSurfacePool, DirectoryEntry, PoolShape, is_free, take_from, take_matching, release_entry,
}

module _ {Surface : Type 0} where
  -- How many more claims on the shape there can be.
  unfoldable pub free_entries : PoolShape → List (DirectoryEntry Surface) → ℕ
  free_entries shape entries = count_if (is_free shape) entries

  -- Whether the entry at an index is claimed.
  unfoldable pub is_claimed : ℕ → List (DirectoryEntry Surface) → Bool
  is_claimed id [] = false
  is_claimed zero (e ∷ es) = e.claimed
  is_claimed (suc id) (e ∷ es) = is_claimed id es

  unfoldable pub entry_at : ℕ → List (DirectoryEntry Surface) → Option (DirectoryEntry Surface)
  entry_at id [] = none
  entry_at zero (e ∷ es) = some e
  entry_at (suc id) (e ∷ es) = entry_at id es

  -- A claim on a shape took the free entry at `id` and no other, and was given the pool of that entry.
  pub record Takes (shape : PoolShape) (id : ℕ) (pool : IoSurfacePool Surface)
      (es es' : List (DirectoryEntry Surface)) : Type 0 where
    pub taken : DirectoryEntry Surface
    pub there : entry_at id es ≡ some taken
    pub width : taken.shape.width ≡ shape.width
    pub height : taken.shape.height ≡ shape.height
    pub pixel_format : taken.shape.pixel_format ≡ shape.pixel_format
    pub handed : taken.pool ≡ pool
    pub one_less : free_entries shape es ≡ suc (free_entries shape es')
    pub was_free : is_claimed id es ≡ false
    pub now_claimed : is_claimed id es' ≡ true
    pub others : (other : ℕ) → other ≢ id → is_claimed other es' ≡ is_claimed other es
    pub undone : release_entry id es' ≡ es

  -- The loop finds a free entry exactly if there is one.
  abbrev FromFree : PoolShape → ℕ → List (DirectoryEntry Surface) → Type 0
  FromFree shape next es =
      ((take_from shape next es ≡ none) × (free_entries shape es ≡ 0))
      ⊎ ((at : ℕ) × (id : ℕ) × (pool : IoSurfacePool Surface) × (es' : List
            (DirectoryEntry Surface))
          × (at ≡ next + id)
          × (take_from shape next es ≡ some ((at, pool), es'))
          × Takes shape id pool es es')

  Takes-here :
      (shape : PoolShape) (e : DirectoryEntry Surface) (es : List (DirectoryEntry Surface))
      → is_free shape e ≡ true
      → Takes shape 0 e.pool (e ∷ es) (record e { claimed = true } ∷ es)
  unfolding free_entries count_if is_claimed release_entry entry_at
  Takes-here shape e es free =
      let unclaimed : e.claimed ≡ false = ground arith in
      record {
        taken = e;
        there = refl;
        width = ground (arith, free);
        height = ground (arith, free);
        pixel_format = ground (arith, free);
        handed = refl;
        one_less = rw free refl;
        was_free = unclaimed;
        now_claimed = refl;
        others = here_only;
        undone = ap (λ c. record e { claimed = c } ∷ es) (sym unclaimed);
      }
    where
      here_only :
          (other : ℕ)
          → other ≢ 0
          → is_claimed other (record e { claimed = true } ∷ es) ≡ is_claimed other (e ∷ es)
      here_only zero n = absurd (n refl)
      here_only (suc other) n = refl

  Takes-later :
      (shape : PoolShape) (id : ℕ) (pool : IoSurfacePool Surface) (e : DirectoryEntry Surface)
      (es es' : List (DirectoryEntry Surface))
      → is_free shape e ≡ false
      → Takes shape id pool es es'
      → Takes shape (suc id) pool (e ∷ es) (e ∷ es')
  unfolding free_entries count_if is_claimed release_entry entry_at
  Takes-later shape id pool e es es' held t = record {
    taken = t.taken;
    there = t.there;
    width = t.width;
    height = t.height;
    pixel_format = t.pixel_format;
    handed = t.handed;
    one_less = rw held t.one_less;
    was_free = t.was_free;
    now_claimed = t.now_claimed;
    others = later;
    undone = ap (λ l. e ∷ l) t.undone;
  }
    where
      later : (other : ℕ) → other ≢ suc id → is_claimed other (e ∷ es') ≡ is_claimed other (e ∷ es)
      later zero n = refl
      later (suc other) n = t.others other (λ q. n (ap suc q))

  take_from-FromFree :
      (shape : PoolShape) (next : ℕ) (es : List (DirectoryEntry Surface)) → FromFree shape next es
  unfolding take_from free_entries count_if
  take_from-FromFree shape next [] = inl (refl, refl)
  take_from-FromFree shape next (e ∷ es) = elim (Bool-cases (is_free shape e)) [
    | inl free ↦ inr (next, 0, e.pool, _, omega arith, rw free refl, Takes-here shape e es free)
    | inr taken ↦ elim (take_from-FromFree shape (suc next) es) [
      | inl (f, count) ↦ inl (rw taken (rw f refl), rw taken count)
      | inr (at, id, pool, es', place, f, t) ↦ inr (
        at,
        suc id,
        pool,
        e ∷ es',
        omega (arith, place),
        rw taken (rw f refl),
        Takes-later shape id pool e es es' taken t,
      )
    ]
  ]

  -- A request for a pool is refused exactly if every entry of its shape is held. Otherwise it is given an
  -- entry of its shape that nobody held and that is held from then on, with the pool of that entry and no
  -- other; no other entry changes hands, one fewer is left of the shape, and releasing the entry makes the
  -- directory what it was.
  pub take_matching-exclusive :
      (width height pixel_format slots : ℕ) (es : List (DirectoryEntry Surface))
      → let shape : PoolShape = record {
        width = width;
        height = height;
        pixel_format = pixel_format;
      } in
        ((take_matching width height pixel_format slots es ≡ none) × (free_entries shape es ≡ 0))
        ⊎ ((id : ℕ) × (pool : IoSurfacePool Surface) × (es' : List (DirectoryEntry Surface))
            × (take_matching width height pixel_format slots es ≡ some ((id, pool), es'))
            × Takes shape id pool es es')
  unfolding take_matching
  take_matching-exclusive width height pixel_format slots es =
      elim (take_from-FromFree
        (record { width = width; height = height; pixel_format = pixel_format }) 0 es) [
          | inl none_free ↦ inl none_free
          | inr (at, id, pool, es', place, f, t) ↦
              let same : at ≡ id = omega (arith, place) in
              inr (id, pool, es', f ∙ ap (λ i. some ((i, pool), es')) same, t)
        ]
