-- ===== src/Examples/Held.antt =====
-- The theorems on the directory of pools at two entries of one shape, and the queue and the frames of the
-- small backend.
use vt_ferry.Prelude.{ℕ, ◌+◌, ◌≡◌, List, [], ◌∷◌, none, some, true, false, ◌==◌, ◌⊎◌, count_if}
use vt_ferry.Protocol.Outputs.{EncodeFramePayload}
use vt_ferry.Directory.Entries.{
  IoSurfacePool, IoSurfacePoolSpec, PoolShape, DirectoryEntry, take_matching, load,
}
use vt_ferry.Directory.Claims.{Takes, free_entries, take_matching-exclusive}
use vt_ferry.Directory.Loading.{holding, load-shares}

abbrev spec_of : ℕ → IoSurfacePoolSpec
spec_of id = record {
  width = 640;
  height = 480;
  pixel_format = 0x42475241;
  slot_count = 4;
  iosurface_id = id;
}

abbrev vga : PoolShape
vga = record { width = 640; height = 480; pixel_format = 0x42475241 }

-- A surface is its id here. The first entry is held.
abbrev two_entries : List (DirectoryEntry ℕ)
two_entries =
    record { shape = vga; pool = record { spec = spec_of 11; surface = 11 }; claimed = true }
    ∷ record { shape = vga; pool = record { spec = spec_of 12; surface = 12 }; claimed = false }
    ∷ []

take_matching-exclusive_example :
    ((take_matching 640 480 0x42475241 4 two_entries ≡ none) × (free_entries vga two_entries ≡ 0))
    ⊎ ((id : ℕ) × (pool : IoSurfacePool ℕ) × (es' : List (DirectoryEntry ℕ)) × (take_matching 640
            480 0x42475241 4 two_entries
          ≡ some ((id, pool), es'))
        × Takes vga id pool two_entries es')
take_matching-exclusive_example = take_matching-exclusive 640 480 0x42475241 4 two_entries

-- Two specs name surface 11, which the registry has once.
load-shares_example :
    let (entries, left) =
      load ℕ (λ s. s) (some (spec_of 11 ∷ spec_of 11 ∷ spec_of 13 ∷ [])) (11 ∷ 12 ∷ []) in
    holding ℕ (λ s. s) (λ s. s == 11) entries + count_if (λ s. s == 11) left
    ≡ count_if (λ s. s == 11) (11 ∷ 12 ∷ [])
load-shares_example =
    load-shares ℕ (λ s. s) (λ s. s == 11) (some (spec_of 11 ∷ spec_of 11 ∷ spec_of 13 ∷ []))
      (11 ∷ 12 ∷ [])

abbrev pub frame : EncodeFramePayload
frame = record {
  session_id = 1000;
  image_buffer_proxy_id = 9;
  image_buffer_host_id = 1002;
  image_buffer_generation = 2;
  pts_value = 3;
  pts_timescale = 30;
  duration_timescale = 30;
  duration_value = 1;
}
