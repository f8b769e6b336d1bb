-- ===== src/Mock/Samples.antt =====
-- The encoded samples of crates/vt-ferry-worker/src/mock.rs: every frame makes a sample of 28 bytes.
use vt_ferry.Prelude.{
  ℕ, zero, suc, ◌+◌, ◌-◌, ◌≡◌, refl, Bool, if◌then◌else◌, List, ◌∷◌, take, length, arith,
  length-append, length-take,
}
use vt_ferry.Mock.EncodeOps.{seed_bytes, nal_bytes, sample_bytes}

length-seed_bytes :
    (session_id output_id rounds len : ℕ)
    → length (seed_bytes session_id output_id rounds len) ≡ rounds
unfolding seed_bytes
length-seed_bytes session_id output_id zero len = refl
length-seed_bytes session_id output_id (suc rounds) len =
    omega (arith, length-seed_bytes session_id output_id rounds (len + 1))

-- The filler brings every NAL unit to 24 bytes, whatever the frame holds.
pub length-nal_bytes :
    (session_id output_id : ℕ) (is_sync : Bool) (prefix : List ℕ)
    → length (nal_bytes session_id output_id is_sync prefix) ≡ 24
unfolding nal_bytes
length-nal_bytes session_id output_id is_sync prefix =
    let head : List ℕ = (if is_sync then 0x65 else 0x41) ∷ take 8 prefix in
    omega (
      arith,
      length-append head (seed_bytes session_id output_id (24 - length head) (length head)),
      length-seed_bytes session_id output_id (24 - length head) (length head),
      length-take 8 prefix,
    )

pub length-sample_bytes :
    (payload_bytes : List ℕ) → length (sample_bytes payload_bytes) ≡ 4 + length payload_bytes
unfolding sample_bytes
length-sample_bytes payload_bytes = omega arith
