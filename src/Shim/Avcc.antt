-- ===== src/Shim/Avcc.antt =====
-- The records that the parser of crates/vt-ferry-shim/src/coremedia.rs is made for, written and read back.
use vt_ferry.Prelude.{
  ℕ, zero, suc, ◌+◌, ◌/◌, ◌%◌, ◌<◌, ◌≡◌, refl, sym, ap, ◌∙◌, false, ◌==◌, ltb, none, some, List, [],
  ◌∷◌, ◌++◌, length, length-append, take-append_at, drop-append_at, arith,
}
use vt_ferry.Server.Answers.{append_nil, append_assoc}
use vt_ferry.Shim.Records.{
  from_be_bytes, take_unit, keep, take_first, avcc_sets, parse_pps, vtf_parse_avcc_config_record,
}

-- A unit behind its length in two bytes.
abbrev pub unit_bytes : List ℕ → List ℕ
unit_bytes unit = (length unit / 256) ∷ (length unit % 256) ∷ unit

abbrev pub units_bytes : List (List ℕ) → List ℕ
units_bytes [] = []
units_bytes (unit ∷ units) = unit_bytes unit ++ units_bytes units

abbrev pub count_of : List (List ℕ) → ℕ
count_of [] = 0
count_of (unit ∷ units) = count_of units + 1

-- An AVCC record: the version, the profile and the level, the size of a length less one, the number of SPS
-- with its upper bits set, and the sets.
abbrev pub avcc_record : ℕ → ℕ → ℕ → ℕ → List (List ℕ) → List (List ℕ) → List ℕ
avcc_record profile compatibility level size_minus_one sps pps =
    1
    ∷ profile
    ∷ compatibility
    ∷ level
    ∷ (252 + size_minus_one)
    ∷ (224 + count_of sps)
    ∷ (units_bytes sps ++ (count_of pps ∷ units_bytes pps))

pub take_unit-unit_bytes :
    (unit rest : List ℕ) → take_unit (unit_bytes unit ++ rest) ≡ some (unit, rest)
unfolding take_unit
take_unit-unit_bytes unit rest =
    let size : from_be_bytes (length unit / 256) (length unit % 256) ≡ length unit = omega arith in
    let whole : ltb (length (unit ++ rest)) (length unit) ≡ false =
      ground (arith, length-append unit rest) in
    rw (size, whole)
      (rw (take-append_at (length unit) unit rest refl, drop-append_at (length unit) unit rest refl)
        refl)

take_first-units_bytes :
    (first : List ℕ) (units : List (List ℕ)) (n : ℕ) (rest : List ℕ)
    → n ≡ count_of units
    → take_first n (some first) (units_bytes units ++ rest) ≡ some (some first, rest)
unfolding take_first keep
take_first-units_bytes first [] zero rest e = refl
take_first-units_bytes first [] (suc n) rest e = let never : ⊥ = omega (arith, e) in absurd never
take_first-units_bytes first (unit ∷ units) zero rest e =
    let never : ⊥ = omega (arith, e) in absurd never
take_first-units_bytes first (unit ∷ units) (suc n) rest e =
    let split = append_assoc (unit_bytes unit) (units_bytes units) rest in
    let one = ap take_unit split ∙ take_unit-unit_bytes unit (units_bytes units ++ rest) in
    rw (one, take_first) (take_first-units_bytes first units n rest (omega (arith, e)))

take_first-all :
    (unit : List ℕ) (units : List (List ℕ)) (n : ℕ) (rest : List ℕ)
    → n ≡ count_of (unit ∷ units)
    → take_first n none (units_bytes (unit ∷ units) ++ rest) ≡ some (some unit, rest)
unfolding take_first keep
take_first-all unit units zero rest e = let never : ⊥ = omega (arith, e) in absurd never
take_first-all unit units (suc n) rest e =
    let split = append_assoc (unit_bytes unit) (units_bytes units) rest in
    let one = ap take_unit split ∙ take_unit-unit_bytes unit (units_bytes units ++ rest) in
    rw (one, take_first) (take_first-units_bytes unit units n rest (omega (arith, e)))

-- Of an AVCC record with fewer than 32 SPS, at least one, and at least one PPS, the parser gives the first
-- of each, and the size of a length.
pub vtf_parse_avcc_config_record-avcc_record :
    (profile compatibility level size_minus_one : ℕ) (sps : List ℕ) (more_sps : List (List ℕ))
    (pps : List ℕ) (more_pps : List (List ℕ))
    → size_minus_one < 4
    → count_of (sps ∷ more_sps) < 32
    → vtf_parse_avcc_config_record
        (avcc_record profile compatibility level size_minus_one (sps ∷ more_sps) (pps ∷ more_pps))
      ≡ some (sps ∷ pps ∷ [], size_minus_one + 1)
unfolding vtf_parse_avcc_config_record parse_pps avcc_sets
vtf_parse_avcc_config_record-avcc_record profile compatibility level size_minus_one sps more_sps pps
      more_pps s n =
    let size : (252 + size_minus_one) % 4 + 1 ≡ size_minus_one + 1 = omega (arith, s) in
    let number : (224 + count_of (sps ∷ more_sps)) % 32 ≡ count_of (sps ∷ more_sps) =
      omega (arith, n) in
    let some_sps : (count_of (sps ∷ more_sps) == 0) ≡ false = ground arith in
    let some_pps : (count_of (pps ∷ more_pps) == 0) ≡ false = ground arith in
    let tail = count_of (pps ∷ more_pps) ∷ units_bytes (pps ∷ more_pps) in
    let first = take_first-all sps more_sps (count_of (sps ∷ more_sps)) tail refl in
    let second =
      ap (take_first (count_of (pps ∷ more_pps)) none)
        (sym (append_nil (units_bytes (pps ∷ more_pps))))
      ∙ take_first-all pps more_pps (count_of (pps ∷ more_pps)) [] refl in
    let behind : parse_pps (size_minus_one + 1) (some sps) tail
        ≡ some (sps ∷ pps ∷ [], size_minus_one + 1) =
      rw (some_pps, second, parse_pps) refl in
    let long : ltb
          (length (
            avcc_record profile compatibility level size_minus_one (sps ∷ more_sps)
              (pps ∷ more_pps)))
          7
        ≡ false =
      ground arith in
    rw (long, number)
      (rw some_sps (
        rw (first, vtf_parse_avcc_config_record)
          (ap (λ k. parse_pps k (some sps) tail) size ∙ behind)))
