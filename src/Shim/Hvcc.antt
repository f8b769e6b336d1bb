-- ===== src/Shim/Hvcc.antt =====
-- The records that the HVCC parser of crates/vt-ferry-shim/src/coremedia.rs is made for, written and read
-- back.
use vt_ferry.Prelude.{
  ℕ, zero, suc, ◌+◌, ◌*◌, ◌/◌, ◌%◌, ◌<◌, ◌≡◌, refl, sym, ap, ◌∙◌, false, ltb, Option, none, some,
  List, [], ◌∷◌, ◌++◌, drop, length, length-append, drop-append_at, get_or, arith,
}
use vt_ferry.Server.Answers.{append_nil, append_assoc}
use vt_ferry.Shim.Records.{
  from_be_bytes, take_unit, keep, HvccSets, keep_unit, take_units, take_arrays, hvcc_sets,
  vtf_parse_hvcc_config_record,
}
use vt_ferry.Shim.Avcc.{unit_bytes, units_bytes, count_of, take_unit-unit_bytes}

-- An array of units of one type, behind the type and their number in two bytes.
abbrev pub array_bytes : ℕ → List (List ℕ) → List ℕ
array_bytes kind units = kind ∷ (count_of units / 256) ∷ (count_of units % 256) ∷ units_bytes units

-- The arrays of VPS, SPS and PPS, each complete.
abbrev pub sets_bytes : List (List ℕ) → List (List ℕ) → List (List ℕ) → List ℕ
sets_bytes vps sps pps = array_bytes 160 vps ++ (array_bytes 161 sps ++ array_bytes 162 pps)

-- An HVCC record: the version, the profile and what else the parser passes over, the size of a length less
-- one in the low bits of a byte, the number of arrays, and the arrays.
abbrev pub hvcc_record : List ℕ → ℕ → ℕ → List (List ℕ) → List (List ℕ) → List (List ℕ) → List ℕ
hvcc_record profile timing size_minus_one vps sps pps =
    1 ∷ (profile ++ ((timing * 4 + size_minus_one) ∷ 3 ∷ sets_bytes vps sps pps))

get_or-append :
    (k i : ℕ) (xs ys : List ℕ) → k ≡ length xs + i → get_or (xs ++ ys) k 0 ≡ get_or ys i 0
get_or-append k i [] ys h = ap (λ k. get_or ys k 0) (omega (arith, h))
get_or-append zero i (x ∷ xs) ys h = let never : ⊥ = omega (arith, h) in absurd never
get_or-append (suc k) i (x ∷ xs) ys h = get_or-append k i xs ys (omega (arith, h))

take_units-kept :
    (kind : ℕ) (sets : HvccSets) (kept : (unit : List ℕ) → keep_unit kind sets unit ≡ sets)
    (units : List (List ℕ)) (n : ℕ) (rest : List ℕ)
    → n ≡ count_of units
    → take_units n kind sets (units_bytes units ++ rest) ≡ some (sets, rest)
unfolding take_units
take_units-kept kind sets kept [] zero rest e = refl
take_units-kept kind sets kept [] (suc n) rest e = let never : ⊥ = omega (arith, e) in absurd never
take_units-kept kind sets kept (unit ∷ units) zero rest e =
    let never : ⊥ = omega (arith, e) in absurd never
take_units-kept kind sets kept (unit ∷ units) (suc n) rest e =
    let split = append_assoc (unit_bytes unit) (units_bytes units) rest in
    let one = ap take_unit split ∙ take_unit-unit_bytes unit (units_bytes units ++ rest) in
    rw (one, take_units)
      (ap (λ s. take_units n kind s (units_bytes units ++ rest)) (kept unit)
        ∙ take_units-kept kind sets kept units n rest (omega (arith, e)))

-- The first unit of an array fills its slot, and the others are passed over.
take_arrays-array :
    (n kind : ℕ) (sets sets' : HvccSets) (unit : List ℕ) (units : List (List ℕ)) (rest : List ℕ)
    → keep_unit (kind % 64) sets unit ≡ sets'
    → ((other : List ℕ) → keep_unit (kind % 64) sets' other ≡ sets')
    → take_arrays (suc n) sets (array_bytes kind (unit ∷ units) ++ rest) ≡ take_arrays n sets' rest
unfolding take_arrays take_units
take_arrays-array n kind sets sets' unit units rest first kept =
    let number : from_be_bytes (count_of (unit ∷ units) / 256) (count_of (unit ∷ units) % 256)
        ≡ suc (count_of units) =
      omega arith in
    let split = append_assoc (unit_bytes unit) (units_bytes units) rest in
    let one = ap take_unit split ∙ take_unit-unit_bytes unit (units_bytes units ++ rest) in
    let taken : take_units (suc (count_of units)) (kind % 64) sets
          (units_bytes (unit ∷ units) ++ rest)
        ≡ some (sets', rest) =
      rw (one, take_units)
        (ap (λ s. take_units (count_of units) (kind % 64) s (units_bytes units ++ rest)) first
          ∙ take_units-kept (kind % 64) sets' kept units (count_of units) rest refl) in
    rw (number, taken, take_arrays) refl

abbrev sets_after : Option (List ℕ) → Option (List ℕ) → Option (List ℕ) → HvccSets
sets_after vps sps pps = record { vps = vps; sps = sps; pps = pps }

take_arrays-sets :
    (vps : List ℕ) (more_vps : List (List ℕ)) (sps : List ℕ) (more_sps : List (List ℕ))
    (pps : List ℕ) (more_pps : List (List ℕ))
    → take_arrays 3
        (sets_after none none none)
        (sets_bytes (vps ∷ more_vps) (sps ∷ more_sps) (pps ∷ more_pps))
      ≡ some (sets_after (some vps) (some sps) (some pps))
unfolding take_arrays keep_unit keep
take_arrays-sets vps more_vps sps more_sps pps more_pps =
    take_arrays-array 2 160 (sets_after none none none) (sets_after (some vps) none none) vps
      more_vps (array_bytes 161 (sps ∷ more_sps) ++ array_bytes 162 (pps ∷ more_pps)) refl
      (λ other. refl)
    ∙ (take_arrays-array 1 161 (sets_after (some vps) none none)
          (sets_after (some vps) (some sps) none) sps more_sps (array_bytes 162 (pps ∷ more_pps))
          refl (λ other. refl)
        ∙ (ap (take_arrays 1 (sets_after (some vps) (some sps) none))
              (sym (append_nil (array_bytes 162 (pps ∷ more_pps))))
            ∙ take_arrays-array 0 162 (sets_after (some vps) (some sps) none)
                (sets_after (some vps) (some sps) (some pps)) pps more_pps [] refl (λ other. refl)))

hvcc_record-parts :
    (bytes : List ℕ) (n size : ℕ) (rest : List ℕ) (sets : HvccSets)
    → ltb (length bytes) 23 ≡ false
    → get_or bytes 0 0 ≡ 1
    → get_or bytes 21 0 % 4 + 1 ≡ size
    → get_or bytes 22 0 ≡ n
    → drop 23 bytes ≡ rest
    → take_arrays n (sets_after none none none) rest ≡ some sets
    → vtf_parse_hvcc_config_record bytes ≡ hvcc_sets size sets
unfolding vtf_parse_hvcc_config_record
hvcc_record-parts bytes n size rest sets long version low number behind taken =
    rw (long, version, number, behind) (rw (taken, low) refl)

-- Of an HVCC record with an array of VPS, one of SPS and one of PPS, none of them empty, the parser gives
-- the first of each, and the size of a length.
pub vtf_parse_hvcc_config_record-hvcc_record :
    (profile : List ℕ) (timing size_minus_one : ℕ) (vps : List ℕ) (more_vps : List (List ℕ))
    (sps : List ℕ) (more_sps : List (List ℕ)) (pps : List ℕ) (more_pps : List (List ℕ))
    → length profile ≡ 20
    → size_minus_one < 4
    → vtf_parse_hvcc_config_record (
        hvcc_record profile timing size_minus_one
          (vps ∷ more_vps)
          (sps ∷ more_sps)
          (pps ∷ more_pps))
      ≡ some (vps ∷ sps ∷ pps ∷ [], size_minus_one + 1)
unfolding hvcc_sets
vtf_parse_hvcc_config_record-hvcc_record profile timing size_minus_one vps more_vps sps more_sps pps
      more_pps p s =
    let low : (timing * 4 + size_minus_one) % 4 + 1 ≡ size_minus_one + 1 = omega (arith, s) in
    let sets = sets_bytes (vps ∷ more_vps) (sps ∷ more_sps) (pps ∷ more_pps) in
    let tail = (timing * 4 + size_minus_one) ∷ 3 ∷ sets in
    let two : List ℕ = (timing * 4 + size_minus_one) ∷ 3 ∷ [] in
    let size : get_or (profile ++ tail) 20 0 ≡ timing * 4 + size_minus_one =
      get_or-append 20 0 profile tail (omega (arith, p)) in
    let number : get_or (profile ++ tail) 21 0 ≡ 3 =
      get_or-append 21 1 profile tail (omega (arith, p)) in
    let behind : drop 22 (profile ++ tail) ≡ sets =
      ap (drop 22) (sym (append_assoc profile two sets))
      ∙ drop-append_at 22 (profile ++ two) sets (omega (arith, p, length-append profile two)) in
    let long : ltb (length (1 ∷ (profile ++ tail))) 23 ≡ false =
      ground (arith, length-append profile tail, p) in
    let taken = take_arrays-sets vps more_vps sps more_sps pps more_pps in
    hvcc_record-parts (1 ∷ (profile ++ tail)) 3 (size_minus_one + 1) sets
      (sets_after (some vps) (some sps) (some pps)) long refl (ap (λ b. b % 4 + 1) size ∙ low)
      number behind taken
