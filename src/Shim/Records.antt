-- ===== src/Shim/Records.antt =====
-- The parsers of decoder configuration records in crates/vt-ferry-shim/src/coremedia.rs. The offset is what
-- is left of the record from it on, and the masks of low bits are remainders.
use vt_ferry.Prelude.{
  ℕ, zero, suc, ◌+◌, ◌*◌, ◌%◌, not, ◌==◌, ◌||◌, ltb, if◌then◌else◌, Option, none, some, List, [],
  ◌∷◌, take, drop, length, get_or,
}

-- u16::from_be_bytes
abbrev pub from_be_bytes : ℕ → ℕ → ℕ
from_be_bytes hi lo = hi * 256 + lo

-- A unit behind its length, and what is left.
unfoldable pub take_unit : List ℕ → Option (List ℕ × List ℕ)
take_unit [] = none
take_unit (hi ∷ []) = none
take_unit (hi ∷ lo ∷ rest) =
    if ltb (length rest) (from_be_bytes hi lo)
    then none
    else some (take (from_be_bytes hi lo) rest, drop (from_be_bytes hi lo) rest)

-- The first one stays.
unfoldable pub keep : Option (List ℕ) → List ℕ → Option (List ℕ)
keep none unit = some unit
keep (some first) unit = some first

-- `for _ in 0..n`, with the first unit so far.
unfoldable pub take_first : ℕ → Option (List ℕ) → List ℕ → Option (Option (List ℕ) × List ℕ)
unfolding take_unit keep
take_first zero first rest = some (first, rest)
take_first (suc n) first rest = elim (take_unit rest) [
  | none ↦ none
  | some (unit, rest') ↦ take_first n (keep first unit) rest'
]

-- `Some((vec![sps?, pps?], length_size))`
unfoldable pub avcc_sets : ℕ → Option (List ℕ) → Option (List ℕ) → Option (List (List ℕ) × ℕ)
avcc_sets length_size (some sps) (some pps) = some (sps ∷ pps ∷ [], length_size)
avcc_sets length_size (some sps) none = none
avcc_sets length_size none pps = none

-- From the number of PPS on.
unfoldable pub parse_pps : ℕ → Option (List ℕ) → List ℕ → Option (List (List ℕ) × ℕ)
unfolding take_first avcc_sets
parse_pps length_size sps [] = none
parse_pps length_size sps (num_pps ∷ rest) =
    if num_pps == 0 then none else (elim (take_first num_pps none rest) [
      | none ↦ none
      | some (pps, _) ↦ avcc_sets length_size sps pps
    ])

unfoldable pub vtf_parse_avcc_config_record : List ℕ → Option (List (List ℕ) × ℕ)
unfolding take_first parse_pps
vtf_parse_avcc_config_record bytes =
    let length_size = get_or bytes 4 0 % 4 + 1 in
    let num_sps = get_or bytes 5 0 % 32 in
    if ltb (length bytes) 7 || not (get_or bytes 0 0 == 1)
    then none
    else if num_sps == 0
    then none
    else (elim (take_first num_sps none (drop 6 bytes)) [
      | none ↦ none
      | some (sps, rest) ↦ parse_pps length_size sps rest
    ])

pub record HvccSets : Type 0 where
  pub vps : Option (List ℕ)
  pub sps : Option (List ℕ)
  pub pps : Option (List ℕ)

unfoldable pub keep_unit : ℕ → HvccSets → List ℕ → HvccSets
unfolding keep
keep_unit nal_unit_type sets blob =
    if nal_unit_type == 32
    then record sets { vps = keep sets.vps blob }
    else if nal_unit_type == 33
    then record sets { sps = keep sets.sps blob }
    else if nal_unit_type == 34
    then record sets { pps = keep sets.pps blob }
    else sets

-- The inner loop, over the units of an array.
unfoldable pub take_units : ℕ → ℕ → HvccSets → List ℕ → Option (HvccSets × List ℕ)
unfolding take_unit keep_unit
take_units zero nal_unit_type sets rest = some (sets, rest)
take_units (suc n) nal_unit_type sets rest = elim (take_unit rest) [
  | none ↦ none
  | some (blob, rest') ↦ take_units n nal_unit_type (keep_unit nal_unit_type sets blob) rest'
]

-- The outer loop, over the arrays.
unfoldable pub take_arrays : ℕ → HvccSets → List ℕ → Option HvccSets
unfolding take_units
take_arrays zero sets rest = some sets
take_arrays (suc n) sets [] = none
take_arrays (suc n) sets (kind ∷ []) = none
take_arrays (suc n) sets (kind ∷ hi ∷ []) = none
take_arrays (suc n) sets (kind ∷ hi ∷ lo ∷ rest) =
    elim (take_units (from_be_bytes hi lo) (kind % 64) sets rest) [
      | none ↦ none
      | some (sets', rest') ↦ take_arrays n sets' rest'
    ]

-- `Some((vec![vps?, sps?, pps?], length_size))`
unfoldable pub hvcc_sets : ℕ → HvccSets → Option (List (List ℕ) × ℕ)
hvcc_sets length_size sets = elim sets.vps [
  | none ↦ none
  | some vps ↦ elim sets.sps [
    | none ↦ none
    | some sps ↦ elim sets.pps [ none ↦ none | some pps ↦ some (vps ∷ sps ∷ pps ∷ [], length_size) ]
  ]
]

unfoldable pub vtf_parse_hvcc_config_record : List ℕ → Option (List (List ℕ) × ℕ)
unfolding take_arrays hvcc_sets
vtf_parse_hvcc_config_record bytes =
    let length_size = get_or bytes 21 0 % 4 + 1 in
    if ltb (length bytes) 23 || not (get_or bytes 0 0 == 1)
    then none
    else (elim (take_arrays (get_or bytes 22 0) (record { vps = none; sps = none; pps = none })
        (drop 23 bytes)) [ none ↦ none | some sets ↦ hvcc_sets length_size sets ])
