-- ===== src/Examples/Counted.antt =====
-- The theorems on the shim, at an object that is retained twice and a small record.
use vt_ferry.Prelude.{◌≡◌, refl, false, some, List, [], ◌∷◌, ◌++◌, replicate, arith}
use vt_ferry.Real.Maps.{empty, remove}
use vt_ferry.Shim.Runtime.{VtfCfObject, Runtime, Hooks}
use vt_ferry.Shim.Records.{vtf_parse_avcc_config_record, vtf_parse_hvcc_config_record}
use vt_ferry.Shim.Avcc.{avcc_record, vtf_parse_avcc_config_record-avcc_record}
use vt_ferry.Shim.Hvcc.{hvcc_record, vtf_parse_hvcc_config_record-hvcc_record}
use vt_ferry.Shim.Counting.{Op, counted, counting, apply_all, cf_release-last, hooked}

-- The one hook gives the memory of the object back.
abbrev free_hook : Hooks
free_hook = λ fin at rt. record rt { objects = remove at rt.objects }

abbrev data_object : VtfCfObject
data_object = record {
  magic = 0x534d5654;
  type_id = 3;
  refcount = 1;
  is_static = false;
  proxy_id = 12;
  generation = 1;
  host_id = 0;
  finalize = some 7;
}

abbrev one_alive : Runtime
one_alive = record {
  objects = empty;
  next_proxy_id = 13;
  proxy_alive = 1;
  data_copy_bytes = 0;
  data_copy_events = 0;
  vt_sessions_created = 0;
  vt_sessions_destroyed = 0;
}

abbrev retains_and_releases : List Op
retains_and_releases = Op.retain ∷ Op.retain ∷ Op.release ∷ Op.release ∷ []

cf_release-last_example :
    (apply_all free_hook 64 retains_and_releases
        (counting free_hook 64 data_object one_alive refl 1)
      ≡ some (counting free_hook 64 data_object one_alive refl 1))
    × (apply_all free_hook 64
          (retains_and_releases ++ Op.release ∷ [])
          (counting free_hook 64 data_object one_alive refl 1)
        ≡ some (record (hooked free_hook 64 data_object one_alive refl) { proxy_alive = 0 }))
unfolding counted
cf_release-last_example =
    cf_release-last free_hook 64 data_object one_alive refl retains_and_releases 1 1 (omega arith)
      (omega arith) refl (omega arith) (omega arith)

-- A record with two SPS and one PPS.
vtf_parse_avcc_config_record-avcc_record_example :
    vtf_parse_avcc_config_record
      (avcc_record 100 0 31 3 ((103 ∷ 1 ∷ []) ∷ (103 ∷ []) ∷ []) ((104 ∷ 5 ∷ 6 ∷ []) ∷ []))
    ≡ some ((103 ∷ 1 ∷ []) ∷ (104 ∷ 5 ∷ 6 ∷ []) ∷ [], 4)
vtf_parse_avcc_config_record-avcc_record_example =
    vtf_parse_avcc_config_record-avcc_record 100 0 31 3 (103 ∷ 1 ∷ []) ((103 ∷ []) ∷ [])
      (104 ∷ 5 ∷ 6 ∷ []) [] (omega arith) (omega arith)

-- A record with two VPS, one SPS and one PPS.
vtf_parse_hvcc_config_record-hvcc_record_example :
    vtf_parse_hvcc_config_record (
      hvcc_record
        (replicate 20 7)
        3
        1
        ((64 ∷ 1 ∷ []) ∷ (64 ∷ []) ∷ [])
        ((66 ∷ 5 ∷ []) ∷ [])
        ((68 ∷ []) ∷ []))
    ≡ some ((64 ∷ 1 ∷ []) ∷ (66 ∷ 5 ∷ []) ∷ (68 ∷ []) ∷ [], 2)
vtf_parse_hvcc_config_record-hvcc_record_example =
    vtf_parse_hvcc_config_record-hvcc_record (replicate 20 7) 3 1 (64 ∷ 1 ∷ []) ((64 ∷ []) ∷ [])
      (66 ∷ 5 ∷ []) [] (68 ∷ []) [] refl (omega arith)
