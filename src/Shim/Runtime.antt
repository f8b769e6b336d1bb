-- ===== src/Shim/Runtime.antt =====
-- The objects of crates/vt-ferry-shim/src/runtime.rs, their reference counts, and the counters of the process.
use vt_ferry.Prelude.{
  ℕ, ◌+◌, ◌-◌, ◌^◌, Bool, true, false, not, ◌==◌, if◌then◌else◌, Option, none, some,
}
use vt_ferry.Mock.Handles.{to_u64}
use vt_ferry.Mock.PixelLayout.{to_u32}
use vt_ferry.Real.Maps.{HashMap, insert}

-- A pointer, null as `none`.
abbrev pub CfTypeRef : Type 0
CfTypeRef = Option ℕ

-- The flags hold one bit, VTF_OBJECT_FLAG_STATIC. The finalize hook is a pointer to a function, named by a
-- number; a refcount is an i32 as its bits.
pub record VtfCfObject : Type 0 where
  pub magic : ℕ
  pub type_id : ℕ
  pub refcount : ℕ
  pub is_static : Bool
  pub proxy_id : ℕ
  pub generation : ℕ
  pub host_id : ℕ
  pub finalize : Option ℕ

-- The memory, where an address without an object is one that must not be read, and the statics of the file;
-- the count of the living is an i64 as its bits.
pub record Runtime : Type 0 where
  pub objects : HashMap VtfCfObject
  pub next_proxy_id : ℕ
  pub proxy_alive : ℕ
  pub data_copy_bytes : ℕ
  pub data_copy_events : ℕ
  pub vt_sessions_created : ℕ
  pub vt_sessions_destroyed : ℕ

-- What the hooks do to the object at an address.
abbrev pub Hooks : Type 0
Hooks = ℕ → ℕ → Runtime → Runtime

abbrev pub vtf_magic : ℕ
vtf_magic = 0x534d5654

unfoldable pub vtf_record_proxy_alive_increment : Runtime → Runtime
vtf_record_proxy_alive_increment rt = record rt { proxy_alive = to_u64 (rt.proxy_alive + 1) }

unfoldable pub vtf_record_data_copy : ℕ → Runtime → Runtime
vtf_record_data_copy bytes rt = record rt {
  data_copy_bytes = to_u64 (rt.data_copy_bytes + bytes);
  data_copy_events = to_u64 (rt.data_copy_events + 1);
}

unfoldable pub vtf_record_vt_session_created : Runtime → Runtime
vtf_record_vt_session_created rt = record rt {
  vt_sessions_created = to_u64 (rt.vt_sessions_created + 1);
}

unfoldable pub vtf_record_vt_session_destroyed : Runtime → Runtime
vtf_record_vt_session_destroyed rt = record rt {
  vt_sessions_destroyed = to_u64 (rt.vt_sessions_destroyed + 1);
}

-- An i64 as its bits.
unfoldable pub vtf_vt_sessions_live : Runtime → ℕ
vtf_vt_sessions_live rt = to_u64 (rt.vt_sessions_created + 2 ^ 64 - rt.vt_sessions_destroyed)

-- The object that a box is made of.
unfoldable pub with_host_id : ℕ → Option ℕ → ℕ → ℕ → ℕ → Runtime → VtfCfObject × Runtime
unfolding vtf_record_proxy_alive_increment
with_host_id type_id finalize proxy_id host_id generation rt = (
  record {
    magic = vtf_magic;
    type_id = type_id;
    refcount = 1;
    is_static = false;
    proxy_id = proxy_id;
    generation = generation;
    host_id = host_id;
    finalize = finalize;
  },
  vtf_record_proxy_alive_increment rt,
)

unfoldable pub init : ℕ → Option ℕ → Runtime → VtfCfObject × Runtime
unfolding with_host_id
init type_id finalize rt =
    with_host_id type_id finalize rt.next_proxy_id 0 1
      (record rt { next_proxy_id = to_u64 (rt.next_proxy_id + 1) })

-- An object written at its address.
abbrev pub put : ℕ → VtfCfObject → Runtime → Runtime
put at object rt = record rt { objects = insert at object rt.objects }

-- `none` is the read of an address without an object.
unfoldable pub cf_retain : CfTypeRef → Runtime → Option (CfTypeRef × Runtime)
unfolding insert
cf_retain none rt = some (none, rt)
cf_retain (some at) rt = elim (rt.objects at) [
  | none ↦ none
  | some object ↦
      if object.is_static
      then some (some at, rt)
      else some (some at, put at (record object { refcount = to_u32 (object.refcount + 1) }) rt)
]

module _ (hooks : Hooks) where
  -- The hook, if there is one, and one object less.
  unfoldable pub finish : ℕ → VtfCfObject → Runtime → Runtime
  finish at object rt =
      let rt' : Runtime = elim object.finalize [ none ↦ rt | some fin ↦ hooks fin at rt ] in
      record rt' { proxy_alive = to_u64 (rt'.proxy_alive + (2 ^ 64 - 1)) }

  unfoldable pub cf_release : CfTypeRef → Runtime → Option Runtime
  unfolding insert finish
  cf_release none rt = some rt
  cf_release (some at) rt = elim (rt.objects at) [
    | none ↦ none
    | some object ↦
        let fewer : VtfCfObject = record object {
          refcount = to_u32 (object.refcount + (2 ^ 32 - 1));
        } in
        if object.is_static
        then some rt
        else if object.refcount == 1
        then some (finish at fewer (put at fewer rt))
        else some (put at fewer rt)
  ]

-- The four getters differ in the field.
unfoldable pub get_field : (VtfCfObject → ℕ) → CfTypeRef → Runtime → Option ℕ
get_field field none rt = some 0
get_field field (some at) rt = elim (rt.objects at) [
  | none ↦ none
  | some object ↦ some (field object)
]

abbrev pub vtf_get_type_id : CfTypeRef → Runtime → Option ℕ
vtf_get_type_id = get_field (λ object. object.type_id)

abbrev pub vtf_get_proxy_id : CfTypeRef → Runtime → Option ℕ
vtf_get_proxy_id = get_field (λ object. object.proxy_id)

abbrev pub vtf_get_generation : CfTypeRef → Runtime → Option ℕ
vtf_get_generation = get_field (λ object. object.generation)

abbrev pub vtf_get_host_id : CfTypeRef → Runtime → Option ℕ
vtf_get_host_id = get_field (λ object. object.host_id)

unfoldable pub vtf_bind_host_id : CfTypeRef → ℕ → Runtime → Option Runtime
unfolding insert
vtf_bind_host_id none host_id rt = some rt
vtf_bind_host_id (some at) host_id rt = elim (rt.objects at) [
  | none ↦ none
  | some object ↦ some (put at (record object { host_id = host_id }) rt)
]

unfoldable pub vtf_bump_generation : CfTypeRef → Runtime → Option (ℕ × Runtime)
unfolding insert
vtf_bump_generation none rt = some (0, rt)
vtf_bump_generation (some at) rt = elim (rt.objects at) [
  | none ↦ none
  | some object ↦
      let generation = to_u64 (object.generation + 1) in
      some (generation, put at (record object { generation = generation; host_id = 0 }) rt)
]

-- After the types, the pointers are compared again, and differ.
unfoldable pub cf_equal : CfTypeRef → CfTypeRef → Runtime → Option Bool
unfolding get_field
cf_equal none none rt = some true
cf_equal none (some rhs) rt = some false
cf_equal (some lhs) none rt = some false
cf_equal (some lhs) (some rhs) rt =
    if lhs == rhs then some true else (elim (vtf_get_type_id (some lhs) rt) [
      | none ↦ none
      | some lhs_type ↦ elim (vtf_get_type_id (some rhs) rt) [
        | none ↦ none
        | some rhs_type ↦ some (if not (lhs_type == rhs_type) then false else lhs == rhs)
      ]
    ])
