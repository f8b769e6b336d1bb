-- ===== src/Mock/Runs.antt =====
-- The backend of crates/vt-ferry-worker/src/mock.rs over the life of a connection: started by
-- `reset_from_env`, then serving requests.
use vt_ferry.Prelude.{
  ℕ, ◌+◌, ◌^◌, ◌<◌, Option, none, some, List, [], ◌∷◌, length, refl, sum_by, arith,
}
use vt_ferry.Protocol.Wire.{Bytemuck}
use vt_ferry.Protocol.Header.{MessageHeader}
use vt_ferry.Mock.State.{
  MockBackend, reset, reset_from_env, parse_size_env, default_max_output_bytes,
}
use vt_ferry.Mock.Dispatch.{dispatch}
use vt_ferry.Mock.Counters.{dispatch-Few}
use vt_ferry.Mock.Invariant.Defs.{Inv, HasHandles}
use vt_ferry.Mock.Invariant.Serve.{dispatch-Inv}

-- The backend and the response buffer after a row of requests.
unfoldable pub dispatch_all :
    Bytemuck → MockBackend → List ℕ → List (MessageHeader × List ℕ) → MockBackend
dispatch_all bm b res [] = b
dispatch_all bm b res ((req_header, req_payload) ∷ reqs) =
    let o = dispatch bm b req_header req_payload res in dispatch_all bm o.backend o.res_payload reqs

-- What a usize can hold.
abbrev pub IsUsize : Option ℕ → Type 0
IsUsize none = Unit
IsUsize (some n) = n < 2 ^ 64

reset_from_env-Inv :
    (outputs_var bytes_var : Option ℕ) (b : MockBackend)
    → IsUsize bytes_var
    → Inv (reset_from_env outputs_var bytes_var b)
unfolding reset_from_env reset parse_size_env sum_by
reset_from_env-Inv outputs_var bytes_var b h = record {
  sessions_ok = record { rise = omega arith; room = omega arith };
  pools_ok = record { rise = omega arith; room = omega arith; each = tt };
  buffers_ok = record { rise = omega arith; room = omega arith; each = tt; apart = tt };
  outputs_ok = record {
    rise = omega arith;
    room = omega arith;
    each = tt;
    total_exact = refl;
    total_room = omega arith;
    bytes_usize = usize bytes_var h;
  };
}
  where
    usize : (v : Option ℕ) → IsUsize v → parse_size_env v default_max_output_bytes < 2 ^ 64
    usize none h = omega arith
    usize (some n) h = h

dispatch_all-Inv :
    (bm : Bytemuck) (b : MockBackend) (res : List ℕ) (reqs : List (MessageHeader × List ℕ))
    → Inv b
    → b.next_host_id + length reqs < 2 ^ 64
    → b.next_output_id + length reqs < 2 ^ 64
    → Inv (dispatch_all bm b res reqs)
unfolding dispatch_all
dispatch_all-Inv bm b res [] v h g = v
dispatch_all-Inv bm b res ((req_header, req) ∷ reqs) v h g =
    let o = dispatch bm b req_header req res in
    let few = dispatch-Few bm b req_header req res in
    let handles : HasHandles b = record { host = omega (arith, h); output = omega (arith, g) } in
    dispatch_all-Inv bm o.backend o.res_payload reqs
      (dispatch-Inv bm b req_header req res v handles) (omega (arith, few.0, h))
      (omega (arith, few.1, g))

-- A connection starts with a well-formed backend whatever the environment holds, and fewer than
-- 2 ^ 64 - 5000 requests of any kind leave it well formed: no sequence of requests breaks the tables, the
-- limits or the account of output bytes.
pub connection-Inv :
    (bm : Bytemuck) (outputs_var bytes_var : Option ℕ) (b : MockBackend) (res : List ℕ)
    (reqs : List (MessageHeader × List ℕ))
    → IsUsize bytes_var
    → 5000 + length reqs < 2 ^ 64
    → Inv (dispatch_all bm (reset_from_env outputs_var bytes_var b) res reqs)
unfolding reset_from_env reset
connection-Inv bm outputs_var bytes_var b res reqs h lt =
    dispatch_all-Inv bm (reset_from_env outputs_var bytes_var b) res reqs
      (reset_from_env-Inv outputs_var bytes_var b h) (omega (arith, lt)) (omega (arith, lt))
