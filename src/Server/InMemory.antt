-- ===== src/Server/InMemory.antt =====
-- crates/vt-ferry-worker/src/server.rs serving a connection from the in-memory backend of
-- crates/vt-ferry-worker/src/mock.rs.
use vt_ferry.Prelude.{
  ℕ, suc, ◌+◌, ◌^◌, ◌<◌, ◌≤◌, ◌≡◌, refl, sym, subst, ap, Option, List, [], ◌∷◌, map, length, All,
  arith,
}
use vt_ferry.Protocol.Wire.{Bytemuck}
use vt_ferry.Protocol.Header.{MessageHeader, zeroed_header}
use vt_ferry.Mock.State.{MockBackend, reset_from_env}
use vt_ferry.Mock.Dispatch.{dispatch}
use vt_ferry.Mock.Fits.{dispatch-Fits}
use vt_ferry.Mock.Runs.{dispatch_all, connection-Inv, IsUsize}
use vt_ferry.Mock.Invariant.Defs.{Inv}
use vt_ferry.Server.Backend.{Backend}
use vt_ferry.Server.Connection.{Connection, closed, serve_rounds}
use vt_ferry.Server.Answers.{Request, IsRequest, requests_bytes, answers, handle_connection-answers}

-- The in-memory backend as a Backend.
unfoldable pub mock_backend : Bytemuck → Backend MockBackend
mock_backend bm = record {
  dispatch = λ b req_header req res.
      let o = dispatch bm b req_header req res in
      record {
        backend = o.backend;
        res_header = record zeroed_header { status = o.status };
        res_payload = o.res_payload;
        result = o.result;
      };
  length-dispatch = λ b req_header req res. (dispatch-Fits bm b req_header req res).0;
  dispatch-le = λ b req_header req res n e. (dispatch-Fits bm b req_header req res).1 n e;
}

abbrev as_pair : Request → MessageHeader × List ℕ
as_pair r = (r.header, r.payload)

answers-dispatch_all :
    (bm : Bytemuck) (b : MockBackend) (buf : List ℕ) (reqs : List Request)
    → (answers bm (mock_backend bm) b buf reqs).1.0 ≡ dispatch_all bm b buf (map as_pair reqs)
unfolding answers dispatch_all mock_backend
answers-dispatch_all bm b buf [] = refl
answers-dispatch_all bm b buf (r ∷ rs) =
    let o = dispatch bm b r.header r.payload buf in
    answers-dispatch_all bm o.backend o.res_payload rs

length-map : {A B : Type 0} (f : A → B) (xs : List A) → length (map f xs) ≡ length xs
length-map f [] = refl
length-map f (x ∷ xs) = ap suc (length-map f xs)

-- A connection to the in-memory backend from its start: fewer than 2 ^ 64 - 5000 well-formed requests of a
-- client that takes the responses are answered one by one, the connection closes when the client has hung
-- up, and the backend that it leaves is well formed.
pub handle_connection-InMemory :
    (bm : Bytemuck) (outputs_var bytes_var : Option ℕ) (b : MockBackend) (buf : List ℕ)
    (reqs : List Request) (room : ℕ)
    → IsUsize bytes_var
    → 5000 + length reqs < 2 ^ 64
    → All IsRequest reqs
    → let start = reset_from_env outputs_var bytes_var b in
      let sent = (answers bm (mock_backend bm) start buf reqs).0 in
      length sent ≤ room
      → (end : Connection MockBackend) × (serve_rounds bm
            (mock_backend bm)
            (suc (length reqs))
            (record {
              backend = start;
              client_stream = record { incoming = requests_bytes bm reqs; room = room; sent = [] };
              res_payload_buf = buf;
            })
          ≡ closed end)
        × (end.client_stream.sent ≡ sent)
        × Inv end.backend
handle_connection-InMemory bm outputs_var bytes_var b buf reqs room h lt oks fits =
    let start = reset_from_env outputs_var bytes_var b in
    let count : 5000 + length (map as_pair reqs) < 2 ^ 64 =
      omega (arith, length-map as_pair reqs, lt) in
    (
      _,
      handle_connection-answers bm (mock_backend bm) start buf reqs room [] oks fits,
      refl,
      subst Inv (sym (answers-dispatch_all bm start buf reqs))
          (connection-Inv bm outputs_var bytes_var b buf (map as_pair reqs) h count),
    )
