-- ===== src/Mock/Invariant/Serve.antt =====
-- Every request keeps the invariant, whatever its bytes.
use vt_ferry.Prelude.{ℕ, ◌≡◌, ◌≢◌, inl, inr, Bool-cases, Option-cases, ◌==◌, some, List, arith}
use vt_ferry.Protocol.Codes.{
  Opcode, hello, ping, get_caps, create_session, set_property, prepare_session, create_buffer_pool,
  alloc_buffer, read_buffer, write_buffer, recycle_buffer, encode_frame, dequeue_output,
  dequeue_output_batch, read_output, release_output, drain, destroy_session, opcode_of,
  vtf_transport_version,
}
use vt_ferry.Protocol.Wire.{Bytemuck}
use vt_ferry.Protocol.Header.{MessageHeader}
use vt_ferry.Mock.State.{MockBackend}
use vt_ferry.Mock.Transfer.{Outcome, failed}
use vt_ferry.Mock.Ensures.{
  Ensures, Ensures-ok, Ensures-refuse_if, Ensures-or_refuse, Ensures-settle,
}
use vt_ferry.Mock.SessionOps.{on_hello, on_get_caps, on_set_property, on_drain}
use vt_ferry.Mock.BufferOps.{on_read_buffer}
use vt_ferry.Mock.OutputOps.{on_read_output}
use vt_ferry.Mock.Dispatch.{serve, dispatch}
use vt_ferry.Mock.Invariant.Defs.{Inv, HasHandles}
use vt_ferry.Mock.Invariant.Sessions.{create_session-Inv, prepare_session-Inv, destroy_session-Inv}
use vt_ferry.Mock.Invariant.Pools.{create_buffer_pool-Inv}
use vt_ferry.Mock.Invariant.Buffers.{alloc_buffer-Inv, recycle_buffer-Inv, write_buffer-Inv}
use vt_ferry.Mock.Invariant.Outputs.{
  encode_frame-Inv, dequeue_output-Keeps, dequeue_output_batch-Inv, release_output-Keeps,
}

-- The arms that only read the backend.
module _ {κ} (bm : Bytemuck) (b : MockBackend) (req res : List ℕ) (P : MockBackend → Type κ)
    (v : P b) where
  pub set_property-reads : Ensures (λ (o : Outcome). P o.backend) (on_set_property bm b req res)
  unfolding on_set_property
  set_property-reads =
      Ensures-or_refuse _ _ _ λ payload _. Ensures-or_refuse _ _ _ λ s _. Ensures-ok _ v

  pub drain-reads : Ensures (λ (o : Outcome). P o.backend) (on_drain bm b req res)
  unfolding on_drain
  drain-reads = Ensures-or_refuse _ _ _ λ payload _. Ensures-or_refuse _ _ _ λ s _. Ensures-ok _ v

  pub read_buffer-reads : Ensures (λ (o : Outcome). P o.backend) (on_read_buffer bm b req res)
  unfolding on_read_buffer
  read_buffer-reads = Ensures-or_refuse _ _ _ λ payload _. Ensures-or_refuse _ _ _ λ x _.
      Ensures-refuse_if _ _ _ λ _. Ensures-refuse_if _ _ _ λ _.
        Ensures-refuse_if _ _ _
          λ _. Ensures-or_refuse _ _ _ λ p _. Ensures-or_refuse _ _ _ λ bytes _. Ensures-ok _ v

  pub read_output-reads : Ensures (λ (o : Outcome). P o.backend) (on_read_output bm b req res)
  unfolding on_read_output
  read_output-reads =
      Ensures-or_refuse _ _ _ λ payload _. Ensures-or_refuse _ _ _ λ o _. Ensures-ok _ v

module _ (bm : Bytemuck) (b : MockBackend) (v : Inv b) (h : HasHandles b) where
  pub serve-Inv : (op : Opcode) (req res : List ℕ) → Inv (serve bm b op req res).backend
  unfolding serve on_hello on_get_caps
  serve-Inv hello req res = v
  serve-Inv ping req res = v
  serve-Inv get_caps req res = v
  serve-Inv create_session req res =
      Ensures-settle Inv b res _ v (create_session-Inv bm b req res v h)
  serve-Inv set_property req res =
      Ensures-settle Inv b res _ v (set_property-reads bm b req res Inv v)
  serve-Inv prepare_session req res =
      Ensures-settle Inv b res _ v (prepare_session-Inv bm b req res v)
  serve-Inv create_buffer_pool req res =
      Ensures-settle Inv b res _ v (create_buffer_pool-Inv bm b req res v h)
  serve-Inv alloc_buffer req res = Ensures-settle Inv b res _ v (alloc_buffer-Inv bm b req res v h)
  serve-Inv read_buffer req res =
      Ensures-settle Inv b res _ v (read_buffer-reads bm b req res Inv v)
  serve-Inv write_buffer req res = Ensures-settle Inv b res _ v (write_buffer-Inv bm b req res v)
  serve-Inv recycle_buffer req res =
      Ensures-settle Inv b res _ v (recycle_buffer-Inv bm b req res v)
  serve-Inv encode_frame req res = Ensures-settle Inv b res _ v (encode_frame-Inv bm b req res v h)
  serve-Inv dequeue_output req res =
      Ensures-settle Inv b res _ v (dequeue_output-Keeps bm b req res v)
  serve-Inv dequeue_output_batch req res =
      Ensures-settle Inv b res _ v (dequeue_output_batch-Inv bm b req res v)
  serve-Inv read_output req res =
      Ensures-settle Inv b res _ v (read_output-reads bm b req res Inv v)
  serve-Inv release_output req res =
      Ensures-settle Inv b res _ v (release_output-Keeps bm b req res v)
  serve-Inv drain req res = Ensures-settle Inv b res _ v (drain-reads bm b req res Inv v)
  serve-Inv destroy_session req res =
      Ensures-settle Inv b res _ v (destroy_session-Inv bm b req res v)

-- A request is refused for its version or opcode, or served.
pub dispatch_cases {κ} :
    (bm : Bytemuck) (P : Outcome → Type κ) (b : MockBackend) (req_header : MessageHeader)
    (req res : List ℕ)
    → ((s : ℕ) → s ≢ 0 → P (failed b res s))
    → ((op : Opcode) → opcode_of req_header.opcode ≡ some op → P (serve bm b op req res))
    → P (dispatch bm b req_header req res)
unfolding dispatch
dispatch_cases bm P b req_header req res refused served =
    elim (Bool-cases (req_header.version == vtf_transport_version)) [
      | inr e ↦ rw e (refused 2 (omega arith))
      | inl e ↦ rw e (elim (Option-cases (opcode_of req_header.opcode)) [
        | inl f ↦ rw f (refused 1 (omega arith))
        | inr (op, f) ↦ rw f (served op f)
      ])
    ]

-- While the counters of handles have not run out, every request leaves the backend well formed: handles
-- stay distinct and below the next one, tables within their limits, every buffer in a slot of its own
-- of an existing pool, and the account of output bytes exact and within the limit.
pub dispatch-Inv :
    (bm : Bytemuck) (b : MockBackend) (req_header : MessageHeader) (req res : List ℕ)
    → Inv b
    → HasHandles b
    → Inv (dispatch bm b req_header req res).backend
dispatch-Inv bm b req_header req res v h =
    dispatch_cases bm (λ o. Inv o.backend) b req_header req res (λ s _. v)
      (λ op _. serve-Inv bm b v h op req res)
