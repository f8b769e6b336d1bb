-- ===== src/Mock/Dispatch.antt =====
-- `dispatch` of crates/vt-ferry-worker/src/mock.rs.
use vt_ferry.Prelude.{ℕ, not, ◌==◌, if◌then◌else◌, none, some, List}
use vt_ferry.Protocol.Codes.{
  Opcode, hello, ping, get_caps, create_session, set_property, prepare_session, create_buffer_pool,
  alloc_buffer, read_buffer, write_buffer, recycle_buffer, encode_frame, dequeue_output,
  dequeue_output_batch, read_output, release_output, drain, destroy_session, opcode_of,
  vtf_transport_version, status_unsupported_version, status_unsupported_opcode,
}
use vt_ferry.Protocol.Wire.{Bytemuck}
use vt_ferry.Protocol.Header.{MessageHeader}
use vt_ferry.Mock.State.{MockBackend}
use vt_ferry.Mock.Transfer.{Outcome, settle, done, failed}
use vt_ferry.Mock.SessionOps.{
  on_hello, on_get_caps, on_create_session, on_set_property, on_prepare_session, on_destroy_session,
  on_drain,
}
use vt_ferry.Mock.PoolOps.{on_create_buffer_pool, on_alloc_buffer, on_recycle_buffer}
use vt_ferry.Mock.BufferOps.{on_read_buffer, on_write_buffer}
use vt_ferry.Mock.EncodeOps.{on_encode_frame}
use vt_ferry.Mock.OutputOps.{
  on_dequeue_output, on_dequeue_output_batch, on_read_output, on_release_output,
}

module _ (bm : Bytemuck) where
  unfoldable pub serve : MockBackend → Opcode → List ℕ → List ℕ → Outcome
  serve b hello req res = on_hello bm b res
  serve b ping req res = done b res
  serve b get_caps req res = on_get_caps bm b res
  serve b create_session req res = settle b res (on_create_session bm b req res)
  serve b set_property req res = settle b res (on_set_property bm b req res)
  serve b prepare_session req res = settle b res (on_prepare_session bm b req res)
  serve b create_buffer_pool req res = settle b res (on_create_buffer_pool bm b req res)
  serve b alloc_buffer req res = settle b res (on_alloc_buffer bm b req res)
  serve b read_buffer req res = settle b res (on_read_buffer bm b req res)
  serve b write_buffer req res = settle b res (on_write_buffer bm b req res)
  serve b recycle_buffer req res = settle b res (on_recycle_buffer bm b req res)
  serve b encode_frame req res = settle b res (on_encode_frame bm b req res)
  serve b dequeue_output req res = settle b res (on_dequeue_output bm b req res)
  serve b dequeue_output_batch req res = settle b res (on_dequeue_output_batch bm b req res)
  serve b read_output req res = settle b res (on_read_output bm b req res)
  serve b release_output req res = settle b res (on_release_output bm b req res)
  serve b drain req res = settle b res (on_drain bm b req res)
  serve b destroy_session req res = settle b res (on_destroy_session bm b req res)

  unfoldable pub dispatch : MockBackend → MessageHeader → List ℕ → List ℕ → Outcome
  unfolding serve
  dispatch b req_header req_payload res_payload =
      if not (req_header.version == vtf_transport_version)
      then failed b res_payload status_unsupported_version
      else (elim (opcode_of req_header.opcode) [
        | none ↦ failed b res_payload status_unsupported_opcode
        | some op ↦ serve b op req_payload res_payload
      ])
