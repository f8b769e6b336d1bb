-- ===== src/Transport/Releases.antt =====
-- The releases of outputs, at once or put off to be sent in batches, in
-- crates/vt-ferry-shim/src/transport.rs.
use vt_ferry.Prelude.{
  ℕ, zero, suc, ◌-◌, min, max, ◌==◌, leb, if◌then◌else◌, Option, none, some, List, [], ◌∷◌, ◌++◌,
  take, drop, replicate, length,
}
use vt_ferry.Protocol.Codes.{status_unsupported_opcode, vtf_transport_max_output_batch}
use vt_ferry.Protocol.Opcodes.{op_release_output, op_release_output_batch, op_destroy_session}
use vt_ferry.Protocol.Wire.{Bytemuck}
use vt_ferry.Protocol.Outputs.{release_output_payload}
use vt_ferry.Protocol.Sessions.{destroy_session_payload}
use vt_ferry.Protocol.Batches.{ReleaseOutputBatchPayload, release_output_batch_payload}
use vt_ferry.Mock.PixelLayout.{to_u32}
use vt_ferry.Mock.Transfer.{Check, ok, err}
use vt_ferry.Transport.Sending.{Transport, Env, send_pod, and_then}

unfoldable pub batch_payload : List ℕ → ReleaseOutputBatchPayload
batch_payload output_ids = record {
  output_count = to_u32 (length output_ids);
  reserved = 0;
  output_ids = output_ids ++ replicate (vtf_transport_max_output_batch - length output_ids) 0;
}

unfoldable pub output_release_batch_size : Option ℕ → ℕ
output_release_batch_size none = vtf_transport_max_output_batch
output_release_batch_size (some value) = max 1 (min value vtf_transport_max_output_batch)

module _ (bm : Bytemuck) {L : Type 0} (env : Env L) where
  abbrev Call : Type 0
  Call = Transport L → Check (Unit {0}) × Transport L

  unfoldable pub release_output_now : ℕ → Call
  release_output_now output_id t =
      and_then
        (send_pod bm env release_output_payload op_release_output (record { output_id = output_id })
          t)
        λ _ t'. (ok tt, t')

  -- The loop over the ids when the worker does not know the batch opcode.
  unfoldable pub release_each : List ℕ → Call
  unfolding release_output_now
  release_each [] t = (ok tt, t)
  release_each (output_id ∷ ids) t =
      and_then (release_output_now output_id t) λ _ t'. release_each ids t'

  unfoldable pub release_output_batch_now : List ℕ → Call
  unfolding release_each batch_payload
  release_output_batch_now [] t = (ok tt, t)
  release_output_batch_now (i ∷ ids) t =
      let (result, t') =
        send_pod bm env release_output_batch_payload op_release_output_batch
          (batch_payload (i ∷ ids)) t in
      elim result [
        | ok _ ↦ (ok tt, t')
        | err status ↦
            if status == status_unsupported_opcode
            then release_each (i ∷ ids) t'
            else (err status, t')
      ]

  -- `for chunk in releases.chunks(24)`: each round takes at least one, so that as many rounds as there are
  -- releases are enough.
  unfoldable pub release_chunks : ℕ → List ℕ → Call
  unfolding release_output_batch_now
  release_chunks zero releases t = (ok tt, t)
  release_chunks (suc rounds) [] t = (ok tt, t)
  release_chunks (suc rounds) (i ∷ ids) t =
      and_then (release_output_batch_now (take vtf_transport_max_output_batch (i ∷ ids)) t)
        λ _ t'. release_chunks rounds (drop vtf_transport_max_output_batch (i ∷ ids)) t'

  -- The list is taken before anything is sent.
  unfoldable pub flush_deferred_output_releases : Call
  unfolding release_chunks
  flush_deferred_output_releases t =
      release_chunks (length t.deferred) t.deferred (record t { deferred = [] })

  unfoldable pub release_output : ℕ → Call
  unfolding flush_deferred_output_releases release_output_now output_release_batch_size
  release_output output_id t =
      if env.defer_releases
      then (let t' : Transport L = record t { deferred = t.deferred ++ output_id ∷ [] } in
          if leb (output_release_batch_size env.release_batch_size) (length t'.deferred)
          then flush_deferred_output_releases t'
          else (ok tt, t'))
      else release_output_now output_id t

  unfoldable pub destroy_session : ℕ → Call
  unfolding flush_deferred_output_releases
  destroy_session session_id t =
      and_then
        (if env.drop_on_destroy
          then (ok tt, record t { deferred = [] })
          else flush_deferred_output_releases t)
        λ _ t'.
          and_then
            (send_pod bm env destroy_session_payload op_destroy_session
              (record { session_id = session_id }) t')
            λ _ t''. (ok tt, t'')
