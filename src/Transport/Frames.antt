-- ===== src/Transport/Frames.antt =====
-- The encoded frames that the guest sends to be decoded, and the decoded ones that it reads, in
-- crates/vt-ferry-shim/src/transport.rs.
use vt_ferry.Prelude.{ℕ, ◌+◌, ◌-◌, ◌^◌, not, ◌==◌, ltb, ◌||◌, if◌then◌else◌, List, [], ◌++◌, length}
use vt_ferry.Protocol.Opcodes.{
  op_enqueue_encoded_frame, op_enqueue_encoded_frame_chunk, op_read_decoded_frame,
  op_read_decoded_frame_chunk, vtf_transport_max_encoded_frame_bytes,
}
use vt_ferry.Protocol.Wire.{Bytemuck, size_of}
use vt_ferry.Protocol.Decode.{
  EnqueueEncodedFramePayload, enqueue_encoded_frame_payload, EnqueueEncodedFrameChunkPayload,
  enqueue_encoded_frame_chunk_payload, ReadDecodedFramePayload, read_decoded_frame_payload,
  read_decoded_frame_reply, ReadDecodedFrameChunkPayload, read_decoded_frame_chunk_payload,
  read_decoded_frame_chunk_reply,
}
use vt_ferry.Mock.PixelLayout.{to_u32}
use vt_ferry.Mock.Transfer.{Check, ok, err}
use vt_ferry.Transport.Sending.{
  Transport, Env, frame_delay_err, send_request_bytes, send_pod, and_then,
}
use vt_ferry.Transport.Chunks.{send_chunks, fetch_chunks}

-- The payload of the chunk of `chunk_len` bytes at an offset: the head payload gives the session, the
-- timing and the flags.
abbrev pub chunk_payload :
    EnqueueEncodedFrameChunkPayload → ℕ → ℕ → ℕ → EnqueueEncodedFrameChunkPayload
chunk_payload head total offset chunk_len = record head {
  chunk_offset = to_u32 offset;
  chunk_length = to_u32 chunk_len;
  total_encoded_size = to_u32 total;
  is_final_chunk = if offset + chunk_len == total then 1 else 0;
  reserved = 0;
}

abbrev pub decoded_chunk_payload : ℕ → ℕ → ℕ → ℕ → ReadDecodedFrameChunkPayload
decoded_chunk_payload session_id output_id offset chunk_len = record {
  session_id = session_id;
  output_id = output_id;
  offset = to_u32 offset;
  length = to_u32 chunk_len;
}

-- The wire bytes of a chunk.
module _ (bm : Bytemuck) where
  abbrev pub chunk_request : EnqueueEncodedFrameChunkPayload → ℕ → ℕ → List ℕ → List ℕ
  chunk_request head total offset chunk =
      bm.bytes_of enqueue_encoded_frame_chunk_payload
        (chunk_payload head total offset (length chunk))
      ++ chunk

module _ (bm : Bytemuck) {L : Type 0} (env : Env L) where
  unfoldable pub enqueue_encoded_frame :
      EnqueueEncodedFramePayload → List ℕ → Transport L → Check (Unit {0}) × Transport L
  enqueue_encoded_frame payload encoded_bytes t =
      if not (payload.encoded_size == length encoded_bytes)
      then (err frame_delay_err, t)
      else (and_then
          (send_request_bytes bm env op_enqueue_encoded_frame
            (bm.bytes_of enqueue_encoded_frame_payload payload ++ encoded_bytes) t)
          λ _ t'. (ok tt, t'))

  unfoldable pub enqueue_encoded_frame_chunked :
      EnqueueEncodedFrameChunkPayload → List ℕ → Transport L → Check (Unit {0}) × Transport L
  unfolding send_chunks
  enqueue_encoded_frame_chunked head_payload encoded_bytes t =
      let total = length encoded_bytes in
      if total == 0 || ltb (2 ^ 32 - 1) total
      then (err frame_delay_err, t)
      else send_chunks bm env op_enqueue_encoded_frame_chunk (chunk_request bm head_payload total)
          vtf_transport_max_encoded_frame_bytes total 0 encoded_bytes t

  unfoldable pub read_decoded_frame :
      ReadDecodedFramePayload → Transport L → Check (List ℕ) × Transport L
  read_decoded_frame payload t =
      and_then (send_pod bm env read_decoded_frame_payload op_read_decoded_frame payload t)
        λ bytes t'. (
          if ltb (length bytes) (size_of read_decoded_frame_reply)
              then err frame_delay_err
              else ok bytes,
          t',
        )

  abbrev pub decoded_chunk_request : ℕ → ℕ → ℕ → ℕ → List ℕ
  decoded_chunk_request session_id output_id offset chunk_len =
      bm.bytes_of read_decoded_frame_chunk_payload
        (decoded_chunk_payload session_id output_id offset chunk_len)

  unfoldable pub read_decoded_frame_chunk : ℕ → ℕ → ℕ → Transport L → Check (List ℕ) × Transport L
  unfolding fetch_chunks
  read_decoded_frame_chunk session_id output_id total_len t =
      fetch_chunks bm env op_read_decoded_frame_chunk (decoded_chunk_request session_id output_id)
        (size_of read_decoded_frame_chunk_reply) total_len total_len 0 [] t
