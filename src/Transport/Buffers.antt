-- ===== src/Transport/Buffers.antt =====
-- `write_buffer` and `read_buffer` of crates/vt-ferry-shim/src/transport.rs.
use vt_ferry.Prelude.{ℕ, List, [], ◌++◌, length}
use vt_ferry.Protocol.Opcodes.{op_write_buffer, op_read_buffer}
use vt_ferry.Protocol.Wire.{Bytemuck, size_of}
use vt_ferry.Protocol.Buffers.{
  WriteBufferPayload, write_buffer_payload, ReadBufferPayload, read_buffer_payload,
  read_buffer_reply,
}
use vt_ferry.Mock.PixelLayout.{to_u32}
use vt_ferry.Mock.Transfer.{Check}
use vt_ferry.Transport.Sending.{Transport, Env}
use vt_ferry.Transport.Chunks.{write_buffer_chunk_bytes, send_chunks, fetch_chunks}

abbrev pub write_payload : ℕ → ℕ → ℕ → List ℕ → WriteBufferPayload
write_payload buffer_id generation offset chunk = record {
  buffer_id = buffer_id;
  generation = generation;
  offset = to_u32 offset;
  length = to_u32 (length chunk);
}

abbrev pub read_payload : ℕ → ℕ → ℕ → ℕ → ReadBufferPayload
read_payload buffer_id generation offset chunk_len = record {
  buffer_id = buffer_id;
  generation = generation;
  offset = to_u32 offset;
  length = to_u32 chunk_len;
}

module _ (bm : Bytemuck) {L : Type 0} (env : Env L) where
  abbrev pub write_request : ℕ → ℕ → ℕ → List ℕ → List ℕ
  write_request buffer_id generation offset chunk =
      bm.bytes_of write_buffer_payload (write_payload buffer_id generation offset chunk) ++ chunk

  unfoldable pub write_buffer : ℕ → ℕ → List ℕ → Transport L → Check (Unit {0}) × Transport L
  unfolding send_chunks
  write_buffer buffer_id generation bytes t =
      send_chunks bm env op_write_buffer (write_request buffer_id generation)
        write_buffer_chunk_bytes (length bytes) 0 bytes t

  abbrev pub read_request : ℕ → ℕ → ℕ → ℕ → List ℕ
  read_request buffer_id generation offset chunk_len =
      bm.bytes_of read_buffer_payload (read_payload buffer_id generation offset chunk_len)

  unfoldable pub read_buffer : ℕ → ℕ → ℕ → Transport L → Check (List ℕ) × Transport L
  unfolding fetch_chunks
  read_buffer buffer_id generation total_len t =
      fetch_chunks bm env op_read_buffer (read_request buffer_id generation)
        (size_of read_buffer_reply) total_len total_len 0 [] t
