-- ===== src/Transport/Chunks.antt =====
-- The loops of crates/vt-ferry-shim/src/transport.rs that carry a long array of bytes in several requests.
use vt_ferry.Prelude.{
  ℕ, zero, suc, ◌+◌, ◌-◌, ◌*◌, min, ltb, if◌then◌else◌, List, [], ◌∷◌, ◌++◌, take, drop, length,
}
use vt_ferry.Protocol.Wire.{Bytemuck}
use vt_ferry.Mock.Transfer.{Check, ok, err}
use vt_ferry.Transport.Sending.{Transport, Env, frame_delay_err, send_request_bytes, and_then}

abbrev pub write_buffer_chunk_bytes : ℕ
write_buffer_chunk_bytes = 1024 * 1024

module _ (bm : Bytemuck) {L : Type 0} (env : Env L) where
  -- `while offset < bytes.len()`: `request` makes the request for the offset and the chunk at it, `cap`
  -- is the most that goes into a chunk. The bytes from `offset` on are `rest`; every round sends at
  -- least one, so that `rounds`, as many as there are bytes, are enough.
  unfoldable pub send_chunks :
      ℕ → (ℕ → List ℕ → List ℕ) → ℕ → ℕ → ℕ → List ℕ → Transport L → Check (Unit {0}) × Transport L
  send_chunks opcode request cap zero offset rest t = (ok tt, t)
  send_chunks opcode request cap (suc rounds) offset [] t = (ok tt, t)
  send_chunks opcode request cap (suc rounds) offset (byte ∷ rest) t =
      let chunk = take (min (length (byte ∷ rest)) cap) (byte ∷ rest) in
      and_then (send_request_bytes bm env opcode (request offset chunk) t) λ _ t'.
        send_chunks opcode request cap rounds (offset + length chunk)
          (drop (length chunk) (byte ∷ rest)) t'

  -- `while offset < total_len`, with what has come so far: a reply is its header and then the chunk.
  unfoldable pub fetch_chunks :
      ℕ → (ℕ → ℕ → List ℕ) → ℕ → ℕ → ℕ → ℕ → List ℕ → Transport L → Check (List ℕ) × Transport L
  fetch_chunks opcode request header_len zero total_len offset out t = (ok out, t)
  fetch_chunks opcode request header_len (suc rounds) total_len offset out t =
      let chunk_len = min (total_len - offset) write_buffer_chunk_bytes in
      if ltb offset total_len
      then (and_then (send_request_bytes bm env opcode (request offset chunk_len) t) λ bytes t'.
          if ltb (length bytes) (header_len + chunk_len)
          then (err frame_delay_err, t')
          else fetch_chunks opcode request header_len rounds total_len (offset + chunk_len)
              (out ++ take chunk_len (drop header_len bytes)) t')
      else (ok out, t)
