-- ===== src/Server/Connection.antt =====
-- `handle_connection` of crates/vt-ferry-worker/src/server.rs.
use vt_ferry.Prelude.{
  ℕ, zero, suc, ◌*◌, Bool, true, false, ◌==◌, ltb, if◌then◌else◌, Option, none, some, List, take,
}
use vt_ferry.Protocol.Codes.{status_unsupported_opcode}
use vt_ferry.Protocol.Wire.{Bytemuck, size_of}
use vt_ferry.Protocol.Header.{MessageHeader, message_header}
use vt_ferry.Mock.PixelLayout.{to_u32}
use vt_ferry.Server.Stream.{ClientStream, read_exact, write_all}
use vt_ferry.Server.Backend.{Answer, Backend}

abbrev pub vtf_transport_storage_capacity : ℕ
vtf_transport_storage_capacity = 2 * 1024 * 1024

-- What an iteration of the loop carries on.
pub record Connection (S : Type 0) : Type 0 where
  pub backend : S
  pub client_stream : ClientStream
  pub res_payload_buf : List ℕ

-- An iteration ends the loop or goes on.
pub data Turn (S : Type 0) : Type 0 where
  closed next : Connection S → Turn S

abbrev pub output_len : Option ℕ → ℕ
output_len none = 0
output_len (some len) = len

-- An Err without a status is an unsupported opcode.
abbrev pub status_of : Option ℕ → ℕ → ℕ
status_of none status = if status == 0 then status_unsupported_opcode else status
status_of (some len) status = status

unfoldable pub response_header : {S : Type 0} → MessageHeader → Answer S → MessageHeader
response_header req_header a = record a.res_header {
  status = status_of a.result a.res_header.status;
  payload_len = to_u32 (output_len a.result);
  version = 1;
  opcode = req_header.opcode;
  request_id = req_header.request_id;
}

-- The two writes: the response header, then the payload if it has any.
unfoldable pub write_response : List ℕ → ℕ → List ℕ → ClientStream → Bool × ClientStream
write_response res_header_bytes len res_payload_buf c =
    let (written, c') = write_all res_header_bytes c in
    if written
    then (if len == 0 then (true, c') else write_all (take len res_payload_buf) c')
    else (false, c')

module _ (bm : Bytemuck) {S : Type 0} (be : Backend S) where
  unfoldable pub answer_request : S → List ℕ → ClientStream → MessageHeader → List ℕ → Turn S
  unfolding write_response response_header
  answer_request backend res_payload_buf c req_header req_payload_buf =
      let a = be.dispatch backend req_header req_payload_buf res_payload_buf in
      let (written, c') =
        write_response (bm.bytes_of message_header (response_header req_header a))
          (output_len a.result) a.res_payload c in
      let conn : Connection S = record {
        backend = a.backend;
        client_stream = c';
        res_payload_buf = a.res_payload;
      } in
      if written then next conn else closed conn

  -- One iteration. A read that fails part of the way leaves the loop, so that what is left of the stream
  -- does not matter; a payload of no bytes is not read.
  unfoldable pub serve_one : Connection S → Turn S
  unfolding answer_request
  serve_one conn = elim (read_exact (size_of message_header) conn.client_stream) [
    | none ↦ closed conn
    | some (req_header_buf, c) ↦
        let req_header = bm.pod_read_unaligned message_header req_header_buf in
        if ltb vtf_transport_storage_capacity req_header.payload_len
        then closed (record conn { client_stream = c })
        else (elim (read_exact req_header.payload_len c) [
          | none ↦ closed (record conn { client_stream = c })
          | some (req_payload_buf, c') ↦
              answer_request conn.backend conn.res_payload_buf c' req_header req_payload_buf
        ])
  ]

  -- The loop, for as many iterations as `rounds` says.
  unfoldable pub serve_rounds : ℕ → Connection S → Turn S
  unfolding serve_one
  serve_rounds zero conn = next conn
  serve_rounds (suc rounds) conn = elim (serve_one conn) [
    | closed conn' ↦ closed conn'
    | next conn' ↦ serve_rounds rounds conn'
  ]
