-- ===== src/Transport/Worker.antt =====
-- The guest of crates/vt-ferry-shim/src/transport.rs connected to the worker of
-- crates/vt-ferry-worker/src/server.rs: what a request comes to at the backend.
use vt_ferry.Prelude.{
  ℕ, ◌+◌, ◌^◌, ◌<◌, Bool, true, false, ◌==◌, ltb, if◌then◌else◌, Option, none, some, List, [], ◌++◌,
  take, drop, length,
}
use vt_ferry.Protocol.Wire.{Bytemuck, size_of}
use vt_ferry.Protocol.Header.{MessageHeader, message_header}
use vt_ferry.Mock.Transfer.{Check, ok, err}
use vt_ferry.Server.Backend.{Answer, Backend}
use vt_ferry.Server.Connection.{
  Connection, Turn, closed, next, output_len, response_header, serve_one,
}
use vt_ferry.Transport.Sending.{Socket}

-- The worker at the other end of the socket, with the responses that the guest has not read.
pub record Worker (S : Type 0) : Type 0 where
  pub turn : Turn S
  pub unread : List ℕ

-- What the guest sends waits for the worker, unless the worker has closed the connection.
unfoldable pub give : {S : Type 0} → List ℕ → Worker S → Bool × Worker S
give bytes w = elim w.turn [
  | closed conn ↦ (false, w)
  | next conn ↦ (
    true,
    record w {
      turn = next (record conn {
        client_stream = record conn.client_stream {
          incoming = conn.client_stream.incoming ++ bytes;
        };
      });
    },
  )
]

-- The guest waits, and takes the response whole.
abbrev pub awaited : {S : Type 0} → Connection S → Connection S
awaited conn = record conn {
  client_stream = record {
    incoming = conn.client_stream.incoming;
    room = size_of message_header + length conn.res_payload_buf;
    sent = [];
  };
}

abbrev pub settled : {S : Type 0} → Turn S → List ℕ → Worker S
settled (closed conn) unread = record {
  turn = closed conn;
  unread = unread ++ conn.client_stream.sent;
}
settled (next conn) unread = record {
  turn = next (record conn {
    client_stream = record { incoming = conn.client_stream.incoming; room = 0; sent = [] };
  });
  unread = unread ++ conn.client_stream.sent;
}

-- A worker that has received something serves one iteration of its loop.
unfoldable pub work : Bytemuck → {S : Type 0} → Backend S → Worker S → Worker S
work bm be w = elim w.turn [
  | closed conn ↦ w
  | next conn ↦
      if length conn.client_stream.incoming == 0
      then w
      else settled (serve_one bm be (awaited conn)) w.unread
]

unfoldable pub take_unread : {S : Type 0} → ℕ → Worker S → Option (List ℕ) × Worker S
take_unread n w =
    if ltb (length w.unread) n
    then (none, w)
    else (some (take n w.unread), record w { unread = drop n w.unread })

unfoldable pub worker_socket : Bytemuck → {S : Type 0} → Backend S → Socket (Worker S)
unfolding give take_unread work
worker_socket bm be = record { write_all = give; read_exact = λ n w. take_unread n (work bm be w) }

-- Between requests.
abbrev pub idle : {S : Type 0} → S → List ℕ → Worker S
idle b buf = record {
  turn = next (record {
    backend = b;
    client_stream = record { incoming = []; room = 0; sent = [] };
    res_payload_buf = buf;
  });
  unread = [];
}

-- A response header that fits its fields.
pub record IsAnswer {S : Type 0} (a : Answer S) : Type 0 where
  pub flags_u32 : a.res_header.flags < 2 ^ 32
  pub status_u32 : a.res_header.status < 2 ^ 32

-- What the guest makes of an answer.
unfoldable pub outcome_of : {S : Type 0} → MessageHeader → Answer S → Check (List ℕ)
outcome_of req_header a =
    let status = (response_header req_header a).status in
    if status == 0 then ok (take (output_len a.result) a.res_payload) else err status
