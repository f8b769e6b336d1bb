-- ===== src/Examples/Served.antt =====
-- The theorems on connections at two requests of a client.
use vt_ferry.Prelude.{
  ℕ, ◌+◌, ◌≡◌, ◌≢◌, ◌≤◌, ◌-◌, refl, List, [], ◌∷◌, ◌++◌, replicate, none, some, length, All, arith,
}
use vt_ferry.Protocol.Wire.{size_of}
use vt_ferry.Protocol.Header.{MessageHeader, message_header}
use vt_ferry.Protocol.LittleEndian.{little_endian}
use vt_ferry.Mock.State.{MockBackend, new, reset_from_env}
use vt_ferry.Mock.Dispatch.{dispatch}
use vt_ferry.Mock.Fits.{dispatch-Fits}
use vt_ferry.Mock.Runs.{dispatch_all, connection-Inv}
use vt_ferry.Mock.Invariant.Defs.{Inv}
use vt_ferry.Server.Backend.{Backend}
use vt_ferry.Server.Connection.{Connection, closed, serve_rounds, response_header}
use vt_ferry.Server.Answers.{
  Request, IsRequest, requests_bytes, response_bytes, answers, handle_connection-answers,
}
use vt_ferry.Server.Closing.{handle_connection-closes, response_header-frames}
use vt_ferry.Server.InMemory.{mock_backend, handle_connection-InMemory}
use vt_ferry.Examples.Backend.{small_backend}

-- PING, then DEQUEUE_OUTPUT of session 1000.
abbrev ping_request : Request
ping_request = record {
  header = record {
    version = 1;
    opcode = 0x02;
    flags = 0;
    request_id = 41;
    payload_len = 0;
    status = 0;
  };
  payload = [];
}

abbrev dequeue_request : Request
dequeue_request = record {
  header = record {
    version = 1;
    opcode = 0x50;
    flags = 0;
    request_id = 42;
    payload_len = 8;
    status = 0;
  };
  payload = 232 ∷ 3 ∷ 0 ∷ 0 ∷ 0 ∷ 0 ∷ 0 ∷ 0 ∷ [];
}

abbrev requests : List Request
requests = ping_request ∷ dequeue_request ∷ []

requests-IsRequest : All IsRequest requests
requests-IsRequest = (
  record { wire = (refl, omega arith); counts = refl; small = omega arith },
  (record { wire = (refl, omega arith); counts = refl; small = omega arith }, tt),
)

abbrev response_buffer : List ℕ
response_buffer = replicate 400 0

abbrev in_memory : Backend MockBackend
in_memory = mock_backend little_endian

abbrev sent_bytes : List ℕ
sent_bytes = (answers little_endian in_memory small_backend response_buffer requests).0

abbrev pairs : List (MessageHeader × List ℕ)
pairs = (ping_request.header, []) ∷ (dequeue_request.header, dequeue_request.payload) ∷ []

handle_connection-answers_example :
    serve_rounds little_endian in_memory 3 (record {
      backend = small_backend;
      client_stream = record {
        incoming = requests_bytes little_endian requests;
        room = length sent_bytes;
        sent = [];
      };
      res_payload_buf = response_buffer;
    })
    ≡ closed (record {
      backend = (answers little_endian in_memory small_backend response_buffer requests).1.0;
      client_stream = record {
        incoming = [];
        room = length sent_bytes - length sent_bytes;
        sent = sent_bytes;
      };
      res_payload_buf =
          (answers little_endian in_memory small_backend response_buffer requests).1.1;
    })
handle_connection-answers_example =
    handle_connection-answers little_endian in_memory small_backend response_buffer requests
      (length sent_bytes) [] requests-IsRequest (omega arith)

-- A client that hangs up in the middle of its second request.
abbrev cut_off : Connection MockBackend
cut_off = record {
  backend = small_backend;
  client_stream = record {
    incoming = little_endian.bytes_of message_header ping_request.header ++ 1 ∷ 0 ∷ [];
    room = 100;
    sent = [];
  };
  res_payload_buf = response_buffer;
}

handle_connection-closes_example :
    (end : Connection MockBackend) × (serve_rounds little_endian in_memory 27 cut_off ≡ closed end)
unfolding little_endian
handle_connection-closes_example =
    handle_connection-closes little_endian in_memory 27 cut_off (omega arith)

response_header-frames_example :
    let a =
      in_memory.dispatch small_backend dequeue_request.header dequeue_request.payload
        response_buffer in
    let header = response_header dequeue_request.header a in
    (length (response_bytes little_endian dequeue_request.header a)
      ≡ size_of message_header + header.payload_len)
    × (header.opcode ≡ 0x50)
    × (header.request_id ≡ 42)
    × (a.result ≡ none → header.status ≢ 0)
response_header-frames_example =
    response_header-frames little_endian in_memory small_backend dequeue_request.header
      dequeue_request.payload response_buffer (omega arith)

dispatch-Fits_example :
    (length
        (dispatch little_endian small_backend dequeue_request.header dequeue_request.payload
          response_buffer).res_payload
      ≡ length response_buffer)
    × ((len : ℕ)
        → (dispatch little_endian small_backend dequeue_request.header dequeue_request.payload
            response_buffer).result
          ≡ some len
        → len ≤ length response_buffer)
dispatch-Fits_example =
    dispatch-Fits little_endian small_backend dequeue_request.header dequeue_request.payload
      response_buffer

connection-Inv_example :
    Inv (
      dispatch_all little_endian (reset_from_env (some 7) none small_backend) response_buffer pairs)
connection-Inv_example =
    connection-Inv little_endian (some 7) none small_backend response_buffer pairs tt (omega arith)

handle_connection-InMemory_example :
    let start = reset_from_env (some 7) none new in
    let sent = (answers little_endian in_memory start response_buffer requests).0 in
    (end : Connection MockBackend) × (serve_rounds little_endian in_memory 3 (record {
      backend = start;
      client_stream = record {
        incoming = requests_bytes little_endian requests;
        room = length sent;
        sent = [];
      };
      res_payload_buf = response_buffer;
    })
      ≡ closed end)
    × (end.client_stream.sent ≡ sent)
    × Inv end.backend
handle_connection-InMemory_example =
    handle_connection-InMemory little_endian (some 7) none new response_buffer requests
      (length
        (answers little_endian in_memory (reset_from_env (some 7) none new) response_buffer
          requests).0)
      tt (omega arith) requests-IsRequest (omega arith)
