-- ===== src/Server/Answers.antt =====
-- What a connection of crates/vt-ferry-worker/src/server.rs answers to a row of requests, described
-- without streams and buffers.
use vt_ferry.Prelude.{
  ℕ, zero, suc, ◌-◌, ◌≤◌, ◌≡◌, refl, sym, subst, ap, ◌∙◌, true, false, ltb, List, [], ◌∷◌, ◌++◌,
  take, length, length-append, All, sum_by, arith,
}
use vt_ferry.Protocol.Wire.{Bytemuck, size_of, IsWireValue}
use vt_ferry.Protocol.Header.{MessageHeader, message_header}
use vt_ferry.Server.Stream.{ClientStream, read_exact, read_exact-append, write_all-taken}
use vt_ferry.Server.Backend.{Answer, Backend}
use vt_ferry.Server.Connection.{
  Connection, closed, next, output_len, response_header, write_response, answer_request, serve_one,
  serve_rounds, vtf_transport_storage_capacity,
}

pub record Request : Type 0 where
  pub header : MessageHeader
  pub payload : List ℕ

-- The header can be sent, says how long the payload is, and the payload is within the capacity.
pub record IsRequest (r : Request) : Type 0 where
  pub wire : IsWireValue message_header r.header
  pub counts : r.header.payload_len ≡ length r.payload
  pub small : length r.payload ≤ vtf_transport_storage_capacity

pub append_nil : {A : Type 0} (xs : List A) → xs ++ [] ≡ xs
append_nil [] = refl
append_nil (x ∷ xs) = ap (λ l. x ∷ l) (append_nil xs)

pub append_assoc : {A : Type 0} (xs ys zs : List A) → (xs ++ ys) ++ zs ≡ xs ++ (ys ++ zs)
append_assoc [] ys zs = refl
append_assoc (x ∷ xs) ys zs = ap (λ l. x ∷ l) (append_assoc xs ys zs)

-- Both writes succeed where the client takes the bytes.
write_response-taken :
    (head buf : List ℕ) (len : ℕ) (c : ClientStream)
    → length (head ++ take len buf) ≤ c.room
    → write_response head len buf c ≡ (
      true,
      record c {
        room = c.room - length (head ++ take len buf);
        sent = c.sent ++ (head ++ take len buf);
      },
    )
unfolding write_response
write_response-taken head buf zero c room =
    let fits = subst (λ l. length l ≤ c.room) (append_nil head) room in
    rw (write_all-taken head c fits, append_nil head) refl
write_response-taken head buf (suc n) c room =
    let sizes = length-append head (take (suc n) buf) in
    let c' : ClientStream = record c { room = c.room - length head; sent = c.sent ++ head } in
    let rest : length (take (suc n) buf) ≤ c'.room = omega (arith, sizes, room) in
    let less : c.room - length head - length (take (suc n) buf)
        ≡ c.room - length (head ++ take (suc n) buf) =
      omega (arith, sizes) in
    rw
      (
        write_all-taken head c (omega (arith, sizes, room)),
        write_all-taken (take (suc n) buf) c' rest,
        less,
        append_assoc c.sent head (take (suc n) buf),
      )
      (ground arith)

module _ (bm : Bytemuck) where
  unfoldable pub requests_bytes : List Request → List ℕ
  requests_bytes [] = []
  requests_bytes (r ∷ rs) = bm.bytes_of message_header r.header ++ (r.payload ++ requests_bytes rs)

  -- A response: its header, and of the buffer the bytes that the backend has returned.
  abbrev pub response_bytes : {S : Type 0} → MessageHeader → Answer S → List ℕ
  response_bytes req_header a =
      bm.bytes_of message_header (response_header req_header a)
      ++ take (output_len a.result) a.res_payload

  module _ {S : Type 0} (be : Backend S) where
    -- The responses, the backend and the response buffer after the requests.
    unfoldable pub answers : S → List ℕ → List Request → List ℕ × (S × List ℕ)
    answers b buf [] = ([], (b, buf))
    answers b buf (r ∷ rs) =
        let a = be.dispatch b r.header r.payload buf in
        let rest = answers a.backend a.res_payload rs in
        (response_bytes r.header a ++ rest.0, rest.1)

    -- One request, read, answered and left behind.
    pub serve_one-next :
        (b : S) (buf : List ℕ) (r : Request) (rest : List ℕ) (room : ℕ) (sent : List ℕ)
        → IsRequest r
        → let reply = response_bytes r.header (be.dispatch b r.header r.payload buf) in
          length reply ≤ room
          → serve_one bm be (record {
            backend = b;
            client_stream = record {
              incoming = bm.bytes_of message_header r.header ++ (r.payload ++ rest);
              room = room;
              sent = sent;
            };
            res_payload_buf = buf;
          })
            ≡ next (record {
              backend = (be.dispatch b r.header r.payload buf).backend;
              client_stream = record {
                incoming = rest;
                room = room - length reply;
                sent = sent ++ reply;
              };
              res_payload_buf = (be.dispatch b r.header r.payload buf).res_payload;
            })
    unfolding serve_one answer_request
    serve_one-next b buf r rest room sent ok fits =
        let head = bm.bytes_of message_header r.header in
        let got_header =
          read_exact-append (size_of message_header) head (r.payload ++ rest) room sent
            (bm.length-bytes_of message_header r.header) in
        let got_payload =
          read_exact-append r.header.payload_len r.payload rest room sent (sym ok.counts) in
        let known = bm.pod_read-bytes_of message_header r.header ok.wire in
        let small : ltb vtf_transport_storage_capacity r.header.payload_len ≡ false =
          ground (arith, ok.counts, ok.small) in
        let a = be.dispatch b r.header r.payload buf in
        let c : ClientStream = record { incoming = rest; room = room; sent = sent } in
        let wrote =
          write_response-taken (bm.bytes_of message_header (response_header r.header a))
            a.res_payload (output_len a.result) c fits in
        rw (got_header, serve_one)
          (rw (known, small)
            (rw (got_payload, serve_one) (rw known (rw (wrote, answer_request) refl))))

    serve_one-hung_up :
        (b : S) (buf : List ℕ) (room : ℕ) (sent : List ℕ)
        → let conn : Connection S = record {
          backend = b;
          client_stream = record { incoming = []; room = room; sent = sent };
          res_payload_buf = buf;
        } in
          serve_one bm be conn ≡ closed conn
    unfolding serve_one read_exact sum_by
    serve_one-hung_up b buf room sent = refl

    -- A client that sends well-formed requests, takes the responses and hangs up is sent exactly the
    -- responses, one for each request and in their order, and the backend has seen the requests in that
    -- order.
    pub handle_connection-answers :
        (b : S) (buf : List ℕ) (reqs : List Request) (room : ℕ) (sent : List ℕ)
        → All IsRequest reqs
        → let (bytes, end) = answers b buf reqs in
          length bytes ≤ room
          → serve_rounds bm be (suc (length reqs)) (record {
            backend = b;
            client_stream = record { incoming = requests_bytes reqs; room = room; sent = sent };
            res_payload_buf = buf;
          })
            ≡ closed (record {
              backend = end.0;
              client_stream = record {
                incoming = [];
                room = room - length bytes;
                sent = sent ++ bytes;
              };
              res_payload_buf = end.1;
            })
    unfolding serve_rounds requests_bytes answers
    handle_connection-answers b buf [] room sent oks fits =
        let same : room - 0 ≡ room = omega arith in
        rw (serve_one-hung_up b buf room sent, serve_rounds, append_nil sent) (rw same refl)
    handle_connection-answers b buf (r ∷ rs) room sent oks fits =
        let a = be.dispatch b r.header r.payload buf in
        let reply = response_bytes r.header a in
        let rest = answers a.backend a.res_payload rs in
        let sizes = length-append reply rest.0 in
        let one =
          serve_one-next b buf r (requests_bytes rs) room sent oks.0 (omega (arith, sizes, fits)) in
        let more =
          handle_connection-answers a.backend a.res_payload rs (room - length reply) (sent ++ reply)
            oks.1 (omega (arith, sizes, fits)) in
        let less : room - length reply - length rest.0 ≡ room - length (reply ++ rest.0) =
          omega (arith, sizes) in
        rw (one, serve_rounds) (more ∙ rw (less, append_assoc sent reply rest.0) refl)
