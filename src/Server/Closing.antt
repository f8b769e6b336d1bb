-- ===== src/Server/Closing.antt =====
-- A connection of crates/vt-ferry-worker/src/server.rs comes to its end, and its responses are framed so
-- that the client can tell them apart.
use vt_ferry.Prelude.{
  ℕ, zero, suc, ◌+◌, ◌^◌, ◌≤◌, ◌<◌, ◌≡◌, ◌≢◌, refl, ap, subst, inl, inr, Bool-cases, Option-cases,
  ltb, Option, none, some, List, take, length, length-append, length-take, sum_by, arith,
}
use vt_ferry.Protocol.Wire.{Bytemuck, size_of}
use vt_ferry.Protocol.Header.{MessageHeader, message_header}
use vt_ferry.Server.Stream.{
  ClientStream, read_exact, read_exact-length, write_all, write_all-incoming,
}
use vt_ferry.Server.Backend.{Backend}
use vt_ferry.Server.Connection.{
  Connection, Turn, closed, next, output_len, status_of, write_response, response_header,
  answer_request, serve_one, serve_rounds, vtf_transport_storage_capacity,
}
use vt_ferry.Server.Answers.{response_bytes}

write_response-incoming :
    (head buf : List ℕ) (len : ℕ) (c : ClientStream)
    → (write_response head len buf c).1.incoming ≡ c.incoming
unfolding write_response
write_response-incoming head buf len c =
    ground
      (arith, write_all-incoming head c, write_all-incoming (take len buf) (write_all head c).1)

err_status : (result : Option ℕ) (status : ℕ) → result ≡ none → status_of result status ≢ 0
err_status none status e f = ground arith
err_status (some len) status e f = cc

-- The loop is left, or goes on with less of the stream.
abbrev Shrinks : {S : Type 0} → ℕ → Turn S → Type 0
Shrinks n (closed conn) = Unit
Shrinks n (next conn) = length conn.client_stream.incoming + 24 ≤ n

module _ (bm : Bytemuck) {S : Type 0} (be : Backend S) where
  answer_request-Shrinks :
      (n : ℕ) (b : S) (buf : List ℕ) (c : ClientStream) (h : MessageHeader) (payload : List ℕ)
      → length c.incoming + 24 ≤ n
      → Shrinks n (answer_request bm be b buf c h payload)
  unfolding answer_request
  answer_request-Shrinks n b buf c h payload le =
      let a = be.dispatch b h payload buf in
      let head = bm.bytes_of message_header (response_header h a) in
      let same = write_response-incoming head a.res_payload (output_len a.result) c in
      elim (Bool-cases (write_response head (output_len a.result) a.res_payload c).0) [
        | inl e ↦ rw (e, answer_request) (omega (arith, le, ap (λ (l : List ℕ). length l) same))
        | inr e ↦ rw (e, answer_request) tt
      ]

  serve_one-Shrinks :
      (conn : Connection S) → Shrinks (length conn.client_stream.incoming) (serve_one bm be conn)
  unfolding serve_one sum_by
  serve_one-Shrinks conn =
      elim (Option-cases (read_exact (size_of message_header) conn.client_stream)) [
        | inl e ↦ rw (e, serve_one) tt
        | inr ((head, c), e) ↦
            let header = bm.pod_read_unaligned message_header head in
            let first =
              read_exact-length (size_of message_header) conn.client_stream {bytes = head} {c' = c}
                e in
            elim (Bool-cases (ltb vtf_transport_storage_capacity header.payload_len)) [
              | inl big ↦ rw (e, serve_one) (rw big tt)
              | inr small ↦ elim (Option-cases (read_exact header.payload_len c)) [
                | inl f ↦ rw (e, serve_one) (rw small (rw (f, serve_one) tt))
                | inr ((payload, c'), f) ↦
                    let second =
                      read_exact-length header.payload_len c {bytes = payload} {c' = c'} f in
                    rw (e, serve_one)
                      (rw small (
                        rw (f, serve_one)
                          (answer_request-Shrinks (length conn.client_stream.incoming) conn.backend
                            conn.res_payload_buf c' header payload (omega (arith, first, second)))))
              ]
            ]
      ]

  turn-closes :
      (rounds : ℕ) (conn : Connection S) (t : Turn S)
      → serve_one bm be conn ≡ t
      → ((c : Connection S)
          → t ≡ next c
          → (end : Connection S) × (serve_rounds bm be rounds c ≡ closed end))
      → (end : Connection S) × (serve_rounds bm be (suc rounds) conn ≡ closed end)
  unfolding serve_rounds
  turn-closes rounds conn (closed c) e more = (c, rw (e, serve_rounds) refl)
  turn-closes rounds conn (next c) e more =
      let (end, f) = more c refl in (end, rw (e, serve_rounds) f)

  -- Whatever the client sends, the loop comes to its end within one iteration more than there are bytes in
  -- the stream.
  pub handle_connection-closes :
      (rounds : ℕ) (conn : Connection S)
      → length conn.client_stream.incoming < rounds
      → (end : Connection S) × (serve_rounds bm be rounds conn ≡ closed end)
  handle_connection-closes zero conn lt = let never : ⊥ = omega (arith, lt) in absurd never
  handle_connection-closes (suc rounds) conn lt =
      turn-closes rounds conn (serve_one bm be conn) refl λ c e. handle_connection-closes rounds c (
        omega (
          arith,
          lt,
          subst (Shrinks (length conn.client_stream.incoming)) e (serve_one-Shrinks conn),
        ))

  -- A response is framed: the length in its header is that of the payload behind it, it is for the opcode
  -- and the request of its request, and an Err is never sent with the status of success.
  pub response_header-frames :
      (b : S) (req_header : MessageHeader) (req buf : List ℕ)
      → length buf < 2 ^ 32
      → let a = be.dispatch b req_header req buf in
        let header = response_header req_header a in
        (length (response_bytes bm req_header a) ≡ size_of message_header + header.payload_len)
        × (header.opcode ≡ req_header.opcode)
        × (header.request_id ≡ req_header.request_id)
        × (a.result ≡ none → header.status ≢ 0)
  unfolding response_header
  response_header-frames b req_header req buf lt =
      let a = be.dispatch b req_header req buf in
      let fits : output_len a.result ≤ length a.res_payload = elim (Option-cases a.result) [
        | inl e ↦ rw e (omega arith)
        | inr (n, e) ↦ rw e (
            omega (
              arith,
              be.dispatch-le b req_header req buf n e,
              be.length-dispatch b req_header req buf,
            ))
      ] in
      let sizes =
        length-append (bm.bytes_of message_header (response_header req_header a))
          (take (output_len a.result) a.res_payload) in
      let kept = be.length-dispatch b req_header req buf in
      (
        omega (
          arith,
          sizes,
          kept,
          fits,
          lt,
          length-take (output_len a.result) a.res_payload,
          bm.length-bytes_of message_header (response_header req_header a),
        ),
        refl,
        refl,
        err_status a.result a.res_header.status,
      )
