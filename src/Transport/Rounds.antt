-- ===== src/Transport/Rounds.antt =====
-- The round trips of crates/vt-ferry-shim/src/transport.rs with the worker of
-- crates/vt-ferry-worker/src/server.rs at the other end.
use vt_ferry.Prelude.{
  ℕ, ◌+◌, ◌^◌, ◌≤◌, ◌<◌, ◌≡◌, refl, ap, subst, ◌∙◌, inl, inr, Bool-cases, Option-cases, true, false,
  ◌==◌, ltb, Option, none, some, List, [], ◌∷◌, ◌++◌, take, length, length-append, length-take,
  take-append_at, drop-append_at, min, sum_by, ==-ne, arith,
}
use vt_ferry.Protocol.Wire.{Bytemuck, size_of, IsWireValue}
use vt_ferry.Protocol.Header.{MessageHeader, message_header}
use vt_ferry.Server.Backend.{Answer, Backend}
use vt_ferry.Server.Connection.{Turn, next, output_len, status_of, response_header, serve_one}
use vt_ferry.Server.Answers.{IsRequest, response_bytes, serve_one-next, append_nil}
use vt_ferry.Transport.Sending.{
  Socket, Env, send_frame, after_payload, after_header, receive_frame, round_trip,
}
use vt_ferry.Transport.Worker.{
  Worker, give, settled, work, take_unread, worker_socket, idle, IsAnswer,
}

length-zero : (xs : List ℕ) → length xs ≡ 0 → xs ≡ []
length-zero [] h = refl
length-zero (x ∷ xs) h = let never : ⊥ = omega (arith, h) in absurd never

status_of-u32 :
    (result : Option ℕ) (status : ℕ) → status < 2 ^ 32 → status_of result status < 2 ^ 32
status_of-u32 none status h = elim (Bool-cases (status == 0)) [
  | inl e ↦ rw e (omega arith)
  | inr e ↦ rw e h
]
status_of-u32 (some len) status h = h

module _ (bm : Bytemuck) {S : Type 0} (be : Backend S) (env : Env (Worker S)) where
  abbrev pub waiting : S → List ℕ → List ℕ → List ℕ → Worker S
  waiting b buf incoming unread = record {
    turn = next (record {
      backend = b;
      client_stream = record { incoming = incoming; room = 0; sent = [] };
      res_payload_buf = buf;
    });
    unread = unread;
  }

  pub send_frame-idle :
      env.socket ≡ worker_socket bm be
      → (header : MessageHeader) (payload : List ℕ) (b : S) (buf : List ℕ)
      → send_frame bm env header payload (idle b buf)
        ≡ (true, waiting b buf (bm.bytes_of message_header header ++ payload) [])
  unfolding send_frame give worker_socket
  send_frame-idle e header [] b buf = rw (e, append_nil (bm.bytes_of message_header header)) refl
  send_frame-idle e header (x ∷ xs) b buf =
      let more : (length (x ∷ xs) == 0) ≡ false = ground arith in rw (e, more) refl

  pub length-header : (header : MessageHeader) → length (bm.bytes_of message_header header) ≡ 24
  unfolding sum_by
  length-header header = bm.length-bytes_of message_header header

  work-waiting :
      (header : MessageHeader) (payload : List ℕ) (b : S) (buf : List ℕ)
      → IsRequest (record { header = header; payload = payload })
      → let a = be.dispatch b header payload buf in
        work bm be (waiting b buf (bm.bytes_of message_header header ++ payload) [])
        ≡ waiting a.backend a.res_payload [] (response_bytes bm header a)
  unfolding work
  work-waiting header payload b buf q =
      let a = be.dispatch b header payload buf in
      let sizes = length-append (bm.bytes_of message_header header) payload in
      let heads = length-header header in
      let fits =
        length-append (bm.bytes_of message_header (response_header header a))
          (take (output_len a.result) a.res_payload) in
      let heads' = bm.length-bytes_of message_header (response_header header a) in
      let tails = length-take (output_len a.result) a.res_payload in
      let kept = be.length-dispatch b header payload buf in
      let fits : length (response_bytes bm header a) ≤ size_of message_header + length buf =
        omega (arith, fits, heads', tails, kept) in
      let some_bytes : (length (bm.bytes_of message_header header ++ payload) == 0) ≡ false =
        ==-ne (length (bm.bytes_of message_header header ++ payload)) 0
          (λ z. omega (arith, sizes, heads, z)) in
      let served =
        serve_one-next bm be b buf (record { header = header; payload = payload }) []
          (size_of message_header + length buf) [] q fits in
      rw (some_bytes, work)
        (subst
          (λ l.
            settled
              (serve_one bm be (record {
                backend = b;
                client_stream = record {
                  incoming = bm.bytes_of message_header header ++ l;
                  room = size_of message_header + length buf;
                  sent = [];
                };
                res_payload_buf = buf;
              }))
              []
            ≡ waiting a.backend a.res_payload [] (response_bytes bm header a))
          (append_nil payload) (ap (λ t. settled t []) served))

  response_header-wire :
      (header : MessageHeader) (a : Answer S)
      → IsWireValue message_header header
      → IsAnswer a
      → IsWireValue message_header (response_header header a)
  unfolding response_header
  response_header-wire header a w v =
      let (_, (_, (opcode, (_, (request_id, _))))) = w in
      (
        refl,
        (
          omega arith,
          (
            opcode,
            (
              v.flags_u32,
              (
                request_id,
                (omega arith, (status_of-u32 a.result a.res_header.status v.status_u32, tt)),
              ),
            ),
          ),
        ),
      )

  take_unread-append :
      (n : ℕ) (xs ys : List ℕ) (turn : Turn S)
      → length xs ≡ n
      → take_unread n (record { turn = turn; unread = xs ++ ys })
        ≡ (some xs, record { turn = turn; unread = ys })
  unfolding take_unread
  take_unread-append n xs ys turn h =
      let long : ltb (length (xs ++ ys)) n ≡ false = ground (arith, length-append xs ys, h) in
      rw (long, take_unread) (rw (take-append_at n xs ys h, drop-append_at n xs ys h) refl)

  -- Nothing to serve, so nothing happens.
  work-rest :
      (b : S) (buf unread : List ℕ) → work bm be (waiting b buf [] unread) ≡ waiting b buf [] unread
  unfolding work
  work-rest b buf unread = refl

  -- What the backend says it has written is there.
  length-output :
      (b : S) (header : MessageHeader) (payload buf : List ℕ)
      → let a = be.dispatch b header payload buf in
        length (take (output_len a.result) a.res_payload) ≡ output_len a.result
  length-output b header payload buf =
      let a = be.dispatch b header payload buf in
      let kept = be.length-dispatch b header payload buf in
      let tails = length-take (output_len a.result) a.res_payload in
      elim (Option-cases a.result) [
        | inl e ↦ rw e refl
        | inr (n, e) ↦
            let le = be.dispatch-le b header payload buf n e in
            let tails' : length (take n a.res_payload) ≡ min n (length a.res_payload) =
              length-take n a.res_payload in
            rw e (omega (arith, le, kept, tails'))
      ]

  output_len-le :
      (b : S) (header : MessageHeader) (payload buf : List ℕ)
      → output_len (be.dispatch b header payload buf).result ≤ length buf
  output_len-le b header payload buf =
      let a = be.dispatch b header payload buf in
      elim (Option-cases a.result) [
        | inl e ↦ rw e (omega arith)
        | inr (n, e) ↦ rw e (be.dispatch-le b header payload buf n e)
      ]

  response_header-len :
      (b : S) (header : MessageHeader) (payload buf : List ℕ)
      → length buf < 2 ^ 32
      → let a = be.dispatch b header payload buf in
        (response_header header a).payload_len ≡ length (take (output_len a.result) a.res_payload)
  unfolding response_header
  response_header-len b header payload buf small =
      let written = length-output b header payload buf in
      let le = output_len-le b header payload buf in omega (arith, written, le, small)

  read_exact-header :
      env.socket ≡ worker_socket bm be
      → (header : MessageHeader) (payload : List ℕ) (b : S) (buf : List ℕ)
      → IsRequest (record { header = header; payload = payload })
      → let a = be.dispatch b header payload buf in
        env.socket.read_exact 24 (waiting b buf (bm.bytes_of message_header header ++ payload) [])
        ≡ (
          some (bm.bytes_of message_header (response_header header a)),
          waiting a.backend a.res_payload [] (take (output_len a.result) a.res_payload),
        )
  unfolding worker_socket
  read_exact-header e header payload b buf q =
      let a = be.dispatch b header payload buf in
      let served = work-waiting header payload b buf q in
      ap
        (λ (k : Socket (Worker S)).
          k.read_exact 24 (waiting b buf (bm.bytes_of message_header header ++ payload) []))
        e
      ∙ ap (take_unread 24) served
      ∙ take_unread-append 24 (bm.bytes_of message_header (response_header header a))
          (take (output_len a.result) a.res_payload) (waiting a.backend a.res_payload [] []).turn
          (length-header (response_header header a))

  read_exact-rest :
      env.socket ≡ worker_socket bm be
      → (b : S) (buf out : List ℕ)
      → env.socket.read_exact (length out) (waiting b buf [] out) ≡ (some out, idle b buf)
  unfolding worker_socket
  read_exact-rest e b buf out =
      let got = take_unread-append (length out) out [] (waiting b buf [] []).turn refl in
      ap (λ (k : Socket (Worker S)). k.read_exact (length out) (waiting b buf [] out)) e
      ∙ ap (take_unread (length out)) (work-rest b buf out)
      ∙ subst (λ l. take_unread (length out) (waiting b buf [] l) ≡ (some out, idle b buf))
          (append_nil out) got

  -- What the guest reads where the header announces `out`, which follows it.
  receive_frame-read :
      (w w' w'' : Worker S) (head out : List ℕ)
      → env.socket.read_exact (size_of message_header) w ≡ (some head, w')
      → (bm.pod_read_unaligned message_header head).payload_len ≡ length out
      → env.socket.read_exact (length out) w' ≡ (some out, w'')
      → (length out ≡ 0 → w' ≡ w'')
      → receive_frame bm env w ≡ (some (bm.pod_read_unaligned message_header head, out), w'')
  unfolding receive_frame after_header after_payload
  receive_frame-read w w' w'' head out first sized second none_left =
      let response = bm.pod_read_unaligned message_header head in
      rw (first, receive_frame)
        (elim (Bool-cases (response.payload_len == 0)) [
          | inl z ↦
              let zero_long : length out ≡ 0 = ground (arith, z, sized) in
              rw (z, none_left zero_long, length-zero out zero_long) refl
          | inr z ↦ rw z (
              ap (after_payload bm env response)
                (ap (λ n. env.socket.read_exact n w') sized ∙ second))
        ])

  receive_frame-waiting :
      env.socket ≡ worker_socket bm be
      → (header : MessageHeader) (payload : List ℕ) (b : S) (buf : List ℕ)
      → IsRequest (record { header = header; payload = payload })
      → IsAnswer (be.dispatch b header payload buf)
      → length buf < 2 ^ 32
      → let a = be.dispatch b header payload buf in
        receive_frame bm env (waiting b buf (bm.bytes_of message_header header ++ payload) []) ≡ (
          some (response_header header a, take (output_len a.result) a.res_payload),
          idle a.backend a.res_payload,
        )
  unfolding sum_by
  receive_frame-waiting e header payload b buf q v small =
      let a = be.dispatch b header payload buf in
      let out = take (output_len a.result) a.res_payload in
      let known =
        bm.pod_read-bytes_of message_header (response_header header a)
          (response_header-wire header a q.wire v) in
      let sized = response_header-len b header payload buf small in
      let read =
        receive_frame-read (waiting b buf (bm.bytes_of message_header header ++ payload) [])
          (waiting a.backend a.res_payload [] out) (idle a.backend a.res_payload)
          (bm.bytes_of message_header (response_header header a)) out
          (read_exact-header e header payload b buf q)
          (ap (λ (h : MessageHeader). h.payload_len) known ∙ sized)
          (read_exact-rest e a.backend a.res_payload out)
          (λ z. ap (waiting a.backend a.res_payload []) (length-zero out z)) in
      read ∙ ap (λ h. (some (h, out), idle a.backend a.res_payload)) known

  -- A round trip between idle moments is one dispatch.
  pub round_trip-idle :
      env.socket ≡ worker_socket bm be
      → (header : MessageHeader) (payload : List ℕ) (b : S) (buf : List ℕ)
      → IsRequest (record { header = header; payload = payload })
      → IsAnswer (be.dispatch b header payload buf)
      → length buf < 2 ^ 32
      → let a = be.dispatch b header payload buf in
        round_trip bm env header payload (idle b buf) ≡ (
          some (response_header header a, take (output_len a.result) a.res_payload),
          idle a.backend a.res_payload,
        )
  unfolding round_trip
  round_trip-idle e header payload b buf q v small =
      rw (send_frame-idle e header payload b buf, round_trip)
        (receive_frame-waiting e header payload b buf q v small)
