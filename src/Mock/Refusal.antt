-- ===== src/Mock/Refusal.antt =====
-- A request that is answered with Err has changed nothing, where the response buffer is large enough for
-- the replies.
use vt_ferry.Prelude.{
  ℕ, ◌+◌, ◌*◌, subst, find_first, ◌≤◌, ◌≡◌, refl, inl, inr, Option-cases, none, some, List, [], ◌∷◌,
  arith, length, find_first-holds, All-find_first, replicate,
}
use vt_ferry.Protocol.Codes.{
  Opcode, hello, ping, get_caps, create_session, set_property, prepare_session, create_buffer_pool,
  alloc_buffer, read_buffer, write_buffer, recycle_buffer, encode_frame, dequeue_output,
  dequeue_output_batch, read_output, release_output, drain, destroy_session,
}
use vt_ferry.Protocol.Wire.{Layout, Bytemuck, size_of}
use vt_ferry.Protocol.Header.{MessageHeader}
use vt_ferry.Protocol.Sessions.{create_session_reply}
use vt_ferry.Protocol.Buffers.{create_buffer_pool_reply, alloc_buffer_reply}
use vt_ferry.Protocol.Outputs.{dequeue_output_reply, dequeue_output_batch_reply, DequeueOutputReply}
use vt_ferry.Mock.State.{MockBackend, MockPool, MockBuffer}
use vt_ferry.Mock.Transfer.{Outcome, Check, write_pod, settle, respond, done, ok, err}
use vt_ferry.Mock.Handles.{
  recyclable_in, find_recyclable_buffer, find_pool, write_slot, pool_is, put_bytes,
}
use vt_ferry.Mock.Ensures.{
  Ensures, Ensures-ok, Ensures-err, Ensures-refuse_if, Ensures-or_refuse, Ensures->>=, Ensures-any,
}
use vt_ferry.Mock.SessionOps.{
  on_hello, on_get_caps, on_create_session, on_prepare_session, on_destroy_session,
}
use vt_ferry.Mock.PoolOps.{
  on_create_buffer_pool, on_alloc_buffer, alloc_fresh_buffer, realloc_buffer, on_recycle_buffer,
  recycle_buffer as recycle,
}
use vt_ferry.Mock.BufferOps.{on_write_buffer}
use vt_ferry.Mock.EncodeOps.{on_encode_frame}
use vt_ferry.Mock.OutputOps.{
  on_dequeue_output, on_dequeue_output_batch, on_release_output, answer_batch,
}
use vt_ferry.Mock.Dispatch.{serve, dispatch}
use vt_ferry.Mock.Slots.{write_slot-some}
use vt_ferry.Mock.Invariant.Defs.{Inv, HasSlot, IsPool}
use vt_ferry.Mock.Invariant.Serve.{
  dispatch_cases, set_property-reads, drain-reads, read_buffer-reads, read_output-reads,
}

-- The replies that follow a change of state fit.
pub record HasRoom (n : ℕ) : Type 0 where
  pub session : size_of create_session_reply ≤ n
  pub pool : size_of create_buffer_pool_reply ≤ n
  pub buffer : size_of alloc_buffer_reply ≤ n
  pub output : size_of dequeue_output_reply ≤ n
  pub batch : size_of dequeue_output_batch_reply ≤ n

-- Err means that the backend is as it was.
abbrev pub RefusesClean : MockBackend → Outcome → Type 0
RefusesClean b o = o.result ≡ none → o.backend ≡ b

write_pod-fits :
    (bm : Bytemuck) {A : Type 0} (l : Layout A) (res : List ℕ) (a : A)
    → size_of l ≤ length res
    → (write_pod bm l res a).1 ≡ some (size_of l)
unfolding write_pod
write_pod-fits bm l res a h = ground arith

recyclable_slot :
    (b : MockBackend) (k : ℕ) (p : MockPool) (x : MockBuffer)
    → Inv b
    → find_pool b k ≡ some p
    → find_recyclable_buffer b k ≡ some x
    → write_slot p x.slot_index 0 (replicate p.slot_region_size 0)
      ≡ some (record p {
        backing =
            put_bytes
              (x.slot_index * p.slot_region_size + 0)
              (replicate p.slot_region_size 0)
              p.backing;
      })
unfolding find_pool find_recyclable_buffer
recyclable_slot b k p x v found_p found_x =
    let (q, found_q, fits, size, pos) =
      All-find_first (HasSlot b.pools) (recyclable_in k) b.buffers {x = x} v.buffers_ok.each
        found_x in
    let in_pool = find_first-holds (recyclable_in k) b.buffers {x = x} found_x in
    let same : x.pool_id ≡ k = ground arith in
    let found_q' = subst (λ i. find_first (pool_is i) b.pools ≡ some q) same found_q in
    write_slot-some p x.slot_index 0 _
      (All-find_first IsPool (pool_is k) b.pools v.pools_ok.each found_p) (ground arith)
      (ground arith)

reads :
    {b : MockBackend} {c : Check Outcome}
    → Ensures (λ (o : Outcome). o.backend ≡ b) c
    → Ensures (RefusesClean b) c
reads h = record { holds = λ o e _. h.holds o e }

module _ (bm : Bytemuck) (b : MockBackend) (req res : List ℕ) where
  -- An answer that was written is no Err.
  written :
      {A : Type 0} (l : Layout A) (a : A) (b' : MockBackend)
      → size_of l ≤ length res
      → RefusesClean b (respond b' (write_pod bm l res a))
  written l a b' h e = cc (write_pod-fits bm l res a h)

  create_session-clean :
      HasRoom (length res) → Ensures (RefusesClean b) (on_create_session bm b req res)
  unfolding on_create_session
  create_session-clean room =
      Ensures-refuse_if _ _ _
        λ _. Ensures-or_refuse _ _ _ λ payload _. Ensures-ok _ (written _ _ _ room.session)

  create_buffer_pool-clean :
      HasRoom (length res) → Ensures (RefusesClean b) (on_create_buffer_pool bm b req res)
  unfolding on_create_buffer_pool
  create_buffer_pool-clean room = Ensures-refuse_if _ _ _ λ _. Ensures-or_refuse _ _ _ λ payload _.
      Ensures-refuse_if _ _ _
        λ _. Ensures-refuse_if _ _ _ λ _. Ensures-ok _ (written _ _ _ room.pool)

  -- An arm that answers Ok(0) after its changes.
  no_err : {b' : MockBackend} → RefusesClean b (done b' res)
  no_err e = cc

  prepare_session-clean : Ensures (RefusesClean b) (on_prepare_session bm b req res)
  unfolding on_prepare_session
  prepare_session-clean =
      Ensures-or_refuse _ _ _ λ payload _. Ensures-or_refuse _ _ _ λ s _. Ensures-ok _ no_err

  destroy_session-clean : Ensures (RefusesClean b) (on_destroy_session bm b req res)
  unfolding on_destroy_session
  destroy_session-clean =
      Ensures-or_refuse _ _ _ λ payload _. Ensures-or_refuse _ _ _ λ s _. Ensures-ok _ no_err

  recycle_buffer-clean : Ensures (RefusesClean b) (on_recycle_buffer bm b req res)
  unfolding on_recycle_buffer
  recycle_buffer-clean =
      Ensures-or_refuse _ _ _
        λ payload _. Ensures->>= _ _ (Ensures-any (recycle b payload)) λ b' _. Ensures-ok _ no_err

  write_buffer-clean : Ensures (RefusesClean b) (on_write_buffer bm b req res)
  unfolding on_write_buffer
  write_buffer-clean = Ensures-refuse_if _ _ _ λ _. Ensures-or_refuse _ _ _ λ x _.
      Ensures-refuse_if _ _ _ λ _. Ensures-refuse_if _ _ _ λ _.
        Ensures-refuse_if _ _ _
          λ _. Ensures-or_refuse _ _ _ λ p _. Ensures-or_refuse _ _ _ λ q _. Ensures-ok _ no_err

  encode_frame-clean : Ensures (RefusesClean b) (on_encode_frame bm b req res)
  unfolding on_encode_frame
  encode_frame-clean = Ensures-or_refuse _ _ _ λ payload _. Ensures-or_refuse _ _ _ λ s _.
      Ensures-refuse_if _ _ _ λ _. Ensures-refuse_if _ _ _ λ _. Ensures-or_refuse _ _ _ λ x _.
        Ensures-refuse_if _ _ _ λ _. Ensures-refuse_if _ _ _ λ _. Ensures-or_refuse _ _ _ λ p _.
          Ensures-or_refuse _ _ _
            λ bytes _. Ensures-refuse_if _ _ _ λ _. Ensures-refuse_if _ _ _ λ _. Ensures-ok _ no_err

  dequeue_output-clean :
      HasRoom (length res) → Ensures (RefusesClean b) (on_dequeue_output bm b req res)
  unfolding on_dequeue_output
  dequeue_output-clean room =
      Ensures-or_refuse _ _ _
        λ payload _. Ensures-or_refuse _ _ _ λ got _. Ensures-ok _ (written _ _ _ room.output)

  answer_batch-clean :
      HasRoom (length res)
      → (sid : ℕ) (batch : List DequeueOutputReply × MockBackend)
      → Ensures (RefusesClean b) (answer_batch bm b res sid batch)
  unfolding answer_batch
  answer_batch-clean room sid ([], b') = Ensures-err _
  answer_batch-clean room sid (r ∷ rs, b') = Ensures-ok _ (written _ _ _ room.batch)

  dequeue_output_batch-clean :
      HasRoom (length res) → Ensures (RefusesClean b) (on_dequeue_output_batch bm b req res)
  unfolding on_dequeue_output_batch
  dequeue_output_batch-clean room =
      Ensures-or_refuse _ _ _ λ payload _. answer_batch-clean room payload.session_id _

  release_output-clean : Ensures (RefusesClean b) (on_release_output bm b req res)
  unfolding on_release_output
  release_output-clean =
      Ensures-or_refuse _ _ _ λ payload _. Ensures-or_refuse _ _ _ λ b' _. Ensures-ok _ no_err

  -- A recycled buffer lies in a slot of its pool, so that its slot is found.
  realloc_buffer-clean :
      HasRoom (length res)
      → Inv b
      → (k : ℕ) (p : MockPool) (x : MockBuffer) → find_pool b k ≡ some p
      → find_recyclable_buffer b k ≡ some x
      → RefusesClean b (realloc_buffer bm b p x res)
  unfolding realloc_buffer
  realloc_buffer-clean room v k p x found_p found_x =
      rw (recyclable_slot b k p x v found_p found_x, realloc_buffer) (written _ _ _ room.buffer)

  alloc_fresh-clean :
      HasRoom (length res)
      → (p : MockPool) → Ensures (RefusesClean b) (alloc_fresh_buffer bm b p res)
  unfolding alloc_fresh_buffer
  alloc_fresh-clean room p =
      Ensures-refuse_if _ _ _
        λ _. Ensures-or_refuse _ _ _ λ q _. Ensures-ok _ (written _ _ _ room.buffer)

  alloc_buffer-clean :
      HasRoom (length res) → Inv b → Ensures (RefusesClean b) (on_alloc_buffer bm b req res)
  unfolding on_alloc_buffer
  alloc_buffer-clean room v = Ensures-or_refuse _ _ _ λ payload _.
      Ensures-or_refuse _ _ _ λ p found.
        elim (Option-cases (find_recyclable_buffer b payload.pool_id)) [
          | inl e ↦ rw e (alloc_fresh-clean room p)
          | inr (x, e) ↦
              rw e (Ensures-ok _ (realloc_buffer-clean room v payload.pool_id p x found e))
        ]

settle-clean :
    (b : MockBackend) (res : List ℕ) (c : Check Outcome)
    → Ensures (RefusesClean b) c
    → RefusesClean b (settle b res c)
settle-clean b res (ok o) h = h.holds o refl
settle-clean b res (err s) h = λ _. refl

module _ (bm : Bytemuck) (b : MockBackend) (res : List ℕ) (v : Inv b)
    (room : HasRoom (length res)) where
  serve-clean : (op : Opcode) (req : List ℕ) → RefusesClean b (serve bm b op req res)
  unfolding serve on_hello on_get_caps
  serve-clean hello req = λ _. refl
  serve-clean ping req = λ _. refl
  serve-clean get_caps req = λ _. refl
  serve-clean create_session req = settle-clean b res _ (create_session-clean bm b req res room)
  serve-clean set_property req =
      settle-clean b res _ (reads (set_property-reads bm b req res (λ c. c ≡ b) refl))
  serve-clean prepare_session req = settle-clean b res _ (prepare_session-clean bm b req res)
  serve-clean create_buffer_pool req =
      settle-clean b res _ (create_buffer_pool-clean bm b req res room)
  serve-clean alloc_buffer req = settle-clean b res _ (alloc_buffer-clean bm b req res room v)
  serve-clean read_buffer req =
      settle-clean b res _ (reads (read_buffer-reads bm b req res (λ c. c ≡ b) refl))
  serve-clean write_buffer req = settle-clean b res _ (write_buffer-clean bm b req res)
  serve-clean recycle_buffer req = settle-clean b res _ (recycle_buffer-clean bm b req res)
  serve-clean encode_frame req = settle-clean b res _ (encode_frame-clean bm b req res)
  serve-clean dequeue_output req = settle-clean b res _ (dequeue_output-clean bm b req res room)
  serve-clean dequeue_output_batch req =
      settle-clean b res _ (dequeue_output_batch-clean bm b req res room)
  serve-clean read_output req =
      settle-clean b res _ (reads (read_output-reads bm b req res (λ c. c ≡ b) refl))
  serve-clean release_output req = settle-clean b res _ (release_output-clean bm b req res)
  serve-clean drain req = settle-clean b res _ (reads (drain-reads bm b req res (λ c. c ≡ b) refl))
  serve-clean destroy_session req = settle-clean b res _ (destroy_session-clean bm b req res)

-- Where the replies fit into the response buffer, a request that a well-formed backend answers with Err
-- leaves the backend as it was.
pub dispatch-refuses_clean :
    (bm : Bytemuck) (b : MockBackend) (req_header : MessageHeader) (req res : List ℕ)
    → Inv b
    → HasRoom (length res)
    → (dispatch bm b req_header req res).result ≡ none
    → (dispatch bm b req_header req res).backend ≡ b
dispatch-refuses_clean bm b req_header req res v room =
    dispatch_cases bm (RefusesClean b) b req_header req res (λ s _ _. refl)
      (λ op _. serve-clean bm b res v room op req)
