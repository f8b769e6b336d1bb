-- ===== src/Mock/Invariant/Outputs.antt =====
-- Encoding, dequeuing and releasing keep the invariant.
use vt_ferry.Prelude.{
  ℕ, zero, suc, ◌+◌, ◌-◌, ◌^◌, ◌≤◌, ◌<◌, ◌≡◌, refl, inl, inr, Option-cases, some, leb, ltb, ◌||◌,
  false, List, [], ◌∷◌, ◌++◌, arith, length, length-append, find_first, modify_first, remove_first,
  sum_by-append, sum_by-modify_first, sum_by-remove_first, length-modify_first,
  length-remove_first-le, All-append, All-modify_first, All-remove_first, Rising-append,
  Rising-modify_first, Rising-remove_first,
}
use vt_ferry.Protocol.Wire.{Bytemuck}
use vt_ferry.Protocol.Outputs.{EncodeFramePayload, DequeueOutputReply}
use vt_ferry.Mock.State.{MockBackend, MockSession, MockBuffer, MockOutput}
use vt_ferry.Mock.PixelLayout.{to_u32}
use vt_ferry.Mock.Handles.{to_u64, buffer_is, output_is, pending_for}
use vt_ferry.Mock.Samples.{length-nal_bytes, length-sample_bytes}
use vt_ferry.Mock.Ensures.{Ensures, Ensures-ok, Ensures-err, Ensures-refuse_if, Ensures-or_refuse}
use vt_ferry.Mock.EncodeOps.{on_encode_frame, queue_output, queued_output, no_room_for}
use vt_ferry.Mock.OutputOps.{
  on_dequeue_output, on_dequeue_output_batch, on_release_output, answer_batch, dequeue_output,
  dequeue_up_to, release_output, mark_dequeued, give_back, batch_limit,
}
use vt_ferry.Mock.Invariant.Defs.{Inv, HasHandles, HasSample, OutputsOk, output_key, sample_size}
use vt_ferry.Mock.Invariant.Setters.{SessionsOk-modify, BuffersOk-modify, SamePlace}
use vt_ferry.Mock.Invariant.Buffers.{same_place}
use vt_ferry.Mock.Invariant.Sessions.{KeepsInv, to_u64-suc}

-- The sum of the bytes stays exact, and within the limit, where there is room for the sample.
new_total :
    (total bytes size : ℕ)
    → (ltb bytes size || ltb (bytes - size) total) ≡ false
    → bytes < 2 ^ 64
    → (to_u64 (total + size) ≡ total + size) × (total + size ≤ bytes)
new_total total bytes size h k = ground arith

OutputsOk-append :
    {next count bytes total : ℕ} (os : List MockOutput) (o : MockOutput)
    → OutputsOk next count bytes total os
    → o.reply.output_id ≡ next
    → length os < count
    → HasSample o
    → total + o.reply.sample_size ≤ bytes
    → OutputsOk (next + 1) count bytes (total + o.reply.sample_size) (os ++ o ∷ [])
OutputsOk-append {next} os o v e room k fits = record {
  rise = Rising-append output_key 1 os o (next + 1) (rw e v.rise) (omega arith);
  room = omega (arith, length-append os (o ∷ []));
  each = All-append HasSample os o v.each k;
  total_exact = omega (arith, v.total_exact, sum_by-append sample_size os o);
  total_room = fits;
  bytes_usize = v.bytes_usize;
}

queued_output-HasSample :
    (b : MockBackend) (payload : EncodeFramePayload) (s : MockSession) (x : MockBuffer)
    (payload_bytes : List ℕ)
    → length payload_bytes ≡ 24
    → HasSample (queued_output b payload s x payload_bytes)
unfolding queued_output
queued_output-HasSample b payload s x payload_bytes len =
    omega (arith, length-sample_bytes payload_bytes)

queue_output-Inv :
    (b : MockBackend) (payload : EncodeFramePayload) (s : MockSession) (x : MockBuffer)
    (payload_bytes : List ℕ)
    → Inv b
    → HasHandles b
    → length payload_bytes ≡ 24
    → leb b.max_output_count (length b.outputs) ≡ false
    → no_room_for b (to_u32 (4 + length payload_bytes)) ≡ false
    → Inv (queue_output b payload s x payload_bytes)
unfolding queue_output
queue_output-Inv b payload s x payload_bytes v h len room fits =
    let (exact, within) =
      new_total b.output_bytes_total b.max_output_bytes _ fits v.outputs_ok.bytes_usize in
    rw (to_u64-suc b.next_output_id h.output, exact)
      (record {
        sessions_ok = SessionsOk-modify _ _ b.sessions (λ t. refl) v.sessions_ok;
        pools_ok = v.pools_ok;
        buffers_ok = BuffersOk-modify _ _ b.buffers (λ y. same_place) v.buffers_ok;
        outputs_ok =
            OutputsOk-append b.outputs (queued_output b payload s x payload_bytes) v.outputs_ok refl
              (ground arith) (queued_output-HasSample b payload s x payload_bytes len) within;
      })

-- A dequeue finds the first pending output and marks it.
pub dequeue_output_lem :
    (sid : ℕ) (b : MockBackend) {r : DequeueOutputReply} {b' : MockBackend}
    → dequeue_output sid b ≡ some (r, b')
    → (o : MockOutput) × (find_first (pending_for sid) b.outputs ≡ some o)
      × (r ≡ o.reply)
      × (b' ≡ record b { outputs = modify_first (pending_for sid) mark_dequeued b.outputs })
unfolding dequeue_output
dequeue_output_lem sid b e = ground arith

dequeue_output-Inv :
    (sid : ℕ) (b : MockBackend) {r : DequeueOutputReply} {b' : MockBackend}
    → Inv b
    → dequeue_output sid b ≡ some (r, b')
    → Inv b'
dequeue_output-Inv sid b {r} {b'} v e =
    let (o, found, reply, after) = dequeue_output_lem sid b {r = r} {b' = b'} e in
    let os = v.outputs_ok in
    rw after (record {
      sessions_ok = v.sessions_ok;
      pools_ok = v.pools_ok;
      buffers_ok = v.buffers_ok;
      outputs_ok = record {
        rise =
            Rising-modify_first output_key _ _ 1 b.outputs b.next_output_id (λ x _. refl) os.rise;
        room =
            omega (arith, os.room, length-modify_first (pending_for sid) mark_dequeued b.outputs);
        each = All-modify_first HasSample _ _ b.outputs (λ x h. h) os.each;
        total_exact = omega (
          arith,
          os.total_exact,
          sum_by-modify_first sample_size (pending_for sid) mark_dequeued b.outputs (λ x. refl),
        );
        total_room = os.total_room;
        bytes_usize = os.bytes_usize;
      };
    })

-- A release finds the output, frees its source buffer and settles the account.
pub release_output_lem :
    (output_id : ℕ) (b : MockBackend) {b' : MockBackend}
    → release_output output_id b ≡ some b'
    → (o : MockOutput) × (find_first (output_is output_id) b.outputs ≡ some o)
      × (b' ≡ record b {
        buffers =
            modify_first
              (buffer_is o.source_buffer_id)
              (give_back o.source_buffer_generation)
              b.buffers;
        outputs = remove_first (output_is output_id) b.outputs;
        output_bytes_total = b.output_bytes_total - o.reply.sample_size;
      })
unfolding release_output
release_output_lem output_id b e = ground arith

give_back-SamePlace : (generation : ℕ) (x : MockBuffer) → SamePlace x (give_back generation x)
give_back-SamePlace generation x = ground arith

release_output-Inv :
    (output_id : ℕ) (b : MockBackend) {b' : MockBackend}
    → Inv b
    → release_output output_id b ≡ some b'
    → Inv b'
release_output-Inv output_id b {b'} v e =
    let (o, found, after) = release_output_lem output_id b {b' = b'} e in
    let os = v.outputs_ok in
    let split = sum_by-remove_first sample_size (output_is output_id) b.outputs {x = o} found in
    rw after (record {
      sessions_ok = v.sessions_ok;
      pools_ok = v.pools_ok;
      buffers_ok = BuffersOk-modify _ _ b.buffers (give_back-SamePlace _) v.buffers_ok;
      outputs_ok = record {
        rise = Rising-remove_first output_key _ 1 b.outputs b.next_output_id os.rise;
        room = omega (arith, os.room, length-remove_first-le (output_is output_id) b.outputs);
        each = All-remove_first HasSample _ b.outputs os.each;
        total_exact = omega (arith, os.total_exact, split);
        total_room = omega (arith, os.total_room);
        bytes_usize = os.bytes_usize;
      };
    })

dequeue_up_to-Inv : (rounds sid : ℕ) (b : MockBackend) → Inv b → Inv (dequeue_up_to rounds sid b).1
unfolding dequeue_up_to
dequeue_up_to-Inv zero sid b v = v
dequeue_up_to-Inv (suc rounds) sid b v = elim (Option-cases (dequeue_output sid b)) [
  | inl e ↦ rw (e, dequeue_up_to) v
  | inr ((r, b'), e) ↦
      rw (e, dequeue_up_to) (dequeue_up_to-Inv rounds sid b' (dequeue_output-Inv sid b v e))
]

answer_batch-Inv :
    (bm : Bytemuck) (b : MockBackend) (res : List ℕ) (sid : ℕ)
    (batch : List DequeueOutputReply × MockBackend)
    → Inv batch.1
    → Ensures KeepsInv (answer_batch bm b res sid batch)
unfolding answer_batch
answer_batch-Inv bm b res sid ([], b') v = Ensures-err _
answer_batch-Inv bm b res sid (r ∷ rs, b') v = Ensures-ok _ v

module _ (bm : Bytemuck) (b : MockBackend) (req res : List ℕ) (v : Inv b) where
  pub encode_frame-Inv : HasHandles b → Ensures KeepsInv (on_encode_frame bm b req res)
  unfolding on_encode_frame
  encode_frame-Inv h = Ensures-or_refuse _ _ _ λ payload _. Ensures-or_refuse _ _ _ λ s _.
      Ensures-refuse_if _ _ _ λ _. Ensures-refuse_if _ _ _ λ _. Ensures-or_refuse _ _ _ λ x _.
        Ensures-refuse_if _ _ _ λ _. Ensures-refuse_if _ _ _ λ _. Ensures-or_refuse _ _ _ λ p _.
          Ensures-or_refuse _ _ _ λ bytes _. Ensures-refuse_if _ _ _ λ room.
            Ensures-refuse_if _ _ _ λ fits.
              Ensures-ok _
                (queue_output-Inv b payload s x _ v h (length-nal_bytes _ _ _ _) room fits)

  pub dequeue_output-Keeps : Ensures KeepsInv (on_dequeue_output bm b req res)
  unfolding on_dequeue_output
  dequeue_output-Keeps = Ensures-or_refuse _ _ _ λ payload _.
      Ensures-or_refuse _ _ _ λ got e. Ensures-ok _ (dequeue_output-Inv payload.session_id b v e)

  pub dequeue_output_batch-Inv : Ensures KeepsInv (on_dequeue_output_batch bm b req res)
  unfolding on_dequeue_output_batch
  dequeue_output_batch-Inv = Ensures-or_refuse _ _ _ λ payload _.
      answer_batch-Inv bm b res payload.session_id _
        (dequeue_up_to-Inv (batch_limit payload.max_outputs) payload.session_id b v)

  pub release_output-Keeps : Ensures KeepsInv (on_release_output bm b req res)
  unfolding on_release_output
  release_output-Keeps = Ensures-or_refuse _ _ _ λ payload _.
      Ensures-or_refuse _ _ _ λ b' e. Ensures-ok _ (release_output-Inv payload.output_id b v e)
