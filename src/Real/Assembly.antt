-- ===== src/Real/Assembly.antt =====
-- The chunks of an encoded frame, as the guest cuts them (crates/vt-ferry-shim/src/transport.rs), and the
-- frame that crates/vt-ferry-worker/src/vt_real.rs puts together from them.
use vt_ferry.Prelude.{
  ℕ, ◌+◌, ◌≤◌, ◌<◌, ◌≡◌, ◌⊎◌, refl, ap, subst, ◌∙◌, inl, inr, Bool-cases, true, false, ◌||◌, ◌==◌,
  ltb, if◌then◌else◌, some, List, [], ◌∷◌, ◌++◌, length, length-append, take-append_at,
  drop-append_at, ==-refl, All, arith,
}
use vt_ferry.Protocol.Wire.{Bytemuck, Layout, size_of, IsWireValue}
use vt_ferry.Protocol.Decode.{EnqueueEncodedFrameChunkPayload, enqueue_encoded_frame_chunk_payload}
use vt_ferry.Mock.PixelLayout.{to_u32}
use vt_ferry.Mock.Transfer.{ok, ◌>>=◌, ◌>>◌, refuse_if, or_refuse, read_pod}
use vt_ferry.Server.Answers.{append_nil, append_assoc}
use vt_ferry.Transport.Frames.{chunk_payload, chunk_request}
use vt_ferry.Real.Maps.{insert, remove, contains_key, insert-get, remove-insert}
use vt_ferry.Real.Frameworks.{Frameworks}
use vt_ferry.Real.State.{PendingEncodedFrame, VtRealDecodeSession, VtRealBackend}
use vt_ferry.Real.Encoded.{
  max_chunked_encoded_frame_bytes, timing_of, beyond, dispatch_decode_assembled_frame, check_chunk,
  with_pending, head_of, take_chunk, finish_frame, on_enqueue_encoded_frame_chunk,
}

abbrev pub concat : List (List ℕ) → List ℕ
concat [] = []
concat (c ∷ cs) = c ++ concat cs

pub read_pod-append :
    (bm : Bytemuck) {A : Type 0} (l : Layout A) (a : A) (rest : List ℕ)
    → IsWireValue l a
    → read_pod bm l (bm.bytes_of l a ++ rest) ≡ some a
unfolding read_pod
read_pod-append bm l a rest w =
    let head = bm.length-bytes_of l a in
    let sizes = length-append (bm.bytes_of l a) rest in
    let long : ltb (length (bm.bytes_of l a ++ rest)) (size_of l) ≡ false =
      ground (arith, head, sizes) in
    rw long (
      ap some (
        ap (bm.pod_read_unaligned l) (take-append_at (size_of l) (bm.bytes_of l a) rest head)
        ∙ bm.pod_read-bytes_of l a w))

module _ (bm : Bytemuck) (fw : Frameworks) (head : EnqueueEncodedFrameChunkPayload)
    (total : ℕ) where
  -- The chunks are sent in order, until one is refused.
  unfoldable pub feed : ℕ → List (List ℕ) → VtRealBackend fw → ℕ × VtRealBackend fw
  unfolding on_enqueue_encoded_frame_chunk
  feed offset [] b = (0, b)
  feed offset (c ∷ cs) b =
      let (status, b') =
        on_enqueue_encoded_frame_chunk bm fw b (chunk_request bm head total offset c) in
      let rest = feed (offset + length c) cs b' in if status == 0 then rest else (status, b')

  abbrev assembled : List ℕ → PendingEncodedFrame
  assembled bytes = head_of bm fw (chunk_payload head total 0 0) bytes

  chunk_payload-wire :
      (offset len : ℕ)
      → IsWireValue enqueue_encoded_frame_chunk_payload head
      → IsWireValue enqueue_encoded_frame_chunk_payload (chunk_payload head total offset len)
  chunk_payload-wire offset len w =
      let (_, (s, (p, (d, (_, (_, (_, (_, (f, (t, (u, _))))))))))) = w in
      (
        refl,
        (
          s,
          (
            p,
            (
              d,
              (
                omega arith,
                (omega arith, (omega arith, (ground arith, (f, (t, (u, (omega arith, tt))))))),
              ),
            ),
          ),
        ),
      )

  check_chunk-request :
      (b : VtRealBackend fw) (session : VtRealDecodeSession fw) (offset : ℕ) (chunk : List ℕ)
      → IsWireValue enqueue_encoded_frame_chunk_payload head
      → 0 < length chunk
      → offset + length chunk ≤ total
      → total ≤ max_chunked_encoded_frame_bytes
      → b.decode_sessions head.session_id ≡ some session
      → check_chunk bm fw b (chunk_request bm head total offset chunk)
        ≡ ok (chunk_payload head total offset (length chunk), chunk)
  unfolding check_chunk ◌>>=◌ ◌>>◌ refuse_if or_refuse contains_key
  check_chunk-request b session offset chunk w some_bytes within small known =
      let p = chunk_payload head total offset (length chunk) in
      let l = enqueue_encoded_frame_chunk_payload in
      let read = read_pod-append bm l p chunk (chunk_payload-wire offset (length chunk) w) in
      let sizes = length-append (bm.bytes_of l p) chunk in
      let heads = bm.length-bytes_of l p in
      let sized : (length (bm.bytes_of l p ++ chunk) == size_of l + to_u32 (length chunk)) ≡ true =
        ground (arith, sizes, heads, small, within) in
      let bounded : (to_u32 total == 0 || ltb max_chunked_encoded_frame_bytes (to_u32 total))
          ≡ false =
        ground (arith, some_bytes, small, within) in
      let inside : beyond (to_u32 offset) (to_u32 (length chunk)) (to_u32 total) ≡ false =
        ground (arith, small, within) in
      let filled : (to_u32 (length chunk) == 0) ≡ false =
        ground (arith, some_bytes, small, within) in
      let has : contains_key head.session_id b.decode_sessions ≡ true =
        rw (known, contains_key) refl in
      rw (read, check_chunk)
        (rw (sized, bounded, inside, filled, has)
          (ap (λ d. ok (p, d)) (drop-append_at (size_of l) (bm.bytes_of l p) chunk heads)))

  -- What has come of the frame so far is nothing, or stands in the map.
  abbrev Holds : VtRealBackend fw → List ℕ → Type 0
  Holds b bytes = (bytes ≡ []) ⊎ (b.pending_encoded_frames head.session_id ≡ some (assembled bytes))

  abbrev grown : VtRealBackend fw → List ℕ → VtRealBackend fw
  grown b bytes =
      with_pending bm fw b (insert head.session_id (assembled bytes) b.pending_encoded_frames)

  take_chunk-grown :
      (b : VtRealBackend fw) (bytes chunk : List ℕ)
      → length bytes + length chunk ≤ total
      → total ≤ max_chunked_encoded_frame_bytes
      → Holds b bytes
      → take_chunk bm fw b (chunk_payload head total (length bytes) (length chunk)) chunk
        ≡ ok (grown b (bytes ++ chunk))
  unfolding take_chunk ◌>>=◌ ◌>>◌ refuse_if or_refuse
  take_chunk-grown b [] chunk within small h = refl
  take_chunk-grown b (x ∷ xs) chunk within small (inl e) = absurd (cc)
  take_chunk-grown b (x ∷ xs) chunk within small (inr e) =
      let later : (to_u32 (length (x ∷ xs)) == 0) ≡ false = ground (arith, within, small) in
      let same : (to_u32 total == to_u32 total) ≡ true = ==-refl (to_u32 total) in
      let placed : (length (x ∷ xs) == to_u32 (length (x ∷ xs))) ≡ true =
        ground (arith, within, small) in
      rw (later, take_chunk) (rw (e, take_chunk) (rw (same, placed) refl))

  finish_frame-grown :
      (b : VtRealBackend fw) (bytes : List ℕ) (p : EnqueueEncodedFrameChunkPayload)
      → p.session_id ≡ head.session_id
      → length bytes ≡ total
      → finish_frame bm fw (grown b bytes) p
        ≡ dispatch_decode_assembled_frame bm fw head.session_id bytes
            (timing_of head.pts_value head.pts_timescale head.duration_value
              head.duration_timescale)
            (with_pending bm fw b (remove head.session_id b.pending_encoded_frames))
  unfolding finish_frame
  finish_frame-grown b bytes p e whole =
      let got = insert-get head.session_id (assembled bytes) b.pending_encoded_frames in
      let gone = remove-insert head.session_id (assembled bytes) b.pending_encoded_frames in
      let complete : (to_u32 (length bytes) == to_u32 total) ≡ true = ground (arith, whole) in
      rw (e, finish_frame) (rw (got, finish_frame) (rw (complete, e, gone) refl))

  module _ (wire : IsWireValue enqueue_encoded_frame_chunk_payload head)
      (small : total ≤ max_chunked_encoded_frame_bytes) where
    -- The backend behind the frame: its chunks are gone.
    abbrev pub delivered : List ℕ → VtRealBackend fw → ℕ × VtRealBackend fw
    delivered bytes b =
        dispatch_decode_assembled_frame bm fw head.session_id bytes
          (timing_of head.pts_value head.pts_timescale head.duration_value head.duration_timescale)
          (with_pending bm fw b (remove head.session_id b.pending_encoded_frames))

    chunk-taken :
        (b : VtRealBackend fw) (session : VtRealDecodeSession fw) (bytes chunk : List ℕ)
        → 0 < length chunk
        → length bytes + length chunk ≤ total
        → b.decode_sessions head.session_id ≡ some session
        → Holds b bytes
        → on_enqueue_encoded_frame_chunk bm fw b (chunk_request bm head total (length bytes) chunk)
          ≡ (if (chunk_payload head total (length bytes) (length chunk)).is_final_chunk == 0
              then (0, grown b (bytes ++ chunk))
              else finish_frame bm fw
                  (grown b (bytes ++ chunk))
                  (chunk_payload head total (length bytes) (length chunk)))
    unfolding on_enqueue_encoded_frame_chunk ◌>>=◌
    chunk-taken b session bytes chunk some_bytes within known h =
        let checked =
          check_chunk-request b session (length bytes) chunk wire some_bytes within small known in
        let taken = take_chunk-grown b bytes chunk within small h in
        rw (checked, on_enqueue_encoded_frame_chunk)
          (rw (taken, on_enqueue_encoded_frame_chunk) refl)

    chunk-more :
        (b : VtRealBackend fw) (session : VtRealDecodeSession fw) (bytes chunk : List ℕ)
        → 0 < length chunk
        → length bytes + length chunk < total
        → b.decode_sessions head.session_id ≡ some session
        → Holds b bytes
        → on_enqueue_encoded_frame_chunk bm fw b (chunk_request bm head total (length bytes) chunk)
          ≡ (0, grown b (bytes ++ chunk))
    chunk-more b session bytes chunk some_bytes within known h =
        let before : (length bytes + length chunk == total) ≡ false = ground (arith, within) in
        chunk-taken b session bytes chunk some_bytes (omega (arith, within)) known h
        ∙ rw before refl

    chunk-last :
        (b : VtRealBackend fw) (session : VtRealDecodeSession fw) (bytes chunk : List ℕ)
        → 0 < length chunk
        → length bytes + length chunk ≡ total
        → b.decode_sessions head.session_id ≡ some session
        → Holds b bytes
        → on_enqueue_encoded_frame_chunk bm fw b (chunk_request bm head total (length bytes) chunk)
          ≡ delivered (bytes ++ chunk) b
    chunk-last b session bytes chunk some_bytes whole known h =
        let last : (length bytes + length chunk == total) ≡ true = ground (arith, whole) in
        let sizes = length-append bytes chunk in
        chunk-taken b session bytes chunk some_bytes (omega (arith, whole)) known h
        ∙ rw last (
            finish_frame-grown b (bytes ++ chunk)
              (record (chunk_payload head total (length bytes) (length chunk)) {
                is_final_chunk = 1;
              })
              refl (omega (arith, sizes, whole)))

    delivered-grown :
        (b : VtRealBackend fw) (bytes frame : List ℕ)
        → delivered frame (grown b bytes) ≡ delivered frame b
    delivered-grown b bytes frame =
        rw (remove-insert head.session_id (assembled bytes) b.pending_encoded_frames) refl

    feed-delivered :
        (b : VtRealBackend fw) (session : VtRealDecodeSession fw) (bytes chunk : List ℕ)
        (chunks : List (List ℕ))
        → All (λ c. 0 < length c) (chunk ∷ chunks)
        → length (bytes ++ concat (chunk ∷ chunks)) ≡ total
        → b.decode_sessions head.session_id ≡ some session
        → Holds b bytes
        → feed (length bytes) (chunk ∷ chunks) b ≡ delivered (bytes ++ concat (chunk ∷ chunks)) b
    unfolding feed
    feed-delivered b session bytes chunk [] filled whole known h =
        let sizes = length-append bytes (chunk ++ []) in
        let same = append_nil chunk in
        let fits : length bytes + length chunk ≡ total =
          subst (λ l. length bytes + length l ≡ total) same (omega (arith, sizes, whole)) in
        let last = chunk-last b session bytes chunk filled.0 fits known h in
        rw (last, same) (ended (delivered (bytes ++ chunk) b))
      where
        ended : (r : ℕ × VtRealBackend fw) → (if r.0 == 0 then (0, r.1) else r) ≡ r
        ended (status, b') = elim (Bool-cases (status == 0)) [
          | inl e ↦ rw e (ap (λ s. (s, b')) (ground (arith, e)))
          | inr e ↦ rw e refl
        ]
    feed-delivered b session bytes chunk (c ∷ cs) filled whole known h =
        let sizes = length-append bytes (chunk ++ concat (c ∷ cs)) in
        let sizes1 = length-append chunk (c ++ concat cs) in
        let sizes2 = length-append c (concat cs) in
        let sizes3 = length-append bytes chunk in
        let more =
          chunk-more b session bytes chunk filled.0
            (omega (arith, sizes, sizes1, sizes2, whole, filled.1.0)) known h in
        let assoc = append_assoc bytes chunk (concat (c ∷ cs)) in
        let rest =
          feed-delivered (grown b (bytes ++ chunk)) session (bytes ++ chunk) c cs filled.1
            (ap length assoc ∙ whole) known
            (inr
              (insert-get head.session_id (assembled (bytes ++ chunk)) b.pending_encoded_frames)) in
        rw (more, ← sizes3)
          (rest
            ∙ delivered-grown b (bytes ++ chunk) ((bytes ++ chunk) ++ concat (c ∷ cs))
            ∙ ap (λ l. delivered l b) assoc)

-- The chunks that the guest makes of a frame, in order, come to one call of the decoder with the whole
-- frame and the times of its head, whatever had been left of an earlier frame, and nothing of it stays
-- behind. The session exists, no chunk is empty, and the frame is at most 64 MiB.
pub feed-assembles :
    (bm : Bytemuck) (fw : Frameworks) (head : EnqueueEncodedFrameChunkPayload)
    (b : VtRealBackend fw) (session : VtRealDecodeSession fw) (chunk : List ℕ)
    (chunks : List (List ℕ))
    → let frame = concat (chunk ∷ chunks) in
      IsWireValue enqueue_encoded_frame_chunk_payload head
      → length frame ≤ max_chunked_encoded_frame_bytes
      → All (λ c. 0 < length c) (chunk ∷ chunks)
      → b.decode_sessions head.session_id ≡ some session
      → feed bm fw head (length frame) 0 (chunk ∷ chunks) b
        ≡ dispatch_decode_assembled_frame bm fw head.session_id frame
            (timing_of head.pts_value head.pts_timescale head.duration_value
              head.duration_timescale)
            (with_pending bm fw b (remove head.session_id b.pending_encoded_frames))
feed-assembles bm fw head b session chunk chunks wire small filled known =
    feed-delivered bm fw head (length (concat (chunk ∷ chunks))) wire small b session [] chunk
      chunks filled refl known (inl refl)
