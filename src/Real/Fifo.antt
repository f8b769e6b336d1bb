-- ===== src/Real/Fifo.antt =====
-- The order in which the guest gets decoded frames from crates/vt-ferry-worker/src/vt_real.rs, whatever the
-- decoder and the guest do in between.
use vt_ferry.Prelude.{
  ℕ, ◌+◌, ◌^◌, ◌≤◌, ◌<◌, ◌≡◌, refl, sym, subst, ◌∙◌, inl, inr, Bool, Bool-cases, Option-cases, true,
  false, not, ◌==◌, ==-refl, if◌then◌else◌, Option, none, some, List, [], ◌∷◌, ◌++◌, length, Rising,
  Rising-raise, Rising-lower, Rising-append, Rising-le, arith,
}
use vt_ferry.Mock.Handles.{to_u64}
use vt_ferry.Real.Maps.{insert, insert-at, insert-else}
use vt_ferry.Real.Frameworks.{Frameworks, CmTime}
use vt_ferry.Real.State.{
  VtRealDecodedOutput, DecodedOutputQueue, queue_of, enqueue, record_decode_error,
  take_decode_error,
}
use vt_ferry.Real.Decoded.{
  Front, frame, failure, timeout, decompression_output, release_decoded, front_of, failure_of,
  pop_front, unknown_err,
}

module _ (fw : Frameworks) where
  -- The callback, a dequeue of a session, and a release.
  pub data Event : Type 0 where
    decoded : ℕ → ℕ → Option fw.CvImageBuffer → CmTime → CmTime → Event
    dequeued : ℕ → Event
    released : ℕ → Event

  abbrev pub popped : ℕ → DecodedOutputQueue fw → Front fw × DecodedOutputQueue fw
  popped session_id q = pop_front fw session_id (queue_of fw q session_id) q

  abbrev pub id_of : Front fw → List ℕ
  id_of (frame output_id output) = output_id ∷ []
  id_of (failure vt_status) = []
  id_of timeout = []

  -- What an event leaves of the queue.
  unfoldable pub after : Event → DecodedOutputQueue fw → DecodedOutputQueue fw
  unfolding pop_front decompression_output release_decoded
  after (decoded session_id status image pts duration) q =
      decompression_output fw session_id status image pts duration q
  after (dequeued session_id) q = (popped session_id q).1
  after (released output_id) q = (release_decoded fw output_id q).1

  -- The numbers of the frames that a session is given.
  unfoldable pub given : ℕ → List Event → DecodedOutputQueue fw → List ℕ
  unfolding after
  given s [] q = []
  given s (dequeued t ∷ es) q =
      (if t == s then id_of (popped t q).0 else []) ++ given s es (after (dequeued t) q)
  given s (decoded a b c d e ∷ es) q = given s es (after (decoded a b c d e) q)
  given s (released i ∷ es) q = given s es (after (released i) q)

  -- The numbers in the queue of a session rise, from `lo` on, and are used up below the next one.
  abbrev pub Ordered : ℕ → ℕ → DecodedOutputQueue fw → Type 0
  Ordered s lo q = Rising (λ i. i) lo (queue_of fw q s) q.next_output_id

  -- Nothing but the queue of one session has changed.
  queue_of-insert :
      (s t : ℕ) (queue : List ℕ) (q : DecodedOutputQueue fw)
      → queue_of fw (record q { session_queues = insert t queue q.session_queues }) s
        ≡ (if s == t then queue else queue_of fw q s)
  unfolding queue_of
  queue_of-insert s t queue q = elim (Bool-cases (s == t)) [
    | inl e ↦ rw (e, insert-at t queue q.session_queues s e, queue_of) refl
    | inr e ↦ rw (e, insert-else t queue q.session_queues s e, queue_of) refl
  ]

  record_decode_error-Ordered :
      (s lo t status : ℕ) (q : DecodedOutputQueue fw)
      → Ordered s lo q
      → Ordered s lo (record_decode_error fw t status q)
  unfolding record_decode_error queue_of
  record_decode_error-Ordered s lo t status q h = elim (Bool-cases (status == 0)) [
    | inl e ↦ rw e h
    | inr e ↦ rw e h
  ]

  enqueue-Ordered :
      (s lo t : ℕ) (output : VtRealDecodedOutput fw) (q : DecodedOutputQueue fw)
      → q.next_output_id + 1 < 2 ^ 64
      → Ordered s lo q
      → Ordered s lo (enqueue fw t output q).1
  unfolding enqueue queue_of
  enqueue-Ordered s lo t output q room h =
      let queue = queue_of fw q t ++ q.next_output_id ∷ [] in
      let next : to_u64 (q.next_output_id + 1) ≡ q.next_output_id + 1 = omega (arith, room) in
      let seen = queue_of-insert s t queue q in
      let rises : Rising (λ i. i) lo (if s == t then queue else queue_of fw q s)
          (to_u64 (q.next_output_id + 1)) =
        elim (Bool-cases (s == t)) [
          | inl e ↦
              let same : t ≡ s = ground (arith, e) in
              rw (e, next, same)
                (Rising-append (λ i. i) lo (queue_of fw q s) q.next_output_id (q.next_output_id + 1)
                  h (omega arith))
          | inr e ↦
              rw (e, next)
                (Rising-raise (λ i. i) lo (queue_of fw q s) q.next_output_id (q.next_output_id + 1)
                  (omega arith) h)
        ] in
      subst (λ l. Rising (λ i. i) lo l (to_u64 (q.next_output_id + 1))) (sym seen) rises

  -- A pop of another session.
  pop_front-other :
      (s lo t : ℕ) (queue : List ℕ) (q : DecodedOutputQueue fw)
      → (s == t) ≡ false
      → Ordered s lo q
      → Ordered s lo (pop_front fw t queue q).1
  unfolding pop_front take_decode_error queue_of
  pop_front-other s lo t [] q e h = h
  pop_front-other s lo t (x ∷ rest) q e h =
      subst (λ l. Rising (λ i. i) lo l q.next_output_id)
        (sym (queue_of-insert s t rest q ∙ rw e refl)) h

  -- A pop of the session: its number comes before what is left, and before all that comes later.
  pop_front-same :
      (s lo : ℕ) (queue : List ℕ) (q : DecodedOutputQueue fw)
      → queue_of fw q s ≡ queue
      → Rising (λ i. i) lo queue q.next_output_id
      → (lo' : ℕ) × Ordered s lo' (pop_front fw s queue q).1
        × ((ids : List ℕ)
            → Rising (λ i. i) lo' ids (2 ^ 64)
            → Rising (λ i. i) lo (id_of (pop_front fw s queue q).0 ++ ids) (2 ^ 64))
  unfolding pop_front take_decode_error queue_of failure_of front_of
  pop_front-same s lo [] q e h = (
    lo,
    subst (λ l. Rising (λ i. i) lo l q.next_output_id) (sym e) h,
    λ ids r. elim (Option-cases (q.decode_errors s)) [
      | inl f ↦ rw (f, failure_of) r
      | inr (vt_status, f) ↦ rw (f, failure_of) r
    ],
  )
  pop_front-same s lo (x ∷ rest) q e h = (
    x + 1,
    subst (λ l. Rising (λ i. i) (x + 1) l q.next_output_id)
        (sym (queue_of-insert s s rest q ∙ rw (==-refl s) refl)) h.1,
    λ ids r. elim (Option-cases (q.queued x)) [
      | inl f ↦
          rw (f, front_of) (Rising-lower (λ i. i) (x + 1) lo ids (2 ^ 64) (omega (arith, h.0)) r)
      | inr (output, f) ↦ rw (f, front_of) (h.0, r)
    ],
  )

  next-pop_front :
      (t : ℕ) (queue : List ℕ) (q : DecodedOutputQueue fw)
      → (pop_front fw t queue q).1.next_output_id ≡ q.next_output_id
  unfolding pop_front take_decode_error
  next-pop_front t [] q = refl
  next-pop_front t (x ∷ rest) q = refl

  next-record_decode_error :
      (t status : ℕ) (q : DecodedOutputQueue fw)
      → (record_decode_error fw t status q).next_output_id ≡ q.next_output_id
  unfolding record_decode_error
  next-record_decode_error t status q = ground arith

  after-decoded :
      (s lo t status : ℕ) (image : Option fw.CvImageBuffer) (pts duration : CmTime)
      (q : DecodedOutputQueue fw)
      → q.next_output_id + 1 < 2 ^ 64
      → Ordered s lo q
      → Ordered s lo (after (decoded t status image pts duration) q)
        × ((after (decoded t status image pts duration) q).next_output_id ≤ q.next_output_id + 1)
  unfolding after decompression_output enqueue
  after-decoded s lo t status none pts duration q room h =
      let seen = if not (status == 0) then status else unknown_err in
      let same = next-record_decode_error t seen q in
      (record_decode_error-Ordered s lo t seen q h, omega (arith, same))
  after-decoded s lo t status (some image) pts duration q room h = chosen (status == 0)
    where
      output : VtRealDecodedOutput fw
      output = record {
        session_id = t;
        pts = pts;
        duration = duration;
        status = status;
        image_buffer = image;
      }

      chosen :
          (good : Bool)
          → let q' =
              if not good then record_decode_error fw t status q else (enqueue fw t output q).1 in
            Ordered s lo q' × (q'.next_output_id ≤ q.next_output_id + 1)
      chosen true = (enqueue-Ordered s lo t output q room h, omega (arith, room))
      chosen false = (
        record_decode_error-Ordered s lo t status q h,
        omega (arith, next-record_decode_error t status q),
      )

  -- Whatever the decoder reports, to whichever sessions, and whatever the guest dequeues and releases, a
  -- session is given its frames in the order in which they were decoded, and none of them twice: the
  -- numbers of the frames that it is given rise. Fewer than 2 ^ 64 numbers are used.
  pub given-Rising :
      (s lo : ℕ) (es : List Event) (q : DecodedOutputQueue fw)
      → Ordered s lo q
      → q.next_output_id + length es < 2 ^ 64
      → Rising (λ i. i) lo (given s es q) (2 ^ 64)
  unfolding given after release_decoded
  given-Rising s lo [] q h room =
      let le = Rising-le (λ i. i) lo (queue_of fw q s) q.next_output_id h in omega (arith, le, room)
  given-Rising s lo (decoded t status image pts duration ∷ es) q h room =
      let next = after-decoded s lo t status image pts duration q (omega (arith, room)) h in
      given-Rising s lo es (after (decoded t status image pts duration) q) next.0
        (omega (arith, next.1, room))
  given-Rising s lo (released i ∷ es) q h room =
      given-Rising s lo es (after (released i) q) h (omega (arith, room))
  given-Rising s lo (dequeued t ∷ es) q h room =
      let same = next-pop_front t (queue_of fw q t) q in
      elim (Bool-cases (t == s)) [
        | inl e ↦
            let own : t ≡ s = ground (arith, e) in
            let mine = pop_front-same s lo (queue_of fw q s) q refl h in
            let rest = given-Rising s mine.0 es (popped s q).1 mine.1 (
              subst (λ (x : ℕ). (popped x q).1.next_output_id + length es < 2 ^ 64) own
                (omega (arith, same, room))) in
            rw e (rw own (mine.2 (given s es (popped s q).1) rest))
        | inr e ↦
            let other : (s == t) ≡ false = ground (arith, e) in
            rw e (
              given-Rising s lo es (popped t q).1
                (pop_front-other s lo t (queue_of fw q t) q other h) (omega (arith, same, room)))
      ]
