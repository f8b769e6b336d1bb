-- ===== src/Transport/Terminal.antt =====
-- A stream that fails ends the transport of crates/vt-ferry-shim/src/transport.rs for good: the steps of
-- its threads, in any order, before and after the failure.
use vt_ferry.Prelude.{
  ℕ, ◌≡◌, refl, sym, ◌∙◌, ap, subst, inl, inr, Bool, Bool-cases, Option-cases, true, false, Option,
  none, some, List, [], if◌then◌else◌, not, ◌&&◌, arith,
}
use vt_ferry.Protocol.Opcodes.{op_ping}
use vt_ferry.Protocol.Wire.{Bytemuck}
use vt_ferry.Protocol.Header.{MessageHeader}
use vt_ferry.Mock.Transfer.{err}
use vt_ferry.Transport.Sending.{
  StreamBackend, Transport, Env, frame_delay_err, send_request_dynamic, ensure_backend,
  keep_backend, send_request_bytes, heartbeat, request_header, round_trip, reply_of,
}

-- A killed transport has no backend, and one that has a backend can use it.
pub record Kept {L : Type 0} (t : Transport L) : Type 0 where
  pub alive : (b : StreamBackend L) → t.backend ≡ some b → t.killed ≡ false
  pub clean : (b : StreamBackend L) → t.backend ≡ some b → b.poisoned ≡ false

keep_backend-Kept :
    (bm : Bytemuck) {L : Type 0} (env : Env L) (t : Transport L) (b : StreamBackend L)
    → t.killed ≡ false
    → Kept (keep_backend bm env t b)
unfolding keep_backend
keep_backend-Kept bm env t b k = elim (Bool-cases b.poisoned) [
  | inl e ↦ rw e (record { alive = λ c f. absurd (cc); clean = λ c f. absurd (cc) })
  | inr e ↦ rw e (record { alive = λ c f. k; clean = λ c f. cc })
]

module _ (bm : Bytemuck) {L : Type 0} (env : Env L) where
  -- What the threads of the guest do with the transport: requests, rounds of the heartbeat, and changes to
  -- the list of deferred releases.
  pub data Step : Transport L → Transport L → Type 0 where
    request :
        (opcode : ℕ) (payload : List ℕ) (t : Transport L)
        → Step t (send_request_bytes bm env opcode payload t).1
    beat : (stale : Bool) (t : Transport L) → Step t (heartbeat bm env stale t)
    defer : (ids : List ℕ) (t : Transport L) → Step t (record t { deferred = ids })

  pub data Run (t : Transport L) : Transport L → Type 0 where
    here : Run t t
    next : {u v : Transport L} → Run t u → Step u v → Run t v

  ensure_backend-live :
      (t : Transport L) {b : StreamBackend L} → t.backend ≡ some b → ensure_backend bm env t ≡ t
  unfolding ensure_backend
  ensure_backend-live t e = ground arith

  ensure_backend-killed :
      (t : Transport L) → t.backend ≡ none → t.killed ≡ true → ensure_backend bm env t ≡ t
  unfolding ensure_backend
  ensure_backend-killed t e k = ground arith

  ensure_backend-Kept : (t : Transport L) → Kept t → Kept (ensure_backend bm env t)
  unfolding ensure_backend
  ensure_backend-Kept t v = elim (Option-cases t.backend) [
    | inr (b, e) ↦ subst Kept (sym (ensure_backend-live t e)) v
    | inl e ↦ elim (Bool-cases t.killed) [
      | inl k ↦ subst Kept (sym (ensure_backend-killed t e k)) v
      | inr k ↦ rw (e, ensure_backend) (rw k (fresh env.open_backend))
    ]
  ]
    where
      fresh :
          (opened : Option L)
          → Kept (record t {
            backend = elim opened [
              | none ↦ none
              | some stream ↦ some (record { stream = stream; request_id = 1; poisoned = false })
            ];
            killed = false;
          })
      fresh none = record { alive = λ b e. refl; clean = λ b e. absurd (cc) }
      fresh (some stream) = record { alive = λ b e. refl; clean = λ b e. cc }

  -- A request with a backend at hand.
  pub request-live :
      (opcode : ℕ) (payload : List ℕ) (t : Transport L) {b : StreamBackend L}
      → (ensure_backend bm env t).backend ≡ some b
      → send_request_bytes bm env opcode payload t ≡ (
        (send_request_dynamic bm env opcode payload b).0,
        keep_backend bm env
            (ensure_backend bm env t)
            (send_request_dynamic bm env opcode payload b).1,
      )
  unfolding send_request_bytes
  request-live opcode payload t e = rw (e, send_request_bytes) refl

  pub request-dead :
      (opcode : ℕ) (payload : List ℕ) (t : Transport L)
      → (ensure_backend bm env t).backend ≡ none
      → send_request_bytes bm env opcode payload t ≡ (err frame_delay_err, ensure_backend bm env t)
  unfolding send_request_bytes
  request-dead opcode payload t e = rw (e, send_request_bytes) refl

  request-Kept :
      (opcode : ℕ) (payload : List ℕ) (t : Transport L)
      → Kept t
      → Kept (send_request_bytes bm env opcode payload t).1
  request-Kept opcode payload t v =
      let v' = ensure_backend-Kept t v in
      elim (Option-cases (ensure_backend bm env t).backend) [
        | inl e ↦ subst (λ r. Kept r.1) (sym (request-dead opcode payload t e)) v'
        | inr (b, e) ↦
            subst (λ r. Kept r.1) (sym (request-live opcode payload t {b = b} e))
              (keep_backend-Kept bm env (ensure_backend bm env t)
                (send_request_dynamic bm env opcode payload b).1 (v'.alive b e))
      ]

  heartbeat-dead :
      (stale : Bool) (t : Transport L) → t.backend ≡ none → heartbeat bm env stale t ≡ t
  unfolding heartbeat
  heartbeat-dead stale t e = ground arith

  heartbeat-live :
      (stale : Bool) (t : Transport L) {b : StreamBackend L}
      → t.backend ≡ some b
      → heartbeat bm env stale t ≡ (
          if not b.poisoned && stale
          then keep_backend bm env t (send_request_dynamic bm env op_ping [] b).1
          else t)
  unfolding heartbeat
  heartbeat-live stale t e = ground arith

  heartbeat-Kept : (stale : Bool) (t : Transport L) → Kept t → Kept (heartbeat bm env stale t)
  heartbeat-Kept stale t v = elim (Option-cases t.backend) [
    | inl e ↦ subst Kept (sym (heartbeat-dead stale t e)) v
    | inr (b, e) ↦
        subst Kept (sym (heartbeat-live stale t e)) (probed (not b.poisoned && stale) b e)
  ]
    where
      probed :
          (due : Bool) (b : StreamBackend L)
          → t.backend ≡ some b
          → Kept (
              if due then keep_backend bm env t (send_request_dynamic bm env op_ping [] b).1 else t)
      probed true b e =
          keep_backend-Kept bm env t (send_request_dynamic bm env op_ping [] b).1 (v.alive b e)
      probed false b e = v

  Step-Kept : {t u : Transport L} → Step t u → Kept t → Kept u
  Step-Kept (request opcode payload t) v = request-Kept opcode payload t v
  Step-Kept (beat stale t) v = heartbeat-Kept stale t v
  Step-Kept (defer ids t) v = record { alive = v.alive; clean = v.clean }

  Run-Kept : {t u : Transport L} → Run t u → Kept t → Kept u
  Run-Kept here v = v
  Run-Kept (next r s) v = Step-Kept s (Run-Kept r v)

  -- A request or a probe of the heartbeat during which the stream fails: a write that does not go through, or
  -- a response that is not there to be read.
  pub data Fails (t : Transport L) : Transport L → Type 0 where
    request_fails :
        (opcode : ℕ) (payload : List ℕ) (b : StreamBackend L)
        → (ensure_backend bm env t).backend ≡ some b
        → (round_trip bm env (request_header opcode b.request_id payload) payload b.stream).0 ≡ none
        → Fails t (send_request_bytes bm env opcode payload t).1
    beat_fails :
        (b : StreamBackend L)
        → t.backend ≡ some b
        → (round_trip bm env (request_header op_ping b.request_id []) [] b.stream).0 ≡ none
        → Fails t (heartbeat bm env true t)

  abbrev pub IsDead : Transport L → Type 0
  IsDead t = (t.killed ≡ true) × (t.backend ≡ none)

  reply_of-poisons :
      (r : Option (MessageHeader × List ℕ) × L) (b : StreamBackend L)
      → r.0 ≡ none
      → (reply_of bm env r b).1.poisoned ≡ true
  unfolding reply_of
  reply_of-poisons (none, stream) b e = refl
  reply_of-poisons (some got, stream) b e = absurd (cc)

  keep_backend-IsDead :
      (t : Transport L) (b : StreamBackend L) → b.poisoned ≡ true → IsDead (keep_backend bm env t b)
  unfolding keep_backend
  keep_backend-IsDead t b e = rw e (refl, refl)

  failed-IsDead :
      (opcode : ℕ) (payload : List ℕ) (t : Transport L) (b : StreamBackend L)
      → (round_trip bm env (request_header opcode b.request_id payload) payload b.stream).0 ≡ none
      → IsDead (keep_backend bm env t (send_request_dynamic bm env opcode payload b).1)
  unfolding send_request_dynamic
  failed-IsDead opcode payload t b e =
      keep_backend-IsDead t (send_request_dynamic bm env opcode payload b).1
        (reply_of-poisons _ _ e)

  Fails-IsDead : {t u : Transport L} → Kept t → Fails t u → IsDead u
  Fails-IsDead {t} v (request_fails opcode payload b e f) =
      subst (λ r. IsDead r.1) (sym (request-live opcode payload t {b = b} e))
        (failed-IsDead opcode payload (ensure_backend bm env t) b f)
  Fails-IsDead {t} v (beat_fails b e f) =
      let clean = v.clean b e in
      subst IsDead (sym (heartbeat-live true t e)) (
        subst
          (λ poisoned. IsDead (
            if not poisoned && true
            then keep_backend bm env t (send_request_dynamic bm env op_ping [] b).1
            else t))
          (sym clean) (failed-IsDead op_ping [] t b f))

  -- A dead transport refuses every request, and is left as it is.
  refused :
      (opcode : ℕ) (payload : List ℕ) (t : Transport L)
      → IsDead t
      → send_request_bytes bm env opcode payload t ≡ (err frame_delay_err, t)
  refused opcode payload t d =
      let same = ensure_backend-killed t d.1 d.0 in
      request-dead opcode payload t (ap (λ (u : Transport L). u.backend) same ∙ d.1)
      ∙ ap (λ u. (err frame_delay_err, u)) same

  Step-IsDead : {t u : Transport L} → Step t u → IsDead t → IsDead u
  Step-IsDead (request opcode payload t) d =
      subst (λ r. IsDead r.1) (sym (refused opcode payload t d)) d
  Step-IsDead (beat stale t) d = subst IsDead (sym (heartbeat-dead stale t d.1)) d
  Step-IsDead (defer ids t) d = d

  Run-IsDead : {t u : Transport L} → Run t u → IsDead t → IsDead u
  Run-IsDead here d = d
  Run-IsDead (next r s) d = Step-IsDead s (Run-IsDead r d)

  -- From a transport whose backend, if it has one, is not poisoned, and which is killed only without a
  -- backend, let the threads do anything, and let then the stream fail during a request or a probe. Whatever
  -- the threads do after that, in any order, the transport stays killed and without a backend: nothing is
  -- dialled again, and every request is refused with -12902 and leaves the transport as it is.
  pub transport-terminal :
      {s t u v : Transport L}
      → Kept s
      → Run s t
      → Fails t u
      → Run u v
      → (v.killed ≡ true)
        × (v.backend ≡ none)
        × ((opcode : ℕ) (payload : List ℕ)
            → send_request_bytes bm env opcode payload v ≡ (err frame_delay_err, v))
  transport-terminal {v = v} kept before failure after =
      let dead = Run-IsDead after (Fails-IsDead (Run-Kept before kept) failure) in
      (dead.0, dead.1, λ opcode payload. refused opcode payload v dead)
