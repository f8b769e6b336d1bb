-- ===== src/Transport/Deferral.antt =====
-- The list of the releases that have been put off, in crates/vt-ferry-shim/src/transport.rs.
use vt_ferry.Prelude.{
  ℕ, zero, suc, ◌≤◌, ◌<◌, ◌≡◌, refl, sym, ap, subst, ◌∙◌, inl, inr, Bool-cases, Option-cases, ◌==◌,
  leb, if◌then◌else◌, Option, none, some, List, [], ◌∷◌, ◌++◌, take, drop, length, arith,
}
use vt_ferry.Protocol.Codes.{status_unsupported_opcode, vtf_transport_max_output_batch}
use vt_ferry.Protocol.Opcodes.{op_release_output, op_release_output_batch}
use vt_ferry.Protocol.Wire.{Bytemuck, Layout}
use vt_ferry.Protocol.Outputs.{release_output_payload}
use vt_ferry.Protocol.Batches.{release_output_batch_payload}
use vt_ferry.Mock.Transfer.{Check, ok, err}
use vt_ferry.Transport.Sending.{
  StreamBackend, Transport, Env, send_request_dynamic, ensure_backend, keep_backend,
  send_request_bytes, send_pod, and_then,
}
use vt_ferry.Transport.Terminal.{request-live, request-dead}
use vt_ferry.Transport.Releases.{
  batch_payload, output_release_batch_size, release_output_now, release_each,
  release_output_batch_now, release_chunks, flush_deferred_output_releases, release_output,
}

module _ (bm : Bytemuck) {L : Type 0} (env : Env L) where
  abbrev Keeps : {A : Type 0} → List ℕ → Check A × Transport L → Type 0
  Keeps ids r = r.1.deferred ≡ ids

  Keeps-and_then :
      {A B : Type 0} (ids : List ℕ) (r : Check A × Transport L)
      (k : A → Transport L → Check B × Transport L)
      → Keeps ids r
      → ((a : A) (t : Transport L) → t.deferred ≡ ids → Keeps ids (k a t))
      → Keeps ids (and_then r k)
  Keeps-and_then ids (ok a, t) k h f = f a t h
  Keeps-and_then ids (err e, t) k h f = h

  ensure_backend-Keeps : (t : Transport L) → (ensure_backend bm env t).deferred ≡ t.deferred
  unfolding ensure_backend
  ensure_backend-Keeps t = elim (Option-cases t.backend) [
    | inl e ↦
        rw (e, ensure_backend)
          (elim (Bool-cases t.killed) [ inl k ↦ rw k refl | inr k ↦ rw k refl ])
    | inr (b, e) ↦ rw (e, ensure_backend) refl
  ]

  keep_backend-Keeps :
      (t : Transport L) (b : StreamBackend L) → (keep_backend bm env t b).deferred ≡ t.deferred
  unfolding keep_backend
  keep_backend-Keeps t b = elim (Bool-cases b.poisoned) [ inl e ↦ rw e refl | inr e ↦ rw e refl ]

  send_request_bytes-Keeps :
      (opcode : ℕ) (payload : List ℕ) (t : Transport L)
      → Keeps t.deferred (send_request_bytes bm env opcode payload t)
  send_request_bytes-Keeps opcode payload t =
      elim (Option-cases (ensure_backend bm env t).backend) [
        | inl e ↦
            ap (λ (r : Check (List ℕ) × Transport L). r.1.deferred)
              (request-dead bm env opcode payload t e)
            ∙ ensure_backend-Keeps t
        | inr (b, e) ↦
            ap (λ (r : Check (List ℕ) × Transport L). r.1.deferred)
              (request-live bm env opcode payload t {b = b} e)
            ∙ keep_backend-Keeps (ensure_backend bm env t)
                (send_request_dynamic bm env opcode payload b).1
            ∙ ensure_backend-Keeps t
      ]

  send_pod-Keeps :
      {P : Type 0} (p : Layout P) (opcode : ℕ) (payload : P) (t : Transport L)
      → Keeps t.deferred (send_pod bm env p opcode payload t)
  unfolding send_pod
  send_pod-Keeps p opcode payload t = send_request_bytes-Keeps opcode (bm.bytes_of p payload) t

  release_output_now-Keeps :
      (output_id : ℕ) (t : Transport L) → Keeps t.deferred (release_output_now bm env output_id t)
  unfolding release_output_now
  release_output_now-Keeps output_id t =
      Keeps-and_then t.deferred
        (send_pod bm env release_output_payload op_release_output (record { output_id = output_id })
          t)
        (λ _ t'. (ok tt, t'))
        (send_pod-Keeps release_output_payload op_release_output (record { output_id = output_id })
          t)
        (λ _ t' e. e)

  release_each-Keeps :
      (ids : List ℕ) (t : Transport L) → Keeps t.deferred (release_each bm env ids t)
  unfolding release_each
  release_each-Keeps [] t = refl
  release_each-Keeps (i ∷ ids) t =
      Keeps-and_then t.deferred (release_output_now bm env i t) (λ _ t'. release_each bm env ids t')
        (release_output_now-Keeps i t) (λ _ t' e. release_each-Keeps ids t' ∙ e)

  release_output_batch_now-Keeps :
      (ids : List ℕ) (t : Transport L) → Keeps t.deferred (release_output_batch_now bm env ids t)
  unfolding release_output_batch_now
  release_output_batch_now-Keeps [] t = refl
  release_output_batch_now-Keeps (i ∷ ids) t =
      answered
        (send_pod bm env release_output_batch_payload op_release_output_batch
          (batch_payload (i ∷ ids)) t)
        (send_pod-Keeps release_output_batch_payload op_release_output_batch
          (batch_payload (i ∷ ids)) t)
    where
      answered :
          (r : Check (List ℕ) × Transport L)
          → Keeps t.deferred r
          → let after : Check (Unit {0}) × Transport L = elim r.0 [
            | ok _ ↦ (ok tt, r.1)
            | err status ↦
                if status == status_unsupported_opcode
                then release_each bm env (i ∷ ids) r.1
                else (err status, r.1)
          ] in
            Keeps t.deferred after
      answered (ok _, t') h = h
      answered (err status, t') h = elim (Bool-cases (status == status_unsupported_opcode)) [
        | inl e ↦ rw e (release_each-Keeps (i ∷ ids) t' ∙ h)
        | inr e ↦ rw e h
      ]

  release_chunks-Keeps :
      (rounds : ℕ) (ids : List ℕ) (t : Transport L)
      → Keeps t.deferred (release_chunks bm env rounds ids t)
  unfolding release_chunks
  release_chunks-Keeps zero ids t = refl
  release_chunks-Keeps (suc rounds) [] t = refl
  release_chunks-Keeps (suc rounds) (i ∷ ids) t =
      Keeps-and_then t.deferred
        (release_output_batch_now bm env (take vtf_transport_max_output_batch (i ∷ ids)) t)
        (λ _ t'. release_chunks bm env rounds (drop vtf_transport_max_output_batch (i ∷ ids)) t')
        (release_output_batch_now-Keeps (take vtf_transport_max_output_batch (i ∷ ids)) t)
        (λ _ t' e.
          release_chunks-Keeps rounds (drop vtf_transport_max_output_batch (i ∷ ids)) t' ∙ e)

  flush-empties : (t : Transport L) → Keeps [] (flush_deferred_output_releases bm env t)
  unfolding flush_deferred_output_releases
  flush-empties t = release_chunks-Keeps (length t.deferred) t.deferred (record t { deferred = [] })

  output_release_batch_size-positive : (o : Option ℕ) → 1 ≤ output_release_batch_size o
  unfolding output_release_batch_size
  output_release_batch_size-positive none = omega arith
  output_release_batch_size-positive (some value) = omega arith

  -- However a release goes, with the stream or without, the list of the releases put off stays shorter than
  -- a batch, and a flush leaves none.
  pub release_output-bounded :
      (output_id : ℕ) (t : Transport L)
      → length t.deferred < output_release_batch_size env.release_batch_size
      → (length (release_output bm env output_id t).1.deferred
          < output_release_batch_size env.release_batch_size)
        × ((flush_deferred_output_releases bm env t).1.deferred ≡ [])
  unfolding release_output send_pod
  release_output-bounded output_id t h =
      let grown : Transport L = record t { deferred = t.deferred ++ output_id ∷ [] } in
      (
        elim (Bool-cases env.defer_releases) [
          | inl e ↦
              rw e
                (elim (Bool-cases (
                  leb (output_release_batch_size env.release_batch_size)
                    (length (t.deferred ++ output_id ∷ [])))) [
                      | inl f ↦ rw f (
                          let some_room =
                            output_release_batch_size-positive env.release_batch_size in
                          let none_left = flush-empties grown in
                          subst
                            (λ ids. length ids < output_release_batch_size env.release_batch_size)
                            (sym none_left) (omega (arith, some_room)))
                      | inr f ↦ rw f (ground (arith, f))
                    ])
          | inr e ↦ rw e (
              subst (λ ids. length ids < output_release_batch_size env.release_batch_size)
                (sym (release_output_now-Keeps output_id t)) h)
        ],
        flush-empties t,
      )
