-- ===== src/Mock/GiveBack.antt =====
-- An encoded frame of crates/vt-ferry-worker/src/mock.rs gives its buffer back when its output is released.
use vt_ferry.Prelude.{
  ℕ, ◌+◌, ◌-◌, ◌≤◌, ◌≡◌, refl, sym, ap, subst, inl, inr, Bool, true, false, ==-refl, none, some,
  Option-cases, List, [], ◌∷◌, ◌++◌, length, arith, find_first, modify_first, remove_first,
  find_first-holds, Rising-found,
}
use vt_ferry.Protocol.Outputs.{EncodeFramePayload}
use vt_ferry.Mock.State.{
  MockBackend, MockBuffer, MockOutput, MockSession, guest_writable, queued_to_host,
}
use vt_ferry.Mock.PixelLayout.{to_u32}
use vt_ferry.Mock.Handles.{to_u64, buffer_is, output_is, find_buffer}
use vt_ferry.Mock.EncodeOps.{queue_output, queued_output, output_reply, no_room_for}
use vt_ferry.Mock.OutputOps.{release_output, give_back}
use vt_ferry.Mock.Invariant.Defs.{Inv, output_key}

-- The element pushed last is found and removed if no other passes the test.
remove_first-last :
    (p : MockOutput → Bool) (os : List MockOutput) (o : MockOutput)
    → find_first p os ≡ none
    → p o ≡ true
    → remove_first p (os ++ o ∷ []) ≡ os
unfolding find_first remove_first
remove_first-last p [] o n e = ground arith
remove_first-last p (h ∷ os) o n e = ground (arith, remove_first-last p os o)

find_first-last :
    (p : MockOutput → Bool) (os : List MockOutput) (o : MockOutput)
    → find_first p os ≡ none
    → p o ≡ true
    → find_first p (os ++ o ∷ []) ≡ some o
unfolding find_first
find_first-last p [] o n e = ground arith
find_first-last p (h ∷ os) o n e = ground (arith, find_first-last p os o)

-- A write that another write to the same element takes back.
modify_first-undone :
    (i : ℕ) (f g : MockBuffer → MockBuffer) (xs : List MockBuffer) {x : MockBuffer}
    → find_first (buffer_is i) xs ≡ some x
    → ((y : MockBuffer) → (f y).id ≡ y.id)
    → g (f x) ≡ x
    → modify_first (buffer_is i) g (modify_first (buffer_is i) f xs) ≡ xs
unfolding find_first modify_first
modify_first-undone i f g [] e id back = refl
modify_first-undone i f g (y ∷ ys) {x} e id back =
    let same = id y in ground (arith, same, modify_first-undone i f g ys {x = x})

unused_output : (b : MockBackend) → Inv b → find_first (output_is b.next_output_id) b.outputs ≡ none
unused_output b v = elim (Option-cases (find_first (output_is b.next_output_id) b.outputs)) [
  | inl e ↦ e
  | inr (o, e) ↦
      let own = find_first-holds (output_is b.next_output_id) b.outputs {x = o} e in
      let older =
        Rising-found output_key (output_is b.next_output_id) 1 b.outputs b.next_output_id {x = o}
          v.outputs_ok.rise e in
      let never : ⊥ = ground (arith, own, older) in absurd never
]

-- Releasing the output of a frame that was accepted undoes the encoding: the buffer is the guest's again, the
-- other buffers and outputs are as they were, and so is the account of output bytes.
pub release_output-queue_output :
    (b : MockBackend) (payload : EncodeFramePayload) (s : MockSession) (x : MockBuffer)
    (payload_bytes : List ℕ)
    → Inv b
    → find_buffer b payload.image_buffer_host_id ≡ some x
    → x.state ≡ guest_writable
    → no_room_for b (to_u32 (4 + length payload_bytes)) ≡ false
    → let b' = queue_output b payload s x payload_bytes in
      release_output b.next_output_id b'
      ≡ some (record b' {
        buffers = b.buffers;
        outputs = b.outputs;
        output_bytes_total = b.output_bytes_total;
      })
unfolding release_output queue_output queued_output output_reply find_buffer
release_output-queue_output b payload s x payload_bytes v found writable room =
    let o = queued_output b payload s x payload_bytes in
    let host = payload.image_buffer_host_id in
    let new = unused_output b v in
    let got =
      find_first-last (output_is b.next_output_id) b.outputs o new
        (rw (==-refl b.next_output_id) refl) in
    let left =
      remove_first-last (output_is b.next_output_id) b.outputs o new
        (rw (==-refl b.next_output_id) refl) in
    let own : x.id ≡ host =
      ground (arith, find_first-holds (buffer_is host) b.buffers {x = x} found) in
    let back : give_back x.generation (record x { state = queued_to_host }) ≡ x =
      rw (==-refl x.generation) (ap (λ st. record x { state = st }) (sym writable)) in
    let undone =
      modify_first-undone host (λ y. record y { state = queued_to_host }) (give_back x.generation)
        b.buffers {x = x} found (λ y. refl) back in
    let fits : b.output_bytes_total + to_u32 (4 + length payload_bytes) ≤ b.max_output_bytes =
      ground arith in
    let sum : to_u64 (b.output_bytes_total + to_u32 (4 + length payload_bytes))
          - to_u32 (4 + length payload_bytes)
        ≡ b.output_bytes_total =
      omega (arith, fits, v.outputs_ok.bytes_usize) in
    let given =
      subst
        (λ k.
          modify_first (buffer_is k) (give_back x.generation)
            (modify_first (buffer_is host) (λ y. record y { state = queued_to_host }) b.buffers)
          ≡ b.buffers)
        (sym own) undone in
    rw (got, release_output) (rw (left, given, sum) refl)
