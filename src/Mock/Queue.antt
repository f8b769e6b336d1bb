-- ===== src/Mock/Queue.antt =====
-- The output queue of crates/vt-ferry-worker/src/mock.rs as a first-in first-out queue for each session.
use vt_ferry.Prelude.{
  ℕ, zero, suc, ◌≡◌, ◌≢◌, refl, ap, ◌∙◌, ◌⊎◌, inl, inr, Option-cases, Bool, none, some, List, [],
  ◌∷◌, map, take, drop, arith, find_first, modify_first, retain,
}
use vt_ferry.Protocol.Outputs.{DequeueOutputReply}
use vt_ferry.Mock.State.{MockBackend, MockOutput}
use vt_ferry.Mock.Handles.{pending_for}
use vt_ferry.Mock.OutputOps.{dequeue_output, dequeue_up_to, mark_dequeued}

-- The replies that a session has not yet dequeued, oldest first.
unfoldable pub pending : ℕ → MockBackend → List DequeueOutputReply
pending sid b = map (λ o. o.reply) (retain (pending_for sid) b.outputs)

retain-none :
    (p : MockOutput → Bool) (os : List MockOutput) → find_first p os ≡ none → retain p os ≡ []
unfolding find_first retain
retain-none p [] e = refl
retain-none p (o ∷ os) e = ground (arith, retain-none p os)

-- Marking the first pending output takes it off the front.
retain-mark :
    (sid : ℕ) (os : List MockOutput) {o : MockOutput}
    → find_first (pending_for sid) os ≡ some o
    → retain (pending_for sid) os
      ≡ o ∷ retain (pending_for sid) (modify_first (pending_for sid) mark_dequeued os)
unfolding find_first retain modify_first
retain-mark sid [] e = cc
retain-mark sid (h ∷ os) {o} e = ground (arith, retain-mark sid os {o = o})

-- The queues of the other sessions are left alone.
retain-mark_other :
    (sid other : ℕ) (os : List MockOutput)
    → other ≢ sid
    → retain (pending_for other) (modify_first (pending_for sid) mark_dequeued os)
      ≡ retain (pending_for other) os
unfolding retain modify_first
retain-mark_other sid other [] n = refl
retain-mark_other sid other (h ∷ os) n = ground (arith, retain-mark_other sid other os n)

-- One dequeue: the front of the queue, or nothing if the queue is empty.
abbrev Pops : ℕ → MockBackend → Type 0
Pops sid b =
    ((dequeue_output sid b ≡ none) × (pending sid b ≡ []))
    ⊎ ((r : DequeueOutputReply) × (b' : MockBackend) × (dequeue_output sid b ≡ some (r, b'))
        × (pending sid b ≡ r ∷ pending sid b')
        × ((other : ℕ) → other ≢ sid → pending other b' ≡ pending other b))

dequeue_output-Pops : (sid : ℕ) (b : MockBackend) → Pops sid b
unfolding dequeue_output pending
dequeue_output-Pops sid b = elim (Option-cases (find_first (pending_for sid) b.outputs)) [
  | inl e ↦
      inl
        (rw (e, dequeue_output), ap (map (λ (o : MockOutput). o.reply)) (retain-none _ b.outputs e))
  | inr (o, e) ↦ inr (
    o.reply,
    record b { outputs = modify_first (pending_for sid) mark_dequeued b.outputs },
    rw (e, dequeue_output),
    ap (map (λ (o : MockOutput). o.reply)) (retain-mark sid b.outputs e),
    λ other n. ap (map (λ (o : MockOutput). o.reply)) (retain-mark_other sid other b.outputs n),
  )
]

-- A batch of up to `rounds` outputs is the front of the session's queue, oldest first; what is left is
-- the rest of the queue; and the queues of the other sessions are as they were.
pub dequeue_up_to-fifo :
    (rounds sid : ℕ) (b : MockBackend)
    → ((dequeue_up_to rounds sid b).0 ≡ take rounds (pending sid b))
      × (pending sid (dequeue_up_to rounds sid b).1 ≡ drop rounds (pending sid b))
      × ((other : ℕ) → other ≢ sid → pending other (dequeue_up_to rounds sid b).1 ≡ pending other b)
unfolding dequeue_up_to
dequeue_up_to-fifo zero sid b = (refl, refl, λ _ _. refl)
dequeue_up_to-fifo (suc rounds) sid b = elim (dequeue_output-Pops sid b) [
  | inl (e, empty) ↦ rw (e, dequeue_up_to) (rw empty (refl, refl, λ _ _. refl))
  | inr (r, b', e, front, others) ↦
      let (got, left, kept) = dequeue_up_to-fifo rounds sid b' in
      rw (e, dequeue_up_to)
        (rw front (ap (λ t. r ∷ t) got, left, λ other n. kept other n ∙ others other n))
]
