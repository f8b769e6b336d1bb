-- ===== src/Mock/Ending.antt =====
-- DESTROY_SESSION of crates/vt-ferry-worker/src/mock.rs leaves nothing of its session behind.
use vt_ferry.Prelude.{
  ℕ, ◌≡◌, ◌≢◌, refl, sym, subst, ap, ◌∙◌, Bool, Bool-cases, inl, inr, true, not, ◌==◌, ==-refl,
  some, List, [], ◌∷◌, map, retain, All, arith,
}
use vt_ferry.Protocol.Wire.{Bytemuck}
use vt_ferry.Protocol.Sessions.{DestroySessionPayload, destroy_session_payload}
use vt_ferry.Mock.State.{MockBackend, MockSession, MockPool, MockOutput}
use vt_ferry.Mock.Transfer.{settle, read_pod, ◌>>=◌, or_refuse}
use vt_ferry.Mock.Handles.{find_session, pending_for}
use vt_ferry.Mock.SessionOps.{
  remove_session, remove_buffers_for_pool, remove_buffers_for_pools, remove_pools_for_session,
  remove_outputs_for_session, on_destroy_session,
}
use vt_ferry.Mock.Queue.{pending}
use vt_ferry.Mock.Invariant.Defs.{Inv, HasSlot}
use vt_ferry.Mock.Invariant.Sessions.{remove_session-Inv, remove_pools-Inv, remove_outputs-Inv}

-- What is kept passes the test.
retain-All {ℓ} :
    {A : Type 0} (p : A → Bool) (P : A → Type ℓ) (xs : List A)
    → ((x : A) → p x ≡ true → P x)
    → All P (retain p xs)
unfolding retain
retain-All p P [] h = tt
retain-All p P (x ∷ xs) h = elim (Bool-cases (p x)) [
  | inl e ↦ rw e (h x e, retain-All p P xs h)
  | inr e ↦ rw e (retain-All p P xs h)
]

-- The queue of another session is not among what is removed.
retain-others :
    (sid other : ℕ) (os : List MockOutput)
    → other ≢ sid
    → retain (pending_for other) (retain (λ o. not (o.reply.session_id == sid)) os)
      ≡ retain (pending_for other) os
unfolding retain
retain-others sid other [] n = refl
retain-others sid other (o ∷ os) n = ground (arith, retain-others sid other os n)

-- Removing buffers leaves the other tables.
abbrev SameTables : MockBackend → MockBackend → Type 0
SameTables b b' = (b'.sessions ≡ b.sessions) × (b'.pools ≡ b.pools) × (b'.outputs ≡ b.outputs)

remove_buffers_for_pools-SameTables :
    (ids : List ℕ) (b : MockBackend) → SameTables b (remove_buffers_for_pools ids b)
unfolding remove_buffers_for_pools remove_buffers_for_pool
remove_buffers_for_pools-SameTables [] b = (refl, refl, refl)
remove_buffers_for_pools-SameTables (id ∷ ids) b =
    remove_buffers_for_pools-SameTables ids (remove_buffers_for_pool id b)

not_of : (i sid : ℕ) → not (i == sid) ≡ true → i ≢ sid
not_of i sid e = ground (arith, ==-refl sid)

-- Nothing of the session is left, and every buffer left is in a pool that is left.
pub record Cleared (sid : ℕ) (b : MockBackend) : Type 0 where
  pub no_session : All (λ (s : MockSession). s.id ≢ sid) b.sessions
  pub no_pool : All (λ (p : MockPool). p.session_id ≢ sid) b.pools
  pub no_output : All (λ (o : MockOutput). o.reply.session_id ≢ sid) b.outputs
  pub no_orphan : All (HasSlot b.pools) b.buffers

abbrev destroyed : ℕ → MockBackend → MockBackend
destroyed sid b =
    remove_session sid (remove_pools_for_session sid (remove_outputs_for_session sid b))

-- The backend before the buffers of the removed pools go, and those pools.
abbrev without_pools : ℕ → MockBackend → MockBackend
without_pools sid b = record (remove_outputs_for_session sid b) {
  pools = retain (λ p. not (p.session_id == sid)) (remove_outputs_for_session sid b).pools;
}

abbrev removed_pools : ℕ → MockBackend → List ℕ
removed_pools sid b =
    map (λ p. p.id) (retain (λ p. p.session_id == sid) (remove_outputs_for_session sid b).pools)

module _ (sid : ℕ) (b : MockBackend) where
  destroyed-pools : (destroyed sid b).pools ≡ retain (λ p. not (p.session_id == sid)) b.pools
  unfolding remove_session remove_pools_for_session remove_outputs_for_session
  destroyed-pools =
      (remove_buffers_for_pools-SameTables (removed_pools sid b) (without_pools sid b)).1

  destroyed-outputs :
      (destroyed sid b).outputs ≡ retain (λ o. not (o.reply.session_id == sid)) b.outputs
  unfolding remove_session remove_pools_for_session remove_outputs_for_session
  destroyed-outputs =
      (remove_buffers_for_pools-SameTables (removed_pools sid b) (without_pools sid b)).2

  destroyed-Cleared : Inv (destroyed sid b) → Cleared sid (destroyed sid b)
  unfolding remove_session
  destroyed-Cleared v = record {
    no_session = retain-All _ _ _ λ s. not_of s.id sid;
    no_pool =
        subst (All (λ (p : MockPool). p.session_id ≢ sid)) (sym destroyed-pools)
          (retain-All _ _ b.pools λ p. not_of p.session_id sid);
    no_output =
        subst (All (λ (o : MockOutput). o.reply.session_id ≢ sid)) (sym destroyed-outputs)
          (retain-All _ _ b.outputs λ o. not_of o.reply.session_id sid);
    no_orphan = v.buffers_ok.each;
  }

  pending-destroyed : (other : ℕ) → other ≢ sid → pending other (destroyed sid b) ≡ pending other b
  unfolding pending
  pending-destroyed other n =
      ap (λ os. map (λ (o : MockOutput). o.reply) (retain (pending_for other) os)) destroyed-outputs
      ∙ ap (map (λ (o : MockOutput). o.reply)) (retain-others sid other b.outputs n)

-- Destroying an open session succeeds. Afterwards there is no such session, none of its pools, none of its
-- outputs, and no buffer outside the pools that are left; the queues of the other sessions are as they
-- were.
pub destroy_session-clears :
    (bm : Bytemuck) (b : MockBackend) (req res : List ℕ) (payload : DestroySessionPayload)
    (s : MockSession)
    → Inv b
    → read_pod bm destroy_session_payload req ≡ some payload
    → find_session b payload.session_id ≡ some s
    → let o = settle b res (on_destroy_session bm b req res) in
      (o.result ≡ some 0)
      × Cleared payload.session_id o.backend
      × ((other : ℕ) → other ≢ payload.session_id → pending other o.backend ≡ pending other b)
unfolding on_destroy_session ◌>>=◌ or_refuse
destroy_session-clears bm b req res payload s v read found =
    let sid = payload.session_id in
    let v' = remove_session-Inv sid _ (remove_pools-Inv sid _ (remove_outputs-Inv sid b v)) in
    rw (read, found) (refl, destroyed-Cleared sid b v', pending-destroyed sid b)
