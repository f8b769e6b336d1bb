-- ===== src/Mock/Invariant/Sessions.antt =====
-- The session operations keep the invariant.
use native.Mathlib.Nat.{le_trans}
use vt_ferry.Prelude.{
  ℕ, ◌+◌, ◌<◌, ◌^◌, ◌≡◌, refl, inl, inr, not, ◌==◌, Bool-cases, List, [], ◌∷◌, map, arith, retain,
  All, All-retain, length-retain-le, find_first-retain, Rising, Rising-retain, sum_by-retain,
}
use vt_ferry.Protocol.Wire.{Bytemuck}
use vt_ferry.Mock.State.{MockBackend, MockPool, MockBuffer, MockOutput}
use vt_ferry.Mock.Transfer.{Outcome}
use vt_ferry.Mock.Handles.{session_is, to_u64}
use vt_ferry.Mock.Ensures.{Ensures, Ensures-ok, Ensures-refuse_if, Ensures-or_refuse}
use vt_ferry.Mock.SessionOps.{
  on_create_session, on_prepare_session, on_destroy_session, remove_session,
  remove_pools_for_session, remove_outputs_for_session,
}
use vt_ferry.Mock.Invariant.Defs.{
  Inv, HasHandles, HasSlot, IsPool, HasSample, session_key, pool_key, buffer_key, output_key,
  sample_size,
}
use vt_ferry.Mock.Invariant.Removal.{contains, contains-removed, remove_buffers_for_pools_lem}
use vt_ferry.Mock.Invariant.Slots.{Apart-retain}
use vt_ferry.Mock.Invariant.Setters.{
  SessionsOk-append, SessionsOk-modify, PoolsOk-raise, BuffersOk-raise,
}

abbrev pub KeepsInv : Outcome → Type 0
KeepsInv o = Inv o.backend

-- A counter that has not run out does not wrap.
pub to_u64-suc : (n : ℕ) → n + 1 < 2 ^ 64 → to_u64 (n + 1) ≡ n + 1
to_u64-suc n h = omega arith

pub remove_outputs-Inv :
    (sid : ℕ) (b : MockBackend) → Inv b → Inv (remove_outputs_for_session sid b)
unfolding remove_outputs_for_session
remove_outputs-Inv sid b v =
    let o = v.outputs_ok in
    let split =
      sum_by-retain sample_size (λ (x : MockOutput). x.reply.session_id == sid) b.outputs in
    record {
      sessions_ok = v.sessions_ok;
      pools_ok = v.pools_ok;
      buffers_ok = v.buffers_ok;
      outputs_ok = record {
        rise = Rising-retain output_key _ 1 b.outputs b.next_output_id o.rise;
        room = omega (
          arith,
          o.room,
          length-retain-le (λ (x : MockOutput). not (x.reply.session_id == sid)) b.outputs,
        );
        each = All-retain HasSample _ b.outputs o.each;
        total_exact = omega (arith, o.total_exact, split);
        total_room = omega (arith, o.total_room);
        bytes_usize = o.bytes_usize;
      };
    }

HasSlot-removed :
    (sid : ℕ) (ps : List MockPool) (hi : ℕ) (xs : List MockBuffer)
    → Rising pool_key 1 ps hi
    → All (HasSlot ps) xs
    → All (HasSlot (retain (λ p. not (p.session_id == sid)) ps)) (
        retain
          (λ x. not (contains (map (λ p. p.id) (retain (λ p. p.session_id == sid) ps)) x.pool_id))
          xs)
unfolding retain
HasSlot-removed sid ps hi [] r h = tt
HasSlot-removed sid ps hi (x ∷ xs) r ((p, found, fits, size, pos), rest) =
    let other = contains-removed sid x.pool_id ps 1 hi {p = p} r found in
    elim (Bool-cases (p.session_id == sid)) [
      | inl mine ↦ rw (other, mine) (HasSlot-removed sid ps hi xs r rest)
      | inr theirs ↦
          rw (other, theirs)
            (
              (p, find_first-retain _ _ ps found (rw theirs), fits, size, pos),
              HasSlot-removed sid ps hi xs r rest,
            )
    ]

pub remove_pools-Inv : (sid : ℕ) (b : MockBackend) → Inv b → Inv (remove_pools_for_session sid b)
unfolding remove_pools_for_session
remove_pools-Inv sid b v =
    let ps = v.pools_ok in
    let xs = v.buffers_ok in
    rw remove_buffers_for_pools_lem (record {
      sessions_ok = v.sessions_ok;
      pools_ok = record {
        rise = Rising-retain pool_key _ 1 b.pools b.next_host_id ps.rise;
        room = omega (
          arith,
          ps.room,
          length-retain-le (λ (p : MockPool). not (p.session_id == sid)) b.pools,
        );
        each = All-retain IsPool _ b.pools ps.each;
      };
      buffers_ok = record {
        rise = Rising-retain buffer_key _ 1 b.buffers b.next_host_id xs.rise;
        room = le_trans (length-retain-le _ b.buffers) xs.room;
        each = HasSlot-removed sid b.pools b.next_host_id b.buffers ps.rise xs.each;
        apart = Apart-retain _ b.buffers xs.apart;
      };
      outputs_ok = v.outputs_ok;
    })

pub remove_session-Inv : (sid : ℕ) (b : MockBackend) → Inv b → Inv (remove_session sid b)
unfolding remove_session
remove_session-Inv sid b v = record {
  sessions_ok = record {
    rise = Rising-retain session_key _ 1 b.sessions b.next_host_id v.sessions_ok.rise;
    room = le_trans (length-retain-le _ b.sessions) v.sessions_ok.room;
  };
  pools_ok = v.pools_ok;
  buffers_ok = v.buffers_ok;
  outputs_ok = v.outputs_ok;
}

module _ (bm : Bytemuck) (b : MockBackend) (req res : List ℕ) (v : Inv b) where
  pub create_session-Inv : HasHandles b → Ensures KeepsInv (on_create_session bm b req res)
  unfolding on_create_session
  create_session-Inv h = Ensures-refuse_if _ _ _ λ room. Ensures-or_refuse _ _ _ λ payload _.
      Ensures-ok _ (
        rw (to_u64-suc b.next_host_id h.host) (record {
          sessions_ok = SessionsOk-append b.sessions _ v.sessions_ok refl (ground arith);
          pools_ok = PoolsOk-raise (omega arith) v.pools_ok;
          buffers_ok = BuffersOk-raise (omega arith) v.buffers_ok;
          outputs_ok = v.outputs_ok;
        }))

  pub prepare_session-Inv : Ensures KeepsInv (on_prepare_session bm b req res)
  unfolding on_prepare_session
  prepare_session-Inv = Ensures-or_refuse _ _ _ λ payload _. Ensures-or_refuse _ _ _ λ s _.
      Ensures-ok _ (record {
        sessions_ok =
            SessionsOk-modify (session_is payload.session_id) _ b.sessions (λ s. refl)
              v.sessions_ok;
        pools_ok = v.pools_ok;
        buffers_ok = v.buffers_ok;
        outputs_ok = v.outputs_ok;
      })

  pub destroy_session-Inv : Ensures KeepsInv (on_destroy_session bm b req res)
  unfolding on_destroy_session
  destroy_session-Inv = Ensures-or_refuse _ _ _ λ payload _. Ensures-or_refuse _ _ _ λ s _.
      Ensures-ok _ (
        remove_session-Inv payload.session_id _
          (remove_pools-Inv payload.session_id _ (remove_outputs-Inv payload.session_id b v)))
