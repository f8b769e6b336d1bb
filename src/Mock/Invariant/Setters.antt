-- ===== src/Mock/Invariant/Setters.antt =====
-- The parts of the invariant under the writes that the backend makes.
use vt_ferry.Prelude.{
  ℕ, ◌+◌, ◌≤◌, ◌<◌, ◌≡◌, Bool, List, [], ◌∷◌, ◌++◌, some, arith, length, find_first, modify_first,
  All-map, All-append, All-modify_first, length-append, length-modify_first, Rising-raise,
  Rising-append, Rising-modify_first,
}
use vt_ferry.Mock.State.{MockSession, MockPool, MockBuffer, max_sessions, max_pools}
use vt_ferry.Mock.Handles.{pool_is}
use vt_ferry.Mock.Invariant.Defs.{
  IsPool, HasSlot, SessionsOk, PoolsOk, BuffersOk, session_key, pool_key, buffer_key,
}
use vt_ferry.Mock.Invariant.Slots.{Grows, HasSlot-grow, HasSlot-append, Apart-modify_first}

-- More handles may be given out.
pub SessionsOk-raise : {n m : ℕ} {ss : List MockSession} → n ≤ m → SessionsOk n ss → SessionsOk m ss
SessionsOk-raise {n} {m} {ss} h v = record {
  rise = Rising-raise session_key 1 ss n m h v.rise;
  room = v.room;
}

pub PoolsOk-raise : {n m : ℕ} {ps : List MockPool} → n ≤ m → PoolsOk n ps → PoolsOk m ps
PoolsOk-raise {n} {m} {ps} h v = record {
  rise = Rising-raise pool_key 1 ps n m h v.rise;
  room = v.room;
  each = v.each;
}

pub BuffersOk-raise :
    {n m : ℕ} {ps : List MockPool} {xs : List MockBuffer}
    → n ≤ m
    → BuffersOk n ps xs
    → BuffersOk m ps xs
BuffersOk-raise {n} {m} {ps} {xs} h v = record {
  rise = Rising-raise buffer_key 1 xs n m h v.rise;
  room = v.room;
  each = v.each;
  apart = v.apart;
}

pub SessionsOk-append :
    {n : ℕ} (ss : List MockSession) (s : MockSession)
    → SessionsOk n ss
    → s.id ≡ n
    → length ss < max_sessions
    → SessionsOk (n + 1) (ss ++ s ∷ [])
SessionsOk-append {n} ss s v e h = record {
  rise = Rising-append session_key 1 ss s (n + 1) (rw e v.rise) (omega arith);
  room = omega (arith, length-append ss (s ∷ []));
}

pub SessionsOk-modify :
    {n : ℕ} (p : MockSession → Bool) (f : MockSession → MockSession) (ss : List MockSession)
    → ((s : MockSession) → (f s).id ≡ s.id)
    → SessionsOk n ss
    → SessionsOk n (modify_first p f ss)
SessionsOk-modify {n} p f ss k v = record {
  rise = Rising-modify_first session_key p f 1 ss n (λ s _. k s) v.rise;
  room = omega (arith, v.room, length-modify_first p f ss);
}

pub PoolsOk-append :
    {n : ℕ} (ps : List MockPool) (p : MockPool)
    → PoolsOk n ps
    → p.id ≡ n
    → length ps < max_pools
    → IsPool p
    → PoolsOk (n + 1) (ps ++ p ∷ [])
PoolsOk-append {n} ps p v e h k = record {
  rise = Rising-append pool_key 1 ps p (n + 1) (rw e v.rise) (omega arith);
  room = omega (arith, length-append ps (p ∷ []));
  each = All-append IsPool ps p v.each k;
}

-- A pool that grew takes its place.
pub PoolsOk-set :
    {n : ℕ} (ps : List MockPool) (p q : MockPool)
    → PoolsOk n ps
    → Grows p q
    → IsPool q
    → PoolsOk n (modify_first (pool_is p.id) (λ _. q) ps)
PoolsOk-set {n} ps p q v g k = record {
  rise = Rising-modify_first pool_key (pool_is p.id) (λ _. q) 1 ps n (λ r e. ground arith) v.rise;
  room = omega (arith, v.room, length-modify_first (pool_is p.id) (λ _. q) ps);
  each = All-modify_first IsPool (pool_is p.id) (λ _. q) ps (λ _ _. k) v.each;
}

pub BuffersOk-set :
    {n : ℕ} (ps : List MockPool) (p q : MockPool) (xs : List MockBuffer)
    → Grows p q
    → find_first (pool_is p.id) ps ≡ some p
    → BuffersOk n ps xs
    → BuffersOk n (modify_first (pool_is p.id) (λ _. q) ps) xs
BuffersOk-set ps p q xs g e v = record {
  rise = v.rise;
  room = v.room;
  each = All-map (HasSlot ps) (HasSlot _) xs (λ x. HasSlot-grow ps p q x g e) v.each;
  apart = v.apart;
}

pub BuffersOk-append_pool :
    {n : ℕ} (ps : List MockPool) (p : MockPool) (xs : List MockBuffer)
    → BuffersOk n ps xs
    → BuffersOk n (ps ++ p ∷ []) xs
BuffersOk-append_pool ps p xs v = record {
  rise = v.rise;
  room = v.room;
  each = All-map (HasSlot ps) (HasSlot _) xs (λ x. HasSlot-append ps p x) v.each;
  apart = v.apart;
}

-- What no operation changes of a buffer.
pub record SamePlace (x y : MockBuffer) : Type 0 where
  pub same_id : y.id ≡ x.id
  pub same_pool : y.pool_id ≡ x.pool_id
  pub same_slot : y.slot_index ≡ x.slot_index
  pub same_size : y.total_size ≡ x.total_size

HasSlot-place :
    (ps : List MockPool) (x y : MockBuffer) → SamePlace x y → HasSlot ps x → HasSlot ps y
HasSlot-place ps x y k (p, found, fits, size, pos) =
    (p, rw k.same_pool found, omega arith, omega arith, pos)

pub BuffersOk-modify :
    {n : ℕ} {ps : List MockPool} (p : MockBuffer → Bool) (f : MockBuffer → MockBuffer)
    (xs : List MockBuffer)
    → ((x : MockBuffer) → SamePlace x (f x))
    → BuffersOk n ps xs
    → BuffersOk n ps (modify_first p f xs)
BuffersOk-modify {n} {ps} p f xs k v = record {
  rise = Rising-modify_first buffer_key p f 1 xs n (λ x _. (k x).same_id) v.rise;
  room = omega (arith, v.room, length-modify_first p f xs);
  each = All-modify_first (HasSlot ps) p f xs (λ x. HasSlot-place ps x (f x) (k x)) v.each;
  apart = Apart-modify_first p f xs (λ x. ((k x).same_pool, (k x).same_slot)) v.apart;
}
