-- ===== src/Mock/Invariant/Removal.antt =====
-- What DESTROY_SESSION takes away: the loop that removes the buffers of the removed pools is one filter,
-- and it spares the buffers of the other pools.
use mathlib.Core.Path.{fun_ext}
use vt_ferry.Prelude.{
  ℕ, ◌+◌, ◌<◌, ◌≡◌, refl, ap, ◌∙◌, Bool, true, false, not, ◌==◌, ◌&&◌, ◌||◌, some, List, [], ◌∷◌,
  map, arith, find_first, retain, Rising,
}
use vt_ferry.Mock.State.{MockBackend, MockPool, MockBuffer}
use vt_ferry.Mock.Handles.{pool_is}
use vt_ferry.Mock.SessionOps.{remove_buffers_for_pool, remove_buffers_for_pools}
use vt_ferry.Mock.Invariant.Defs.{pool_key}

-- Whether a list of handles holds one.
unfoldable pub contains : List ℕ → ℕ → Bool
contains [] k = false
contains (i ∷ ids) k = k == i || contains ids k

retain-retain :
    (p q : MockBuffer → Bool) (xs : List MockBuffer)
    → retain p (retain q xs) ≡ retain (λ x. q x && p x) xs
unfolding retain
retain-retain p q [] = refl
retain-retain p q (x ∷ xs) = ground (arith, retain-retain p q xs)

retain_ext :
    (p q : MockBuffer → Bool) (xs : List MockBuffer)
    → ((x : MockBuffer) → p x ≡ q x)
    → retain p xs ≡ retain q xs
retain_ext p q xs h = ap (λ t. retain t xs) (fun_ext h)

retain_all : (xs : List MockBuffer) → retain (λ _. true) xs ≡ xs
unfolding retain
retain_all [] = refl
retain_all (x ∷ xs) = ap (λ t. x ∷ t) (retain_all xs)

-- The loop over the removed pools is one filter.
pub remove_buffers_for_pools_lem :
    (ids : List ℕ) (b : MockBackend)
    → remove_buffers_for_pools ids b
      ≡ record b { buffers = retain (λ x. not (contains ids x.pool_id)) b.buffers }
unfolding remove_buffers_for_pools remove_buffers_for_pool contains
remove_buffers_for_pools_lem [] b = rw (retain_all b.buffers)
remove_buffers_for_pools_lem (i ∷ ids) b =
    remove_buffers_for_pools_lem ids (remove_buffers_for_pool i b)
    ∙ ap (λ (xs : List MockBuffer). record b { buffers = xs })
        (retain-retain _ _ b.buffers ∙ retain_ext _ _ b.buffers (λ x. ground arith))

contains-below :
    (sid k : ℕ) (ps : List MockPool) (lo hi : ℕ)
    → Rising pool_key lo ps hi
    → k < lo
    → contains (map (λ q. q.id) (retain (λ q. q.session_id == sid) ps)) k ≡ false
unfolding contains retain
contains-below sid k [] lo hi r e = refl
contains-below sid k (h ∷ ps) lo hi r e = ground (arith, contains-below sid k ps (h.id + 1) hi r.1)

-- A pool that is found and not removed is none of the removed ones.
pub contains-removed :
    (sid k : ℕ) (ps : List MockPool) (lo hi : ℕ) {p : MockPool}
    → Rising pool_key lo ps hi
    → find_first (pool_is k) ps ≡ some p
    → contains (map (λ q. q.id) (retain (λ q. q.session_id == sid) ps)) k ≡ (p.session_id == sid)
unfolding contains find_first retain
contains-removed sid k [] lo hi r e = cc
contains-removed sid k (h ∷ ps) lo hi {p} r e = ground (
  arith,
  contains-below sid k ps (h.id + 1) hi r.1,
  contains-removed sid k ps (h.id + 1) hi {p = p} r.1,
)
