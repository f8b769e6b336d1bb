-- ===== src/Mock/Transfer.antt =====
-- Reading a request and answering it: `read_pod`, `write_pod` and `write_pod_and_bytes` of
-- crates/vt-ferry-worker/src/mock.rs, and the ways in which `dispatch` returns.
use vt_ferry.Prelude.{
  ℕ, ◌+◌, Bool, true, false, ltb, if◌then◌else◌, Option, none, some, List, ◌++◌, take, drop, length,
}
use vt_ferry.Protocol.Wire.{Layout, size_of, Bytemuck}
use vt_ferry.Mock.State.{MockBackend}

-- What a call of `dispatch` leaves behind: the backend, the status of the response header (all else of
-- that header stays zeroed), the response buffer, and Ok with a length (`some`) or Err (`none`).
pub record Outcome : Type 0 where
  pub backend : MockBackend
  pub status : ℕ
  pub res_payload : List ℕ
  pub result : Option ℕ

-- The tests before the first change of state: `err` sets the status and returns Err.
pub data Check {ℓ} (A : Type ℓ) : Type ℓ where
  ok : A → Check A
  err : ℕ → Check A

infixl 5 ◌>>=◌ ◌>>◌
unfoldable pub ◌>>=◌ {ℓ κ} : {A : Type ℓ} {B : Type κ} → Check A → (A → Check B) → Check B
ok a >>= f = f a
err s >>= f = err s

unfoldable pub ◌>>◌ {ℓ} : {B : Type ℓ} → Check (Unit {0}) → Check B → Check B
unfolding ◌>>=◌
m >> k = m >>= λ _. k

-- Goes on if the test fails, as after `if test { status = s; return Err(()) }`.
unfoldable pub refuse_if : Bool → ℕ → Check (Unit {0})
refuse_if true s = err s
refuse_if false s = ok tt

-- `let Some(a) = o else { status = s; return Err(()) }`
unfoldable pub or_refuse {ℓ} : {A : Type ℓ} → Option A → ℕ → Check A
or_refuse none s = err s
or_refuse (some a) s = ok a

-- Err with a status.
abbrev pub failed : MockBackend → List ℕ → ℕ → Outcome
failed b res s = record { backend = b; status = s; res_payload = res; result = none }

-- Ok(0)
abbrev pub done : MockBackend → List ℕ → Outcome
done b res = record { backend = b; status = 0; res_payload = res; result = some 0 }

-- The return of a write into the response buffer, which sets no status.
abbrev pub respond : MockBackend → List ℕ × Option ℕ → Outcome
respond b (res, result) = record { backend = b; status = 0; res_payload = res; result = result }

abbrev pub settle : MockBackend → List ℕ → Check Outcome → Outcome
settle b res (ok o) = o
settle b res (err s) = failed b res s

module _ (bm : Bytemuck) {A : Type 0} (l : Layout A) where
  unfoldable pub read_pod : List ℕ → Option A
  read_pod bytes =
      if ltb (length bytes) (size_of l)
      then none
      else some (bm.pod_read_unaligned l (take (size_of l) bytes))

  unfoldable pub write_pod : List ℕ → A → List ℕ × Option ℕ
  write_pod res_payload reply =
      if ltb (length res_payload) (size_of l)
      then (res_payload, none)
      else (bm.bytes_of l reply ++ drop (size_of l) res_payload, some (size_of l))

  unfoldable pub write_pod_and_bytes : List ℕ → A → List ℕ → List ℕ × Option ℕ
  write_pod_and_bytes res_payload reply extra_bytes =
      let total_size = size_of l + length extra_bytes in
      if ltb (length res_payload) total_size
      then (res_payload, none)
      else (bm.bytes_of l reply ++ (extra_bytes ++ drop total_size res_payload), some total_size)
