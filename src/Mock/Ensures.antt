-- ===== src/Mock/Ensures.antt =====
-- What a chain of checks guarantees of its outcome, with one rule for each step of a chain.
use vt_ferry.Prelude.{ℕ, ◌≡◌, refl, subst, Bool, true, false, Option, none, some, List}
use vt_ferry.Mock.State.{MockBackend}
use vt_ferry.Mock.Transfer.{Check, ok, err, ◌>>=◌, ◌>>◌, refuse_if, or_refuse, Outcome, settle}

-- If no check refuses, `P` holds of the outcome.
pub record Ensures {ℓ κ} {A : Type ℓ} (P : A → Type κ) (c : Check A) : Type (ℓ ⊔ κ) where
  pub holds : (a : A) → c ≡ ok a → P a

module _ {ℓ κ} {A : Type ℓ} {P : A → Type κ} where
  pub Ensures-ok : (a : A) → P a → Ensures P (ok a)
  Ensures-ok a h = record { holds = λ a' e. subst P (ok_inj e) h }
    where
      ok_inj : {x y : A} → ok x ≡ ok y → x ≡ y
      ok_inj e = cc

  pub Ensures-err : (s : ℕ) → Ensures P (err s)
  Ensures-err s = record { holds = λ a e. absurd (cc) }

  pub Ensures-refuse_if :
      (t : Bool) (s : ℕ) (k : Check A) → (t ≡ false → Ensures P k) → Ensures P (refuse_if t s >> k)
  unfolding ◌>>◌ refuse_if
  Ensures-refuse_if true s k h = Ensures-err s
  Ensures-refuse_if false s k h = h refl

  pub Ensures-or_refuse {μ} :
      {B : Type μ} (o : Option B) (s : ℕ) (k : B → Check A)
      → ((x : B) → o ≡ some x → Ensures P (k x))
      → Ensures P (or_refuse o s >>= k)
  unfolding ◌>>=◌ or_refuse
  Ensures-or_refuse none s k h = Ensures-err s
  Ensures-or_refuse (some x) s k h = h x refl

-- A chain that is a step of another.
pub Ensures->>= {ℓ κ μ ν} :
    {A : Type ℓ} {B : Type κ} {P : A → Type μ} {Q : B → Type ν} (c : Check A) (k : A → Check B)
    → Ensures P c
    → ((a : A) → P a → Ensures Q (k a))
    → Ensures Q (c >>= k)
unfolding ◌>>=◌
Ensures->>= (ok a) k h f = f a (h.holds a refl)
Ensures->>= (err s) k h f = Ensures-err s

-- The outcome of the whole arm: that of the chain, or the state as it was.
pub Ensures-settle {κ} :
    (P : MockBackend → Type κ) (b : MockBackend) (res : List ℕ) (c : Check Outcome)
    → P b
    → Ensures (λ (o : Outcome). P o.backend) c
    → P (settle b res c).backend
Ensures-settle P b res (ok o) h e = e.holds o refl
Ensures-settle P b res (err s) h e = h

pub Ensures-any {ℓ} : {A : Type ℓ} (c : Check A) → Ensures (λ (_ : A). Unit {0}) c
Ensures-any c = record { holds = λ _ _. tt }
