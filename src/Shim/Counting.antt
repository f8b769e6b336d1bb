-- ===== src/Shim/Counting.antt =====
-- The reference counts of crates/vt-ferry-shim/src/runtime.rs against a plain count.
use vt_ferry.Prelude.{
  ℕ, ◌+◌, ◌-◌, ◌^◌, ◌<◌, ◌≤◌, ◌≡◌, refl, sym, ap, ◌∙◌, inl, inr, Bool, Bool-cases, Option-cases,
  true, false, ◌==◌, if◌then◌else◌, Option, none, some, List, [], ◌∷◌, ◌++◌, length, arith,
}
use vt_ferry.Mock.PixelLayout.{to_u32}
use vt_ferry.Mock.Handles.{to_u64}
use vt_ferry.Real.Maps.{insert-get, insert-insert}
use vt_ferry.Shim.Runtime.{
  CfTypeRef, VtfCfObject, Runtime, Hooks, put, cf_retain, finish, cf_release,
}

pub data Op : Type 0 where
  retain release : Op

abbrev after_retain : Option (CfTypeRef × Runtime) → Option Runtime
after_retain none = none
after_retain (some (at, rt)) = some rt

-- A plain count of references, which is not asked after it has come to nothing.
unfoldable pub counted : ℕ → List Op → Option ℕ
counted n [] = some n
counted n (retain ∷ ops) = counted (n + 1) ops
counted n (release ∷ ops) = let rest = counted (n - 1) ops in if n == 1 then none else rest

if-false : {A : Type 0} (b : Bool) (x y : A) → b ≡ false → (if b then x else y) ≡ y
if-false true x y e = absurd (cc)
if-false false x y e = refl

module _ (hooks : Hooks) where
  unfoldable pub apply : ℕ → Op → Runtime → Option Runtime
  unfolding cf_retain cf_release
  apply at retain rt = after_retain (cf_retain (some at) rt)
  apply at release rt = cf_release hooks (some at) rt

  unfoldable pub apply_all : ℕ → List Op → Runtime → Option Runtime
  unfolding apply
  apply_all at [] rt = some rt
  apply_all at (op ∷ ops) rt = elim (apply at op rt) [
    | none ↦ none
    | some rt' ↦ apply_all at ops rt'
  ]

  module _ (at : ℕ) (object : VtfCfObject) (rt : Runtime) (dynamic : object.is_static ≡ false) where
    -- The object with a count.
    abbrev pub counting : ℕ → Runtime
    counting n = put at (record object { refcount = n }) rt

    put-counting : (n m : ℕ) → put at (record object { refcount = m }) (counting n) ≡ counting m
    put-counting n m =
        ap (λ objects. record rt { objects = objects })
          (insert-insert at (record object { refcount = n }) (record object { refcount = m })
            rt.objects)

    apply-retain : (n : ℕ) → n + 1 < 2 ^ 32 → apply at retain (counting n) ≡ some (counting (n + 1))
    unfolding apply cf_retain
    apply-retain n room =
        let there = insert-get at (record object { refcount = n }) rt.objects in
        let next : to_u32 (n + 1) ≡ n + 1 = omega (arith, room) in
        rw (there, apply, cf_retain)
          (ap after_retain (
              if-false object.is_static (some (some at, counting n))
                (some (some at, put at (record object { refcount = to_u32 (n + 1) }) (counting n)))
                dynamic)
            ∙ ap some (put-counting n (to_u32 (n + 1)) ∙ ap counting next))

    apply-release :
        (n : ℕ) → 1 < n → n < 2 ^ 32 → apply at release (counting n) ≡ some (counting (n - 1))
    unfolding apply cf_release
    apply-release n more room =
        let there = insert-get at (record object { refcount = n }) rt.objects in
        let next : to_u32 (n + (2 ^ 32 - 1)) ≡ n - 1 = omega (arith, more, room) in
        let others : (n == 1) ≡ false = ground (arith, more) in
        rw (there, cf_release)
          (if-false object.is_static _ _ dynamic
            ∙ if-false (n == 1) _ _ others
            ∙ ap some (put-counting n (to_u32 (n + (2 ^ 32 - 1))) ∙ ap counting next))

    apply-last :
        apply at release (counting 1)
        ≡ some (finish hooks at (record object { refcount = 0 }) (counting 0))
    unfolding apply cf_release
    apply-last =
        let there = insert-get at (record object { refcount = 1 }) rt.objects in
        rw (there, cf_release)
          (if-false object.is_static _ _ dynamic
            ∙ (ap (λ r. some (finish hooks at (record object { refcount = 0 }) r))
                (put-counting 1 0)))

    counting-run :
        (ops : List Op) (n m : ℕ)
        → 0 < n
        → n + length ops < 2 ^ 31
        → counted n ops ≡ some m
        → (apply_all at ops (counting n) ≡ some (counting m)) × (0 < m) × (m ≤ n + length ops)
    unfolding apply_all counted
    counting-run [] n m some_left room e =
        let same : n ≡ m = cc in
        (ap (λ k. some (counting k)) same, omega (arith, same, some_left), omega (arith, same))
    counting-run (retain ∷ ops) n m some_left room e =
        let rest = counting-run ops (n + 1) m (omega arith) (omega (arith, room)) e in
        (rw (apply-retain n (omega (arith, room)), apply_all) rest.0, rest.1, omega (arith, rest.2))
    counting-run (release ∷ ops) n m some_left room e = elim (Bool-cases (n == 1)) [
      | inl one ↦
          let gone : counted n (release ∷ ops) ≡ none = rw (one, counted) refl in absurd (cc)
      | inr more ↦
          let others : 1 < n = ground (arith, more, some_left) in
          let left : counted n (release ∷ ops) ≡ counted (n - 1) ops = rw (more, counted) refl in
          let rest =
            counting-run ops (n - 1) m (omega (arith, others)) (omega (arith, room))
              (sym left ∙ e) in
          (
            rw (apply-release n others (omega (arith, room)), apply_all) rest.0,
            rest.1,
            omega (arith, rest.2, others),
          )
    ]

    apply_all-append :
        (ops : List Op) (op : Op) (r r' : Runtime)
        → apply_all at ops r ≡ some r'
        → apply_all at (ops ++ op ∷ []) r ≡ apply_all at (op ∷ []) r'
    unfolding apply_all
    apply_all-append [] op r r' e = let same : r ≡ r' = cc in ap (apply_all at (op ∷ [])) same
    apply_all-append (o ∷ ops) op r r' e = elim (Option-cases (apply at o r)) [
      | inl n ↦ let stop : apply_all at (o ∷ ops) r ≡ none = rw (n, apply_all) refl in absurd (cc)
      | inr (r'', n) ↦
          let step : apply_all at (o ∷ ops) r ≡ apply_all at ops r'' = rw (n, apply_all) refl in
          rw (n, apply_all) (apply_all-append ops op r'' r' (sym step ∙ e))
    ]

    -- What the hook of the object, if it has one, makes of the memory once no reference is left.
    abbrev pub hooked : Runtime
    hooked = elim object.finalize [ none ↦ counting 0 | some fin ↦ hooks fin at (counting 0) ]

    -- The last release, with the count of the living as a number.
    apply-final :
        0 < hooked.proxy_alive
        → hooked.proxy_alive < 2 ^ 64
        → apply at release (counting 1)
          ≡ some (record hooked { proxy_alive = hooked.proxy_alive - 1 })
    unfolding finish
    apply-final living room =
        let fewer : to_u64 (hooked.proxy_alive + (2 ^ 64 - 1)) ≡ hooked.proxy_alive - 1 =
          omega (arith, living, room) in
        apply-last ∙ ap (λ k. some (record hooked { proxy_alive = k })) fewer

    -- An object that is not static lives exactly as long as it is referred to. Retains and releases that leave references
    -- change its count alone, and call no hook. One release more lowers the count again, unless the
    -- reference was the last: then the hook of the object, if it has one, is called once, on the object
    -- without references, and after it the count of the living is one less. Fewer than 2 ^ 31 references
    -- are counted, and the hook leaves a count of the living that is not zero and is
    -- below 2 ^ 64.
    pub cf_release-last :
        (ops : List Op) (n m : ℕ)
        → 0 < n
        → n + length ops < 2 ^ 31
        → counted n ops ≡ some m
        → 0 < hooked.proxy_alive
        → hooked.proxy_alive < 2 ^ 64
        → (apply_all at ops (counting n) ≡ some (counting m))
          × (apply_all at (ops ++ release ∷ []) (counting n)
              ≡ some (
                  if m == 1
                  then record hooked { proxy_alive = hooked.proxy_alive - 1 }
                  else counting (m - 1)))
    unfolding apply_all
    cf_release-last ops n m some_left room e living alive_room =
        let run = counting-run ops n m some_left room e in
        let more = apply_all-append ops release (counting n) (counting m) run.0 in
        (
          run.0,
          elim (Bool-cases (m == 1)) [
            | inl one ↦
                let same : m ≡ 1 = ground (arith, one) in
                rw one (
                  more
                  ∙ ap (λ k. apply_all at (release ∷ []) (counting k)) same
                  ∙ rw (apply-final living alive_room, apply_all) refl)
            | inr others ↦
                let several : 1 < m = ground (arith, others, run.1) in
                rw others
                  (more ∙ rw (apply-release m several (omega (arith, room, run.2)), apply_all) refl)
          ],
        )
