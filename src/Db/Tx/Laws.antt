-- ===== src/Db/Tx/Laws.antt =====
-- What `WithTx` keeps.
use system_of_adownload.Prelude.{Bool-cases, Text, ap, arith, inl, inr, refl, sym, ℕ, ◌∙◌, ◌≡◌, ◌⊎◌}
use system_of_adownload.Db.Models.{Store}
use system_of_adownload.Db.Tx.{Error, Result, ok, err, Db, after, Faults, ask, with_tx}

-- A transaction that returns an error leaves the database as it was.
pub with_tx-rollback {ℓ} :
    {A : Type ℓ} (fails : Faults) (fn : Db A) (s s' : Store) (e : Error)
    → with_tx fails fn s ≡ (err e, s')
    → s' ≡ s
unfolding with_tx
with_tx-rollback fails fn s s' e h = ground arith

-- What a transaction leaves is the store before it or what its function makes of it.
pub with_tx-cases {ℓ} :
    {A : Type ℓ} (fails : Faults) (fn : Db A) (s : Store)
    → ((with_tx fails fn s).1 ≡ s) ⊎ (with_tx fails fn s ≡ fn s)
unfolding with_tx
with_tx-cases fails fn s = ground arith

-- A transaction that succeeds has run its function and kept what it did.
pub with_tx-ok {ℓ} :
    {A : Type ℓ} (fails : Faults) (fn : Db A) (s s' : Store) (a : A)
    → with_tx fails fn s ≡ (ok a, s')
    → fn s ≡ (ok a, s')
unfolding with_tx
with_tx-ok fails fn s s' a h = ground arith

-- What follows a call, where the call's result is known.
pub after-ok {ℓ κ} :
    {A : Type ℓ} {B : Type κ} (f : A → Db B) {a : A} {t : Store} {m : Result A × Store}
    {r : Result B × Store}
    → m ≡ (ok a, t)
    → after f m ≡ r
    → f a t ≡ r
after-ok f e h = sym (ap (after f) e) ∙ h

pub after-err {ℓ κ} :
    {A : Type ℓ} {B : Type κ} (f : A → Db B) {e : Error} {t t' : Store} {m : Result A × Store}
    {b : B}
    → m ≡ (err e, t)
    → after f m ≡ (ok b, t')
    → ⊥
after-err f e h = absurd (cc (sym (ap (after f) e) ∙ h))

-- A chain of two calls that succeeds: what the first gives, and that the second succeeds with it.
pub after-split {ℓ κ} :
    {A : Type ℓ} {B : Type κ} (f : A → Db B) (m : Result A × Store) (b : B) (t : Store)
    → after f m ≡ (ok b, t)
    → (a : A) × (s : Store) × (m ≡ (ok a, s)) × (f a s ≡ (ok b, t))
after-split f (ok a, s) b t h = (a, s, refl, h)
after-split f (err e, s) b t h = absurd cc

-- What a part of the store is after two calls of which neither changes it.
pub after-keeps {ℓ κ ι} :
    {A : Type ℓ} {B : Type κ} {X : Type ι} (g : Store → X) (f : A → Db B) (m : Result A × Store)
    → ((a : A) (t : Store) → g (f a t).1 ≡ g t)
    → g (after f m).1 ≡ g m.1
after-keeps g f (ok a, s) h = h a s
after-keeps g f (err e, s) h = refl

value_or {ℓ} : {A : Type ℓ} → A → Result A → A
value_or a (ok b) = b
value_or a (err e) = a

pub ok-injective {ℓ} :
    {A : Type ℓ} (a b : A) (s t : Store)
    → ◌≡◌ {A = Result A × Store} (ok a, s) (ok b, t)
    → (b ≡ a) × (t ≡ s)
unfolding value_or
ok-injective a b s t h = (sym (ap (λ r. value_or a r.0) h), sym (ap (λ r. r.1) h))

err-ok {ℓ} :
    {A : Type ℓ} {e : Error} {s t : Store} {a : A}
    → ◌≡◌ {A = Result A × Store} (err e, s) (ok a, t)
    → ⊥
err-ok h = cc

pub ask-ok {ℓ} :
    {A : Type ℓ} (fails : Faults) (name : Text) (i : ℕ) (m : Db A) (s : Store) (a : A) (t : Store)
    → ask fails name i m s ≡ (ok a, t)
    → m s ≡ (ok a, t)
ask-ok fails name i m s a t h = elim (Bool-cases (fails name i)) [
  | inl e ↦ absurd (err-ok (rw e at h))
  | inr e ↦ rw e at h
]
