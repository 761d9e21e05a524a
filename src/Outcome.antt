-- ===== src/Outcome.antt =====
-- What a Go call comes to: a value, an error value, or a run-time panic (a slice or an index out of
-- range).
use ipadecrypt.Prelude.{◌≡◌, ◌⊎◌, inl, inr, refl}

pub data Outcome {κ ℓ} (E : Type κ) (A : Type ℓ) : Type (κ ⊔ ℓ) where
  ok : A → Outcome E A
  err : E → Outcome E A
  panic : Outcome E A

module _ {κ ℓ} {E : Type κ} {A : Type ℓ} where
  infixl 5 ◌>>=◌
  abbrev pub ◌>>=◌ {μ} : {B : Type μ} → Outcome E A → (A → Outcome E B) → Outcome E B
  ok a >>= f = f a
  err e >>= f = err e
  panic >>= f = panic

  -- The call returns, with a value or with an error.
  abbrev pub Returns : Outcome E A → Type 0
  Returns (ok a) = Unit {0}
  Returns (err e) = Unit {0}
  Returns panic = ⊥

  pub Outcome-cases :
      (m : Outcome E A) → ((a : A) × (m ≡ ok a)) ⊎ ((e : E) × (m ≡ err e)) ⊎ (m ≡ panic)
  Outcome-cases (ok a) = inl (a, refl)
  Outcome-cases (err e) = inr (inl (e, refl))
  Outcome-cases panic = inr (inr refl)

  pub >>=-eq-ok {μ} :
      {B : Type μ} (first : Outcome E A) (next : A → Outcome E B) {res : B}
      → first >>= next ≡ ok res
      → (v : A) × (first ≡ ok v) × (next v ≡ ok res)
  >>=-eq-ok (ok v) next e = (v, refl, e)
  >>=-eq-ok (err _) next e = cc
  >>=-eq-ok panic next e = cc

-- `v, err := m; if err != nil { … }`: the error is handled, and a panic goes on.
abbrev pub attempt {κ ℓ μ ν} :
    {E : Type κ} {A : Type ℓ} {F : Type μ} {B : Type ν}
    → Outcome E A
    → (A → Outcome F B)
    → (E → Outcome F B)
    → Outcome F B
attempt (ok a) f h = f a
attempt (err e) f h = h e
attempt panic f h = panic
