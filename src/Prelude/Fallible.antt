-- ===== src/Prelude/Fallible.antt =====
-- `v, ok := f(); if !ok { return … }` over Option.
use mathlib.Core.Option.{Option, none, some}

infixl 5 ◌>>=◌
abbrev pub ◌>>=◌ {ℓ μ} : {A : Type ℓ} {B : Type μ} → Option A → (A → Option B) → Option B
none >>= f = none
some a >>= f = f a
