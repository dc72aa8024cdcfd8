-- ===== src/Prelude/Run.antt =====
-- Computations that read from a source `S` and may raise; after a raise the source is not used.
use ros_tcp_endpoint.Prelude.Result.{Exc, Result, ok, err}

abbrev pub Run {ℓ κ} : Type ℓ → Type κ → Type (ℓ ⊔ κ)
Run S A = S → Result (A × S)

module _ {ℓ κ} {S : Type ℓ} {A : Type κ} where
  abbrev pub pure : A → Run S A
  pure a s = ok (a, s)

  abbrev pub raise : Exc → Run S A
  raise e s = err e

  abbrev pub lift : Result A → Run S A
  lift (ok a) s = ok (a, s)
  lift (err e) s = err e

infixl 5 ◌>>=◌
abbrev pub ◌>>=◌ {ℓ κ μ} :
    {S : Type ℓ} {A : Type κ} {B : Type μ} → Run S A → (A → Run S B) → Run S B
◌>>=◌ m f s = elim (m s) [ ok (a, s') ↦ f a s' | err e ↦ err e ]
