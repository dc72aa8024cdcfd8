-- ===== src/Prelude/Keeps.antt =====
-- Invariants of methods: one rule for each way to build a method.
use mathlib.Core.Path.{◌≡◌, refl}
use mathlib.Core.Bool.{Bool, true, false}
use ros_tcp_endpoint.Prelude.Tests.{if◌then◌else◌}
use ros_tcp_endpoint.Prelude.Result.{Exc, Result, ok, err}
use ros_tcp_endpoint.Prelude.Exec.{Exec, pure, raise, lift, gets, ◌>>=◌}

-- Whether `m` returns or raises, it leaves `Inv` true.
pub record Keeps {ℓ κ μ} {S : Type ℓ} {A : Type κ} (Inv : S → Type μ) (m : Exec S A)
    : Type (ℓ ⊔ μ) where
  pub at : (s : S) → Inv s → Inv (m s).1

module _ {ℓ κ μ} {S : Type ℓ} {A : Type κ} {Inv : S → Type μ} where
  pub Keeps-pure : (a : A) → Keeps Inv (pure {S = S} a)
  Keeps-pure a = record { at = λ s h. h }

  pub Keeps-raise : (e : Exc) → Keeps Inv (raise {S = S} {A = A} e)
  Keeps-raise e = record { at = λ s h. h }

  pub Keeps-lift : (r : Result A) → Keeps Inv (lift {S = S} r)
  Keeps-lift r = record { at = λ s h. h }

  pub Keeps-gets : (f : S → A) → Keeps Inv (gets f)
  Keeps-gets f = record { at = λ s h. h }

  pub Keeps-if :
      (b : Bool) (m n : Exec S A) → Keeps Inv m → Keeps Inv n → Keeps Inv (if b then m else n)
  Keeps-if true m n hm hn = hm
  Keeps-if false m n hm hn = hn

module _ {ℓ κ ι μ} {S : Type ℓ} {A : Type κ} {B : Type ι} {Inv : S → Type μ} where
  continue_keeps :
      (r : Result A) (f : A → Exec S B) (s : S)
      → ((a : A) → Keeps Inv (f a))
      → Inv s
      → Inv (◌>>=◌ (λ (_ : S). (r, s)) f s).1
  continue_keeps (ok a) f s k h = (k a).at s h
  continue_keeps (err e) f s k h = h

  pub Keeps-bind :
      (m : Exec S A) (f : A → Exec S B)
      → Keeps Inv m
      → ((a : A) → Keeps Inv (f a))
      → Keeps Inv (m >>= f)
  Keeps-bind m f hm hf = record { at = λ s h. continue_keeps (m s).0 f (m s).1 hf (hm.at s h) }

  -- What a step that only computes returned is known to the rest.
  pub Keeps-lift_bind :
      (r : Result A) (f : A → Exec S B)
      → ((a : A) → r ≡ ok a → Keeps Inv (f a))
      → Keeps Inv (lift r >>= f)
  Keeps-lift_bind (ok a) f k = record { at = (k a refl).at }
  Keeps-lift_bind (err e) f k = record { at = λ s h. h }

pub ruleset keeps_rules = (Keeps-pure, Keeps-raise, Keeps-lift, Keeps-gets, Keeps-if, Keeps-bind)
