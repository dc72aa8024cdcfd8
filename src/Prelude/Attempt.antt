-- ===== src/Prelude/Attempt.antt =====
-- Calls made one behind the other, any of which may raise: the first that does ends them.
use mathlib.Core.Path.{◌≡◌, refl, sym, ap, ◌∙◌}
use mathlib.Core.Logic.{◌⊎◌, inl, inr}
use mathlib.Core.Option.{Option, none, some}
use mathlib.Core.List.{List, [], ◌∷◌, ◌++◌, append-nil, append_assoc}
use ros_tcp_endpoint.Prelude.Tests.{Option-cases}
use ros_tcp_endpoint.Prelude.Result.{Exc, ok, err}
use ros_tcp_endpoint.Prelude.Exec.{Exec, ◌>>◌}

module _ {ℓ} {Call : Type ℓ} (fails : Call → Option Exc) where
  -- A call that returns is in the trace; one that raises did nothing.
  unfoldable pub attempt : Call → Exec (List Call) (Unit {0})
  attempt c made = elim (fails c) [ none ↦ (ok tt, made ++ c ∷ []) | some e ↦ (err e, made) ]

  unfoldable pub attempts : List Call → Exec (List Call) (Unit {0})
  unfolding attempt
  attempts [] made = (ok tt, made)
  attempts (c ∷ cs) made = (do attempt c; attempts cs) made

  -- All of the calls return.
  abbrev pub AllPass : List Call → Type 0
  AllPass [] = Unit {0}
  AllPass (c ∷ cs) = (fails c ≡ none) × AllPass cs

  -- The calls were cut short by the first that raised.
  pub record IsCut (calls made : List Call) (raised : Exc) : Type ℓ where
    pub failed : Call
    pub after : List Call
    pub split : calls ≡ made ++ failed ∷ after
    pub passed : AllPass made
    pub raises : fails failed ≡ some raised

  attempts-first :
      (c : Call) (cs made : List Call)
      → fails c ≡ none
      → attempts (c ∷ cs) made ≡ attempts cs (made ++ c ∷ [])
  unfolding attempts attempt
  attempts-first c cs made e = rw (e, attempt) refl

  attempts-stop :
      (c : Call) (cs made : List Call) (e : Exc)
      → fails c ≡ some e
      → attempts (c ∷ cs) made ≡ (err e, made)
  unfolding attempts attempt
  attempts-stop c cs made e h = rw (h, attempt) refl

  -- Either all calls are made and return, or those before the first that raises.
  pub attempts-cases :
      (cs made : List Call)
      → (AllPass cs × (attempts cs made ≡ (ok tt, made ++ cs)))
        ⊎ ((before : List Call) × (raised : Exc) × IsCut cs before raised
            × (attempts cs made ≡ (err raised, made ++ before)))
  unfolding attempts
  attempts-cases [] made = inl (tt, ap (λ m. (ok tt, m)) (sym (append-nil made)))
  attempts-cases (c ∷ cs) made = elim (Option-cases (fails c)) [
    | inr (e, h) ↦ inr (
      [],
      e,
      record { failed = c; after = cs; split = refl; passed = tt; raises = h },
      attempts-stop c cs made e h ∙ ap (λ m. (err e, m)) (sym (append-nil made)),
    )
    | inl h ↦ elim (attempts-cases cs (made ++ c ∷ [])) [
      | inl (all, e) ↦ inl (
        (h, all),
        attempts-first c cs made h ∙ e ∙ ap (λ m. (ok tt, m)) (append_assoc made (c ∷ []) cs),
      )
      | inr (before, raised, cut, e) ↦ inr (
        c ∷ before,
        raised,
        record {
          failed = cut.failed;
          after = cut.after;
          split = ap (λ m. c ∷ m) cut.split;
          passed = (h, cut.passed);
          raises = cut.raises;
        },
        attempts-first c cs made h
            ∙ e
            ∙ ap (λ m. (err raised, m)) (append_assoc made (c ∷ []) before),
      )
    ]
  ]
