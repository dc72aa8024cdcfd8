-- ===== src/Ros/Nodes/Fields.antt =====
-- unity_service.py: the fields of a response that was filled.
use ros_tcp_endpoint.Prelude.{
  ◌≡◌, refl, Bool, true, false, List, [], ◌∷◌, Text, text_eq, if◌then◌else◌, ◌||◌, ◌∙◌,
}
use ros_tcp_endpoint.Prelude.Dict.{Text_eq, beq_refl}
use ros_tcp_endpoint.Platform.{Platform}
use ros_tcp_endpoint.Ros.Nodes.{copy_fields}

abbrev pub has_name : List Text → Text → Bool
has_name [] name = false
has_name (n ∷ names) name = text_eq n name || has_name names name

or_right : (a b : Bool) → b ≡ true → (a || b) ≡ true
or_right true b h = refl
or_right false b h = h

choose :
    {A : Type 0} (a b : Bool) (new old now : A)
    → now ≡ (if a then new else old)
    → (if b then new else now) ≡ (if a || b then new else old)
choose true true new old now h = refl
choose true false new old now h = h
choose false true new old now h = refl
choose false false new old now h = h

module _ (P : Platform) (result : P.Message)
    (written : (m : P.Message) (f g : Text)
      → P.field_names m ≡ P.field_names result
      → has_name (P.field_names result) f ≡ true
      → P.read_field (P.write_field m f (P.read_field result f)) g
        ≡ (if text_eq f g then P.read_field result g else P.read_field m g))
    (kept : (m : P.Message) (f : Text)
      → P.field_names m ≡ P.field_names result
      → has_name (P.field_names result) f ≡ true
      → P.field_names (P.write_field m f (P.read_field result f)) ≡ P.field_names result) where
  copied :
      (names : List Text) (m : P.Message) (g : Text)
      → ((f : Text) → has_name names f ≡ true → has_name (P.field_names result) f ≡ true)
      → P.field_names m ≡ P.field_names result
      → P.read_field (copy_fields P result names m) g
        ≡ (if has_name names g then P.read_field result g else P.read_field m g)
  unfolding copy_fields
  copied [] m g among same = refl
  copied (n ∷ names) m g among same =
      let inside = among n (rw (beq_refl n) refl) in
      let rest =
        copied names (P.write_field m n (P.read_field result n)) g
          (λ f h. among f (or_right (text_eq n f) (has_name names f) h)) (kept m n same inside) in
      rest ∙ choose (text_eq n g) (has_name names g) _ _ _ (written m n g same inside)

  -- The response has the result's fields, and keeps what is no field of the result.
  pub filled :
      (response : P.Message) (g : Text)
      → P.field_names response ≡ P.field_names result
      → P.read_field (copy_fields P result (P.field_names result) response) g ≡ (
          if has_name (P.field_names result) g
          then P.read_field result g
          else P.read_field response g)
  filled response g same = copied (P.field_names result) response g (λ f h. h) same
