-- ===== src/Text/Parts.antt =====
-- Laws of `in` and `lower`.
use ros_tcp_endpoint.Prelude.{◌≡◌, refl, true, [], ◌∷◌, ◌++◌, Text, arith, ap₂}
use ros_tcp_endpoint.Text.{starts_with, contains, lower}

contains_of_start : (s q : Text) → starts_with s q ≡ true → contains s q ≡ true
unfolding contains
contains_of_start [] q h = h
contains_of_start (c ∷ s) q h = ground arith

contains_of_starts_with : (s p q : Text) → starts_with s (p ++ q) ≡ true → contains s q ≡ true
unfolding contains
contains_of_starts_with s [] q h = contains_of_start s q h
contains_of_starts_with [] (d ∷ p) q h = absurd (cc)
contains_of_starts_with (c ∷ s) (d ∷ p) q h = ground (arith, contains_of_starts_with s p q)

-- A text that holds `p ++ q` holds `q`.
pub contains_suffix : (s p q : Text) → contains s (p ++ q) ≡ true → contains s q ≡ true
unfolding contains
contains_suffix [] p q h = contains_of_starts_with [] p q h
contains_suffix (c ∷ s) p q h =
    ground (arith, contains_of_starts_with (c ∷ s) p q, contains_suffix s p q)

pub lower_idem : (s : Text) → lower (lower s) ≡ lower s
unfolding lower
lower_idem [] = refl
lower_idem (c ∷ s) = ap₂ ◌∷◌ (ground arith) (lower_idem s)
