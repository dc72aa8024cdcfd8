-- ===== src/Struct/RoundTrip.antt =====
-- Packing and unpacking are inverse on the values that fit.
use native.Mathlib.Nat.{pow-suc}
use ros_tcp_endpoint.Prelude.{
  ℕ, zero, suc, ◌-◌, ◌/◌, ◌^◌, ◌<◌, ◌≡◌, refl, ap, ap₂, subst, [], ◌∷◌, Bytes, All, length, arith,
  Bool-cases, inl, inr, ltb→lt, ltb,
}
use ros_tcp_endpoint.Prelude.Result.{ok}
use ros_tcp_endpoint.Struct.{le_bytes, of_le, pack_unsigned, pack_i32, unpack_i32}
use ros_tcp_endpoint.Struct.Int.{ℤ, pos, negsuc}

abbrev pub IsBytes : Bytes → Type 0
IsBytes = All (λ b. b < 256)

pub length-le_bytes : (w n : ℕ) → length (le_bytes w n) ≡ w
unfolding le_bytes
length-le_bytes zero n = refl
length-le_bytes (suc w) n = ap suc (length-le_bytes w (n / 256))

pub le_bytes-IsBytes : (w n : ℕ) → IsBytes (le_bytes w n)
unfolding le_bytes
le_bytes-IsBytes zero n = tt
le_bytes-IsBytes (suc w) n = (omega arith, le_bytes-IsBytes w (n / 256))

pub of_le-le_bytes : (w n : ℕ) → n < 256 ^ w → of_le (le_bytes w n) ≡ n
unfolding le_bytes of_le
of_le-le_bytes zero n h = omega arith
of_le-le_bytes (suc w) n h =
    omega (arith, of_le-le_bytes w (n / 256) (omega (arith, pow-suc 256 w)))

pub of_le-lt : (bs : Bytes) → IsBytes bs → of_le bs < 256 ^ length bs
unfolding of_le
of_le-lt [] h = omega arith
of_le-lt (b ∷ bs) h = omega (arith, of_le-lt bs h.1, h.0, pow-suc 256 (length bs))

pub le_bytes-of_le : (bs : Bytes) → IsBytes bs → le_bytes (length bs) (of_le bs) ≡ bs
unfolding le_bytes of_le
le_bytes-of_le [] h = refl
le_bytes-of_le (b ∷ bs) h =
    ap₂ ◌∷◌ (omega (arith, h.0))
      (subst (λ n. le_bytes (length bs) n ≡ bs) (omega (arith, h.0)) (le_bytes-of_le bs h.1))

pub unpack_i32-le_bytes : (n : ℕ) → n < 2 ^ 31 → unpack_i32 (le_bytes 4 n) ≡ pos n
unfolding unpack_i32
unpack_i32-le_bytes n h = ground (arith, of_le-le_bytes 4 n)

-- What `<i` packs, `<i` unpacks.
pub unpack_i32-pack_i32 : (z : ℤ) (bs : Bytes) → pack_i32 z ≡ ok bs → unpack_i32 bs ≡ z
unfolding pack_i32 unpack_i32
unpack_i32-pack_i32 (pos n) bs h = ground (arith, of_le-le_bytes 4 n)
unpack_i32-pack_i32 (negsuc n) bs h = ground (arith, of_le-le_bytes 4 (2 ^ 32 - 1 - n))

-- A value that is packed fits, and its bytes are the `w` lowest.
pub pack_unsigned-ok :
    (w n : ℕ) (bs : Bytes) → pack_unsigned w n ≡ ok bs → (n < 256 ^ w) × (bs ≡ le_bytes w n)
unfolding pack_unsigned
pack_unsigned-ok w n bs h = elim (Bool-cases (ltb n (256 ^ w))) [
  | inl e ↦ (ltb→lt n (256 ^ w) e, cc (rw e at h))
  | inr e ↦ absurd (cc (rw e at h))
]
