-- ===== src/Struct.antt =====
-- The formats of Python's `struct` that the endpoint uses, all little-endian: `<B`, `<H`, `<I`,
-- `<Q` and `<i`. A value that does not fit raises `struct.error`.
pub mod RoundTrip
pub mod Int
use ros_tcp_endpoint.Prelude.{
  ℕ, zero, suc, ◌+◌, ◌*◌, ◌-◌, ◌/◌, ◌%◌, ◌^◌, List, [], ◌∷◌, Bytes, ltb, if◌then◌else◌,
}
use ros_tcp_endpoint.Prelude.Result.{Result, ok, err, struct_error}
use Int.{ℤ, pos, negsuc}

-- `w` bytes of `n`, the lowest first.
unfoldable pub le_bytes : ℕ → ℕ → Bytes
le_bytes zero n = []
le_bytes (suc w) n = n % 256 ∷ le_bytes w (n / 256)

unfoldable pub of_le : Bytes → ℕ
of_le [] = 0
of_le (b ∷ bs) = b + 256 * of_le bs

unfoldable pub pack_unsigned : ℕ → ℕ → Result Bytes
pack_unsigned w n = if ltb n (256 ^ w) then ok (le_bytes w n) else err struct_error

-- struct.pack("<i", z), with two's complement.
unfoldable pub pack_i32 : ℤ → Result Bytes
pack_i32 (pos n) = if ltb n (2 ^ 31) then ok (le_bytes 4 n) else err struct_error
pack_i32 (negsuc n) = if ltb n (2 ^ 31) then ok (le_bytes 4 (2 ^ 32 - 1 - n)) else err struct_error

-- struct.unpack("<i", bs)[0]
unfoldable pub unpack_i32 : Bytes → ℤ
unpack_i32 bs = let n = of_le bs in if ltb n (2 ^ 31) then pos n else negsuc (2 ^ 32 - 1 - n)
