-- ===== src/Utf8/RoundTrip.antt =====
-- Decoding an encoded text gives it back.
use ros_tcp_endpoint.Prelude.{
  ℕ, ◌+◌, ◌/◌, ◌%◌, ◌<◌, ◌≤◌, ◌≡◌, ◌∷◌, [], ◌++◌, Bytes, Text, arith, false, ltb, leb, ◌&&◌,
}
use ros_tcp_endpoint.Prelude.Result.{Result, ok, ◌>>=◌, >>=-eq-ok}
use ros_tcp_endpoint.Utf8.{start, encode_char, encode, decode_step, decode_from, decode}

-- What follows the character `c`, which `rest` decodes to.
abbrev consed : ℕ → Result Text → Result Text
consed c r = do s ← r; ok (c ∷ s)

module _ (c : ℕ) (rest : Bytes) where
  decode_one : c < 0x80 → decode_from start (c ∷ rest) ≡ consed c (decode_from start rest)
  unfolding decode_from decode_step
  decode_one h = ground arith

  decode_two :
      0x80 ≤ c
      → c < 0x800
      → decode_from start ((0xc0 + c / 64) ∷ (0x80 + c % 64) ∷ rest)
        ≡ consed c (decode_from start rest)
  unfolding decode_from decode_step
  decode_two l h = ground arith

  decode_three :
      0x800 ≤ c
      → c < 0x10000
      → (leb 0xd800 c && ltb c 0xe000) ≡ false
      → decode_from start ((0xe0 + c / 4096) ∷ (0x80 + c / 64 % 64) ∷ (0x80 + c % 64) ∷ rest)
        ≡ consed c (decode_from start rest)
  unfolding decode_from decode_step
  decode_three l h s = ground arith

  decode_four :
      0x10000 ≤ c
      → c < 0x110000
      → decode_from start (
          (0xf0 + c / 262144)
          ∷ (0x80 + c / 4096 % 64)
          ∷ (0x80 + c / 64 % 64)
          ∷ (0x80 + c % 64)
          ∷ rest)
        ≡ consed c (decode_from start rest)
  unfolding decode_from decode_step
  decode_four l h = ground arith

decode-encode_char :
    (c : ℕ) (b rest : Bytes)
    → encode_char c ≡ ok b
    → decode_from start (b ++ rest) ≡ consed c (decode_from start rest)
unfolding encode_char
decode-encode_char c b rest h =
    ground (arith, decode_one c rest, decode_two c rest, decode_three c rest, decode_four c rest)

-- What `encode` writes, `decode` reads.
pub decode-encode : (s : Text) (b : Bytes) → encode s ≡ ok b → decode b ≡ ok s
unfolding encode decode decode_from
decode-encode [] b h = ground arith
decode-encode (c ∷ s) b h =
    let (x, hx, k) = >>=-eq-ok (encode_char c) (λ x. do r ← encode s; ok (x ++ r)) h in
    let (r, hr, e) = >>=-eq-ok (encode s) (λ r. ok (x ++ r)) k in
    cc (e, decode-encode_char c x r hx, decode-encode s r hr)
