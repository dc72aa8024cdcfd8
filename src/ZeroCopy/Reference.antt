-- ===== src/ZeroCopy/Reference.antt =====
-- References into the zero-copy buffer.
use ros_tcp_endpoint.Prelude.{
  ℕ, ◌<◌, ◌≤◌, ◌^◌, ◌≡◌, refl, ◌∙◌, ◌∷◌, ◌++◌, Bytes, some, length, take, drop, arith,
  length-append, take-append_self, drop-append_self, append_assoc, subst,
}
use ros_tcp_endpoint.Prelude.Result.{ok, >>=-eq-ok}
use ros_tcp_endpoint.Struct.{le_bytes, of_le, pack_unsigned}
use ros_tcp_endpoint.Struct.RoundTrip.{length-le_bytes, of_le-le_bytes, pack_unsigned-ok}
use ros_tcp_endpoint.ZeroCopy.{serialize_zero_copy_reference, deserialize_zero_copy_reference}

-- Any 17 bytes or more whose first is 0xff are taken for a zero-copy reference, whoever wrote them.
reference_by_first_byte :
    (bs : Bytes)
    → 16 ≤ length bs
    → deserialize_zero_copy_reference (0xff ∷ bs)
      ≡ some (of_le (take 8 bs), of_le (take 8 (drop 8 bs)))
unfolding deserialize_zero_copy_reference of_le
reference_by_first_byte bs h = ground arith

take_exact : (n : ℕ) (xs ys : Bytes) → length xs ≡ n → take n (xs ++ ys) ≡ xs
take_exact n xs ys h = subst (λ k. take k (xs ++ ys) ≡ xs) h (take-append_self xs ys)

drop_exact : (n : ℕ) (xs ys : Bytes) → length xs ≡ n → drop n (xs ++ ys) ≡ ys
drop_exact n xs ys h = subst (λ k. drop k (xs ++ ys) ≡ ys) h (drop-append_self xs ys)

deserialize_parts :
    (o n rest : Bytes)
    → length o ≡ 8
    → length n ≡ 8
    → deserialize_zero_copy_reference (0xff ∷ (o ++ (n ++ rest))) ≡ some (of_le o, of_le n)
deserialize_parts o n rest ho hn =
    reference_by_first_byte (o ++ (n ++ rest))
      (omega (arith, length-append o (n ++ rest), length-append n rest))
    ∙ rw (take_exact 8 o (n ++ rest) ho, drop_exact 8 o (n ++ rest) ho, take_exact 8 n rest hn) refl

serialize_parts :
    (offset size : ℕ) (bs : Bytes)
    → serialize_zero_copy_reference offset size ≡ ok bs
    → (offset < 2 ^ 64) × (size < 2 ^ 64) × (bs ≡ 0xff ∷ (le_bytes 8 offset ++ le_bytes 8 size))
unfolding serialize_zero_copy_reference
serialize_parts offset size bs h =
    let (m, hm, h₁) = >>=-eq-ok (pack_unsigned 1 0xff) _ h in
    let (o, ho, h₂) = >>=-eq-ok (pack_unsigned 8 offset) _ h₁ in
    let (n, hn, h₃) = >>=-eq-ok (pack_unsigned 8 size) _ h₂ in
    let (_, em) = pack_unsigned-ok 1 0xff m hm in
    let (o_fits, eo) = pack_unsigned-ok 8 offset o ho in
    let (n_fits, en) = pack_unsigned-ok 8 size n hn in
    (o_fits, n_fits, unfold le_bytes in cc (em, eo, en, h₃))

-- An offset and a size for which `serialize_zero_copy_reference` returns bytes come back from these
-- bytes, also with more bytes behind them.
pub deserialize-serialize_zero_copy_reference :
    (offset size : ℕ) (bs rest : Bytes)
    → serialize_zero_copy_reference offset size ≡ ok bs
    → deserialize_zero_copy_reference (bs ++ rest) ≡ some (offset, size)
deserialize-serialize_zero_copy_reference offset size bs rest h =
    let (o_fits, n_fits, e) = serialize_parts offset size bs h in
    rw
      (
        e,
        append_assoc,
        deserialize_parts (le_bytes 8 offset) (le_bytes 8 size) rest (length-le_bytes 8 offset)
            (length-le_bytes 8 size),
        of_le-le_bytes 8 offset o_fits,
        of_le-le_bytes 8 size n_fits,
      )
      refl
