-- ===== src/Client/Recv/Cut.antt =====
-- A stream that ends inside a frame: `read_message` raises `IOError`.
use ros_tcp_endpoint.Prelude.{
  ℕ, ◌^◌, ◌<◌, ◌≡◌, refl, ap, sym, ◌∙◌, [], ◌++◌, Bytes, Text, length, arith, append-nil,
  append_split, length-append,
}
use native.Mathlib.Decide.{dec_lt}
use ros_tcp_endpoint.Prelude.Result.{ok, err, io_error}
use ros_tcp_endpoint.Prelude.Run.{Run, ◌>>=◌, pure, lift}
use ros_tcp_endpoint.Socket.{Conn, stream}
use ros_tcp_endpoint.Socket.Chunks.{IsLive}
use ros_tcp_endpoint.Struct.{le_bytes, of_le}
use ros_tcp_endpoint.Struct.RoundTrip.{length-le_bytes, unpack_i32-le_bytes}
use ros_tcp_endpoint.Struct.Int.{pos}
use ros_tcp_endpoint.Utf8.{decode}
use ros_tcp_endpoint.Text.{rstrip_nul}
use ros_tcp_endpoint.Client.Recv.{recvall, read_int32, read_message}
use ros_tcp_endpoint.Client.Recv.Stream.{recvall-short}
use ros_tcp_endpoint.Client.Recv.Frames.{Parses, Parses-recvall, Parses-lift, Parses-read_int32}

-- `m` raises `IOError` on every live connection whose stream lacks an end of `xs`.
pub record Breaks {ℓ} {A : Type ℓ} (m : Run Conn A) (xs : Bytes) : Type ℓ where
  pub at :
      (missing : Bytes) (conn : Conn)
      → IsLive conn
      → 0 < length missing
      → stream conn ++ missing ≡ xs
      → m conn ≡ err io_error

Breaks-recvall : (xs : Bytes) (n : ℕ) → length xs ≡ n → Breaks (recvall (pos n)) xs
Breaks-recvall xs n h = record {
  at = λ missing conn live k e.
      recvall-short conn n live (omega (arith, ap length e, length-append (stream conn) missing));
}

-- Where the first reader has all that it reads, the end is missing to the second.
Breaks-bind {ℓ κ} :
    {A : Type ℓ} {B : Type κ} (m : Run Conn A) (f : A → Run Conn B) (xs ys : Bytes) (a : A)
    → Parses m xs a
    → Breaks m xs
    → Breaks (f a) ys
    → Breaks (◌>>=◌ m f) (xs ++ ys)
Breaks-bind m f xs ys a hm bm bf = record {
  at = λ missing conn live k e. elim (dec_lt (length (stream conn)) (length xs)) [
    | yes short ↦
        let (zs, p, q) = append_split (stream conn) missing xs ys e (omega arith) in
        let broken : m conn ≡ err io_error =
          bm.at zs conn live (omega (arith, ap length p, length-append (stream conn) zs)) (sym p) in
        rw (broken, ◌>>=◌)
    | no long ↦
        let (zs, p, q) = append_split xs ys (stream conn) missing (sym e) (omega arith) in
        let r = hm.at zs conn live p in
        rw (r.returns, ◌>>=◌)
          (bf.at missing r.conn r.live k (ap (λ t. t ++ missing) r.left ∙ sym q))
  ];
}

Breaks-nil {ℓ} : {A : Type ℓ} (m : Run Conn A) → Breaks m []
Breaks-nil m = record {
  at = λ missing conn live k e.
      absurd (omega (arith, ap length e, length-append (stream conn) missing));
}

Breaks-last {ℓ κ} :
    {A : Type ℓ} {B : Type κ} (m : Run Conn A) (f : A → Run Conn B) (xs : Bytes) (a : A)
    → Parses m xs a
    → Breaks m xs
    → Breaks (◌>>=◌ m f) xs
Breaks-last m f xs a hm bm = rw append-nil at (Breaks-bind m f xs [] a hm bm (Breaks-nil (f a)))

Breaks-read_int32 : (n : ℕ) → Breaks read_int32 (le_bytes 4 n)
unfolding read_int32
Breaks-read_int32 n =
    Breaks-last (recvall (pos 4)) (λ raw_bytes. pure (of_le raw_bytes)) (le_bytes 4 n)
      (le_bytes 4 n) (Parses-recvall _ 4 (length-le_bytes 4 n))
      (Breaks-recvall _ 4 (length-le_bytes 4 n))

Breaks-block {ℓ} :
    {A : Type ℓ} (f : Bytes → A) (bs : Bytes)
    → length bs < 2 ^ 32
    → Breaks (do n ← read_int32; b ← recvall (pos n); pure (f b)) (le_bytes 4 (length bs) ++ bs)
Breaks-block f bs h =
    Breaks-bind read_int32 _ (le_bytes 4 (length bs)) bs (length bs)
      (Parses-read_int32 (length bs) h) (Breaks-read_int32 (length bs))
      (Breaks-last (recvall (pos (length bs))) (λ b. pure (f b)) bs bs
        (Parses-recvall bs (length bs) refl) (Breaks-recvall bs (length bs) refl))

read_message-Breaks :
    (dest : Bytes) (t : Text) (body : Bytes)
    → length dest < 2 ^ 31
    → length body < 2 ^ 32
    → decode dest ≡ ok t
    → Breaks read_message (le_bytes 4 (length dest) ++ (dest ++ (le_bytes 4 (length body) ++ body)))
unfolding read_message
read_message-Breaks dest t body hd hb e =
    Breaks-bind (recvall (pos 4)) _ (le_bytes 4 (length dest)) _ (le_bytes 4 (length dest))
      (Parses-recvall _ 4 (length-le_bytes 4 (length dest)))
      (Breaks-recvall _ 4 (length-le_bytes 4 (length dest)))
      (rw (unpack_i32-le_bytes (length dest) hd) (
        Breaks-bind (recvall (pos (length dest))) _ dest _ dest
          (Parses-recvall dest (length dest) refl) (Breaks-recvall dest (length dest) refl)
          (Breaks-bind (lift (decode dest)) _ [] _ t (Parses-lift (decode dest) t e) (Breaks-nil _)
            (Breaks-block (λ b. (rstrip_nul t, b)) body hb))))

-- A stream that ends at least one byte before the end of a frame with a decodable name (of fewer
-- than 2 ^ 31 bytes, with a body of fewer than 2 ^ 32): `read_message` raises `IOError`, wherever
-- the stream ends and however it is cut into chunks.
pub read_message-cut :
    (dest : Bytes) (t : Text) (body missing : Bytes) (conn : Conn)
    → length dest < 2 ^ 31
    → length body < 2 ^ 32
    → decode dest ≡ ok t
    → IsLive conn
    → 0 < length missing
    → stream conn ++ missing
      ≡ le_bytes 4 (length dest) ++ (dest ++ (le_bytes 4 (length body) ++ body))
    → read_message conn ≡ err io_error
read_message-cut dest t body missing conn hd hb e live some_missing s =
    (read_message-Breaks dest t body hd hb e).at missing conn live some_missing s
