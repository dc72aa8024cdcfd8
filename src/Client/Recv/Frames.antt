-- ===== src/Client/Recv/Frames.antt =====
-- `read_message` on a stream that begins with a frame.
use ros_tcp_endpoint.Prelude.{
  ℕ, ◌-◌, ◌^◌, ◌<◌, ◌≡◌, refl, ◌∙◌, [], ◌++◌, Bytes, Text, length, append_assoc, append-nil,
}
use ros_tcp_endpoint.Prelude.Result.{Result, ok}
use ros_tcp_endpoint.Prelude.Run.{Run, ◌>>=◌, pure, lift}
use ros_tcp_endpoint.Socket.{Conn, stream}
use ros_tcp_endpoint.Socket.Chunks.{IsLive}
use ros_tcp_endpoint.Struct.{le_bytes, of_le, unpack_i32}
use ros_tcp_endpoint.Struct.RoundTrip.{length-le_bytes, of_le-le_bytes, unpack_i32-le_bytes}
use ros_tcp_endpoint.Struct.Int.{pos}
use ros_tcp_endpoint.Utf8.{decode}
use ros_tcp_endpoint.Text.{rstrip_nul}
use ros_tcp_endpoint.Client.Recv.{recvall, read_int32, read_message, topic_id_destination}
use ros_tcp_endpoint.Client.Recv.Stream.{Reads, recvall-enough}

-- A reader that returns `a` from every live connection whose stream is `xs ++ rest`.
pub record Parses {ℓ} {A : Type ℓ} (m : Run Conn A) (xs : Bytes) (a : A) : Type ℓ where
  pub at :
      (rest : Bytes) (conn : Conn) → IsLive conn → stream conn ≡ xs ++ rest → Reads (m conn) a rest

pub Parses-bind {ℓ κ} :
    {A : Type ℓ} {B : Type κ} (m : Run Conn A) (f : A → Run Conn B) (xs ys : Bytes) (a : A) (b : B)
    → Parses m xs a
    → Parses (f a) ys b
    → Parses (◌>>=◌ m f) (xs ++ ys) b
Parses-bind m f xs ys a b hm hf = record {
  at = λ rest conn live s.
      let r = hm.at (ys ++ rest) conn live (s ∙ append_assoc xs ys rest) in
      let q = hf.at rest r.conn r.live r.left in
      record {
        conn = q.conn;
        live = q.live;
        left = q.left;
        returns = rw (r.returns, ◌>>=◌) q.returns;
      };
}

pub Parses-pure {ℓ} : {A : Type ℓ} (a : A) → Parses (pure a) [] a
Parses-pure a = record {
  at = λ rest conn live s. record { conn = conn; live = live; left = s; returns = refl };
}

pub Parses-recvall : (xs : Bytes) (n : ℕ) → length xs ≡ n → Parses (recvall (pos n)) xs xs
Parses-recvall xs n h = record { at = λ rest conn live s. recvall-enough xs rest conn n h live s }

pub Parses-lift {ℓ} : {A : Type ℓ} (r : Result A) (a : A) → r ≡ ok a → Parses (lift r) [] a
Parses-lift r a e = rw e (Parses-pure a)

-- What the last step reads.
pub Parses-bind_last {ℓ κ} :
    {A : Type ℓ} {B : Type κ} (m : Run Conn A) (f : A → Run Conn B) (xs : Bytes) (a : A) (b : B)
    → Parses m xs a
    → Parses (f a) [] b
    → Parses (◌>>=◌ m f) xs b
Parses-bind_last m f xs a b hm hf = rw append-nil at (Parses-bind m f xs [] a b hm hf)

pub Parses-read_int32 : (n : ℕ) → n < 2 ^ 32 → Parses read_int32 (le_bytes 4 n) n
unfolding read_int32
Parses-read_int32 n h = rw (of_le-le_bytes 4 n h) at (
    Parses-bind_last (recvall (pos 4)) (λ raw_bytes. pure (of_le raw_bytes)) (le_bytes 4 n)
      (le_bytes 4 n) (of_le (le_bytes 4 n)) (Parses-recvall (le_bytes 4 n) 4 (length-le_bytes 4 n))
      (Parses-pure _))

-- A length and the bytes that it counts.
pub Parses-block {ℓ} :
    {A : Type ℓ} (f : Bytes → A) (bs : Bytes)
    → length bs < 2 ^ 32
    → Parses
        (do n ← read_int32; b ← recvall (pos n); pure (f b))
        (le_bytes 4 (length bs) ++ bs)
        (f bs)
Parses-block f bs h =
    Parses-bind read_int32 _ (le_bytes 4 (length bs)) bs (length bs) (f bs)
      (Parses-read_int32 (length bs) h)
      (Parses-bind_last (recvall (pos (length bs))) (λ b. pure (f b)) bs bs (f bs)
        (Parses-recvall bs (length bs) refl) (Parses-pure _))

pub Parses-string_frame :
    (dest : Bytes) (t : Text) (body : Bytes)
    → length dest < 2 ^ 31
    → length body < 2 ^ 32
    → decode dest ≡ ok t
    → Parses read_message
        (le_bytes 4 (length dest) ++ (dest ++ (le_bytes 4 (length body) ++ body)))
        (rstrip_nul t, body)
unfolding read_message
Parses-string_frame dest t body hd hb e =
    Parses-bind (recvall (pos 4)) _ (le_bytes 4 (length dest)) _ (le_bytes 4 (length dest)) _
      (Parses-recvall (le_bytes 4 (length dest)) 4 (length-le_bytes 4 (length dest)))
      (rw (unpack_i32-le_bytes (length dest) hd) (
        Parses-bind (recvall (pos (length dest))) _ dest _ dest _
          (Parses-recvall dest (length dest) refl)
          (Parses-bind (lift (decode dest)) _ [] _ t _ (Parses-lift (decode dest) t e)
            (Parses-block (λ b. (rstrip_nul t, b)) body hb))))

pub Parses-id_frame :
    (topic_id : ℕ) (body : Bytes)
    → topic_id < 2 ^ 16
    → length body < 2 ^ 32
    → Parses read_message
        (le_bytes 4 (2 ^ 32 - 1) ++ (le_bytes 2 topic_id ++ (le_bytes 4 (length body) ++ body)))
        (topic_id_destination topic_id, body)
unfolding read_message
Parses-id_frame topic_id body ht hb =
    Parses-bind (recvall (pos 4)) _ (le_bytes 4 (2 ^ 32 - 1)) _ (le_bytes 4 (2 ^ 32 - 1)) _
      (Parses-recvall _ 4 (length-le_bytes 4 (2 ^ 32 - 1)))
      (unfold unpack_i32 of_le le_bytes in
        Parses-bind (recvall (pos 2)) _ (le_bytes 2 topic_id) _ (le_bytes 2 topic_id) _
          (Parses-recvall _ 2 (length-le_bytes 2 topic_id))
          (rw (of_le-le_bytes 2 topic_id ht)
            (Parses-block (λ b. (topic_id_destination topic_id, b)) body hb)))
