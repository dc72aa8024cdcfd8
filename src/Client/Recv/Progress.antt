-- ===== src/Client/Recv/Progress.antt =====
-- A message that was read has taken at least four bytes off the stream.
use ros_tcp_endpoint.Prelude.{
  ℕ, zero, ◌+◌, ◌≤◌, ◌≡◌, refl, ap, sym, Bytes, length, arith, take, drop, take-append-drop,
  length-take, length-drop,
}
use native.Mathlib.Decide.{dec_lt}
use ros_tcp_endpoint.Prelude.Result.{Exc, Result, ok, err, value_error}
use ros_tcp_endpoint.Prelude.Run.{Run, ◌>>=◌, pure, raise, lift}
use ros_tcp_endpoint.Socket.{Conn, stream}
use ros_tcp_endpoint.Socket.Chunks.{IsLive}
use ros_tcp_endpoint.Struct.{of_le, unpack_i32}
use ros_tcp_endpoint.Struct.Int.{ℤ, pos, negsuc}
use ros_tcp_endpoint.Client.Recv.{recvall, read_int32, read_message, read_frame}
use ros_tcp_endpoint.Client.Recv.Stream.{recvall-short, recvall-enough}

-- Where `m` returns, the connection is live and `k` bytes or more are gone.
pub record Takes {ℓ} {A : Type ℓ} (k : ℕ) (m : Run Conn A) : Type ℓ where
  pub at :
      (c : Conn) (a : A) (c' : Conn)
      → IsLive c
      → m c ≡ ok (a, c')
      → IsLive c' × (length (stream c') + k ≤ length (stream c))

Takes-pure {ℓ} : {A : Type ℓ} (a : A) → Takes 0 (pure a)
Takes-pure a = record { at = λ c b c' l e. let same : c ≡ c' = cc in rw (← same) (l, omega arith) }

Takes-raise {ℓ} : {A : Type ℓ} (e : Exc) → Takes {A = A} 0 (raise e)
Takes-raise e = record { at = λ c b c' l h. absurd (cc) }

Takes-lift {ℓ} : {A : Type ℓ} (r : Result A) → Takes 0 (lift r)
Takes-lift (ok a) = Takes-pure a
Takes-lift (err e) = Takes-raise e

returned {ℓ κ} :
    {A : Type ℓ} {B : Type κ} (r : Result (A × Conn)) (f : A → Run Conn B) (b : B) (c' : Conn)
    → ◌>>=◌ (λ (_ : Conn). r) f c' ≡ ok (b, c')
    → (a : A) × (d : Conn) × (r ≡ ok (a, d)) × (f a d ≡ ok (b, c'))
returned (ok (a, d)) f b c' e = (a, d, refl, e)
returned (err x) f b c' e = absurd (cc)

Takes-bind {ℓ κ} :
    {A : Type ℓ} {B : Type κ} (k : ℕ) (m : Run Conn A) (f : A → Run Conn B)
    → Takes k m
    → ((a : A) → Takes 0 (f a))
    → Takes k (◌>>=◌ m f)
Takes-bind k m f hm hf = record {
  at = λ c b c' l e.
      let (a, d, em, ef) = returned (m c) f b c' e in
      let (ld, nd) = hm.at c a d l em in let (lc, nc) = (hf a).at d b c' ld ef in (lc, omega arith);
}

Takes-recvall : (n : ℕ) → Takes n (recvall (pos n))
Takes-recvall n = record {
  at = λ c a c' l e. elim (dec_lt (length (stream c)) n) [
    | yes short ↦ absurd (cc (recvall-short c n l short))
    | no long ↦
        let xs : Bytes = take n (stream c) in
        let r =
          recvall-enough xs (drop n (stream c)) c n (omega (arith, length-take n (stream c))) l
            (sym (take-append-drop n (stream c))) in
        let same : r.conn ≡ c' = cc (r.returns) in
        rw (← same) (r.live, omega (arith, ap length r.left, length-drop n (stream c)))
  ];
}

Takes-weak {ℓ} : {A : Type ℓ} (k : ℕ) (m : Run Conn A) → Takes k m → Takes 0 m
Takes-weak k m h = record {
  at = λ c a c' l e. ((h.at c a c' l e).0, omega (arith, (h.at c a c' l e).1));
}

Takes-some : (size : ℤ) → Takes 0 (recvall size)
Takes-some (pos n) = Takes-weak n (recvall (pos n)) (Takes-recvall n)
Takes-some (negsuc n) = unfold recvall in Takes-raise value_error

Takes-read_int32 : Takes 0 read_int32
unfolding read_int32
Takes-read_int32 = Takes-bind 0 (recvall (pos 4)) _ (Takes-some (pos 4)) (λ b. Takes-pure (of_le b))

ruleset takes_rules =
    (Takes-pure, Takes-raise, Takes-lift, Takes-bind, Takes-some, Takes-read_int32)

Takes-read_frame : (z : ℤ) → Takes 0 (read_frame z)
unfolding read_frame
Takes-read_frame (negsuc zero) = search takes_rules depth 10
Takes-read_frame _ = search takes_rules depth 10

-- A message that is read leaves the connection live, and the stream at least four bytes shorter.
pub Takes-read_message : Takes 4 read_message
unfolding read_message
Takes-read_message =
    Takes-bind 4 (recvall (pos 4)) _ (Takes-recvall 4) (λ b. Takes-read_frame (unpack_i32 b))
