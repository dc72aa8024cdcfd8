-- ===== src/Client/Recv/Stream.antt =====
-- `recvall` reads the stream, whatever the chunks.
use ros_tcp_endpoint.Prelude.{
  ℕ, zero, suc, ◌+◌, ◌-◌, ◌<◌, ◌≤◌, ◌≡◌, ap, sym, ◌∙◌, [], ◌∷◌, ◌++◌, Bytes, length, arith,
  length-append, append_split, append_assoc, append-nil,
}
use ros_tcp_endpoint.Prelude.Result.{Result, ok, err, io_error}
use ros_tcp_endpoint.Socket.{Conn, recv_into, stream}
use ros_tcp_endpoint.Socket.Chunks.{IsLive, ended, failed, took, recv_into_lem}
use ros_tcp_endpoint.Struct.Int.{pos}
use ros_tcp_endpoint.Client.Recv.{recv_loop, recvall}

-- The reader `r` of `conn` returns `a`, and what is left of the stream is `rest`.
pub record Reads {ℓ} {A : Type ℓ} (r : Result (A × Conn)) (a : A) (rest : Bytes) : Type ℓ where
  pub conn : Conn
  pub live : IsLive conn
  pub left : stream conn ≡ rest
  pub returns : r ≡ ok (a, conn)

module _ (fuel size : ℕ) (buffer : Bytes) (conn : Conn) (more : length buffer < size) where
  recv_loop-took :
      (got : Bytes) (conn' : Conn)
      → 0 < length got
      → recv_into (size - length buffer) conn ≡ ok (got, conn')
      → recv_loop (suc fuel) size buffer conn ≡ recv_loop fuel size (buffer ++ got) conn'
  unfolding recv_loop
  recv_loop-took got conn' h r = ground arith

  recv_loop-ended :
      recv_into (size - length buffer) conn ≡ ok ([], conn)
      → recv_loop (suc fuel) size buffer conn ≡ err io_error
  unfolding recv_loop
  recv_loop-ended r = ground arith

  recv_loop-failed :
      recv_into (size - length buffer) conn ≡ err io_error
      → recv_loop (suc fuel) size buffer conn ≡ err io_error
  unfolding recv_loop
  recv_loop-failed r = ground arith

recv_loop-full :
    (fuel size : ℕ) (buffer : Bytes) (conn : Conn)
    → size ≤ length buffer
    → recv_loop (suc fuel) size buffer conn ≡ ok (buffer, conn)
unfolding recv_loop
recv_loop-full fuel size buffer conn h = ground arith

recv_loop-enough :
    (fuel size : ℕ) (buffer xs rest : Bytes) (conn : Conn)
    → length buffer + length xs ≡ size
    → length xs < fuel
    → IsLive conn
    → stream conn ≡ xs ++ rest
    → Reads (recv_loop fuel size buffer conn) (buffer ++ xs) rest
recv_loop-enough zero size buffer xs rest conn n f live s = absurd (omega arith)
recv_loop-enough (suc fuel) size buffer [] rest conn n f live s = record {
  conn = conn;
  live = live;
  left = s;
  returns = rw append-nil (recv_loop-full fuel size buffer conn (omega arith));
}
recv_loop-enough (suc fuel) size buffer (x ∷ xs) rest conn n f live s =
    elim (recv_into_lem (size - length buffer) conn (omega arith) live) [
      | ended e r ↦ absurd (cc)
      | failed e r ↦ absurd (cc)
      | took got conn' r t ↦
          let (ys, p, q) =
            append_split got (stream conn') (x ∷ xs) rest (sym t.split ∙ s)
              (omega (arith, t.at_most)) in
          let l : suc (length xs) ≡ length got + length ys = ap length p ∙ length-append got ys in
          rw
            (
              recv_loop-took fuel size buffer conn (omega arith) got conn' t.some_byte r,
              p,
              ← append_assoc buffer got ys,
            )
            (recv_loop-enough fuel size (buffer ++ got) ys rest conn'
              (omega (arith, length-append buffer got)) (omega (arith, t.some_byte)) t.live q)
    ]

recv_loop-short :
    (fuel size : ℕ) (buffer : Bytes) (conn : Conn)
    → length buffer + length (stream conn) < size
    → size - length buffer < fuel
    → IsLive conn
    → recv_loop fuel size buffer conn ≡ err io_error
recv_loop-short zero size buffer conn n f live = absurd (omega arith)
recv_loop-short (suc fuel) size buffer conn n f live =
    elim (recv_into_lem (size - length buffer) conn (omega arith) live) [
      | ended e r ↦ recv_loop-ended fuel size buffer conn (omega arith) r
      | failed e r ↦ recv_loop-failed fuel size buffer conn (omega arith) r
      | took got conn' r t ↦
          let l : length (stream conn) ≡ length got + length (stream conn') =
            ap length t.split ∙ length-append got (stream conn') in
          recv_loop-took fuel size buffer conn (omega arith) got conn' t.some_byte r
          ∙ recv_loop-short fuel size (buffer ++ got) conn'
              (omega (arith, length-append buffer got))
              (omega (arith, t.some_byte, length-append buffer got)) t.live
    ]

-- If the stream begins with `size` bytes, `recvall` returns them and leaves the rest.
pub recvall-enough :
    (xs rest : Bytes) (conn : Conn) (size : ℕ)
    → length xs ≡ size
    → IsLive conn
    → stream conn ≡ xs ++ rest
    → Reads (recvall (pos size) conn) xs rest
unfolding recvall
recvall-enough xs rest conn size n live s =
    recv_loop-enough (suc size) size [] xs rest conn (omega arith) (omega arith) live s

-- If the stream is shorter, `recvall` raises `IOError`.
pub recvall-short :
    (conn : Conn) (size : ℕ)
    → IsLive conn
    → length (stream conn) < size
    → recvall (pos size) conn ≡ err io_error
unfolding recvall
recvall-short conn size live h =
    recv_loop-short (suc size) size [] conn (omega arith) (omega arith) live
