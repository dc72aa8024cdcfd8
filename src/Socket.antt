-- ===== src/Socket.antt =====
-- The receiving side of a connected TCP socket (Python's `socket`), as client.py reads from it.
pub mod Chunks
use ros_tcp_endpoint.Prelude.{
  ℕ, zero, suc, Bool, List, [], ◌∷◌, ◌++◌, Bytes, take, drop, if◌then◌else◌, true, false,
}
use ros_tcp_endpoint.Prelude.Result.{Result, ok, err, io_error}
use ros_tcp_endpoint.Prelude.Run.{Run}

-- What the peer still sends, cut as the reads will see it; then the end of the stream, or, if
-- `reset`, an `OSError`, which is `IOError`.
pub record Conn : Type 0 where
  pub chunks : List Bytes
  pub reset : Bool

abbrev requeue : Bytes → List Bytes → List Bytes
requeue [] cs = cs
requeue (b ∷ bs) cs = (b ∷ bs) ∷ cs

-- conn.recv_into(view, n): at most `n` bytes of what has arrived; no byte at the end of the stream.
unfoldable pub recv_into : ℕ → Run Conn Bytes
recv_into n conn = elim conn.chunks [
  | [] ↦ if conn.reset then err io_error else ok ([], conn)
  | c ∷ cs ↦ ok (take n c, record conn { chunks = requeue (drop n c) cs })
]

-- The bytes that are still to be read.
unfoldable pub join_chunks : List Bytes → Bytes
join_chunks [] = []
join_chunks (c ∷ cs) = c ++ join_chunks cs

abbrev pub stream : Conn → Bytes
stream conn = join_chunks conn.chunks
