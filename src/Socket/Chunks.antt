-- ===== src/Socket/Chunks.antt =====
-- One read takes a prefix off the stream, and a part of it only while something is left.
use ros_tcp_endpoint.Prelude.{
  ℕ, zero, suc, ◌<◌, ◌≤◌, ◌≡◌, ◌≢◌, refl, List, [], ◌∷◌, ◌++◌, Bytes, All, take, drop, length,
  arith, append_assoc, ap, take-append-drop, length-take, sym, ◌∙◌, Bool, true, false,
}
use ros_tcp_endpoint.Prelude.Result.{ok, err, io_error}
use ros_tcp_endpoint.Socket.{Conn, requeue, recv_into, join_chunks, stream}

-- The kernel wakes a reader only with data: no chunk is empty.
abbrev pub IsLive : Conn → Type 0
IsLive conn = All (λ (c : Bytes). c ≢ []) conn.chunks

-- A read of at least one byte, before the end of the stream.
pub record Took (n : ℕ) (conn : Conn) (got : Bytes) (conn' : Conn) : Type 0 where
  pub split : stream conn ≡ got ++ stream conn'
  pub some_byte : 0 < length got
  pub at_most : length got ≤ n
  pub live : IsLive conn'

pub data Read (n : ℕ) (conn : Conn) : Type 0 where
  ended : stream conn ≡ [] → recv_into n conn ≡ ok ([], conn) → Read n conn
  failed : stream conn ≡ [] → recv_into n conn ≡ err io_error → Read n conn
  took :
      (got : Bytes) (conn' : Conn)
      → recv_into n conn ≡ ok (got, conn')
      → Took n conn got conn'
      → Read n conn

requeue-join : (d : Bytes) (cs : List Bytes) → join_chunks (requeue d cs) ≡ d ++ join_chunks cs
unfolding join_chunks
requeue-join [] cs = refl
requeue-join (b ∷ bs) cs = refl

requeue-All :
    (d : Bytes) (cs : List Bytes)
    → All (λ (c : Bytes). c ≢ []) cs
    → All (λ (c : Bytes). c ≢ []) (requeue d cs)
requeue-All [] cs h = h
requeue-All (b ∷ bs) cs h = (λ e. cc, h)

chunks-Read :
    (n : ℕ) (cs : List Bytes) (r : Bool)
    → 0 < n
    → IsLive (record { chunks = cs; reset = r })
    → Read n (record { chunks = cs; reset = r })
unfolding recv_into join_chunks
chunks-Read n [] false h live = ended refl refl
chunks-Read n [] true h live = failed refl refl
chunks-Read zero _ r h live = absurd (omega arith)
chunks-Read n ([] ∷ cs) r h live = absurd (live.0 refl)
chunks-Read (suc n) ((b ∷ bs) ∷ cs) r h live = took _ _ refl (record {
  split = simp requeue-join (
      ap (λ t. b ∷ t)
        (sym (ap (λ t. t ++ join_chunks cs) (take-append-drop n bs))
          ∙ append_assoc (take n bs) (drop n bs) (join_chunks cs)));
  some_byte = omega arith;
  at_most = omega (arith, length-take n bs);
  live = requeue-All (drop n bs) cs live.1;
})

-- What a read does, by what is left of the stream.
pub recv_into_lem : (n : ℕ) (conn : Conn) → 0 < n → IsLive conn → Read n conn
recv_into_lem n conn h live = chunks-Read n conn.chunks conn.reset h live
