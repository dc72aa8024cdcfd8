-- ===== src/Client/Recv/Chunking.antt =====
-- How the kernel cuts the stream into chunks does not show.
use ros_tcp_endpoint.Prelude.{
  zero, ◌≡◌, refl, sym, ◌∙◌, ◌++◌, Bytes, length, arith, take, drop, take-append-drop, length-take,
}
use native.Mathlib.Decide.{dec_lt}
use ros_tcp_endpoint.Prelude.Result.{Exc, Result, ok, err, io_error, value_error}
use ros_tcp_endpoint.Prelude.Run.{Run, ◌>>=◌, pure, raise, lift}
use ros_tcp_endpoint.Socket.{Conn, stream}
use ros_tcp_endpoint.Socket.Chunks.{IsLive}
use ros_tcp_endpoint.Struct.Int.{ℤ, pos, negsuc}
use ros_tcp_endpoint.Client.Recv.{recvall, read_int32, read_string, read_message, read_frame}
use ros_tcp_endpoint.Client.Recv.Stream.{Reads, recvall-short, recvall-enough}

-- Two runs return one value and leave one stream, or raise one exception.
pub data SameRun {ℓ} {A : Type ℓ} (r r' : Result (A × Conn)) : Type ℓ where
  both_return : (a : A) (rest : Bytes) → Reads r a rest → Reads r' a rest → SameRun r r'
  both_raise : (e : Exc) → r ≡ err e → r' ≡ err e → SameRun r r'

pub record Steady {ℓ} {A : Type ℓ} (m : Run Conn A) : Type ℓ where
  pub at : (c c' : Conn) → IsLive c → IsLive c' → stream c ≡ stream c' → SameRun (m c) (m c')

pub Steady-pure {ℓ} : {A : Type ℓ} (a : A) → Steady (pure a)
Steady-pure a = record {
  at = λ c c' l l' s.
      both_return a (stream c') (record { conn = c; live = l; left = s; returns = refl })
        (record { conn = c'; live = l'; left = refl; returns = refl });
}

pub Steady-raise {ℓ} : {A : Type ℓ} (e : Exc) → Steady {A = A} (raise e)
Steady-raise e = record { at = λ c c' l l' s. both_raise e refl refl }

pub Steady-lift {ℓ} : {A : Type ℓ} (r : Result A) → Steady (lift r)
Steady-lift (ok a) = Steady-pure a
Steady-lift (err e) = Steady-raise e

pub Steady-bind {ℓ κ} :
    {A : Type ℓ} {B : Type κ} (m : Run Conn A) (f : A → Run Conn B)
    → Steady m
    → ((a : A) → Steady (f a))
    → Steady (◌>>=◌ m f)
Steady-bind m f hm hf = record {
  at = λ c c' l l' s. elim (hm.at c c' l l' s) [
    | both_return a rest r r' ↦
        rw (r.returns, r'.returns, ◌>>=◌)
          ((hf a).at r.conn r'.conn r.live r'.live (r.left ∙ sym r'.left))
    | both_raise e r r' ↦ both_raise e (rw (r, ◌>>=◌)) (rw (r', ◌>>=◌))
  ];
}

pub Steady-recvall : (size : ℤ) → Steady (recvall size)
Steady-recvall (pos n) = record {
  at = λ c c' l l' s. elim (dec_lt (length (stream c)) n) [
    | yes short ↦
        both_raise io_error (recvall-short c n l short) (recvall-short c' n l' (rw (← s) short))
    | no long ↦
        let xs : Bytes = take n (stream c) in
        let n_read : length xs ≡ n = omega (arith, length-take n (stream c)) in
        let cut : stream c ≡ xs ++ drop n (stream c) = sym (take-append-drop n (stream c)) in
        both_return xs (drop n (stream c)) (recvall-enough xs _ c n n_read l cut)
          (recvall-enough xs _ c' n n_read l' (sym s ∙ cut))
  ];
}
Steady-recvall (negsuc n) = unfold recvall in Steady-raise value_error

ruleset steady_rules = (Steady-pure, Steady-raise, Steady-lift, Steady-bind, Steady-recvall)

Steady-read_int32 : Steady read_int32
unfolding read_int32
Steady-read_int32 = search steady_rules

Steady-read_frame : (z : ℤ) → Steady (read_frame z)
unfolding read_frame
Steady-read_frame (negsuc zero) = search (steady_rules, Steady-read_int32) depth 10
Steady-read_frame _ = search (steady_rules, Steady-read_int32) depth 10

Steady-read_message : Steady read_message
unfolding read_message
Steady-read_message = search (steady_rules, Steady-read_frame)

Steady-read_string : Steady read_string
unfolding read_string
Steady-read_string = search (steady_rules, Steady-read_int32) depth 7

-- Two live connections with the same bytes to come, however these are cut into chunks: a message
-- read from one is read from the other, with the same bytes left, or both reads raise the same
-- exception.
pub read_message-chunking :
    (c c' : Conn)
    → IsLive c
    → IsLive c'
    → stream c ≡ stream c'
    → SameRun (read_message c) (read_message c')
read_message-chunking = Steady-read_message.at

-- The same for `read_string`, which takes the length as an unsigned number.
pub read_string-chunking :
    (c c' : Conn)
    → IsLive c
    → IsLive c'
    → stream c ≡ stream c'
    → SameRun (read_string c) (read_string c')
read_string-chunking = Steady-read_string.at
