-- ===== src/Client/Dispatch/Loop.antt =====
-- `run` ends: with more fuel than bytes, more fuel changes nothing.
use ros_tcp_endpoint.Prelude.{
  ℕ, zero, suc, ◌+◌, ◌<◌, ◌≡◌, ◌≢◌, ap, Bool, length, arith, ◌∙◌, inl, inr,
}
use ros_tcp_endpoint.Prelude.Result.{
  Result-cases, Exc, io_error, value_error, struct_error, unicode_error, key_error, attribute_error,
  type_error, json_error, index_error, import_error, ros_error, out_of_fuel,
}
use ros_tcp_endpoint.Platform.{Platform}
use ros_tcp_endpoint.Socket.{Conn, stream}
use ros_tcp_endpoint.Socket.Chunks.{IsLive}
use ros_tcp_endpoint.Client.Recv.{read_message}
use ros_tcp_endpoint.Client.Recv.Progress.{Takes-read_message}
use ros_tcp_endpoint.Client.Dispatch.{handle_message, run_loop, ending, exhausted}
use ros_tcp_endpoint.Server.{TcpServer}

ending-exhausted : (e : Exc) → ending e ≢ exhausted
unfolding ending
ending-exhausted io_error = λ h. cc
ending-exhausted value_error = λ h. cc
ending-exhausted struct_error = λ h. cc
ending-exhausted unicode_error = λ h. cc
ending-exhausted key_error = λ h. cc
ending-exhausted attribute_error = λ h. cc
ending-exhausted type_error = λ h. cc
ending-exhausted json_error = λ h. cc
ending-exhausted index_error = λ h. cc
ending-exhausted import_error = λ h. cc
ending-exhausted ros_error = λ h. cc
ending-exhausted out_of_fuel = λ h. cc

module _ {P : Platform} where
  run_loop-suc :
      (fuel : ℕ) (halts : ℕ → Bool) (conn : Conn) (s : TcpServer P)
      → IsLive conn
      → length (stream conn) < fuel
      → run_loop (suc fuel) halts conn s ≡ run_loop fuel halts conn s
  unfolding run_loop
  run_loop-suc zero halts conn s live h = absurd (omega arith)
  run_loop-suc (suc fuel) halts conn s live h = elim (Result-cases (read_message conn)) [
    | inl (e, r) ↦ ground arith
    | inr (((d, b), conn'), r) ↦
        let (live', n) = Takes-read_message.at conn (d, b) conn' live r in
        ground (
          arith,
          run_loop-suc fuel (λ n. halts (n + 1)) conn' (handle_message d b s).1 live' (omega arith),
        )
  ]

  run_loop-enough :
      (fuel : ℕ) (halts : ℕ → Bool) (conn : Conn) (s : TcpServer P)
      → IsLive conn
      → length (stream conn) < fuel
      → (run_loop fuel halts conn s).0 ≢ exhausted
  unfolding run_loop
  run_loop-enough zero halts conn s live h = absurd (omega arith)
  run_loop-enough (suc fuel) halts conn s live h = elim (Result-cases (read_message conn)) [
    | inl (e, r) ↦ ground (arith, ending-exhausted e)
    | inr (((d, b), conn'), r) ↦
        let (live', n) = Takes-read_message.at conn (d, b) conn' live r in
        let rest =
          run_loop-enough fuel (λ n. halts (n + 1)) conn' (handle_message d b s).1 live'
            (omega arith) in
        elim (Result-cases (handle_message d b s).0) [
          | inl (e, done) ↦ ground (arith, ending-exhausted e)
          | inr (_, done) ↦ ground (arith, rest)
        ]
  ]

  run_loop-more :
      (k fuel : ℕ) (halts : ℕ → Bool) (conn : Conn) (s : TcpServer P)
      → IsLive conn
      → length (stream conn) < fuel
      → run_loop (k + fuel) halts conn s ≡ run_loop fuel halts conn s
  run_loop-more zero fuel halts conn s live h = ap (λ n. run_loop n halts conn s) (omega arith)
  run_loop-more (suc k) fuel halts conn s live h =
      ap (λ n. run_loop n halts conn s) {x = suc k + fuel} {y = suc (k + fuel)} (omega arith)
      ∙ (run_loop-suc (k + fuel) halts conn s live (omega arith)
          ∙ run_loop-more k fuel halts conn s live h)

  -- A client thread ends: on a live connection, with more rounds of fuel than there are bytes to
  -- read, the loop does not run out of fuel, and with still more fuel it ends the same way in the
  -- same state.
  pub run_loop-ends :
      (k fuel : ℕ) (halts : ℕ → Bool) (conn : Conn) (s : TcpServer P)
      → IsLive conn
      → length (stream conn) < fuel
      → ((run_loop fuel halts conn s).0 ≢ exhausted)
        × (run_loop (k + fuel) halts conn s ≡ run_loop fuel halts conn s)
  run_loop-ends k fuel halts conn s live h =
      (run_loop-enough fuel halts conn s live h, run_loop-more k fuel halts conn s live h)
