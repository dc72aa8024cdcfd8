-- ===== src/Server/Listen.antt =====
-- server.py and client.py: the listening socket, and how connections become threads.
use ros_tcp_endpoint.Prelude.{
  ℕ, zero, suc, ◌≡◌, refl, ap, ◌∙◌, ◌⊎◌, inl, inr, map, List, [], ◌∷◌, ◌++◌, Text, Option, none,
  some,
}
use ros_tcp_endpoint.Prelude.Result.{Exc, io_error, Result, ok, err}
use ros_tcp_endpoint.Prelude.Attempt.{attempts, AllPass, IsCut, attempts-cases}
use ros_tcp_endpoint.Platform.{Platform}
use ros_tcp_endpoint.Server.Start.{Endpoint}

-- A client thread that was started: its socket, by number, and the address of its peer.
pub record ClientThread : Type 0 where
  pub conn : ℕ
  pub incoming_ip : Text
  pub incoming_port : ℕ

-- What `accept` does: a connection, whose socket options can be set or not, a timeout, or another
-- exception.
pub data Accept : Type 0 where
  accepted unusable : ClientThread → Accept
  timed_out : Accept
  failed : Exc → Accept

-- The loop of `listen_loop`, as far as `accept` has come: the threads that it started, and the
-- exception that ended it. A timeout is logged; a socket whose options cannot be set raises
-- `OSError` in the constructor of its thread.
unfoldable pub accept_loop : List Accept → List ClientThread × Option Exc
accept_loop [] = ([], none)
accept_loop (accepted c ∷ rest) = let r = accept_loop rest in (c ∷ r.0, r.1)
accept_loop (timed_out ∷ rest) = accept_loop rest
accept_loop (unusable c ∷ rest) = ([], some io_error)
accept_loop (failed e ∷ rest) = ([], some e)

-- A number of timeouts, and then some outcomes.
unfoldable pub timeouts : ℕ → List Accept → List Accept
timeouts zero rest = rest
timeouts (suc n) rest = timed_out ∷ timeouts n rest

-- The outcomes of `accept` for some connections, each after a number of timeouts.
unfoldable pub arrivals : List (ℕ × ClientThread) → List Accept → List Accept
unfolding timeouts
arrivals [] rest = rest
arrivals ((n, c) ∷ cs) rest = timeouts n (accepted c ∷ arrivals cs rest)

accept_loop-timeouts :
    (n : ℕ) (rest : List Accept) → accept_loop (timeouts n rest) ≡ accept_loop rest
unfolding accept_loop timeouts
accept_loop-timeouts zero rest = refl
accept_loop-timeouts (suc n) rest = accept_loop-timeouts n rest

accept_loop-arrivals :
    (cs : List (ℕ × ClientThread)) (rest : List Accept)
    → accept_loop (arrivals cs rest)
      ≡ (map (λ c. c.1) cs ++ (accept_loop rest).0, (accept_loop rest).1)
unfolding arrivals accept_loop
accept_loop-arrivals [] rest = refl
accept_loop-arrivals ((n, c) ∷ cs) rest =
    accept_loop-timeouts n (accepted c ∷ arrivals cs rest)
    ∙ ap (λ r. (c ∷ r.0, r.1)) (accept_loop-arrivals cs rest)

-- The calls that make the listening socket.
pub data SocketCall : Type 0 where
  make_socket set_reuse_address set_no_delay : SocketCall
  bind : (ip : Text) (port : ℕ) → SocketCall
  listen : (backlog : ℕ) → SocketCall

abbrev pub socket_calls : {P : Platform} → Endpoint P → List SocketCall
socket_calls e =
    make_socket
    ∷ set_reuse_address
    ∷ set_no_delay
    ∷ bind e.tcp_ip e.tcp_port
    ∷ listen e.connections
    ∷ []

-- The thread of `listen_loop`: the socket calls that it made, the client threads that it started, and
-- the exception that ended it. `fails` says which socket calls raise.
pub record Listened : Type 0 where
  pub made : List SocketCall
  pub threads : List ClientThread
  pub ended : Option Exc

-- What follows the socket calls.
abbrev pub serve : List Accept → Result (Unit {0}) × List SocketCall → Listened
serve outcomes (ok _, calls) =
    let r = accept_loop outcomes in record { made = calls; threads = r.0; ended = r.1 }
serve outcomes (err x, calls) = record { made = calls; threads = []; ended = some x }

unfoldable pub listen_loop :
    {P : Platform} → (SocketCall → Option Exc) → Endpoint P → List Accept → Listened
unfolding attempts accept_loop
listen_loop fails e outcomes = serve outcomes (attempts fails (socket_calls e) [])

module _ {P : Platform} (fails : SocketCall → Option Exc) (e : Endpoint P) where
  -- Whatever socket calls raise: either none does, the socket is made, gets SO_REUSEADDR and
  -- TCP_NODELAY, is bound to the address and the port of the endpoint and listens with its number
  -- of connections, each once and in this order, and then connections that are accepted, each after
  -- any number of timeouts, each get a client thread, in their order, and the loop goes on with
  -- what follows and ends as it ends there; or the first of these calls that raises ends the thread
  -- with its exception, and no client thread is started.
  pub listen_loop-arrivals :
      (cs : List (ℕ × ClientThread)) (rest : List Accept)
      → (AllPass fails (
            make_socket
            ∷ set_reuse_address
            ∷ set_no_delay
            ∷ bind e.tcp_ip e.tcp_port
            ∷ listen e.connections
            ∷ [])
          × (listen_loop fails e (arrivals cs rest) ≡ record {
            made =
                (make_socket
                  ∷ set_reuse_address
                  ∷ set_no_delay
                  ∷ bind e.tcp_ip e.tcp_port
                  ∷ listen e.connections
                  ∷ []);
            threads = map (λ c. c.1) cs ++ (accept_loop rest).0;
            ended = (accept_loop rest).1;
          }))
        ⊎ ((before : List SocketCall) × (raised : Exc) × IsCut fails
              (make_socket
                ∷ set_reuse_address
                ∷ set_no_delay
                ∷ bind e.tcp_ip e.tcp_port
                ∷ listen e.connections
                ∷ [])
              before
              raised
            × (listen_loop fails e (arrivals cs rest)
                ≡ record { made = before; threads = []; ended = some raised }))
  unfolding listen_loop
  listen_loop-arrivals cs rest = elim (attempts-cases fails (socket_calls e) []) [
    | inl (all, h) ↦ inl (
      all,
      ap (serve (arrivals cs rest)) h
          ∙ ap (λ r. record { made = socket_calls e; threads = r.0; ended = r.1 })
              (accept_loop-arrivals cs rest),
    )
    | inr (before, raised, cut, h) ↦ inr (before, raised, cut, ap (serve (arrivals cs rest)) h)
  ]
