-- ===== src/Tests/Registrations.antt =====
-- The commands that register something, and the connections that arrive.
use ros_tcp_endpoint.Prelude.{
  ◌≡◌, refl, [], ◌∷◌, ◌++◌, ◌⊎◌, inr, codes, none, some, false, ℕ, Text, text_eq, if◌then◌else◌,
  List, Option, map,
}
use ros_tcp_endpoint.Prelude.Result.{Exc, err, import_error}
use ros_tcp_endpoint.Prelude.Attempt.{AllPass, IsCut}
use ros_tcp_endpoint.Platform.{Platform}
use ros_tcp_endpoint.Ros.Graph.{client, service}
use ros_tcp_endpoint.Ros.Nodes.{create_client, create_service, create_publisher}
use ros_tcp_endpoint.Ros.Qos.{publisher_qos}
use ros_tcp_endpoint.Server.Register.{made_publisher}
use ros_tcp_endpoint.Prelude.Dict.{Text_eq, get}
use ros_tcp_endpoint.Server.Overlap.{
  Publishing, looks, returned, Clients, run_clients, registrations_overlap,
}
use ros_tcp_endpoint.Server.{TcpServer, new_server}
use ros_tcp_endpoint.Server.Resolve.{resolve_message_name}
use ros_tcp_endpoint.Server.SysCommands
use ros_tcp_endpoint.Server.Services.{
  IsReplaced, made_ros_service, made_unity_service, services_register,
}
use ros_tcp_endpoint.Server.Rejected
use ros_tcp_endpoint.Server.Rejected.{register, refused, register_rejected}
use ros_tcp_endpoint.Server.Start.{Endpoint, default_parameters, new_endpoint}
use ros_tcp_endpoint.Server.Listen.{
  ClientThread, SocketCall, make_socket, set_reuse_address, set_no_delay, bind, listen, unusable,
  accept_loop, listen_loop, arrivals, listen_loop-arrivals,
}
use ros_tcp_endpoint.Tests.Demo.{demo}
use ros_tcp_endpoint.Tests.Clients.{with_adder}

services_register_example :
    IsReplaced client
      (codes "add")
      (made_ros_service (codes "add") 7 0)
      (create_client 0 7 (codes "add"))
      with_adder
      (SysCommands.ros_service (codes "add") (codes "std_srvs/Empty") with_adder)
    × IsReplaced service
        (codes "add")
        (made_unity_service (codes "add") 7 0)
        (create_service 0 7 (codes "add"))
        with_adder
        (SysCommands.unity_service (codes "add") (codes "std_srvs/Empty") with_adder)
unfolding resolve_message_name
services_register_example =
    services_register with_adder (codes "add") 7 refl (codes "std_srvs/Empty") (λ e. cc) refl

-- A platform without packages.
abbrev bare : Platform
bare = record demo { import_module = λ t. err import_error }

abbrev alone : TcpServer bare
alone = new_server bare 8 4 []

register_rejected_example :
    register Rejected.ros_service (codes "add") (codes "a/B") alone
    ≡ refused Rejected.ros_service (codes "add") (codes "a/B") alone
unfolding resolve_message_name
register_rejected_example =
    register_rejected Rejected.ros_service (codes "add") (codes "a/B") alone (inr refl)

abbrev first_client : ClientThread
first_client = record { conn = 4; incoming_ip = codes "10.0.0.2"; incoming_port = 50001 }

abbrev second_client : ClientThread
second_client = record { conn = 5; incoming_ip = codes "10.0.0.3"; incoming_port = 50002 }

abbrev both_clients : List (ℕ × ClientThread)
both_clients = (0, first_client) ∷ (2, second_client) ∷ []

abbrev endpoint : Endpoint demo
endpoint = new_endpoint demo default_parameters [] (codes "unity_endpoint") 1024 10 none none

abbrev nothing_fails : {C : Type 0} → C → Option Exc
nothing_fails c = none

listen_loop-arrivals_example :
    (AllPass nothing_fails (
        make_socket
        ∷ set_reuse_address
        ∷ set_no_delay
        ∷ bind (codes "0.0.0.0") 10000
        ∷ listen 10
        ∷ [])
      × (listen_loop nothing_fails endpoint (arrivals both_clients (unusable first_client ∷ []))
          ≡ record {
            made =
                (make_socket
                  ∷ set_reuse_address
                  ∷ set_no_delay
                  ∷ bind (codes "0.0.0.0") 10000
                  ∷ listen 10
                  ∷ []);
            threads = map (λ c. c.1) both_clients ++ (accept_loop (unusable first_client ∷ [])).0;
            ended = (accept_loop (unusable first_client ∷ [])).1;
          }))
    ⊎ ((before : List SocketCall) × (raised : Exc) × IsCut nothing_fails
          (make_socket
            ∷ set_reuse_address
            ∷ set_no_delay
            ∷ bind (codes "0.0.0.0") 10000
            ∷ listen 10
            ∷ [])
          before
          raised
        × (listen_loop nothing_fails endpoint (arrivals both_clients (unusable first_client ∷ []))
            ≡ record { made = before; threads = []; ended = some raised }))
unfolding new_endpoint
listen_loop-arrivals_example =
    listen_loop-arrivals nothing_fails endpoint both_clients (unusable first_client ∷ [])

abbrev chatting : Publishing demo
chatting = record {
  topic = codes "/chat";
  message_class = 7;
  queue_size = 10;
  latch = false;
  reliability = codes "reliable";
  history = codes "keep_last";
}

registrations_overlap_example :
    (order : List ℕ) × (u : Clients demo) × (run_clients order
        (record { server = with_adder; stages = λ _. looks chatting })
      ≡ u)
    × (u.stages 0 ≡ returned)
    × (u.stages 1 ≡ returned)
    × (u.server.node.calls
        ≡ []
          ++ create_publisher 0 7
              (codes "/chat")
              (publisher_qos none (codes "/chat") 10 false (codes "reliable") (codes "keep_last"))
            ∷ create_publisher 1 7
                (codes "/chat")
                (publisher_qos none (codes "/chat") 10 false (codes "reliable") (codes "keep_last"))
            ∷ [])
    × ((t : Text)
        → get u.server.publishers_table t ≡ (
            if text_eq (codes "/chat") t
            then some (made_publisher (codes "/chat") 7 1)
            else get with_adder.publishers_table t))
unfolding get
registrations_overlap_example = registrations_overlap chatting with_adder [] refl refl refl
