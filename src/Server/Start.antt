-- ===== src/Server/Start.antt =====
-- server.py: how the endpoint is configured.
use ros_tcp_endpoint.Prelude.{
  ℕ, zero, suc, ◌*◌, Bool, false, List, [], ◌∷◌, Text, codes, Option, none, some,
}
use ros_tcp_endpoint.Prelude.Dict.{Dict}
use ros_tcp_endpoint.Platform.{Platform}
use ros_tcp_endpoint.Ros.Nodes.{RosPublisher, RosSubscriber}
use ros_tcp_endpoint.Server.{TcpServer, new_server}

-- The values of the node's ROS parameters.
pub record Parameters : Type 0 where
  pub tcp_ip : Text
  pub tcp_port : ℕ
  pub enable_zero_copy : Bool
  pub zero_copy_buffer_size : ℕ
  pub zero_copy_threshold : ℕ

-- What `declare_parameter` gives where nothing else is set.
abbrev pub default_parameters : Parameters
default_parameters = record {
  tcp_ip = codes "0.0.0.0";
  tcp_port = 10000;
  enable_zero_copy = false;
  zero_copy_buffer_size = 50 * 1024 * 1024;
  zero_copy_threshold = 512 * 1024;
}

-- The fields of `TcpServer` that only `listen_loop` reads, with the rest of the server.
pub record Endpoint (P : Platform) : Type 0 where
  pub node_name : Text
  pub tcp_ip : Text
  pub tcp_port : ℕ
  pub buffer_size : ℕ
  pub connections : ℕ
  pub server : TcpServer P

-- `if tcp_ip:` and `if tcp_port:`, which `None`, the empty text and 0 fail.
unfoldable pub choose_ip : Option Text → Text → Text
choose_ip none parameter = parameter
choose_ip (some []) parameter = parameter
choose_ip (some (c ∷ cs)) parameter = c ∷ cs

unfoldable pub choose_port : Option ℕ → ℕ → ℕ
choose_port none parameter = parameter
choose_port (some zero) parameter = parameter
choose_port (some (suc n)) parameter = suc n

-- TcpServer(node_name, buffer_size, connections, tcp_ip, tcp_port). `enable_zero_copy(True)` only
-- warns.
unfoldable pub new_endpoint :
    (P : Platform)
    → Parameters
    → List (Text × List Text)
    → Text
    → ℕ
    → ℕ
    → Option Text
    → Option ℕ
    → Endpoint P
unfolding choose_ip choose_port new_server
new_endpoint P p graph node_name buffer_size connections tcp_ip tcp_port = record {
  node_name = node_name;
  tcp_ip = choose_ip tcp_ip p.tcp_ip;
  tcp_port = choose_port tcp_port p.tcp_port;
  buffer_size = buffer_size;
  connections = connections;
  server = new_server P p.zero_copy_buffer_size p.zero_copy_threshold graph;
}

abbrev pub given {ℓ} : {A : Type ℓ} → Option A → A → A
given none old = old
given (some new) old = new

module _ {P : Platform} where
  -- `start`, which also starts the thread of `listen_loop`.
  unfoldable pub start :
      Option (Dict Text (RosPublisher P))
      → Option (Dict Text (RosSubscriber P))
      → Endpoint P
      → Endpoint P
  start publishers subscribers e = record e {
    server = record e.server {
      publishers_table = given publishers e.server.publishers_table;
      subscribers_table = given subscribers e.server.subscribers_table;
    };
  }
