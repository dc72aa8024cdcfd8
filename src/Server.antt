-- ===== src/Server.antt =====
-- server.py: the state of `TcpServer` and its own methods.
pub mod Resolve
pub mod SysCommands
pub mod Syscall
pub mod Register
pub mod Subscribe
pub mod Owned
pub mod Parts
pub mod Services
pub mod Rejected
pub mod Overlap
pub mod Start
pub mod Listen
use ros_tcp_endpoint.Prelude.{
  ℕ, zero, suc, ◌+◌, Bool, true, false, List, [], ◌∷◌, ◌++◌, Bytes, Text, codes, Option, none, some,
  if◌then◌else◌,
}
use ros_tcp_endpoint.Prelude.Dict.{Dict, Text_eq, get, put}
use ros_tcp_endpoint.Prelude.Result.{Result, ok, err}
use ros_tcp_endpoint.Prelude.Exec.{Exec, pure, modify, ◌>>=◌, ◌>>◌}
use ros_tcp_endpoint.Platform.{Platform}
use ros_tcp_endpoint.Json.{Json}
use ros_tcp_endpoint.Sender.{Sender, new_sender}
use ros_tcp_endpoint.Sender.Send
use ros_tcp_endpoint.Ros.Nodes.{
  Node, RosSubscriber, RosPublisher, RosService, UnityService, throttle_message, fill_response,
}

-- A thread for a call of a ROS service: the arguments of `service_call_thread`.
pub record ServiceCall (P : Platform) : Type 0 where
  pub srv_id : Json
  pub destination : Text
  pub payload : Bytes
  pub ros_communicator : RosService P

pub record TcpServer (P : Platform) : Type 0 where
  pub sender : Sender P
  pub publishers_table : Dict Text (RosPublisher P)
  pub subscribers_table : Dict Text (RosSubscriber P)
  pub ros_services_table : Dict Text (RosService P)
  pub unity_services_table : Dict Text (UnityService P)
  pub pending_srv_id : Option Json
  pub pending_srv_is_request : Bool
  -- the node's calls of rclpy, what the ROS graph lists, and the threads started for services
  pub node : Node P
  pub topic_names_and_types : List (Text × List Text)
  pub service_calls : List (ServiceCall P)

-- The ROS parameters `zero_copy_buffer_size` and `zero_copy_threshold` are arguments.
unfoldable pub new_server : (P : Platform) → ℕ → ℕ → List (Text × List Text) → TcpServer P
unfolding new_sender
new_server P zero_copy_buffer_size zero_copy_threshold graph = record {
  sender = new_sender P zero_copy_buffer_size zero_copy_threshold;
  publishers_table = [];
  subscribers_table = [];
  ros_services_table = [];
  unity_services_table = [];
  pending_srv_id = none;
  pending_srv_is_request = false;
  node = record { calls = []; next_handle = 0 };
  topic_names_and_types = graph;
  service_calls = [];
}

-- One of the objects of the four tables.
pub data Communicator (P : Platform) : Type 0 where
  publisher : RosPublisher P → Communicator P
  subscriber : RosSubscriber P → Communicator P
  ros_service : RosService P → Communicator P
  unity_service : UnityService P → Communicator P

module _ {P : Platform} where
  -- A method of `unity_tcp_sender`, and a call of rclpy.
  abbrev pub on_sender {ℓ} : {A : Type ℓ} → Exec (Sender P) A → Exec (TcpServer P) A
  on_sender m s = let r = m s.sender in (r.0, record s { sender = r.1 })

  abbrev pub on_node {ℓ} : {A : Type ℓ} → Exec (Node P) A → Exec (TcpServer P) A
  on_node m s = let r = m s.node in (r.0, record s { node = r.1 })

  -- `unregister_node` of an object that is there: its method `unregister`, and the object behind it.
  abbrev pub unregister_node {ℓ} : {A : Type ℓ} → (A → Exec (Node P) A) → A → Exec (TcpServer P) A
  unregister_node unregister old_node = on_node (unregister old_node)

  unfoldable pub send_unity_error : Text → Exec (TcpServer P) (Unit {0})
  unfolding Send.send_unity_error
  send_unity_error error = on_sender (Send.send_unity_error error)

  unfoldable pub send_unity_message : Text → P.Message → Exec (TcpServer P) (Unit {0})
  unfolding Send.send_unity_message
  send_unity_message topic message = on_sender (Send.send_unity_message topic message)

  unfoldable pub send_unity_service_response : Json → Bytes → Exec (TcpServer P) (Unit {0})
  unfolding Send.send_unity_service_response
  send_unity_service_response srv_id payload =
      on_sender (Send.send_unity_service_response srv_id payload)

  -- `RosSubscriber.send`, the callback of a topic's subscription, at the time `now`: the throttle
  -- first, then `send_unity_message`. The time of the last message is written before that.
  unfoldable pub subscriber_send : Text → ℕ → P.Message → Exec (TcpServer P) (Unit {0})
  unfolding throttle_message send_unity_message
  subscriber_send topic now message s = elim (get s.subscribers_table topic) [
    | none ↦ (ok tt, s)
    | some r ↦
        let (forwards, r') = throttle_message now r in
        let s' : TcpServer P = record s { subscribers_table = put s.subscribers_table topic r' } in
        (if forwards then send_unity_message r.topic message else pure tt) s'
  ]

  -- `send_unity_service`, up to the wait for the response: the pauser that the thread waits on, or
  -- `none` if no client is connected; and what it returns to a thread that has waited.
  unfoldable pub begin_unity_service : Text → P.Message → Exec (TcpServer P) (Option ℕ)
  unfolding Send.begin_service_request
  begin_unity_service topic request = on_sender (Send.begin_service_request topic request)

  unfoldable pub end_unity_service : P.Class → ℕ → Exec (TcpServer P) P.Message
  unfolding Send.finish_service_request
  end_unity_service service_class pauser =
      on_sender (Send.finish_service_request pauser (P.response_class service_class))

  -- `UnityService.send`, the callback of a service, up to the wait for the response: the pauser
  -- that its thread waits on, or `none` if no client is connected.
  unfoldable pub begin_unity_call : UnityService P → P.Message → Exec (TcpServer P) (Option ℕ)
  unfolding begin_unity_service
  begin_unity_call r request = begin_unity_service r.topic request

  -- What `UnityService.send` returns, once the thread runs again.
  unfoldable pub end_unity_call :
      UnityService P → Option ℕ → P.Message → Exec (TcpServer P) P.Message
  unfolding end_unity_service fill_response
  end_unity_call r none response = pure (fill_response P none response)
  end_unity_call r (some pauser) response = do
    result ← end_unity_service r.service_class pauser
    pure (fill_response P (some result) response)

  -- `UnityTcpSender.get_registered_topic`
  unfoldable pub get_registered_topic : Text → TcpServer P → Option (Communicator P)
  get_registered_topic topic s = elim (get s.publishers_table topic) [
    | some r ↦ some (publisher r)
    | none ↦ elim (get s.subscribers_table topic) [
      | some r ↦ some (subscriber r)
      | none ↦ elim (get s.ros_services_table topic) [
        | some r ↦ some (ros_service r)
        | none ↦ elim (get s.unity_services_table topic) [
          | some r ↦ some (unity_service r)
          | none ↦ none
        ]
      ]
    ]
  ]
