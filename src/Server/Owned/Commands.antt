-- ===== src/Server/Owned/Commands.antt =====
-- server.py: registering in each of the four tables keeps tables and graph together.
use ros_tcp_endpoint.Prelude.{
  ℕ, ◌++◌, codes, refl, Bool, Text, none, some, arith, Option-cases, Bool-cases, inl, inr,
}
use ros_tcp_endpoint.Prelude.Dict.{Text_eq, get, put}
use ros_tcp_endpoint.Prelude.Result.{ros_error, Result-cases}
use ros_tcp_endpoint.Prelude.Keeps.{Keeps}
use ros_tcp_endpoint.Platform.{Platform}
use ros_tcp_endpoint.Text.{strip_name}
use ros_tcp_endpoint.Ros.Qos.{publisher_qos, subscriber_qos, subscriber_depth}
use ros_tcp_endpoint.Ros.Throttle.{throttle_interval}
use ros_tcp_endpoint.Prelude.Exec.{◌>>=◌, modify}
use ros_tcp_endpoint.Ros.Nodes.{
  create_publisher, create_subscription, create_client, create_service, new_publisher,
  new_subscriber, new_ros_service, new_unity_service,
}
use ros_tcp_endpoint.Ros.Graph.{after_call, publisher, subscription, client, service}
use ros_tcp_endpoint.Server.{TcpServer, on_node}
use ros_tcp_endpoint.Server.SysCommands.{
  unregister_old_publisher, register_publisher, unregister_old_subscriber, register_subscriber,
  unregister_old_ros_service, register_ros_service, unregister_old_unity_service,
  register_unity_service,
}
use ros_tcp_endpoint.Server.Owned.{IsOwned}
use ros_tcp_endpoint.Server.Owned.Replace.{
  Unregisters, absent, dead, live, Registers, refused, made, Keeps-replace,
}

module _ {P : Platform} (topic : Text) where
  unregister_publisher-Unregisters :
      (s : TcpServer P) → Unregisters publisher topic s (unregister_old_publisher topic s)
  unfolding unregister_old_publisher after_call
  unregister_publisher-Unregisters s = elim (Option-cases (get s.publishers_table topic)) [
    | inl e ↦ absent e (ground arith)
    | inr (old, e) ↦ elim (Option-cases old.pub_handle) [
      | inl gone ↦ dead old e gone (ground arith)
      | inr (h, there) ↦
          live old (record old { pub_handle = none }) h e there refl (λ g. refl) (ground arith)
    ]
  ]

  register_publisher-Registers :
      (c : P.Class) (queue_size : ℕ) (latch : Bool) (reliability history : Text) (s : TcpServer P)
      → Registers publisher topic s (
          ◌>>=◌
            (on_node (new_publisher topic c queue_size latch none reliability history))
            (λ r. modify (λ t. record t { publishers_table = put t.publishers_table topic r }))
            s)
  unfolding new_publisher after_call
  register_publisher-Registers c queue_size latch reliability history s =
      elim (Result-cases (P.construct c)) [
        | inl (e, bad) ↦ refused e (ground arith)
        | inr (m, good) ↦ elim (Bool-cases (P.valid_name topic)) [
          | inl valid ↦
              made
                (record {
                  node_name = strip_name topic ++ codes "_RosPublisher";
                  msg = c;
                  pub_handle = some s.node.next_handle;
                })
                (create_publisher s.node.next_handle c topic
                  (publisher_qos none topic queue_size latch reliability history))
                refl (λ g. refl) (ground arith)
          | inr bad ↦ refused ros_error (ground arith)
        ]
      ]

  pub Keeps-register_publisher :
      (c : P.Class) (queue_size : ℕ) (latch : Bool) (reliability history : Text)
      → Keeps {S = TcpServer P} IsOwned
          (register_publisher topic c queue_size latch reliability history)
  unfolding register_publisher
  Keeps-register_publisher c queue_size latch reliability history =
      Keeps-replace publisher topic (unregister_old_publisher topic) _
        unregister_publisher-Unregisters
        (register_publisher-Registers c queue_size latch reliability history)

module _ {P : Platform} (topic : Text) where
  unregister_subscriber-Unregisters :
      (s : TcpServer P) → Unregisters subscription topic s (unregister_old_subscriber topic s)
  unfolding unregister_old_subscriber after_call
  unregister_subscriber-Unregisters s = elim (Option-cases (get s.subscribers_table topic)) [
    | inl e ↦ absent e (ground arith)
    | inr (old, e) ↦ elim (Option-cases old.sub) [
      | inl gone ↦ dead old e gone (ground arith)
      | inr (h, there) ↦
          live old (record old { sub = none }) h e there refl (λ g. refl) (ground arith)
    ]
  ]

  register_subscriber-Registers :
      (c : P.Class) (queue_size : ℕ) (reliability durability history : Text) (s : TcpServer P)
      → Registers subscription topic s (
          ◌>>=◌
            (on_node (new_subscriber topic c queue_size none reliability durability history))
            (λ r. modify (λ t. record t { subscribers_table = put t.subscribers_table topic r }))
            s)
  unfolding new_subscriber after_call
  register_subscriber-Registers c queue_size reliability durability history s =
      elim (Bool-cases (P.valid_name topic)) [
        | inl valid ↦
            made
              (record {
                node_name = strip_name topic ++ codes "_RosSubscriber";
                topic = topic;
                msg = c;
                throttle = throttle_interval topic;
                last_sent_time = 0;
                queue_size = subscriber_depth topic queue_size;
                sub = some s.node.next_handle;
              })
              (create_subscription s.node.next_handle c topic
                (subscriber_qos none topic queue_size reliability durability history))
              refl (λ g. refl) (ground arith)
        | inr bad ↦ refused ros_error (ground arith)
      ]

  pub Keeps-register_subscriber :
      (c : P.Class) (queue_size : ℕ) (reliability durability history : Text)
      → Keeps {S = TcpServer P} IsOwned
          (register_subscriber topic c queue_size reliability durability history)
  unfolding register_subscriber
  Keeps-register_subscriber c queue_size reliability durability history =
      Keeps-replace subscription topic (unregister_old_subscriber topic) _
        unregister_subscriber-Unregisters
        (register_subscriber-Registers c queue_size reliability durability history)

module _ {P : Platform} (topic : Text) where
  pub unregister_ros_service-Unregisters :
      (s : TcpServer P) → Unregisters client topic s (unregister_old_ros_service topic s)
  unfolding unregister_old_ros_service after_call
  unregister_ros_service-Unregisters s = elim (Option-cases (get s.ros_services_table topic)) [
    | inl e ↦ absent e (ground arith)
    | inr (old, e) ↦ elim (Option-cases old.client) [
      | inl gone ↦ dead old e gone (ground arith)
      | inr (h, there) ↦
          live old (record old { client = none }) h e there refl (λ g. refl) (ground arith)
    ]
  ]

  register_ros_service-Registers :
      (c : P.Class) (s : TcpServer P)
      → Registers client topic s (
          ◌>>=◌
            (on_node (new_ros_service topic c))
            (λ r. modify (λ t. record t { ros_services_table = put t.ros_services_table topic r }))
            s)
  unfolding new_ros_service after_call
  register_ros_service-Registers c s = elim (Bool-cases (P.valid_name topic)) [
    | inl valid ↦
        made
          (record {
            node_name = strip_name topic ++ codes "_RosService";
            srv_class = c;
            client = some s.node.next_handle;
          })
          (create_client s.node.next_handle c topic) refl (λ g. refl) (ground arith)
    | inr bad ↦ refused ros_error (ground arith)
  ]

  pub Keeps-register_ros_service :
      (c : P.Class) → Keeps {S = TcpServer P} IsOwned (register_ros_service topic c)
  unfolding register_ros_service
  Keeps-register_ros_service c =
      Keeps-replace client topic (unregister_old_ros_service topic) _
        unregister_ros_service-Unregisters (register_ros_service-Registers c)

module _ {P : Platform} (topic : Text) where
  pub unregister_unity_service-Unregisters :
      (s : TcpServer P) → Unregisters service topic s (unregister_old_unity_service topic s)
  unfolding unregister_old_unity_service after_call
  unregister_unity_service-Unregisters s = elim (Option-cases (get s.unity_services_table topic)) [
    | inl e ↦ absent e (ground arith)
    | inr (old, e) ↦ elim (Option-cases old.service) [
      | inl gone ↦ dead old e gone (ground arith)
      | inr (h, there) ↦
          live old (record old { service = none }) h e there refl (λ g. refl) (ground arith)
    ]
  ]

  register_unity_service-Registers :
      (c : P.Class) (s : TcpServer P)
      → Registers service topic s (
          ◌>>=◌
            (on_node (new_unity_service topic c))
            (λ r.
              modify (λ t. record t { unity_services_table = put t.unity_services_table topic r }))
            s)
  unfolding new_unity_service after_call
  register_unity_service-Registers c s = elim (Bool-cases (P.valid_name topic)) [
    | inl valid ↦
        made
          (record {
            node_name = strip_name topic ++ codes "_service";
            topic = topic;
            service_class = c;
            queue_size = 10;
            service = some s.node.next_handle;
          })
          (create_service s.node.next_handle c topic) refl (λ g. refl) (ground arith)
    | inr bad ↦ refused ros_error (ground arith)
  ]

  pub Keeps-register_unity_service :
      (c : P.Class) → Keeps {S = TcpServer P} IsOwned (register_unity_service topic c)
  unfolding register_unity_service
  Keeps-register_unity_service c =
      Keeps-replace service topic (unregister_old_unity_service topic) _
        unregister_unity_service-Unregisters (register_unity_service-Registers c)
