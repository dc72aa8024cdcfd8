-- ===== src/Server/SysCommands.antt =====
-- server.py: the commands of `SysCommands`.
use ros_tcp_endpoint.Prelude.{
  ℕ, Bool, true, false, [], ◌∷◌, ◌++◌, Text, codes, Option, none, some, if◌then◌else◌,
}
use ros_tcp_endpoint.Prelude.Dict.{Text_eq, get, put}
use ros_tcp_endpoint.Prelude.Exec.{Exec, pure, lift, modify, ◌>>=◌, ◌>>◌}
use ros_tcp_endpoint.Platform.{Platform}
use ros_tcp_endpoint.Json.{Json, null}
use ros_tcp_endpoint.Sender.Send
use ros_tcp_endpoint.Ros.Nodes.{
  new_subscriber, new_publisher, new_ros_service, new_unity_service, unregister_subscriber,
  unregister_publisher, unregister_ros_service, unregister_unity_service,
}
use ros_tcp_endpoint.Server.{TcpServer, on_sender, on_node, unregister_node, send_unity_error}
use ros_tcp_endpoint.Server.Resolve.{resolve_message_name}

-- topic == ""
abbrev pub is_blank : Text → Bool
is_blank [] = true
is_blank (_ ∷ _) = false

-- `None`, which JSON writes `null`, is no pending number.
abbrev pub pending : Json → Option Json
pending null = none
pending srv_id = some srv_id

module _ {P : Platform} where
  -- A message about a missing class ends the command; otherwise it goes on with the class.
  unfoldable pub with_class :
      Text → Text → Text → (P.Class → Exec (TcpServer P) (Unit {0})) → Exec (TcpServer P) (Unit {0})
  unfolding send_unity_error
  with_class message_name extension unknown go = do
    found ← lift (resolve_message_name P message_name extension)
    elim found [ none ↦ send_unity_error unknown | some message_class ↦ go message_class ]

  -- The old object stays in the table until the new one replaces it.
  unfoldable pub unregister_old_subscriber : Text → Exec (TcpServer P) (Unit {0})
  unfolding unregister_subscriber
  unregister_old_subscriber topic s = elim (get s.subscribers_table topic) [
    | none ↦ pure tt s
    | some old ↦
        ◌>>=◌ (unregister_node unregister_subscriber old)
          (λ r. modify (λ t. record t { subscribers_table = put t.subscribers_table topic r })) s
  ]

  unfoldable pub register_subscriber :
      Text → P.Class → ℕ → Text → Text → Text → Exec (TcpServer P) (Unit {0})
  unfolding unregister_old_subscriber new_subscriber
  register_subscriber topic message_class queue_size reliability durability history = do
    unregister_old_subscriber topic
    r ← on_node (new_subscriber topic message_class queue_size none reliability durability history)
    modify (λ t. record t { subscribers_table = put t.subscribers_table topic r })

  unfoldable pub subscribe : Text → Text → ℕ → Text → Text → Text → Exec (TcpServer P) (Unit {0})
  unfolding send_unity_error with_class register_subscriber
  subscribe topic message_name queue_size reliability durability history =
      if is_blank topic
      then send_unity_error (
          codes "Can't subscribe to a blank topic name! SysCommand.subscribe("
          ++ topic
          ++ codes ", "
          ++ message_name
          ++ codes ")")
      else with_class message_name (codes "msg")
          (codes "SysCommand.subscribe - Unknown message class '" ++ message_name ++ codes "'")
          (λ message_class.
            register_subscriber topic message_class queue_size reliability durability history)

  unfoldable pub unregister_old_publisher : Text → Exec (TcpServer P) (Unit {0})
  unfolding unregister_publisher
  unregister_old_publisher topic s = elim (get s.publishers_table topic) [
    | none ↦ pure tt s
    | some old ↦
        ◌>>=◌ (unregister_node unregister_publisher old)
          (λ r. modify (λ t. record t { publishers_table = put t.publishers_table topic r })) s
  ]

  unfoldable pub register_publisher :
      Text → P.Class → ℕ → Bool → Text → Text → Exec (TcpServer P) (Unit {0})
  unfolding unregister_old_publisher new_publisher
  register_publisher topic message_class queue_size latch reliability history = do
    unregister_old_publisher topic
    r ← on_node (new_publisher topic message_class queue_size latch none reliability history)
    modify (λ t. record t { publishers_table = put t.publishers_table topic r })

  unfoldable pub publish : Text → Text → ℕ → Bool → Text → Text → Exec (TcpServer P) (Unit {0})
  unfolding send_unity_error with_class register_publisher
  publish topic message_name queue_size latch reliability history =
      if is_blank topic
      then send_unity_error (
          codes "Can't publish to a blank topic name! SysCommand.publish("
          ++ topic
          ++ codes ", "
          ++ message_name
          ++ codes ")")
      else with_class message_name (codes "msg")
          (codes "SysCommand.publish - Unknown message class '" ++ message_name ++ codes "'")
          (λ message_class.
            register_publisher topic message_class queue_size latch reliability history)

  unfoldable pub unregister_old_ros_service : Text → Exec (TcpServer P) (Unit {0})
  unfolding unregister_ros_service
  unregister_old_ros_service topic s = elim (get s.ros_services_table topic) [
    | none ↦ pure tt s
    | some old ↦
        ◌>>=◌ (unregister_node unregister_ros_service old)
          (λ r. modify (λ t. record t { ros_services_table = put t.ros_services_table topic r })) s
  ]

  unfoldable pub register_ros_service : Text → P.Class → Exec (TcpServer P) (Unit {0})
  unfolding unregister_old_ros_service new_ros_service
  register_ros_service topic message_class = do
    unregister_old_ros_service topic
    r ← on_node (new_ros_service topic message_class)
    modify (λ t. record t { ros_services_table = put t.ros_services_table topic r })

  unfoldable pub ros_service : Text → Text → Exec (TcpServer P) (Unit {0})
  unfolding send_unity_error with_class register_ros_service
  ros_service topic message_name =
      let call = codes "RegisterRosService(" ++ topic ++ codes ", " ++ message_name in
      if is_blank topic
      then send_unity_error (call ++ codes ") - Can't register a blank topic name!")
      else with_class message_name (codes "srv")
          (call ++ codes ") - Unknown service class '" ++ message_name ++ codes "'")
          (register_ros_service topic)

  unfoldable pub unregister_old_unity_service : Text → Exec (TcpServer P) (Unit {0})
  unfolding unregister_unity_service
  unregister_old_unity_service topic s = elim (get s.unity_services_table topic) [
    | none ↦ pure tt s
    | some old ↦
        ◌>>=◌ (unregister_node unregister_unity_service old)
          (λ r.
            modify (λ t. record t { unity_services_table = put t.unity_services_table topic r }))
          s
  ]

  unfoldable pub register_unity_service : Text → P.Class → Exec (TcpServer P) (Unit {0})
  unfolding unregister_old_unity_service new_unity_service
  register_unity_service topic message_class = do
    unregister_old_unity_service topic
    r ← on_node (new_unity_service topic message_class)
    modify (λ t. record t { unity_services_table = put t.unity_services_table topic r })

  unfoldable pub unity_service : Text → Text → Exec (TcpServer P) (Unit {0})
  unfolding send_unity_error with_class register_unity_service
  unity_service topic message_name =
      let call = codes "RegisterUnityService(" ++ topic ++ codes ", " ++ message_name in
      if is_blank topic
      then send_unity_error (call ++ codes ") - Can't register a blank topic name!")
      else with_class message_name (codes "srv")
          (call ++ codes ") - Unknown service class '" ++ message_name ++ codes "'")
          (register_unity_service topic)

  unfoldable pub response : Json → Exec (TcpServer P) (Unit {0})
  response srv_id =
      modify (λ s. record s { pending_srv_id = pending srv_id; pending_srv_is_request = false })

  unfoldable pub request : Json → Exec (TcpServer P) (Unit {0})
  request srv_id =
      modify (λ s. record s { pending_srv_id = pending srv_id; pending_srv_is_request = true })

  unfoldable pub topic_list : Exec (TcpServer P) (Unit {0})
  unfolding Send.send_topic_list
  topic_list s = on_sender (Send.send_topic_list s.topic_names_and_types) s
