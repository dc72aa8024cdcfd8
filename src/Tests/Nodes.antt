-- ===== src/Tests/Nodes.antt =====
-- The ROS side.
use ros_tcp_endpoint.Prelude.{
  ℕ, ◌≡◌, ◌↔◌, ◌⊎◌, refl, true, false, [], ◌∷◌, Bytes, codes, none, if◌then◌else◌, ◌==◌,
}
use ros_tcp_endpoint.Prelude.Dict.{Text_eq}
use ros_tcp_endpoint.Text.{contains_any, lower}
use ros_tcp_endpoint.Ros.Qos.{
  best_effort, transient_local, keep_all, subscriber_qos, subscriber_stream_tokens,
}
use ros_tcp_endpoint.Ros.Qos.Choice.{subscriber_qos_lem}
use ros_tcp_endpoint.Ros.Nodes.Retry.{Attempt, unavailable, answered}
use ros_tcp_endpoint.Server.Subscribe.{IsSubscribed, subscribe_registers}
use ros_tcp_endpoint.Server.Register.{IsRegistered, publish_registers}
use ros_tcp_endpoint.Server.SysCommands.{publish, subscribe}
use ros_tcp_endpoint.Server.Resolve.{resolve_message_name}
use ros_tcp_endpoint.Tests.Demo.{server}

subscriber_qos_example :
    (((subscriber_qos none (codes "/a") 10 (codes "Best_Effort") [] []).reliability ≡ best_effort)
      ↔ ((contains_any (codes "/a") subscriber_stream_tokens ≡ true)
          ⊎ (lower (codes "Best_Effort") ≡ codes "best_effort")))
    × ((subscriber_qos none (codes "/a") 10 (codes "Best_Effort") [] []).depth
        ≡ (if contains_any (codes "/a") subscriber_stream_tokens then 2 else 10))
    × (((subscriber_qos none (codes "/a") 10 (codes "Best_Effort") [] []).durability
          ≡ transient_local)
        ↔ (lower [] ≡ codes "transient_local"))
    × (((subscriber_qos none (codes "/a") 10 (codes "Best_Effort") [] []).history ≡ keep_all)
        ↔ (lower [] ≡ codes "keep_all"))
    × (subscriber_qos none (codes "/a") 10 (lower (codes "Best_Effort")) (lower []) (lower [])
        ≡ subscriber_qos none (codes "/a") 10 (codes "Best_Effort") [] [])
subscriber_qos_example = subscriber_qos_lem (codes "/a") 10 (codes "Best_Effort") [] []

-- The second attempt is answered.
abbrev attempts : ℕ → Attempt Bytes
attempts n = if n == 1 then answered (5 ∷ []) else unavailable

publish_registers_example :
    IsRegistered server (codes "/a") 7 10 false (codes "reliable") (codes "keep_last") (
      publish
        (codes "/a")
        (codes "std_msgs/String")
        10
        false
        (codes "reliable")
        (codes "keep_last")
        server)
unfolding resolve_message_name
publish_registers_example =
    publish_registers server (codes "/a") 7 10 false (codes "reliable") (codes "keep_last") refl []
      refl (codes "std_msgs/String") (λ e. cc) refl

subscribe_registers_example :
    IsSubscribed server
      (codes "/a")
      7
      10
      (codes "reliable")
      (codes "volatile")
      (codes "keep_last")
      (subscribe
        (codes "/a")
        (codes "std_msgs/String")
        10
        (codes "reliable")
        (codes "volatile")
        (codes "keep_last")
        server)
unfolding resolve_message_name
subscribe_registers_example =
    subscribe_registers server (codes "/a") 7 10 (codes "reliable") (codes "volatile")
      (codes "keep_last") refl (codes "std_msgs/String") (λ e. cc) refl
