-- ===== src/Ros/Nodes.antt =====
-- The communicators that the node owns: `RosSubscriber`, `RosPublisher`, `RosService` and
-- `UnityService`, on the calls that they make of rclpy.
pub mod Retry
pub mod Fields
use ros_tcp_endpoint.Prelude.{
  ℕ, zero, suc, ◌+◌, Bool, true, false, List, [], ◌∷◌, ◌++◌, Bytes, Text, codes, Option, none, some,
  if◌then◌else◌,
}
use ros_tcp_endpoint.Prelude.Result.{Result, ok, err, ros_error, attribute_error}
use ros_tcp_endpoint.Prelude.Exec.{Exec, pure, raise, lift, modify, ◌>>=◌, ◌>>◌}
use ros_tcp_endpoint.Platform.{Platform}
use ros_tcp_endpoint.Text.{strip_name}
use ros_tcp_endpoint.Ros.Qos.{QosProfile, subscriber_qos, publisher_qos, subscriber_depth}
use ros_tcp_endpoint.Ros.Throttle.{throttle_interval, admit}

-- A call of rclpy, with the handle of the entity that it makes or uses.
pub data RosCall (P : Platform) : Type 0 where
  create_subscription : ℕ → P.Class → Text → QosProfile → RosCall P
  create_publisher : ℕ → P.Class → Text → QosProfile → RosCall P
  create_client : ℕ → P.Class → Text → RosCall P
  create_service : ℕ → P.Class → Text → RosCall P
  publish : ℕ → P.Message → RosCall P
  destroy_subscription destroy_publisher destroy_client destroy_service : ℕ → RosCall P

-- The node's calls so far, in order, and the next handle.
pub record Node (P : Platform) : Type 0 where
  pub calls : List (RosCall P)
  pub next_handle : ℕ

pub record RosSubscriber (P : Platform) : Type 0 where
  pub node_name : Text
  pub topic : Text
  pub msg : P.Class
  pub throttle : ℕ
  pub last_sent_time : ℕ
  pub queue_size : ℕ
  pub sub : Option ℕ

pub record RosPublisher (P : Platform) : Type 0 where
  pub node_name : Text
  pub msg : P.Class
  pub pub_handle : Option ℕ

pub record RosService (P : Platform) : Type 0 where
  pub node_name : Text
  pub srv_class : P.Class
  pub client : Option ℕ

pub record UnityService (P : Platform) : Type 0 where
  pub node_name : Text
  pub topic : Text
  pub service_class : P.Class
  pub queue_size : ℕ
  pub service : Option ℕ

-- The loop over the names of the result's fields.
unfoldable pub copy_fields : (P : Platform) → P.Message → List Text → P.Message → P.Message
copy_fields P result [] response = response
copy_fields P result (name ∷ names) response =
    copy_fields P result names (P.write_field response name (P.read_field result name))

-- The end of `UnityService.send`: the response with the fields of the result, if there is one.
unfoldable pub fill_response : (P : Platform) → Option P.Message → P.Message → P.Message
unfolding copy_fields
fill_response P none response = response
fill_response P (some result) response = copy_fields P result (P.field_names result) response

module _ {P : Platform} where
  unfoldable pub call : RosCall P → Exec (Node P) (Unit {0})
  call c = modify (λ n. record n { calls = n.calls ++ c ∷ [] })

  -- A name that rclpy does not accept raises before anything is made.
  unfoldable pub create : Text → (ℕ → RosCall P) → Exec (Node P) ℕ
  create name c n =
      if P.valid_name name
      then (
        ok n.next_handle,
        record n { calls = n.calls ++ c n.next_handle ∷ []; next_handle = n.next_handle + 1 },
      )
      else (err ros_error, n)

  -- `RosSubscriber.__init__`
  unfoldable pub new_subscriber :
      Text → P.Class → ℕ → Option QosProfile → Text → Text → Text → Exec (Node P) (RosSubscriber P)
  unfolding create
  new_subscriber topic message_class queue_size qos_profile reliability durability history = do
    sub ← create topic (λ h.
        create_subscription h message_class topic
          (subscriber_qos qos_profile topic queue_size reliability durability history))
    pure (record {
      node_name = strip_name topic ++ codes "_RosSubscriber";
      topic = topic;
      msg = message_class;
      throttle = throttle_interval topic;
      last_sent_time = 0;
      queue_size = subscriber_depth topic queue_size;
      sub = some sub;
    })

  -- `RosSubscriber.send` up to the call of `send_unity_message`: whether it is made.
  unfoldable pub throttle_message : ℕ → RosSubscriber P → Bool × RosSubscriber P
  throttle_message now r =
      let step = admit r.throttle r.last_sent_time now in
      (step.0, record r { last_sent_time = step.1 })

  unfoldable pub unregister_subscriber : RosSubscriber P → Exec (Node P) (RosSubscriber P)
  unfolding call
  unregister_subscriber r = elim r.sub [
    | none ↦ pure r
    | some h ↦ do call (destroy_subscription h); pure (record r { sub = none })
  ]

  -- `RosPublisher.__init__`. The instance of the class is kept in a field that nothing reads.
  unfoldable pub new_publisher :
      Text → P.Class → ℕ → Bool → Option QosProfile → Text → Text → Exec (Node P) (RosPublisher P)
  unfolding create
  new_publisher topic message_class queue_size latch qos_profile reliability history = do
    msg_instance ← lift (P.construct message_class)
    h ← create topic (λ h.
        create_publisher h message_class topic
          (publisher_qos qos_profile topic queue_size latch reliability history))
    pure (record {
      node_name = strip_name topic ++ codes "_RosPublisher";
      msg = message_class;
      pub_handle = some h;
    })

  -- `RosPublisher.send`; after `unregister` there is no publisher, and `None.publish` raises.
  unfoldable pub publisher_send : RosPublisher P → Bytes → Exec (Node P) (Unit {0})
  unfolding call
  publisher_send r payload = do
    message ← lift (P.deserialize payload r.msg)
    elim r.pub_handle [ none ↦ raise attribute_error | some h ↦ call (publish h message) ]

  unfoldable pub unregister_publisher : RosPublisher P → Exec (Node P) (RosPublisher P)
  unfolding call
  unregister_publisher r = elim r.pub_handle [
    | none ↦ pure r
    | some h ↦ do call (destroy_publisher h); pure (record r { pub_handle = none })
  ]

  -- `RosService.__init__`
  unfoldable pub new_ros_service : Text → P.Class → Exec (Node P) (RosService P)
  unfolding create
  new_ros_service service service_class = do
    h ← create service (λ h. create_client h service_class service)
    pure (record {
      node_name = strip_name service ++ codes "_RosService";
      srv_class = service_class;
      client = some h;
    })

  unfoldable pub unregister_ros_service : RosService P → Exec (Node P) (RosService P)
  unfolding call
  unregister_ros_service r = elim r.client [
    | none ↦ pure r
    | some h ↦ do call (destroy_client h); pure (record r { client = none })
  ]

  -- `UnityService.__init__`, with its default queue size
  unfoldable pub new_unity_service : Text → P.Class → Exec (Node P) (UnityService P)
  unfolding create
  new_unity_service topic service_class = do
    h ← create topic (λ h. create_service h service_class topic)
    pure (record {
      node_name = strip_name topic ++ codes "_service";
      topic = topic;
      service_class = service_class;
      queue_size = 10;
      service = some h;
    })

  unfoldable pub unregister_unity_service : UnityService P → Exec (Node P) (UnityService P)
  unfolding call
  unregister_unity_service r = elim r.service [
    | none ↦ pure r
    | some h ↦ do call (destroy_service h); pure (record r { service = none })
  ]
