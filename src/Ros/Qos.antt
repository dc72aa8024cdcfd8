-- ===== src/Ros/Qos.antt =====
-- The QoS profiles of subscriber.py and publisher.py.
pub mod Choice
use ros_tcp_endpoint.Prelude.{
  ℕ, Bool, List, [], ◌∷◌, Text, codes, Option, none, some, text_eq, if◌then◌else◌,
}
use ros_tcp_endpoint.Text.{contains_any, lower}

pub data Reliability : Type 0 where
  reliable best_effort : Reliability

pub data Durability : Type 0 where
  volatile transient_local : Durability

pub data History : Type 0 where
  keep_last keep_all : History

-- rclpy.qos.QoSProfile
pub record QosProfile : Type 0 where
  pub depth : ℕ
  pub reliability : Reliability
  pub durability : Durability
  pub history : History

unfoldable pub to_reliability : Text → Reliability
to_reliability t = if text_eq (lower t) (codes "best_effort") then best_effort else reliable

unfoldable pub to_durability : Text → Durability
to_durability t = if text_eq (lower t) (codes "transient_local") then transient_local else volatile

unfoldable pub to_history : Text → History
to_history t = if text_eq (lower t) (codes "keep_all") then keep_all else keep_last

-- RosSubscriber._STREAM_TOKENS
abbrev pub subscriber_stream_tokens : List Text
subscriber_stream_tokens =
    codes "/image"
    ∷ codes "/depth"
    ∷ codes "/compressed"
    ∷ codes "/camera_info"
    ∷ codes "/points"
    ∷ codes "/gyro"
    ∷ codes "/accel"
    ∷ codes "/imu"
    ∷ []

-- RosPublisher._LATEST_ONLY_TOKENS
abbrev pub latest_only_tokens : List Text
latest_only_tokens =
    codes "/delta_twist_cmds"
    ∷ codes "/delta_joint_cmds"
    ∷ codes "/twist_cmd"
    ∷ codes "/joy"
    ∷ codes "/servo_control"
    ∷ []

-- The depth that `RosSubscriber` keeps as `queue_size`.
unfoldable pub subscriber_depth : Text → ℕ → ℕ
subscriber_depth topic queue_size =
    if contains_any topic subscriber_stream_tokens then 2 else queue_size

-- The profile of `RosSubscriber`: a given one stands as it is.
unfoldable pub subscriber_qos : Option QosProfile → Text → ℕ → Text → Text → Text → QosProfile
unfolding to_reliability to_durability to_history subscriber_depth
subscriber_qos (some qos_profile) topic queue_size reliability durability history = qos_profile
subscriber_qos none topic queue_size reliability durability history = record {
  depth = subscriber_depth topic queue_size;
  reliability =
      if contains_any topic subscriber_stream_tokens
      then best_effort
      else to_reliability reliability;
  durability = to_durability durability;
  history = to_history history;
}

-- The profile of `RosPublisher`.
unfoldable pub publisher_qos : Option QosProfile → Text → ℕ → Bool → Text → Text → QosProfile
unfolding to_reliability to_history
publisher_qos (some qos_profile) topic queue_size latch reliability history = qos_profile
publisher_qos none topic queue_size latch reliability history = record {
  depth = if contains_any topic latest_only_tokens then 1 else queue_size;
  reliability =
      if contains_any topic latest_only_tokens then best_effort else to_reliability reliability;
  durability = if latch then transient_local else volatile;
  history = to_history history;
}
