-- ===== src/Ros/Qos/Choice.antt =====
-- What the choice of a profile depends on.
use ros_tcp_endpoint.Prelude.{
  ℕ, ◌≡◌, ◌↔◌, refl, true, Text, codes, none, arith, text_eq_iff, if◌then◌else◌, ◌⊎◌,
}
use ros_tcp_endpoint.Text.{contains_any, lower}
use ros_tcp_endpoint.Text.Parts.{lower_idem}
use ros_tcp_endpoint.Ros.Qos.{
  best_effort, transient_local, keep_all, subscriber_qos, subscriber_stream_tokens,
}

-- The profile of a subscriber that is given none: it is best-effort exactly when the topic is a
-- stream or the reliability reads `best_effort`, its depth is 2 for a stream and else the queue
-- size, it is transient local exactly when the durability reads `transient_local`, it keeps all
-- exactly when the history reads `keep_all`, and the case of the letters of the settings does not
-- matter.
pub subscriber_qos_lem :
    (topic : Text) (queue_size : ℕ) (reliability durability history : Text)
    → (((subscriber_qos none topic queue_size reliability durability history).reliability
          ≡ best_effort)
        ↔ ((contains_any topic subscriber_stream_tokens ≡ true)
            ⊎ (lower reliability ≡ codes "best_effort")))
      × ((subscriber_qos none topic queue_size reliability durability history).depth
          ≡ (if contains_any topic subscriber_stream_tokens then 2 else queue_size))
      × (((subscriber_qos none topic queue_size reliability durability history).durability
            ≡ transient_local)
          ↔ (lower durability ≡ codes "transient_local"))
      × (((subscriber_qos none topic queue_size reliability durability history).history ≡ keep_all)
          ↔ (lower history ≡ codes "keep_all"))
      × (subscriber_qos none topic queue_size (lower reliability) (lower durability) (lower history)
          ≡ subscriber_qos none topic queue_size reliability durability history)
unfolding subscriber_qos
subscriber_qos_lem topic queue_size reliability durability history = (
  (
    λ h. ground (arith, text_eq_iff (lower reliability) (codes "best_effort")),
    λ h. ground (arith, text_eq_iff (lower reliability) (codes "best_effort")),
  ),
  refl,
  (
    λ h. ground (arith, text_eq_iff (lower durability) (codes "transient_local")),
    λ h. ground (arith, text_eq_iff (lower durability) (codes "transient_local")),
  ),
  (
    λ h. ground (arith, text_eq_iff (lower history) (codes "keep_all")),
    λ h. ground (arith, text_eq_iff (lower history) (codes "keep_all")),
  ),
  rw (lower_idem reliability, lower_idem durability, lower_idem history) refl,
)
