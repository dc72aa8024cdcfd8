-- ===== src/Ros/Throttle/Table.antt =====
-- Which entry of the throttle table a topic takes.
use ros_tcp_endpoint.Prelude.{◌*◌, ◌≡◌, ◌≢◌, ◌⊎◌, true, Text, codes, arith}
use ros_tcp_endpoint.Text.{contains}
use ros_tcp_endpoint.Text.Parts.{contains_suffix}
use ros_tcp_endpoint.Ros.Throttle.{throttle_hz, throttle_interval, ticks_per_second}

-- A topic that holds `/aligned_depth_to_color/image_raw` is never given the rate of 15 Hz that its
-- entry of the throttle table names, since `/image_raw` stands before it.
aligned_depth_rate :
    (topic : Text)
    → contains topic (codes "/aligned_depth_to_color/image_raw") ≡ true
    → throttle_hz topic ≢ 15
unfolding throttle_hz
aligned_depth_rate topic h =
    ground (arith, contains_suffix topic (codes "/aligned_depth_to_color") (codes "/image_raw"))

-- For every topic, either rate and interval are both 0, or the interval times the rate is exactly
-- one second.
interval_times_rate :
    (topic : Text)
    → ((throttle_hz topic ≡ 0) × (throttle_interval topic ≡ 0))
      ⊎ (throttle_interval topic * throttle_hz topic ≡ ticks_per_second)
unfolding throttle_interval
interval_times_rate topic = ground arith
