-- ===== src/Ros/Throttle.antt =====
-- The throttle of subscriber.py. Times are numbers of ticks, 60 * 10 ^ 9 to the second, so that a
-- nanosecond of `time.monotonic` and the interval of each rate of the table are whole numbers; the
-- rounding of floats is not modelled.
pub mod Rate
pub mod Table
use ros_tcp_endpoint.Prelude.{
  ℕ, ◌-◌, ◌/◌, Bool, true, false, List, [], ◌∷◌, Text, codes, ltb, ◌==◌, if◌then◌else◌,
}
use ros_tcp_endpoint.Text.{contains}

abbrev pub ticks_per_second : ℕ
ticks_per_second = 60_000_000_000

-- RosSubscriber._THROTTLE_TABLE: a part of the topic, and its rate in Hz.
abbrev pub throttle_table : List (Text × ℕ)
throttle_table =
    (codes "/joint_states", 30)
    ∷ (codes "/tf", 20)
    ∷ (codes "/servo_node/status", 10)
    ∷ (codes "/servo_node/collision_velocity_scale", 10)
    ∷ (codes "/speed_scaling_state_broadcaster", 10)
    ∷ (codes "/image_raw/compressed", 30)
    ∷ (codes "/image_raw", 30)
    ∷ (codes "/depth/image_rect_raw", 15)
    ∷ (codes "/aligned_depth_to_color/image_raw", 15)
    ∷ (codes "/gyro/sample", 5)
    ∷ (codes "/accel/sample", 5)
    ∷ []

-- The rate of the first entry whose token is in the topic, or 0.
unfoldable pub rate_in : List (Text × ℕ) → Text → ℕ
rate_in [] topic = 0
rate_in ((tok, hz) ∷ table) topic = if contains topic tok then hz else rate_in table topic

unfoldable pub throttle_hz : Text → ℕ
unfolding rate_in
throttle_hz topic = rate_in throttle_table topic

-- `(1.0 / throttle_hz) if throttle_hz > 0 else 0.0`
unfoldable pub throttle_interval : Text → ℕ
unfolding throttle_hz
throttle_interval topic =
    let hz = throttle_hz topic in if ltb 0 hz then ticks_per_second / hz else 0

-- The test of `RosSubscriber.send` at time `now`: whether it forwards, and the new
-- `_last_sent_time`.
unfoldable pub admit : ℕ → ℕ → ℕ → Bool × ℕ
admit interval last_sent_time now =
    if ltb 0 interval
    then if ltb (now - last_sent_time) interval then (false, last_sent_time) else (true, now)
    else (true, last_sent_time)

-- The times at which a row of callbacks forwards.
unfoldable pub forwarded : ℕ → ℕ → List ℕ → List ℕ
unfolding admit
forwarded interval last [] = []
forwarded interval last (now ∷ times) =
    let step = admit interval last now in
    let rest = forwarded interval step.1 times in if step.0 then now ∷ rest else rest
