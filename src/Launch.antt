-- ===== src/Launch.antt =====
-- default_server_endpoint.py and launch/endpoint_launch.py: how the process starts and ends, and with
-- which parameters.
use ros_tcp_endpoint.Prelude.{List, [], ◌∷◌, Text, codes, Option, none, ◌≡◌, ap, ◌⊎◌, inl, inr}
use ros_tcp_endpoint.Prelude.Result.{Exc, Result, ok, err, ◌>>=◌}
use ros_tcp_endpoint.Prelude.Attempt.{attempts, AllPass, IsCut, attempts-cases}
use ros_tcp_endpoint.Platform.{Platform}
use ros_tcp_endpoint.Struct.Int.{ℤ}
use ros_tcp_endpoint.Server.Start.{Parameters, Endpoint, new_endpoint, start, given}

-- What `main` has when it spins: the node, and the number of the executor's threads.
pub record Process (P : Platform) : Type 0 where
  pub tcp_server : Endpoint P
  pub num_threads : ℤ

-- `main`, up to `executor.spin()`. `int` is Python's, which raises for a text that is no number, and
-- `threads` is ROS_TCP_EXECUTOR_THREADS in the environment.
unfoldable pub main :
    (Text → Result ℤ)
    → (P : Platform) → Parameters
    → List (Text × List Text)
    → Option Text
    → Result (Process P)
unfolding new_endpoint start
main int P parameters graph threads = do
  let tcp_server =
      start none none (new_endpoint P parameters graph (codes "unity_endpoint") 1024 10 none none)
  num_threads ← int (given threads (codes "4"))
  ok (record { tcp_server = tcp_server; num_threads = num_threads })

-- How `executor.spin()` ends.
pub data Spin : Type 0 where
  returned interrupted : Spin
  raised : Exc → Spin

-- What leaves the `try` with its `except KeyboardInterrupt`.
unfoldable pub caught : Spin → Result (Unit {0})
caught returned = ok tt
caught interrupted = ok tt
caught (raised e) = err e

-- The calls of the `finally` block.
pub data CleanupCall : Type 0 where
  shutdown_executor destroy_node shutdown_rclpy : CleanupCall

abbrev pub cleanup_calls : List CleanupCall
cleanup_calls = shutdown_executor ∷ destroy_node ∷ shutdown_rclpy ∷ []

-- How `main` ends, behind its `finally` block: an exception of the block is raised in place of any
-- other.
abbrev pub leave :
    Result (Unit {0}) → Result (Unit {0}) × List CleanupCall → Result (Unit {0}) × List CleanupCall
leave body (ok _, made) = (body, made)
leave body (err e, made) = (err e, made)

-- `main` from `executor.spin()` on: how it ends, and the calls of the `finally` block that returned.
-- `fails` says which of them raise.
unfoldable pub finish_main :
    (CleanupCall → Option Exc) → Spin → Result (Unit {0}) × List CleanupCall
unfolding attempts caught
finish_main fails spin = leave (caught spin) (attempts fails cleanup_calls [])

-- However `executor.spin()` ends: either the executor is shut down, the node destroyed and rclpy
-- shut down, in this order, and `main` returns, except that it raises what `spin()` raised if that
-- was no `KeyboardInterrupt`; or one of the three calls raises, the later ones are not made, and
-- its exception is what `main` raises.
finish_main_lem :
    (fails : CleanupCall → Option Exc) (spin : Spin)
    → (AllPass fails cleanup_calls × (finish_main fails spin ≡ (caught spin, cleanup_calls)))
      ⊎ ((before : List CleanupCall) × (e : Exc) × IsCut fails cleanup_calls before e
          × (finish_main fails spin ≡ (err e, before)))
unfolding finish_main
finish_main_lem fails spin = elim (attempts-cases fails cleanup_calls []) [
  | inl (all, h) ↦ inl (all, ap (leave (caught spin)) h)
  | inr (before, e, cut, h) ↦ inr (before, e, cut, ap (leave (caught spin)) h)
]

-- DeclareLaunchArgument, without its description.
pub record LaunchArgument : Type 0 where
  pub name : Text
  pub default_value : Text

-- The node's parameters, each with the name of the launch argument that it takes.
pub record LaunchNode : Type 0 where
  pub package_name : Text
  pub executable : Text
  pub name : Text
  pub output : Text
  pub parameters : List (Text × Text)

abbrev pub generate_launch_description : List LaunchArgument × LaunchNode
generate_launch_description = (
  record { name = codes "tcp_ip"; default_value = codes "0.0.0.0" }
      ∷ record { name = codes "tcp_port"; default_value = codes "10000" }
      ∷ record { name = codes "enable_zero_copy"; default_value = codes "false" }
      ∷ record { name = codes "zero_copy_buffer_size"; default_value = codes "52428800" }
      ∷ record { name = codes "zero_copy_threshold"; default_value = codes "524288" }
      ∷ [],
  record {
    package_name = codes "ros_tcp_endpoint";
    executable = codes "default_server_endpoint";
    name = codes "unity_endpoint";
    output = codes "screen";
    parameters =
        (codes "tcp_ip", codes "tcp_ip")
        ∷ (codes "tcp_port", codes "tcp_port")
        ∷ (codes "enable_zero_copy", codes "enable_zero_copy")
        ∷ (codes "zero_copy_buffer_size", codes "zero_copy_buffer_size")
        ∷ (codes "zero_copy_threshold", codes "zero_copy_threshold")
        ∷ [];
  },
)
