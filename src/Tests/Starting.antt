-- ===== src/Tests/Starting.antt =====
-- The start and the end of the process, with what stands in the launch file.
use ros_tcp_endpoint.Prelude.{
  ◌≡◌, refl, List, [], ◌∷◌, Text, codes, Option, none, some, text_eq, if◌then◌else◌,
}
use ros_tcp_endpoint.Prelude.Result.{Exc, Result, ok, err, value_error, io_error}
use ros_tcp_endpoint.Struct.Int.{ℤ, pos}
use ros_tcp_endpoint.Text.{decimal}
use ros_tcp_endpoint.Server.Start.{default_parameters}
use ros_tcp_endpoint.Launch.{
  Process, LaunchArgument, main, generate_launch_description, interrupted, CleanupCall,
  shutdown_executor, destroy_node, finish_main,
}
use ros_tcp_endpoint.Tests.Demo.{demo}

-- `int`, as far as the texts here go.
abbrev few : Text → Result ℤ
few t =
    if text_eq t (codes "4")
    then ok (pos 4)
    else if text_eq t (codes "8")
    then ok (pos 8)
    else err value_error

abbrev process : Option Text → Result (Process demo)
process threads = main few demo default_parameters [] threads

abbrev threads_of : Result (Process demo) → Result ℤ
threads_of (ok p) = ok p.num_threads
threads_of (err e) = err e

four_threads : threads_of (process none) ≡ ok (pos 4)
unfolding main
four_threads = refl

eight_threads : threads_of (process (some (codes "8"))) ≡ ok (pos 8)
unfolding main
eight_threads = refl

no_number : threads_of (process (some (codes "all"))) ≡ err value_error
unfolding main
no_number = refl

-- The default of a launch argument.
abbrev default_of : List LaunchArgument → Text → Option Text
default_of [] name = none
default_of (a ∷ rest) name =
    if text_eq a.name name then some a.default_value else default_of rest name

-- The launch file's defaults are those of the constructor.
same_port :
    default_of generate_launch_description.0 (codes "tcp_port")
    ≡ some (decimal default_parameters.tcp_port)
unfolding decimal
same_port = refl

same_size :
    default_of generate_launch_description.0 (codes "zero_copy_buffer_size")
    ≡ some (decimal default_parameters.zero_copy_buffer_size)
unfolding decimal
same_size = refl

same_threshold :
    default_of generate_launch_description.0 (codes "zero_copy_threshold")
    ≡ some (decimal default_parameters.zero_copy_threshold)
unfolding decimal
same_threshold = refl

same_ip : default_of generate_launch_description.0 (codes "tcp_ip") ≡ some default_parameters.tcp_ip
same_ip = refl

-- The node cannot be destroyed: rclpy is not shut down, and that error is raised.
abbrev node_fails : CleanupCall → Option Exc
node_fails destroy_node = some io_error
node_fails _ = none

cut_short : finish_main node_fails interrupted ≡ (err io_error, shutdown_executor ∷ [])
unfolding finish_main
cut_short = refl
