-- ===== src/Ros/Graph.antt =====
-- What the node's calls of rclpy leave in the ROS graph: the entities that were made and not
-- destroyed, by their handles.
pub mod Owns
use ros_tcp_endpoint.Prelude.{ℕ, ◌≡◌, refl, List, [], ◌∷◌, ◌++◌, Text, Option, none, some}
use ros_tcp_endpoint.Platform.{Platform}
use ros_tcp_endpoint.Sender.{update}
use ros_tcp_endpoint.Ros.Nodes.{
  RosCall, create_subscription, create_publisher, create_client, create_service, publish,
  destroy_subscription, destroy_publisher, destroy_client, destroy_service,
}

pub data Kind : Type 0 where
  subscription publisher client service : Kind

-- The kind of an entity and the topic or service that it was made for.
abbrev pub Graph : Type 0
Graph = ℕ → Option (Kind × Text)

unfoldable pub after_call : {P : Platform} → RosCall P → Graph → Graph
after_call (create_subscription h c t q) g = update g h (some (subscription, t))
after_call (create_publisher h c t q) g = update g h (some (publisher, t))
after_call (create_client h c t) g = update g h (some (client, t))
after_call (create_service h c t) g = update g h (some (service, t))
after_call (publish h m) g = g
after_call (destroy_subscription h) g = update g h none
after_call (destroy_publisher h) g = update g h none
after_call (destroy_client h) g = update g h none
after_call (destroy_service h) g = update g h none

-- The graph after a list of calls.
unfoldable pub replay : {P : Platform} → Graph → List (RosCall P) → Graph
unfolding after_call
replay g [] = g
replay g (c ∷ cs) = replay (after_call c g) cs

pub replay-snoc :
    {P : Platform} (g : Graph) (cs : List (RosCall P)) (c : RosCall P)
    → replay g (cs ++ c ∷ []) ≡ after_call c (replay g cs)
unfolding replay
replay-snoc g [] c = refl
replay-snoc g (d ∷ cs) c = replay-snoc (after_call d g) cs c

abbrev pub no_entities : Graph
no_entities _ = none
