-- ===== src/Ros.antt =====
-- The ROS side of the endpoint: the node's calls of rclpy, and the quality of service that
-- subscriber.py and publisher.py choose.
pub mod Qos
pub mod Throttle
pub mod Nodes
pub mod Graph
