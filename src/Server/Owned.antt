-- ===== src/Server/Owned.antt =====
-- The four tables of the server against the ROS graph.
pub mod Tables
pub mod Replace
pub mod Commands
pub mod Keep
use mathlib.Core.HLevel.{Discrete}
use ros_tcp_endpoint.Prelude.{ℕ, ◌+◌, ◌≤◌, ◌≡◌, ◌≢◌, refl, Text, Option, none}
use ros_tcp_endpoint.Prelude.Dict.{Dict}
use ros_tcp_endpoint.Platform.{Platform}
use ros_tcp_endpoint.Ros.Nodes.{Node, RosPublisher, RosSubscriber, RosService, UnityService}
use ros_tcp_endpoint.Ros.Graph.{
  Kind, Graph, replay, no_entities, subscription, publisher, client, service,
}
use ros_tcp_endpoint.Ros.Graph.Owns.{Owns}
use ros_tcp_endpoint.Server.{TcpServer}

-- The objects of a table, by the kind of their entities.
abbrev pub Object : Platform → Kind → Type 0
Object P subscription = RosSubscriber P
Object P publisher = RosPublisher P
Object P client = RosService P
Object P service = UnityService P

-- The handle of an object's entity, if it has one.
abbrev pub handle : (P : Platform) (k : Kind) → Object P k → Option ℕ
handle P subscription r = r.sub
handle P publisher r = r.pub_handle
handle P client r = r.client
handle P service r = r.service

module _ {P : Platform} where
  abbrev pub table : (k : Kind) → TcpServer P → Dict Text (Object P k)
  table subscription s = s.subscribers_table
  table publisher s = s.publishers_table
  table client s = s.ros_services_table
  table service s = s.unity_services_table

  abbrev pub with_table : (k : Kind) → Dict Text (Object P k) → Node P → TcpServer P → TcpServer P
  with_table subscription d n s = record s { subscribers_table = d; node = n }
  with_table publisher d n s = record s { publishers_table = d; node = n }
  with_table client d n s = record s { ros_services_table = d; node = n }
  with_table service d n s = record s { unity_services_table = d; node = n }

-- The entities that the node has in the ROS graph.
abbrev pub entities : {P : Platform} → Node P → Graph
entities n = replay no_entities n.calls

-- The graph `g` holds, for each topic of each table, the entity of its object, and nothing else.
pub record IsOwnedBy {P : Platform} (s : TcpServer P) (g : Graph) : Type 0 where
  pub fresh : (h : ℕ) → s.node.next_handle ≤ h → g h ≡ none
  pub objects : (k : Kind) → Owns k (handle P k) (table k s) g

abbrev pub IsOwned : {P : Platform} → TcpServer P → Type 0
IsOwned s = IsOwnedBy s (entities s.node)

pub Kind-discrete : Discrete Kind
Kind-discrete = hlevel

module _ {P : Platform} (n : Node P) (s : TcpServer P) where
  pub table-with_table_self :
      (k : Kind) (d : Dict Text (Object P k)) → table k (with_table k d n s) ≡ d
  table-with_table_self subscription d = refl
  table-with_table_self publisher d = refl
  table-with_table_self client d = refl
  table-with_table_self service d = refl

  pub table-with_table_other :
      (k j : Kind) (d : Dict Text (Object P k)) → k ≢ j → table j (with_table k d n s) ≡ table j s
  table-with_table_other subscription subscription d ne = absurd (ne refl)
  table-with_table_other subscription publisher d ne = refl
  table-with_table_other subscription client d ne = refl
  table-with_table_other subscription service d ne = refl
  table-with_table_other publisher subscription d ne = refl
  table-with_table_other publisher publisher d ne = absurd (ne refl)
  table-with_table_other publisher client d ne = refl
  table-with_table_other publisher service d ne = refl
  table-with_table_other client subscription d ne = refl
  table-with_table_other client publisher d ne = refl
  table-with_table_other client client d ne = absurd (ne refl)
  table-with_table_other client service d ne = refl
  table-with_table_other service subscription d ne = refl
  table-with_table_other service publisher d ne = refl
  table-with_table_other service client d ne = refl
  table-with_table_other service service d ne = absurd (ne refl)

  pub node-with_table : (k : Kind) (d : Dict Text (Object P k)) → (with_table k d n s).node ≡ n
  node-with_table subscription d = refl
  node-with_table publisher d = refl
  node-with_table client d = refl
  node-with_table service d = refl
