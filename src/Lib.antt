-- ===== src/Lib.antt =====
-- A model of ROS-TCP-Endpoint, the ROS node that connects a Unity application to ROS over TCP, and
-- the theorems about it.
--
-- The program (src/ros_tcp_endpoint/). Unity connects to a socket. For each connection there are
-- two threads: a client thread (client.py) that reads frames, each a destination and a payload, and
-- a sender thread (tcp_sender.py) that writes what the ROS callbacks put into a queue or, for
-- streams, into slots that hold the latest message of a topic. A destination that starts with `__`
-- is a command (server.py, `SysCommands`), mostly one that registers a publisher, a subscriber or a
-- service in the tables of the server; any other is a topic to publish to. `__request` and
-- `__response` say that the next frame is a request to a ROS service, or the response to a request
-- of a ROS node, whose thread sleeps in a pauser (thread_pauser.py) until then.
--
-- Files and code. Prelude: shared names, lists, dictionaries as association lists with the order
-- of insertion, exceptions as results, and methods as functions from a state to a result and a
-- state (Exec), where a method that raises keeps what it wrote before. Struct, Utf8, Text, Json:
-- `struct.pack` and `unpack` of the formats used, UTF-8, the string methods used, and JSON values.
-- Socket: a connection as the chunks that `recv` returns, one for each call, and whether it ends by
-- a reset; a live one has no empty chunk before its end and is not reset. Platform: what the
-- program takes from ROS, `json` and `importlib`, as the fields of one record.
--   Client/Recv        client.py: recvall, read_int32, read_string, read_message
--   Client/Serialize   client.py: the static serialisers
--   Client/Dispatch    client.py: run, send_ros_service_request, service_call_thread; its child
--                      modules have what a client's frames and commands do
--   Pauser             thread_pauser.py
--   Sender             tcp_sender.py: the state of UnityTcpSender, get_or_register_topic_id
--   Sender/Send        tcp_sender.py: the send_* methods
--   Sender/Loop        tcp_sender.py: sender_loop
--   Sender/Threads     tcp_sender.py: send_unity_message and sender_loop, operation by operation
--   Sender/Mapping     what one connection is told, as a specification of topic numbers
--   Sender/Framing     which bytes are frames, as a specification of what is written
--   Sender/Correlation what happens to a sleeping request while the threads do something else
--   Sender/Names       tcp_sender.py: parse_message_name
--   Sender/Parts, Server/Parts, Client/Dispatch/Parts   the rules by which the parts of the
--                      methods keep an invariant
--   ZeroCopy           zero_copy.py
--   Ros/Qos            subscriber.py and publisher.py: the choice of the profile
--   Ros/Throttle       subscriber.py: the throttle
--   Ros/Nodes          subscriber.py, publisher.py, service.py, unity_service.py
--   Server             server.py: the state of TcpServer and its forwarding methods
--   Server/Resolve, Server/SysCommands, Server/Syscall   server.py: SysCommands, handle_syscommand
--   Server/Start       server.py: the constructor, start
--   Server/Listen      server.py: listen_loop
--   Ros/Graph, Server/Owned   the specification of the tables: the node's calls as a graph of
--                      entities, and that each entity is the one of an object of a table
--   Launch             default_server_endpoint.py: main, to its end; launch/endpoint_launch.py
--   System             the steps of all threads on the one server
-- The other files are proofs. Tests runs the theorems on a platform whose messages are bytes.
--
-- Choices. A text is a list of code points and a byte a number below 256. JSON numbers are
-- integers. A keyword argument of the wrong type is a `TypeError` at the call. ROS calls are
-- recorded in order with the handle of the object they are about. A message's fields are read and
-- written through the platform, `getattr` and `setattr`. The calls that make the listening socket
-- and those that end the process are a list, cut where the first of them raises. How `sendall`
-- ends, after how many bytes if it raises, the results of `accept`, the halt event and the
-- outcomes of a service call's attempts are arguments. Times of the throttle are counted in units
-- of which 60 * 10 ^ 9 make a second, so that every interval of the table is a whole number of
-- them. Threads: in System a section of code under a lock is one step, and so are a handled
-- message (the code holds no lock there: messages of several clients that overlap are outside
-- System; Server/Overlap has two such threads for `publish`), a forwarded message and a round of
-- the sender thread; in Sender/Threads each access to `self.queue`, each `put` and `get_nowait`
-- and each section under a lock of the two racing methods is one step. The queues of the
-- connections are told apart by the number that `start_sender` gives to the thread.
--
-- Fuel. `recvall` of a size has one round more than the size, since every round takes a byte. The
-- loop of `run` needs more rounds than there are bytes to read, since every message takes four.
-- The loop of `RosService.send` is given four rounds, for its three attempts.
--
-- Not modelled. Logging and printing, which no other code reads; the executor, which calls the
-- callbacks that are modelled; the base classes of communication.py, which hold the name of a
-- node, and exceptions.py, which nothing raises. Commands named like an attribute that every
-- Python object has (`__init__`), or like the field tcp_server, raise `AttributeError` in the
-- model.
pub mod Prelude
pub mod Struct
pub mod Utf8
pub mod Socket
pub mod Json
pub mod Platform
pub mod Client
pub mod Pauser
pub mod ZeroCopy
pub mod Sender
pub mod Ros
pub mod Server
pub mod Launch
pub mod System
pub mod Tests
pub mod Text
