-- ===== src/System.antt =====
-- The whole endpoint: what its threads do to the one server object, in any order. Client threads
-- handle messages, ROS callbacks forward messages and call Unity services, threads of service calls
-- answer, and each connection's sender thread starts, works in rounds and ends. A section under a
-- lock is one step. So is a handled message, although the code holds no lock there: messages of
-- several clients that are handled at the same time are not among these runs.
pub mod OfSender
pub mod Steps
pub mod Sound
pub mod Framed
pub mod UnityCall
use ros_tcp_endpoint.Prelude.{ℕ, ◌≡◌, Bool, Bytes, Text, Option}
use ros_tcp_endpoint.Prelude.Result.{ok}
use ros_tcp_endpoint.Platform.{Platform}
use ros_tcp_endpoint.Ros.Nodes.{UnityService}
use ros_tcp_endpoint.Ros.Nodes.Retry.{Attempt}
use ros_tcp_endpoint.Sender.{Sender}
use ros_tcp_endpoint.Sender.Send.{sleep_request}
use ros_tcp_endpoint.Sender.Loop.{Sendall, Link, start_sender, enter_loop, sender_round, leave_loop}
use ros_tcp_endpoint.Server.{
  TcpServer, ServiceCall, on_sender, subscriber_send, begin_unity_call, end_unity_call,
}
use ros_tcp_endpoint.Client.Dispatch.{handle_message, service_call_thread}

pub data Step {P : Platform} (s : TcpServer P) : TcpServer P → Type 0 where
  message : (destination : Text) (payload : Bytes) → Step s (handle_message destination payload s).1
  forwards : (topic : Text) (now : ℕ) (m : P.Message) → Step s (subscriber_send topic now m s).1
  calls_unity : (r : UnityService P) (request : P.Message) → Step s (begin_unity_call r request s).1
  sleeps : (pauser : ℕ) → Step s (on_sender (sleep_request pauser) s).1
  returns :
      (r : UnityService P) (pauser : Option ℕ) (response : P.Message)
      → Step s (end_unity_call r pauser response s).1
  answers :
      (c : ServiceCall P) (outcome : ℕ → Attempt P.Message)
      → Step s (service_call_thread c outcome s).1
  connects : Step s (record s { sender = (start_sender s.sender).1 })
  enters :
      (tid : ℕ) (m : Sender P) → enter_loop tid s.sender ≡ ok m → Step s (record s { sender = m })
  rounds :
      (sends : Sendall) (link : Link)
      → Step s (record s { sender = (sender_round sends link s.sender).1 })
  leaves : (link : Link) → Step s (record s { sender = (leave_loop link s.sender).1 })

pub data Reach {P : Platform} (s : TcpServer P) : TcpServer P → Type 0 where
  here : Reach s s
  next : {t u : TcpServer P} → Reach s t → Step t u → Reach s u
