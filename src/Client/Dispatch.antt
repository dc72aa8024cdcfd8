-- ===== src/Client/Dispatch.antt =====
-- client.py: what `ClientThread.run` does with the messages that it reads.
pub mod Wedge
pub mod Loop
pub mod Deliver
pub mod Protocol
pub mod Session
pub mod Interleaved
pub mod Forwarded
pub mod Parts
use ros_tcp_endpoint.Prelude.{
  ℕ, zero, suc, ◌+◌, Bool, true, false, List, [], ◌∷◌, ◌++◌, Bytes, Text, codes, map, Option, none,
  some, if◌then◌else◌,
}
use ros_tcp_endpoint.Prelude.Dict.{Dict, Text_eq, get}
use ros_tcp_endpoint.Prelude.Result.{Exc, Result, ok, err, io_error, out_of_fuel}
use ros_tcp_endpoint.Prelude.Exec.{Exec, pure, raise, lift, modify, ◌>>=◌, ◌>>◌}
use ros_tcp_endpoint.Platform.{Platform}
use ros_tcp_endpoint.Json.{Json}
use ros_tcp_endpoint.Text.{starts_with}
use ros_tcp_endpoint.Socket.{Conn}
use ros_tcp_endpoint.Client.Recv.{read_message}
use ros_tcp_endpoint.Sender.Send
use ros_tcp_endpoint.Ros.Nodes.{RosPublisher, RosService, publisher_send}
use ros_tcp_endpoint.Ros.Nodes.Retry.{Attempt, service_send}
use ros_tcp_endpoint.Sender.Loop.{start_sender}
use ros_tcp_endpoint.Server.{
  TcpServer, ServiceCall, on_sender, on_node, send_unity_error, send_unity_service_response,
}
use ros_tcp_endpoint.Server.Syscall.{handle_syscommand}

-- The keys of a table, in order.
abbrev pub keys {ℓ} : {V : Type ℓ} → Dict Text V → List Text
keys d = map (λ item. item.0) d

module _ {P : Platform} where
  unfoldable pub start_service_call : ServiceCall P → Exec (TcpServer P) (Unit {0})
  start_service_call c = modify (λ s. record s { service_calls = s.service_calls ++ c ∷ [] })

  unfoldable pub send_ros_service_request : Json → Text → Bytes → Exec (TcpServer P) (Unit {0})
  unfolding send_unity_error start_service_call
  send_ros_service_request srv_id destination payload s =
      elim (get s.ros_services_table destination) [
        | none ↦
            send_unity_error
              (codes "Service destination '"
                ++ destination
                ++ codes "' is not registered! Known services are: "
                ++ P.show_keys (keys s.ros_services_table)
                ++ codes " ")
              s
        | some ros_communicator ↦
            start_service_call
              (record {
                srv_id = srv_id;
                destination = destination;
                payload = payload;
                ros_communicator = ros_communicator;
              })
              s
      ]

  -- The thread of a service call, for the outcomes of its attempts. A ROS message is true.
  unfoldable pub service_call_thread :
      ServiceCall P → (ℕ → Attempt P.Message) → Exec (TcpServer P) (Unit {0})
  unfolding service_send send_unity_error
  service_call_thread c outcome = do
    response ← lift (service_send P c.ros_communicator.srv_class c.payload outcome)
    elim response [
      | none ↦
          send_unity_error (codes "No response data from service '" ++ c.destination ++ codes "'!")
      | some r ↦ on_sender (Send.send_ros_service_response c.srv_id c.destination r)
    ]

  -- The message after `__request` or `__response`.
  unfoldable pub handle_pending : Json → Text → Bytes → Exec (TcpServer P) (Unit {0})
  unfolding send_ros_service_request send_unity_service_response
  handle_pending srv_id destination payload s =
      (if s.pending_srv_is_request
          then send_ros_service_request srv_id destination payload
          else send_unity_service_response srv_id payload)
        s

  unfoldable pub publish_message : Text → Bytes → Exec (TcpServer P) (Unit {0})
  unfolding publisher_send send_unity_error
  publish_message destination payload s = elim (get s.publishers_table destination) [
    | some ros_communicator ↦ on_node (publisher_send ros_communicator payload) s
    | none ↦
        send_unity_error
          (codes "Not registered to publish topic '"
            ++ destination
            ++ codes "'! Valid publish topics are: "
            ++ P.show_keys (keys s.publishers_table)
            ++ codes " ")
          s
  ]

  unfoldable pub handle_plain : Text → Bytes → Exec (TcpServer P) (Unit {0})
  unfolding handle_syscommand publish_message
  handle_plain [] payload = pure tt
  handle_plain (c ∷ cs) payload =
      if starts_with (c ∷ cs) (codes "__")
      then handle_syscommand (c ∷ cs) payload
      else publish_message (c ∷ cs) payload

  -- The body of the loop of `run`, for a message that was read.
  unfoldable pub handle_message : Text → Bytes → Exec (TcpServer P) (Unit {0})
  unfolding handle_pending handle_plain
  handle_message destination payload s = elim s.pending_srv_id [
    | some srv_id ↦
        ◌>>◌ (handle_pending srv_id destination payload)
          (modify (λ t. record t { pending_srv_id = none })) s
    | none ↦ handle_plain destination payload s
  ]

-- How a client thread ends: by the halt event, by an `IOError`, which it logs, or by an
-- exception that it does not handle. In each case it sets the halt event and closes its socket.
-- `exhausted` is no ending of a thread: the fuel of `run_loop` is used up.
pub data Ending : Type 0 where
  halted io_failed exhausted : Ending
  raised : Exc → Ending

unfoldable pub ending : Exc → Ending
ending io_error = io_failed
ending e = raised e

module _ {P : Platform} where
  -- The loop of `run`. `halts` says of each round whether the sender thread has set the event.
  unfoldable pub run_loop : ℕ → (ℕ → Bool) → Conn → TcpServer P → Ending × TcpServer P
  unfolding handle_message ending
  run_loop zero halts conn s = (exhausted, s)
  run_loop (suc fuel) halts conn s =
      let round : Ending × TcpServer P = elim (read_message conn) [
        | err e ↦ (ending e, s)
        | ok ((destination, payload), conn') ↦
            let (r, s') = handle_message destination payload s in
            let again = run_loop fuel (λ n. halts (n + 1)) conn' s' in
            elim r [ ok _ ↦ again | err e ↦ (ending e, s') ]
      ] in
      if halts 0 then (halted, s) else round

  -- `run`: the sender thread is started first. The number of that thread, and how the loop ends.
  unfoldable pub run : ℕ → (ℕ → Bool) → Conn → TcpServer P → ℕ × Ending × TcpServer P
  unfolding start_sender run_loop
  run fuel halts conn s =
      let (tid, m) = start_sender s.sender in
      let (e, s') = run_loop fuel halts conn (record s { sender = m }) in (tid, e, s')
