-- ===== src/Client/Dispatch/Deliver.antt =====
-- Messages that reach what they are meant for.
use ros_tcp_endpoint.Prelude.{
  ℕ, suc, ◌+◌, ◌^◌, ◌<◌, ◌≡◌, ◌≢◌, Bool, true, length, false, [], ◌∷◌, ◌++◌, Bytes, Text, codes,
  none, some, arith,
}
use ros_tcp_endpoint.Prelude.Dict.{Text_eq, ℕ_eq, get, remove}
use ros_tcp_endpoint.Prelude.Result.{ok}
use ros_tcp_endpoint.Platform.{Platform}
use ros_tcp_endpoint.Json.{Json, int}
use ros_tcp_endpoint.Struct.Int.{pos}
use ros_tcp_endpoint.Text.{starts_with, rstrip_nul}
use ros_tcp_endpoint.Pauser.{asleep, resumed, resume_with_result}
use ros_tcp_endpoint.Ros.Nodes.{RosPublisher, RosService, publish, publisher_send}
use ros_tcp_endpoint.Utf8.{encode}
use ros_tcp_endpoint.Socket.{Conn, stream}
use ros_tcp_endpoint.Socket.Chunks.{IsLive}
use ros_tcp_endpoint.Client.Serialize.{serialize_message}
use ros_tcp_endpoint.Client.RoundTrip.{read_message-serialize_message}
use ros_tcp_endpoint.Client.Dispatch.{handle_message, run_loop}
use ros_tcp_endpoint.Server.{TcpServer, send_unity_service_response}
use ros_tcp_endpoint.Sender.{update}

module _ {P : Platform} (s : TcpServer P) (destination : Text) (payload : Bytes) where
  -- A message of a registered topic is deserialized with the topic's class and published by the
  -- topic's publisher; nothing else changes.
  pub publish_delivers :
      (r : RosPublisher P) (h : ℕ) (message : P.Message)
      → s.pending_srv_id ≡ none
      → destination ≢ []
      → starts_with destination (codes "__") ≡ false
      → get s.publishers_table destination ≡ some r
      → r.pub_handle ≡ some h
      → P.deserialize payload r.msg ≡ ok message
      → handle_message destination payload s ≡ (
        ok tt,
        record s { node = record s.node { calls = s.node.calls ++ publish h message ∷ [] } },
      )
  unfolding handle_message publisher_send
  publish_delivers r h message p ne plain found handle d = ground arith

  -- The message after `__request`, for a registered ROS service: one call of that service with the
  -- payload and the request's number is started, nothing is pending any more, and nothing else
  -- changes.
  pub request_starts_call :
      (srv_id : Json) (r : RosService P)
      → s.pending_srv_id ≡ some srv_id
      → s.pending_srv_is_request ≡ true
      → get s.ros_services_table destination ≡ some r
      → handle_message destination payload s ≡ (
        ok tt,
        record s {
          pending_srv_id = none;
          service_calls =
              s.service_calls
              ++ record {
                srv_id = srv_id;
                destination = destination;
                payload = payload;
                ros_communicator = r;
              }
                ∷ [];
        },
      )
  unfolding handle_message
  request_starts_call srv_id r p q found = ground arith

  -- The message after `__response`, whatever its destination: if the number is that of a waiting
  -- request whose thread sleeps, the thread is resumed with the payload as its result, the entry is
  -- removed, nothing is pending any more, and nothing else changes.
  pub response_resumes :
      (n p : ℕ)
      → s.pending_srv_id ≡ some (int (pos n))
      → s.pending_srv_is_request ≡ false
      → get s.sender.services_waiting n ≡ some p
      → (s.sender.pausers p).sleeper ≡ asleep
      → (handle_message destination payload s ≡ (
        ok tt,
        record s {
          pending_srv_id = none;
          sender = record s.sender {
            services_waiting = remove s.sender.services_waiting n;
            pausers = update s.sender.pausers p (resume_with_result payload (s.sender.pausers p));
          };
        },
      ))
        × (resume_with_result payload (s.sender.pausers p)
            ≡ record { result = some payload; sleeper = resumed })
  unfolding handle_message send_unity_service_response resume_with_result
  response_resumes n p w q found a = (ground arith, ground arith)

module _ {P : Platform} (s : TcpServer P) where
  -- A frame that `serialize_message` writes for a topic, arriving in any chunks in front of other
  -- bytes at a running client thread with nothing pending: the loop goes on with exactly the other
  -- bytes left, and its only effect is that the message, deserialized with the class of the topic's
  -- publisher, is published by that publisher. Conditions: the topic's name takes fewer than 2 ^ 31
  -- bytes, and without its trailing NULs is not empty, does not start with `__`, and is in the
  -- publishers table with a live publisher; the message serializes, and its bytes deserialize.
  pub published_frame :
      (fuel h : ℕ) (halts : ℕ → Bool) (conn : Conn) (topic : Text) (message received : P.Message)
      (name body frame rest : Bytes) (r : RosPublisher P)
      → s.pending_srv_id ≡ none
      → halts 0 ≡ false
      → encode topic ≡ ok name
      → length name < 2 ^ 31
      → P.serialize message ≡ ok body
      → serialize_message P topic message ≡ ok frame
      → rstrip_nul topic ≢ []
      → starts_with (rstrip_nul topic) (codes "__") ≡ false
      → get s.publishers_table (rstrip_nul topic) ≡ some r
      → r.pub_handle ≡ some h
      → P.deserialize body r.msg ≡ ok received
      → IsLive conn
      → stream conn ≡ frame ++ rest
      → (conn' : Conn) × IsLive conn'
        × (stream conn' ≡ rest)
        × (run_loop (suc fuel) halts conn s
            ≡ run_loop fuel
                (λ n. halts (n + 1))
                conn'
                (record s {
                  node = record s.node { calls = s.node.calls ++ publish h received ∷ [] };
                }))
  unfolding run_loop
  published_frame fuel h halts conn topic message received name body frame rest r p run en short eb
        hf ne plain found handle d live st =
      let read =
        read_message-serialize_message P topic message name body frame rest conn en short eb hf live
          st in
      let handled =
        publish_delivers s (rstrip_nul topic) body r h received p ne plain found handle d in
      (read.conn, read.live, read.left, ground (arith, read.returns, handled))
