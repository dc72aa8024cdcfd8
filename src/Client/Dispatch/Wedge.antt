-- ===== src/Client/Dispatch/Wedge.antt =====
-- How a client thread ends on what the reader or the server cannot handle.
use ros_tcp_endpoint.Prelude.{
  ℕ, suc, ◌≡◌, refl, Bool, false, ◌++◌, Bytes, Text, codes, none, some, arith, drop,
}
use ros_tcp_endpoint.Prelude.Dict.{ℕ_eq, get}
use ros_tcp_endpoint.Prelude.Result.{Exc, ok, err, key_error, attribute_error}
use ros_tcp_endpoint.Platform.{Platform}
use ros_tcp_endpoint.Json.{int}
use ros_tcp_endpoint.Struct.Int.{pos}
use ros_tcp_endpoint.Text.{starts_with}
use ros_tcp_endpoint.Socket.{Conn, stream}
use ros_tcp_endpoint.Socket.Chunks.{IsLive}
use ros_tcp_endpoint.Client.Recv.{read_message, topic_id_destination}
use ros_tcp_endpoint.Client.RoundTrip.{read_message-serialize_message_with_topic_id}
use ros_tcp_endpoint.Client.Serialize.{serialize_message_with_topic_id}
use ros_tcp_endpoint.Client.Dispatch.{handle_message, run_loop, raised, ending}
use ros_tcp_endpoint.Sender.Service.{respond-unknown}
use ros_tcp_endpoint.Server.{TcpServer, send_unity_service_response}
use ros_tcp_endpoint.Server.Syscall.{get_command}

-- The next message is to be the response to a number that no request waits for.
pub record IsWedged {P : Platform} (s : TcpServer P) (n : ℕ) : Type 0 where
  pub pending : s.pending_srv_id ≡ some (int (pos n))
  pub response : s.pending_srv_is_request ≡ false
  pub unknown : get s.sender.services_waiting n ≡ none

module _ {P : Platform} (s : TcpServer P) where
  wedged_message :
      (n : ℕ) (destination : Text) (payload : Bytes)
      → IsWedged s n
      → handle_message destination payload s ≡ (err key_error, s)
  unfolding handle_message send_unity_service_response
  wedged_message n destination payload w =
      ground (arith, w.pending, w.response, respond-unknown n payload s.sender w.unknown)

  -- A round whose handler raises ends the loop.
  run_loop-raise :
      (fuel : ℕ) (halts : ℕ → Bool) (conn conn' : Conn) (destination : Text) (payload : Bytes)
      (e : Exc) (s' : TcpServer P)
      → halts 0 ≡ false
      → read_message conn ≡ ok ((destination, payload), conn')
      → handle_message destination payload s ≡ (err e, s')
      → run_loop (suc fuel) halts conn s ≡ (ending e, s')
  unfolding run_loop
  run_loop-raise fuel halts conn conn' destination payload e s' h r m = ground arith

  -- In that state the first message that a client thread reads ends the thread.
  pub wedged_client :
      (n fuel : ℕ) (halts : ℕ → Bool) (conn conn' : Conn) (destination : Text) (payload : Bytes)
      → IsWedged s n
      → halts 0 ≡ false
      → read_message conn ≡ ok ((destination, payload), conn')
      → run_loop (suc fuel) halts conn s ≡ (raised key_error, s)
  unfolding ending
  wedged_client n fuel halts conn conn' destination payload w h r =
      run_loop-raise fuel halts conn conn' destination payload key_error s h r
        (wedged_message n destination payload w)

  -- A command, with nothing pending, whose name is no attribute of `SysCommands` raises
  -- `AttributeError` and changes nothing: no error is sent to Unity.
  unknown_command :
      (name : Text) (payload : Bytes)
      → s.pending_srv_id ≡ none
      → get_command name ≡ err attribute_error
      → handle_message (codes "__" ++ name) payload s ≡ (err attribute_error, s)
  unfolding handle_message starts_with
  unknown_command name payload p e = ground arith

  topic_id_command : (n : ℕ) → get_command (drop 2 (topic_id_destination n)) ≡ err attribute_error
  unfolding get_command
  topic_id_command n = refl

  -- A frame with a topic's number, as `serialize_message_with_topic_id` writes it, that a running
  -- client thread with nothing pending reads first ends the thread with `AttributeError`, and the
  -- server's state does not change: the message is not delivered.
  pub topic_id_frame_ends :
      (fuel topic_id : ℕ) (halts : ℕ → Bool) (conn : Conn) (message : P.Message)
      (body frame rest : Bytes)
      → s.pending_srv_id ≡ none
      → halts 0 ≡ false
      → P.serialize message ≡ ok body
      → serialize_message_with_topic_id P topic_id message ≡ ok frame
      → IsLive conn
      → stream conn ≡ frame ++ rest
      → run_loop (suc fuel) halts conn s ≡ (raised attribute_error, s)
  unfolding ending
  topic_id_frame_ends fuel topic_id halts conn message body frame rest p h eb ef live st =
      let r =
        read_message-serialize_message_with_topic_id P topic_id message body frame rest conn eb ef
          live st in
      run_loop-raise fuel halts conn r.conn (topic_id_destination topic_id) body attribute_error s h
        r.returns
        (unknown_command (drop 2 (topic_id_destination topic_id)) body p
          (topic_id_command topic_id))
