-- ===== src/System/UnityCall.antt =====
-- A call of a Unity service by a ROS node, from the request to the response.
use ros_tcp_endpoint.Prelude.{
  ℕ, ◌≡◌, ap, [], ◌∷◌, ◌++◌, Bytes, Text, codes, none, some, arith, ◌∙◌, true, text_eq,
  if◌then◌else◌,
}
use ros_tcp_endpoint.Prelude.Dict.{ℕ_eq, get}
use ros_tcp_endpoint.Prelude.Result.{ok}
use ros_tcp_endpoint.Platform.{Platform}
use ros_tcp_endpoint.Json.{int}
use ros_tcp_endpoint.Struct.Int.{pos}
use ros_tcp_endpoint.Text.{rstrip_nul}
use ros_tcp_endpoint.Utf8.{decode}
use ros_tcp_endpoint.Pauser.{asleep, sleep_until_resumed}
use ros_tcp_endpoint.Ros.Nodes.{UnityService, fill_response}
use ros_tcp_endpoint.Ros.Nodes.Fields.{has_name, filled}
use ros_tcp_endpoint.Client.Serialize.{serialize_command, serialize_message, service}
use ros_tcp_endpoint.Client.Dispatch.{handle_message}
use ros_tcp_endpoint.Client.Dispatch.Protocol.{srv_id_params, response_protocol}
use ros_tcp_endpoint.Sender.Send.{sleep_request}
use ros_tcp_endpoint.Sender.Service.{IsWaiting, begin_service_request_lem}
use ros_tcp_endpoint.Server.{TcpServer, on_sender, begin_unity_call, end_unity_call}

module _ {P : Platform} (s : TcpServer P) (r : UnityService P) (request : P.Message) where
  -- The server when the call waits, when its response is announced, and when it has come.
  abbrev pub waits : TcpServer P
  waits = (on_sender (sleep_request s.sender.next_pauser) (begin_unity_call r request s).1).1

  abbrev pub answered : Bytes → Text → Bytes → TcpServer P
  answered payload destination body =
      (handle_message destination body (handle_message (codes "__response") payload waits).1).1

  finished :
      (t : TcpServer P) (p : ℕ) (body : Bytes) (response result : P.Message)
      → (t.sender.pausers p).result ≡ some body
      → P.deserialize body (P.response_class r.service_class) ≡ ok result
      → (end_unity_call r (some p) response t).0 ≡ ok (fill_response P (some result) response)
  unfolding end_unity_call
  finished t p body response result e d = ground arith

  module _ (q : ℕ) (header body_out : Bytes) (in_order : IsWaiting s.sender)
      (connected : s.sender.queue ≡ some q)
      (head : serialize_command P (codes "__request") (service (int (pos s.sender.next_srv_id)))
        ≡ ok header)
      (body : serialize_message P r.topic request ≡ ok body_out) where
    waits-asleep : (waits.sender.pausers s.sender.next_pauser).sleeper ≡ asleep
    unfolding sleep_request sleep_until_resumed
    waits-asleep = ground arith

    waits-known : get waits.sender.services_waiting s.sender.next_srv_id ≡ some s.sender.next_pauser
    unfolding sleep_request begin_unity_call
    waits-known =
        let (_, _, _, table) =
          begin_service_request_lem r.topic request s.sender q header body_out in_order connected
            head body in
        table s.sender.next_srv_id ∙ ground arith

    -- A call of a Unity service on an active connection, with nothing pending and the table of
    -- waiting requests in order, whose header and request serialize: one item with both goes to the
    -- end of the queue; and when its thread sleeps and Unity announces a response with the number
    -- of the header and sends it, to any destination, and that deserializes, the call returns a
    -- response that has the answer's value in every field of the answer, and elsewhere the values
    -- of the response object that it was given. Conditions on rclpy: answer and response object
    -- have the same fields, and `setattr` of a field of the answer with its value there changes
    -- this field and no other, and not which fields there are.
    pub unity_call :
        (message : Text) (payload : Bytes) (destination : Text) (answer : Bytes)
        (response result : P.Message)
        → s.pending_srv_id ≡ none
        → decode payload ≡ ok message
        → P.loads (rstrip_nul message) ≡ ok (srv_id_params (pos s.sender.next_srv_id))
        → P.deserialize answer (P.response_class r.service_class) ≡ ok result
        → P.field_names response ≡ P.field_names result
        → ((m : P.Message) (f g : Text)
            → P.field_names m ≡ P.field_names result
            → has_name (P.field_names result) f ≡ true
            → P.read_field (P.write_field m f (P.read_field result f)) g
              ≡ (if text_eq f g then P.read_field result g else P.read_field m g))
        → ((m : P.Message) (f : Text)
            → P.field_names m ≡ P.field_names result
            → has_name (P.field_names result) f ≡ true
            → P.field_names (P.write_field m f (P.read_field result f)) ≡ P.field_names result)
        → ((begin_unity_call r request s).0 ≡ ok (some s.sender.next_pauser))
          × ((begin_unity_call r request s).1.sender.queues q
              ≡ s.sender.queues q ++ (header ++ body_out) ∷ [])
          × (filled_in : P.Message) × ((end_unity_call r
                (some s.sender.next_pauser)
                response
                (answered payload destination answer)).0
              ≡ ok filled_in)
          × ((f : Text)
              → P.read_field filled_in f ≡ (
                  if has_name (P.field_names result) f
                  then P.read_field result f
                  else P.read_field response f))
    unfolding begin_unity_call fill_response
    unity_call message payload destination answer response result idle text params d alike written
          kept =
        let (p, sent, _, _) =
          begin_service_request_lem r.topic request s.sender q header body_out in_order connected
            head body in
        let whole =
          response_protocol waits message payload s.sender.next_srv_id idle text params destination
            answer s.sender.next_pauser waits-known waits-asleep in
        (
          p,
          sent,
          _,
          finished (answered payload destination answer) s.sender.next_pauser answer response result
              (ap (λ t. (t.1.sender.pausers s.sender.next_pauser).result) whole ∙ ground arith) d,
          λ f. filled P result written kept response f alike,
        )
