-- ===== src/Client/Dispatch/Interleaved.antt =====
-- A request of one client with a message of another one between its command and its payload.
use ros_tcp_endpoint.Prelude.{
  ◌≡◌, ◌≢◌, refl, true, false, [], ◌++◌, Bytes, Text, codes, none, some, arith,
}
use ros_tcp_endpoint.Prelude.Dict.{Text_eq, get}
use ros_tcp_endpoint.Prelude.Result.{ok}
use ros_tcp_endpoint.Platform.{Platform}
use ros_tcp_endpoint.Json.{Json, int}
use ros_tcp_endpoint.Struct.Int.{ℤ}
use ros_tcp_endpoint.Text.{rstrip_nul, starts_with}
use ros_tcp_endpoint.Utf8.{decode}
use ros_tcp_endpoint.Client.Dispatch.{
  handle_message, send_ros_service_request, publish_message, keys,
}
use ros_tcp_endpoint.Client.Dispatch.Protocol.{srv_id_params, announce_request}
use ros_tcp_endpoint.Sender.{Sender}
use ros_tcp_endpoint.Sender.Send
use ros_tcp_endpoint.Server.{TcpServer, send_unity_error}

-- The errors for a service and for a topic that are not registered.
abbrev pub unknown_service : {P : Platform} → TcpServer P → Text → Text
unknown_service {P} s destination =
    codes "Service destination '"
    ++ destination
    ++ codes "' is not registered! Known services are: "
    ++ P.show_keys (keys s.ros_services_table)
    ++ codes " "

abbrev pub unknown_topic : {P : Platform} → TcpServer P → Text → Text
unknown_topic {P} s destination =
    codes "Not registered to publish topic '"
    ++ destination
    ++ codes "'! Valid publish topics are: "
    ++ P.show_keys (keys s.publishers_table)
    ++ codes " "

module _ {P : Platform} (s : TcpServer P) (destination : Text) (payload : Bytes)
    (m : Sender P) where
  pending_unknown :
      (srv_id : Json)
      → s.pending_srv_id ≡ some srv_id
      → s.pending_srv_is_request ≡ true
      → get s.ros_services_table destination ≡ none
      → Send.send_unity_error (unknown_service s destination) s.sender ≡ (ok tt, m)
      → handle_message destination payload s
        ≡ (ok tt, record s { pending_srv_id = none; sender = m })
  unfolding handle_message send_ros_service_request send_unity_error
  pending_unknown srv_id p is_request unknown sent = ground arith

  plain_unknown :
      s.pending_srv_id ≡ none
      → destination ≢ []
      → starts_with destination (codes "__") ≡ false
      → get s.publishers_table destination ≡ none
      → Send.send_unity_error (unknown_topic s destination) s.sender ≡ (ok tt, m)
      → handle_message destination payload s ≡ (ok tt, record s { sender = m })
  unfolding handle_message publish_message send_unity_error
  plain_unknown p ne plain unknown sent = ground arith

module _ {P : Platform} (s : TcpServer P) (message : Text) (payload : Bytes) (n : ℤ)
    (idle : s.pending_srv_id ≡ none) (text : decode payload ≡ ok message)
    (params : P.loads (rstrip_nul message) ≡ ok (srv_id_params n)) where
  -- A client's `__request` command, with nothing pending, then another client's message to a topic
  -- that is no registered ROS service, and then the first client's payload, to a service that is no
  -- topic registered to publish, not empty and without `__` in front: if both errors are sent,
  -- nothing else happens. No call of the service is started and nothing is published, whether the
  -- service is registered or not.
  pub interleaved_request :
      (topic : Text) (other : Bytes) (service_name : Text) (body : Bytes) (m₁ m₂ : Sender P)
      → get s.ros_services_table topic ≡ none
      → service_name ≢ []
      → starts_with service_name (codes "__") ≡ false
      → get s.publishers_table service_name ≡ none
      → Send.send_unity_error (unknown_service s topic) s.sender ≡ (ok tt, m₁)
      → Send.send_unity_error (unknown_topic s service_name) m₁ ≡ (ok tt, m₂)
      → handle_message service_name body
          (handle_message topic other (handle_message (codes "__request") payload s).1).1
        ≡ (ok tt, record s { pending_srv_id = none; pending_srv_is_request = true; sender = m₂ })
  interleaved_request topic other service_name body m₁ m₂ unknown ne plain no_topic first second =
      let s₁ : TcpServer P = record s {
        pending_srv_id = some (int n);
        pending_srv_is_request = true;
      } in
      rw
        (
          announce_request s message payload n idle text params,
          pending_unknown s₁ topic other m₁ (int n) refl refl unknown first,
        )
        (plain_unknown (record s₁ { pending_srv_id = none; sender = m₁ }) service_name body m₂ refl
          ne plain no_topic second)
