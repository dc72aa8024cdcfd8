-- ===== src/Client/Dispatch/Session.antt =====
-- What several messages of a client do together, from the command to its effect.
use ros_tcp_endpoint.Prelude.{
  ℕ, ◌≡◌, ◌≢◌, refl, true, false, ap, [], ◌∷◌, ◌++◌, Bytes, Text, codes, none, some, arith, ◌∙◌,
  append_assoc,
}
use ros_tcp_endpoint.Prelude.Dict.{Text_eq, ℕ_eq, get, beq_refl}
use ros_tcp_endpoint.Prelude.Result.{ok}
use ros_tcp_endpoint.Platform.{Platform}
use ros_tcp_endpoint.Json.{Json, int, str, obj, field, end, get_field}
use ros_tcp_endpoint.Struct.Int.{ℤ}
use ros_tcp_endpoint.Text.{rstrip_nul, starts_with}
use ros_tcp_endpoint.Utf8.{decode}
use ros_tcp_endpoint.Ros.Qos.{publisher_qos}
use ros_tcp_endpoint.Ros.Nodes.{RosService, create_publisher, publish}
use ros_tcp_endpoint.Ros.Nodes.Retry.{Attempt, answer, first_answer, service_send, service_send_lem}
use ros_tcp_endpoint.Client.Serialize.{serialize_command, serialize_message, service}
use ros_tcp_endpoint.Client.Dispatch.{handle_message, service_call_thread}
use ros_tcp_endpoint.Client.Dispatch.Deliver.{publish_delivers}
use ros_tcp_endpoint.Client.Dispatch.Protocol.{srv_id_params, request_protocol}
use ros_tcp_endpoint.Sender.{update, put_queue}
use ros_tcp_endpoint.Sender.Send
use ros_tcp_endpoint.Server.{TcpServer, ServiceCall}
use ros_tcp_endpoint.Server.Resolve.{resolve_message_name}
use ros_tcp_endpoint.Server.Register.{drop_publisher, made_publisher, publish_registers}
use ros_tcp_endpoint.Server.Syscall.{handle_syscommand, get_command, call_with}
use ros_tcp_endpoint.Server.SysCommands

module _ {P : Platform} (c : ServiceCall P) (outcome : ℕ → Attempt P.Message) (t : TcpServer P)
    (q : ℕ) (response : P.Message) (header reply : Bytes) where
  -- The thread of a service call whose service answers.
  thread_replies :
      service_send P c.ros_communicator.srv_class c.payload outcome ≡ ok (some response)
      → t.sender.queue ≡ some q
      → serialize_command P (codes "__response") (service c.srv_id) ≡ ok header
      → serialize_message P c.destination response ≡ ok reply
      → service_call_thread c outcome t ≡ (
        ok tt,
        record t {
          sender = record t.sender {
            queues = update t.sender.queues q (t.sender.queues q ++ (header ++ reply) ∷ []);
          };
        },
      )
  unfolding service_call_thread put_queue Send.send_ros_service_response Send.send_pair
  thread_replies called active head body = ground arith

-- The call that a client asks for.
abbrev pub asked : {P : Platform} → ℤ → Text → Bytes → RosService P → ServiceCall P
asked n destination body r = record {
  srv_id = int n;
  destination = destination;
  payload = body;
  ros_communicator = r;
}

module _ {P : Platform} (s : TcpServer P) (message : Text) (payload : Bytes) (n : ℤ)
    (idle : s.pending_srv_id ≡ none) (text : decode payload ≡ ok message)
    (params : P.loads (rstrip_nul message) ≡ ok (srv_id_params n)) where
  -- A client's `__request` command, with nothing pending, and then a message to a registered ROS
  -- service, whose payload deserializes as a request: one call is started, and when its thread
  -- comes to its end, in any state of the server with an active queue, and the first of the three
  -- attempts that is answered or whose wait raises is answered, and header and response serialize,
  -- it puts the `__response` header with the client's `srv_id` and behind it the response, as one
  -- item, to the end of that queue, and changes nothing else.
  pub service_reply :
      (destination : Text) (body : Bytes) (r : RosService P) (request response : P.Message)
      (outcome : ℕ → Attempt P.Message) (header reply : Bytes) (t : TcpServer P) (q : ℕ)
      → get s.ros_services_table destination ≡ some r
      → P.deserialize body (P.request_class r.srv_class) ≡ ok request
      → first_answer (answer (outcome 0)) (answer (outcome 1)) (answer (outcome 2))
        ≡ ok (some response)
      → serialize_command P (codes "__response") (service (int n)) ≡ ok header
      → serialize_message P destination response ≡ ok reply
      → t.sender.queue ≡ some q
      → ((handle_message destination body
            (handle_message (codes "__request") payload s).1).1.service_calls
          ≡ s.service_calls ++ asked n destination body r ∷ [])
        × (service_call_thread (asked n destination body r) outcome t ≡ (
          ok tt,
          record t {
            sender = record t.sender {
              queues = update t.sender.queues q (t.sender.queues q ++ (header ++ reply) ∷ []);
            };
          },
        ))
  service_reply destination body r request response outcome header reply t q found d first head tail
        active =
      let sent = (service_send_lem P r.srv_class body outcome request 0 d).0 in
      (
        ap (λ r. r.1.service_calls)
            (request_protocol s message payload n idle text params destination body r found),
        thread_replies (asked n destination body r) outcome t q response header reply (sent ∙ first)
            active head tail,
      )

-- What a topic's command needs: its name and its message class, the rest by default.
abbrev pub topic_params : Text → Text → Json
topic_params topic message_name =
    obj (field (codes "topic") (str topic) (field (codes "message_name") (str message_name) end))

module _ {P : Platform} (s : TcpServer P) (message : Text) (payload : Bytes)
    (topic message_name : Text) (idle : s.pending_srv_id ≡ none)
    (text : decode payload ≡ ok message)
    (params : P.loads (rstrip_nul message) ≡ ok (topic_params topic message_name)) where
  publish_command :
      handle_message (codes "__publish") payload s
      ≡ SysCommands.publish topic message_name 10 false (codes "reliable") (codes "keep_last") s
  unfolding handle_message handle_syscommand starts_with get_command call_with get_field
  publish_command = rw (idle, text, params) refl

  -- A client's `__publish` command that gives the topic and a message class that is found and can
  -- be called, with nothing pending, and then a message to this topic, valid, not empty and without
  -- `__` in front, that deserializes: neither raises, the topic's old publisher, if any, is
  -- destroyed, one publisher is created with the default profile, and the message is published by
  -- it.
  pub publish_session :
      (c : P.Class) (body : Bytes) (m blank : P.Message)
      → P.valid_name topic ≡ true
      → P.construct c ≡ ok blank
      → topic ≢ []
      → starts_with topic (codes "__") ≡ false
      → resolve_message_name P message_name (codes "msg") ≡ ok (some c)
      → P.deserialize body c ≡ ok m
      → ((handle_message (codes "__publish") payload s).0 ≡ ok tt)
        × (u : TcpServer P) × (handle_message topic body
              (handle_message (codes "__publish") payload s).1
            ≡ (ok tt, u))
        × (u.node.calls
            ≡ s.node.calls
              ++ (drop_publisher (get s.publishers_table topic)
                  ++ create_publisher s.node.next_handle c topic
                      (publisher_qos none topic 10 false (codes "reliable") (codes "keep_last"))
                    ∷ publish s.node.next_handle m
                    ∷ []))
  publish_session c body m blank valid builds ne plain class d =
      let done =
        publish_registers s topic c 10 false (codes "reliable") (codes "keep_last") valid blank
          builds message_name ne class in
      let t = (handle_message (codes "__publish") payload s).1 in
      let at : handle_message (codes "__publish") payload s
          ≡ SysCommands.publish topic message_name 10 false (codes "reliable") (codes "keep_last")
              s =
        publish_command in
      let found : get t.publishers_table topic ≡ some (made_publisher topic c s.node.next_handle) =
        rw at (done.table topic ∙ rw (beq_refl topic) refl) in
      let idle' : t.pending_srv_id ≡ none = rw at (done.pending ∙ idle) in
      (
        rw at done.returns,
        _,
        publish_delivers t topic body (made_publisher topic c s.node.next_handle) s.node.next_handle
            m idle' ne plain found refl d,
        rw at (ap (λ cs. cs ++ publish s.node.next_handle m ∷ []) done.calls ∙ simp append_assoc),
      )
