-- ===== src/Client/Dispatch/Forwarded.antt =====
-- From a client's `__subscribe` command to the frames of the topic's first message.
use ros_tcp_endpoint.Prelude.{
  ℕ, ◌≤◌, ◌≡◌, ◌≢◌, refl, ◌∙◌, ap, true, false, [], ◌∷◌, ◌++◌, Bytes, Text, codes, none, some,
  arith,
}
use ros_tcp_endpoint.Prelude.Dict.{Text_eq, get, beq_refl}
use ros_tcp_endpoint.Prelude.Result.{ok}
use ros_tcp_endpoint.Platform.{Platform}
use ros_tcp_endpoint.Json.{get_field}
use ros_tcp_endpoint.Text.{rstrip_nul, starts_with, contains_any}
use ros_tcp_endpoint.Utf8.{decode}
use ros_tcp_endpoint.Ros.Throttle.{throttle_interval, admit}
use ros_tcp_endpoint.Ros.Nodes.{RosSubscriber, throttle_message}
use ros_tcp_endpoint.Client.Serialize.{
  serialize_command, serialize_message_with_topic_id, topic_map,
}
use ros_tcp_endpoint.Client.Dispatch.{handle_message}
use ros_tcp_endpoint.Client.Dispatch.Session.{topic_params}
use ros_tcp_endpoint.Sender.Send
use ros_tcp_endpoint.Sender.Send.{stream_tokens}
use ros_tcp_endpoint.Sender.Streams.{send-first}
use ros_tcp_endpoint.Server.{TcpServer, send_unity_message, subscriber_send}
use ros_tcp_endpoint.Server.Resolve.{resolve_message_name}
use ros_tcp_endpoint.Server.Subscribe.{made_subscriber, subscribe_registers}
use ros_tcp_endpoint.Server.Syscall.{handle_syscommand, get_command, call_with}
use ros_tcp_endpoint.Server.SysCommands

admit_first : (interval now : ℕ) → interval ≤ now → (admit interval 0 now).0 ≡ true
unfolding admit
admit_first interval now h = ground (arith, h)

module _ {P : Platform} (t : TcpServer P) (topic : Text) (now : ℕ) (m : P.Message) where
  forwards :
      (r : RosSubscriber P)
      → get t.subscribers_table topic ≡ some r
      → (throttle_message now r).0 ≡ true
      → ((subscriber_send topic now m t).0 ≡ (Send.send_unity_message r.topic m t.sender).0)
        × ((subscriber_send topic now m t).1.sender
            ≡ (Send.send_unity_message r.topic m t.sender).1)
  unfolding subscriber_send send_unity_message
  forwards r found go = rw (found, subscriber_send) (rw go (refl, refl))

  -- The first message after a subscription goes on to Unity.
  admitted :
      (c : P.Class) (queue_size h : ℕ)
      → get t.subscribers_table topic ≡ some (made_subscriber topic c queue_size h)
      → throttle_interval topic ≤ now
      → ((subscriber_send topic now m t).0 ≡ (Send.send_unity_message topic m t.sender).0)
        × ((subscriber_send topic now m t).1.sender ≡ (Send.send_unity_message topic m t.sender).1)
  unfolding throttle_message
  admitted c queue_size h found late =
      forwards (made_subscriber topic c queue_size h) found
        (admit_first (throttle_interval topic) now late)

module _ {P : Platform} (s : TcpServer P) (message : Text) (payload : Bytes)
    (topic message_name : Text) (idle : s.pending_srv_id ≡ none)
    (text : decode payload ≡ ok message)
    (params : P.loads (rstrip_nul message) ≡ ok (topic_params topic message_name)) where
  subscribe_command :
      handle_message (codes "__subscribe") payload s
      ≡ SysCommands.subscribe topic message_name 10
          (codes "reliable")
          (codes "volatile")
          (codes "keep_last")
          s
  unfolding handle_message handle_syscommand starts_with get_command call_with get_field
  subscribe_command = rw (idle, text, params) refl

  -- A client's `__subscribe` command that gives the topic and a message class that is found, with
  -- nothing pending, and then the first message of this topic, at least the topic's throttle
  -- interval after time 0, from which a new subscriber counts: with an active queue, for a valid
  -- topic that is not empty, no stream and not numbered yet, if mapping and frame serialize, the
  -- callback returns and appends the `__topic_map` command and behind it the frame with the same
  -- new number to the active queue.
  pub subscribe_session :
      (c : P.Class) (m : P.Message) (now q : ℕ) (mapping frame : Bytes)
      → P.valid_name topic ≡ true
      → topic ≢ []
      → resolve_message_name P message_name (codes "msg") ≡ ok (some c)
      → throttle_interval topic ≤ now
      → s.sender.queue ≡ some q
      → get s.sender.topic_to_id topic ≡ none
      → contains_any topic stream_tokens ≡ false
      → serialize_command P (codes "__topic_map") (topic_map topic s.sender.next_topic_id)
        ≡ ok mapping
      → serialize_message_with_topic_id P s.sender.next_topic_id m ≡ ok frame
      → ((subscriber_send topic now m (handle_message (codes "__subscribe") payload s).1).0 ≡ ok tt)
        × ((subscriber_send topic now m
                (handle_message (codes "__subscribe") payload s).1).1.sender.queues
              q
            ≡ s.sender.queues q ++ (mapping ∷ frame ∷ []))
  subscribe_session c m now q mapping frame valid ne class late active new plain hm hf =
      let done =
        subscribe_registers s topic c 10 (codes "reliable") (codes "volatile") (codes "keep_last")
          valid message_name ne class in
      let t = (handle_message (codes "__subscribe") payload s).1 in
      let found : get t.subscribers_table topic
          ≡ some (made_subscriber topic c 10 s.node.next_handle) =
        rw subscribe_command (done.table topic ∙ rw (beq_refl topic) refl) in
      let same : t.sender ≡ s.sender = rw subscribe_command done.sender in
      let (returns, sends) = admitted t topic now m c 10 s.node.next_handle found late in
      let (sent, queued, _) = send-first topic m s.sender q mapping frame active new plain hm hf in
      (
        returns ∙ (ap (λ u. (Send.send_unity_message topic m u).0) same ∙ sent),
        ap (λ u. u.queues q) sends
            ∙ (ap (λ u. (Send.send_unity_message topic m u).1.queues q) same ∙ queued),
      )
