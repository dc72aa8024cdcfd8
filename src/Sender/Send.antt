-- ===== src/Sender/Send.antt =====
-- tcp_sender.py: the methods of `UnityTcpSender` that other threads call to send to Unity.
use ros_tcp_endpoint.Prelude.{
  ℕ, ◌+◌, Bool, true, false, List, [], ◌∷◌, ◌++◌, Bytes, Text, codes, Option, none, some, map,
  if◌then◌else◌,
}
use ros_tcp_endpoint.Prelude.Dict.{ℕ_eq, get, put, remove}
use ros_tcp_endpoint.Prelude.Result.{ok, err, key_error, type_error}
use ros_tcp_endpoint.Prelude.Exec.{Exec, pure, raise, lift, modify, ◌>>=◌, ◌>>◌}
use ros_tcp_endpoint.Platform.{Platform}
use ros_tcp_endpoint.Pauser
use ros_tcp_endpoint.Pauser.{Pauser, sleep_until_resumed, resume_with_result}
use ros_tcp_endpoint.Text.{contains_any}
use ros_tcp_endpoint.Json.{Json, bool, int, arr, obj}
use ros_tcp_endpoint.Struct.Int.{pos}
use ros_tcp_endpoint.Sender.{Sender, update, get_or_register_topic_id, put_queue}
use ros_tcp_endpoint.Client.Serialize.{
  SysCommand, log, service, topics_response, topic_map, serialize_message,
  serialize_message_with_topic_id, serialize_command,
}

-- The tokens of the topics that go through the latest-frame slots.
abbrev pub stream_tokens : List Text
stream_tokens = codes "/image" ∷ codes "/depth" ∷ codes "/compressed" ∷ codes "/points" ∷ []

-- The first type of a topic, or the empty text.
abbrev first_type : Text × List Text → Text
first_type (topic, []) = []
first_type (topic, t ∷ ts) = t

module _ {P : Platform} where
  -- `if self.queue is not None:` before the rest of a method
  abbrev pub when_connected : Exec (Sender P) (Unit {0}) → Exec (Sender P) (Unit {0})
  when_connected act s = elim s.queue [ none ↦ (ok tt, s) | some _ ↦ act s ]

  unfoldable pub send_command : Text → SysCommand → Exec (Sender P) (Unit {0})
  send_command name command = do
    serialized_bytes ← lift (serialize_command P name command)
    put_queue serialized_bytes

  unfoldable pub send_unity_info : Text → Exec (Sender P) (Unit {0})
  unfolding send_command
  send_unity_info text = when_connected (send_command (codes "__log") (log text))

  unfoldable pub send_unity_warning : Text → Exec (Sender P) (Unit {0})
  unfolding send_command
  send_unity_warning text = when_connected (send_command (codes "__warn") (log text))

  unfoldable pub send_unity_error : Text → Exec (Sender P) (Unit {0})
  unfolding send_command
  send_unity_error text = when_connected (send_command (codes "__error") (log text))

  -- The header and the message are one item of the queue.
  unfoldable pub send_pair : Text → Json → Text → P.Message → Exec (Sender P) (Unit {0})
  send_pair command srv_id destination message = do
    serialized_header ← lift (serialize_command P command (service srv_id))
    serialized_message ← lift (serialize_message P destination message)
    put_queue (serialized_header ++ serialized_message)

  unfoldable pub send_ros_service_response : Json → Text → P.Message → Exec (Sender P) (Unit {0})
  unfolding send_pair
  send_ros_service_response srv_id destination response =
      when_connected (send_pair (codes "__response") srv_id destination response)

  -- The message of a stream topic goes into its slot, where it replaces the one before.
  unfoldable pub store_slot : ℕ → P.Message → Exec (Sender P) (Unit {0})
  store_slot topic_id message =
      modify
        (λ s. record s { stream_slots = put s.stream_slots topic_id message; stream_event = true })

  unfoldable pub announce : Text → ℕ → Bool → Exec (Sender P) (Unit {0})
  unfolding send_command
  announce topic topic_id true = send_command (codes "__topic_map") (topic_map topic topic_id)
  announce topic topic_id false = pure tt

  unfoldable pub deliver : Text → ℕ → P.Message → Exec (Sender P) (Unit {0})
  unfolding store_slot
  deliver topic topic_id message =
      if contains_any topic stream_tokens then store_slot topic_id message else (do
        serialized_message ← lift (serialize_message_with_topic_id P topic_id message)
        put_queue serialized_message)

  -- `send_unity_message` once a client is connected.
  unfoldable pub forward : Text → P.Message → Exec (Sender P) (Unit {0})
  unfolding get_or_register_topic_id announce deliver
  forward topic message = do
    found ← get_or_register_topic_id topic
    announce topic found.0 found.1
    deliver topic found.0 message

  unfoldable pub send_unity_message : Text → P.Message → Exec (Sender P) (Unit {0})
  unfolding forward
  send_unity_message topic message = when_connected (forward topic message)

  -- `send_unity_service_request` before it waits: the pauser that it waits on, or `none` where the
  -- method returns `None` at once.
  unfoldable pub allocate_request : Exec (Sender P) (ℕ × ℕ)
  allocate_request s = (
    ok (s.next_srv_id, s.next_pauser),
    record s {
      next_srv_id = s.next_srv_id + 1;
      services_waiting = put s.services_waiting s.next_srv_id s.next_pauser;
      pausers = update s.pausers s.next_pauser Pauser.new;
      next_pauser = s.next_pauser + 1;
    },
  )

  unfoldable pub start_request : Text → P.Message → Exec (Sender P) (Option ℕ)
  unfolding allocate_request send_pair
  start_request topic request = do
    ids ← allocate_request
    send_pair (codes "__request") (int (pos ids.0)) topic request
    pure (some ids.1)

  unfoldable pub begin_service_request : Text → P.Message → Exec (Sender P) (Option ℕ)
  unfolding start_request
  begin_service_request topic request s = elim s.queue [
    | none ↦ (ok none, s)
    | some _ ↦ start_request topic request s
  ]

  -- thread_pauser.sleep_until_resumed()
  unfoldable pub sleep_request : ℕ → Exec (Sender P) (Unit {0})
  sleep_request pauser =
      modify (λ s. record s {
        pausers = update s.pausers pauser (sleep_until_resumed (s.pausers pauser));
      })

  -- The rest, once the thread runs again. A result that is still `None` cannot be deserialized.
  unfoldable pub finish_service_request : ℕ → P.Class → Exec (Sender P) P.Message
  finish_service_request pauser response_class s = elim ((s.pausers pauser).result) [
    | none ↦ (err type_error, s)
    | some result ↦ (P.deserialize result response_class, s)
  ]

  unfoldable pub resume_request : ℕ → ℕ → Bytes → Exec (Sender P) (Unit {0})
  resume_request srv_id pauser body = modify (λ s. record s {
    services_waiting = remove s.services_waiting srv_id;
    pausers = update s.pausers pauser (resume_with_result body (s.pausers pauser));
  })

  -- `services_waiting[srv_id]` for a number; a Boolean is 0 or 1.
  unfoldable pub respond : ℕ → Bytes → Exec (Sender P) (Unit {0})
  unfolding resume_request
  respond srv_id body s = elim (get s.services_waiting srv_id) [
    | none ↦ (err key_error, s)
    | some pauser ↦ resume_request srv_id pauser body s
  ]

  -- An array or an object is not hashable, and raises `TypeError`.
  unfoldable pub send_unity_service_response : Json → Bytes → Exec (Sender P) (Unit {0})
  unfolding respond
  send_unity_service_response (int (pos srv_id)) body = respond srv_id body
  send_unity_service_response (bool b) body = respond (if b then 1 else 0) body
  send_unity_service_response (arr _) body = raise type_error
  send_unity_service_response (obj _) body = raise type_error
  send_unity_service_response _ body = raise key_error

  -- `topics_and_types` is what rclpy's `get_topic_names_and_types` returns.
  unfoldable pub send_topic_list : List (Text × List Text) → Exec (Sender P) (Unit {0})
  unfolding send_command
  send_topic_list topics_and_types = when_connected (
      send_command (codes "__topic_list")
        (topics_response (map (λ item. item.0) topics_and_types) (map first_type topics_and_types)))
