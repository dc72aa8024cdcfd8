-- ===== src/Server/Parts.antt =====
-- An invariant of the server is kept by every command if it is kept by what the commands call.
use ros_tcp_endpoint.Prelude.{
  ℕ, Bool, false, [], ◌∷◌, Bytes, Text, codes, Option, none, some, drop, ◌++◌,
}
use ros_tcp_endpoint.Prelude.Result.{Result, ok, type_error}
use ros_tcp_endpoint.Prelude.Exec.{◌>>=◌, Exec, lift}
use ros_tcp_endpoint.Prelude.Keeps.{
  Keeps, Keeps-pure, Keeps-raise, Keeps-lift, Keeps-bind, Keeps-if,
}
use ros_tcp_endpoint.Platform.{Platform}
use ros_tcp_endpoint.Json.{Json, Fields, obj, get_field}
use ros_tcp_endpoint.Ros.Nodes.{RosPublisher, publisher_send}
use ros_tcp_endpoint.Server.{
  TcpServer, ServiceCall, on_node, send_unity_error, send_unity_service_response,
}
use ros_tcp_endpoint.Server.Resolve.{resolve_message_name}
use ros_tcp_endpoint.Server.SysCommands as Commands
use ros_tcp_endpoint.Server.SysCommands.{
  with_class, register_publisher, register_subscriber, register_ros_service, register_unity_service,
  topic_list, is_blank,
}
use ros_tcp_endpoint.Server.Syscall.{
  Command, subscribe, publish, ros_service, unity_service, response, request,
  topic_list as list_command, resolve_name, call_command, call_with, handle_syscommand, check_keys,
  argument, argument_or, as_text, as_nat, as_bool, get_command, read_params,
}
use ros_tcp_endpoint.Text.{rstrip_nul}
use ros_tcp_endpoint.Utf8.{decode}

module _ {P : Platform} where
  pub record KeepsParts (Inv : TcpServer P → Type 0) : Type 0 where
    pub errors : (text : Text) → Keeps Inv (send_unity_error text)
    pub answers : (id : Json) (body : Bytes) → Keeps Inv (send_unity_service_response id body)
    pub topics : Keeps Inv topic_list
    pub pending :
        (s : TcpServer P) (p : Option Json) (b : Bool)
        → Inv s
        → Inv (record s { pending_srv_id = p; pending_srv_is_request = b })
    pub calls :
        (s : TcpServer P) (c : ServiceCall P)
        → Inv s
        → Inv (record s { service_calls = s.service_calls ++ c ∷ [] })
    pub publishes :
        (r : RosPublisher P) (payload : Bytes) → Keeps Inv (on_node (publisher_send r payload))
    pub publishers :
        (topic : Text) (c : P.Class) (queue_size : ℕ) (latch : Bool) (reliability history : Text)
        → Keeps Inv (register_publisher topic c queue_size latch reliability history)
    pub subscribers :
        (topic : Text) (c : P.Class) (queue_size : ℕ) (reliability durability history : Text)
        → Keeps Inv (register_subscriber topic c queue_size reliability durability history)
    pub ros_services : (topic : Text) (c : P.Class) → Keeps Inv (register_ros_service topic c)
    pub unity_services : (topic : Text) (c : P.Class) → Keeps Inv (register_unity_service topic c)

  module _ (Inv : TcpServer P → Type 0) (parts : KeepsParts Inv) where
    Keeps-found :
        (found : Option P.Class) (unknown : Text) (go : P.Class → Exec (TcpServer P) (Unit {0}))
        → ((c : P.Class) → Keeps Inv (go c))
        → Keeps Inv (elim found [ none ↦ send_unity_error unknown | some c ↦ go c ])
    Keeps-found none unknown go k = parts.errors unknown
    Keeps-found (some c) unknown go k = k c

    Keeps-with_class :
        (name extension unknown : Text) (go : P.Class → Exec (TcpServer P) (Unit {0}))
        → ((c : P.Class) → Keeps Inv (go c))
        → Keeps Inv (with_class name extension unknown go)
    unfolding with_class
    Keeps-with_class name extension unknown go k =
        Keeps-bind (lift (resolve_message_name P name extension)) _ (Keeps-lift _)
          λ found. Keeps-found found unknown go k

    Keeps-subscribe :
        (topic name : Text) (queue_size : ℕ) (reliability durability history : Text)
        → Keeps Inv (Commands.subscribe topic name queue_size reliability durability history)
    unfolding Commands.subscribe
    Keeps-subscribe topic name queue_size reliability durability history =
        Keeps-if (is_blank topic) _ _ (parts.errors _) (
          Keeps-with_class name _ _ _
            λ c. parts.subscribers topic c queue_size reliability durability history)

    Keeps-publish :
        (topic name : Text) (queue_size : ℕ) (latch : Bool) (reliability history : Text)
        → Keeps Inv (Commands.publish topic name queue_size latch reliability history)
    unfolding Commands.publish
    Keeps-publish topic name queue_size latch reliability history =
        Keeps-if (is_blank topic) _ _ (parts.errors _) (
          Keeps-with_class name _ _ _
            λ c. parts.publishers topic c queue_size latch reliability history)

    Keeps-ros_service : (topic name : Text) → Keeps Inv (Commands.ros_service topic name)
    unfolding Commands.ros_service
    Keeps-ros_service topic name =
        Keeps-if (is_blank topic) _ _ (parts.errors _)
          (Keeps-with_class name _ _ _ λ c. parts.ros_services topic c)

    Keeps-unity_service : (topic name : Text) → Keeps Inv (Commands.unity_service topic name)
    unfolding Commands.unity_service
    Keeps-unity_service topic name =
        Keeps-if (is_blank topic) _ _ (parts.errors _)
          (Keeps-with_class name _ _ _ λ c. parts.unity_services topic c)

    Keeps-response : (id : Json) → Keeps Inv (Commands.response id)
    unfolding Commands.response
    Keeps-response id = record { at = λ s h. parts.pending s _ _ h }

    Keeps-request : (id : Json) → Keeps Inv (Commands.request id)
    unfolding Commands.request
    Keeps-request id = record { at = λ s h. parts.pending s _ _ h }

    -- A part of a command that only computes.
    Keeps-after {ℓ} :
        {A : Type ℓ} (r : Result A) (f : A → Exec (TcpServer P) (Unit {0}))
        → ((a : A) → Keeps Inv (f a))
        → Keeps Inv (lift r >>= f)
    Keeps-after r f k = Keeps-bind (lift r) f (Keeps-lift r) k

    Keeps-required {ℓ} :
        {A : Type ℓ} (read : Json → Result A) (fs : Fields) (key : Text)
        (f : A → Exec (TcpServer P) (Unit {0}))
        → ((a : A) → Keeps Inv (f a))
        → Keeps Inv (lift (argument read (get_field fs key)) >>= f)
    Keeps-required read fs key f k = Keeps-after (argument read (get_field fs key)) f k

    Keeps-optional {ℓ} :
        {A : Type ℓ} (read : Json → Result A) (default : A) (fs : Fields) (key : Text)
        (f : A → Exec (TcpServer P) (Unit {0}))
        → ((a : A) → Keeps Inv (f a))
        → Keeps Inv (lift (argument_or read default (get_field fs key)) >>= f)
    Keeps-optional read default fs key f k =
        Keeps-after (argument_or read default (get_field fs key)) f k

    Keeps-call_command : (c : Command) (fs : Fields) → Keeps Inv (call_command c fs)
    unfolding call_command
    Keeps-call_command subscribe fs =
        Keeps-after
          (check_keys
            (codes "topic"
              ∷ codes "message_name"
              ∷ codes "queue_size"
              ∷ codes "reliability"
              ∷ codes "durability"
              ∷ codes "history"
              ∷ [])
            fs)
          _
          λ _. Keeps-required as_text fs (codes "topic") _ λ topic.
            Keeps-required as_text fs (codes "message_name") _ λ name.
              Keeps-optional as_nat 10 fs (codes "queue_size") _ λ size.
                Keeps-optional as_text (codes "reliable") fs (codes "reliability") _ λ reliability.
                  Keeps-optional as_text (codes "volatile") fs (codes "durability") _ λ durability.
                    Keeps-optional as_text (codes "keep_last") fs (codes "history") _
                      λ history. Keeps-subscribe topic name size reliability durability history
    Keeps-call_command publish fs =
        Keeps-after
          (check_keys
            (codes "topic"
              ∷ codes "message_name"
              ∷ codes "queue_size"
              ∷ codes "latch"
              ∷ codes "reliability"
              ∷ codes "history"
              ∷ [])
            fs)
          _
          λ _. Keeps-required as_text fs (codes "topic") _ λ topic.
            Keeps-required as_text fs (codes "message_name") _ λ name.
              Keeps-optional as_nat 10 fs (codes "queue_size") _ λ size.
                Keeps-optional as_bool false fs (codes "latch") _ λ latch.
                  Keeps-optional as_text (codes "reliable") fs (codes "reliability") _
                    λ reliability.
                      Keeps-optional as_text (codes "keep_last") fs (codes "history") _
                        λ history. Keeps-publish topic name size latch reliability history
    Keeps-call_command ros_service fs =
        Keeps-after (check_keys (codes "topic" ∷ codes "message_name" ∷ []) fs) _ λ _.
          Keeps-required as_text fs (codes "topic") _ λ topic.
            Keeps-required as_text fs (codes "message_name") _ λ name. Keeps-ros_service topic name
    Keeps-call_command unity_service fs =
        Keeps-after (check_keys (codes "topic" ∷ codes "message_name" ∷ []) fs) _ λ _.
          Keeps-required as_text fs (codes "topic") _ λ topic.
            Keeps-required as_text fs (codes "message_name") _
              λ name. Keeps-unity_service topic name
    Keeps-call_command response fs =
        Keeps-after (check_keys (codes "srv_id" ∷ []) fs) _
          λ _. Keeps-required ok fs (codes "srv_id") _ λ id. Keeps-response id
    Keeps-call_command request fs =
        Keeps-after (check_keys (codes "srv_id" ∷ []) fs) _
          λ _. Keeps-required ok fs (codes "srv_id") _ λ id. Keeps-request id
    Keeps-call_command list_command fs = Keeps-after (check_keys [] fs) _ λ _. parts.topics
    Keeps-call_command resolve_name fs =
        Keeps-after (check_keys (codes "name" ∷ codes "extension" ∷ []) fs) _ λ _.
          Keeps-required as_text fs (codes "name") _ λ name.
            Keeps-optional as_text (codes "msg") fs (codes "extension") _
              λ extension. Keeps-after (resolve_message_name P name extension) _ λ _. Keeps-pure tt

    Keeps-call_with : (c : Command) (j : Json) → Keeps Inv (call_with c j)
    unfolding call_with
    Keeps-call_with c (obj fs) = Keeps-call_command c fs
    Keeps-call_with c _ = Keeps-raise type_error

    pub Keeps-handle_syscommand :
        (topic : Text) (payload : Bytes) → Keeps Inv (handle_syscommand topic payload)
    unfolding handle_syscommand
    Keeps-handle_syscommand topic payload = Keeps-after (get_command (drop 2 topic)) _ λ c.
        Keeps-after (decode payload) _ λ message.
          Keeps-after (read_params P (rstrip_nul message) (P.loads (rstrip_nul message))) _
            λ params. Keeps-call_with c params
