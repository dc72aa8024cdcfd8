-- ===== src/System/OfSender.antt =====
-- An invariant of the sender is kept by every command if the queue and the responses keep it.
use ros_tcp_endpoint.Prelude.{ℕ, Bool, Bytes, Text, none, Option-cases, inl, inr}
use ros_tcp_endpoint.Prelude.Dict.{Text_eq, get}
use ros_tcp_endpoint.Prelude.Exec.{Exec}
use ros_tcp_endpoint.Prelude.Keeps.{Keeps, Keeps-bind}
use ros_tcp_endpoint.Platform.{Platform}
use ros_tcp_endpoint.Json.{Json, int, bool}
use ros_tcp_endpoint.Struct.Int.{pos}
use ros_tcp_endpoint.Ros.Nodes.{
  Node, new_publisher, new_subscriber, new_ros_service, new_unity_service, unregister_publisher,
  unregister_subscriber, unregister_ros_service, unregister_unity_service,
}
use ros_tcp_endpoint.Sender.{Sender, put_queue}
use ros_tcp_endpoint.Sender.Send
use ros_tcp_endpoint.Sender.Send.{
  respond, send_command, send_topic_list, store_slot, allocate_request, sleep_request,
  send_ros_service_response,
}
use ros_tcp_endpoint.Sender.Parts.{
  Items, Keeps-when_connected, Keeps-send_command, Keeps-send_pair, Keeps-begin,
  Keeps-send_unity_message,
}
use ros_tcp_endpoint.Client.Serialize.{SysCommand}
use ros_tcp_endpoint.Server.{
  TcpServer, on_sender, on_node, send_unity_error, send_unity_service_response, send_unity_message,
}
use ros_tcp_endpoint.Server.SysCommands.{
  topic_list, unregister_old_publisher, register_publisher, unregister_old_subscriber,
  register_subscriber, unregister_old_ros_service, register_ros_service,
  unregister_old_unity_service, register_unity_service,
}
use ros_tcp_endpoint.Server.Parts.{KeepsParts}
use ros_tcp_endpoint.Prelude.{◌≡◌}
use ros_tcp_endpoint.Prelude.Result.{ok}
use ros_tcp_endpoint.Sender.{get_or_register_topic_id}
use ros_tcp_endpoint.Sender.Loop.{Sendall, Link, start_sender, enter_loop, sender_round, leave_loop}
use ros_tcp_endpoint.System.Steps.{KeepsSteps}

module _ {P : Platform} (Inv : Sender P → Type 0) where
  abbrev pub OfSender : TcpServer P → Type 0
  OfSender s = Inv s.sender

  pub Keeps-on_sender {ℓ} :
      {A : Type ℓ} (m : Exec (Sender P) A) → Keeps Inv m → Keeps OfSender (on_sender m)
  Keeps-on_sender m k = record { at = λ s h. k.at s.sender h }

  Keeps-on_node {ℓ} : {A : Type ℓ} (m : Exec (Node P) A) → Keeps OfSender (on_node m)
  Keeps-on_node m = record { at = λ s h. h }

  Keeps-unregister_publisher : (topic : Text) → Keeps OfSender (unregister_old_publisher topic)
  unfolding unregister_old_publisher
  Keeps-unregister_publisher topic = record {
    at = λ s h. elim (Option-cases (get s.publishers_table topic)) [
      | inl e ↦ rw (e, unregister_old_publisher) h
      | inr (old, e) ↦
          rw (e, unregister_old_publisher)
            ((Keeps-bind (on_node (unregister_publisher old)) _ (Keeps-on_node _)
                λ r. record { at = λ t k. k }).at
              s h)
    ];
  }

  Keeps-unregister_subscriber : (topic : Text) → Keeps OfSender (unregister_old_subscriber topic)
  unfolding unregister_old_subscriber
  Keeps-unregister_subscriber topic = record {
    at = λ s h. elim (Option-cases (get s.subscribers_table topic)) [
      | inl e ↦ rw (e, unregister_old_subscriber) h
      | inr (old, e) ↦
          rw (e, unregister_old_subscriber)
            ((Keeps-bind (on_node (unregister_subscriber old)) _ (Keeps-on_node _)
                λ r. record { at = λ t k. k }).at
              s h)
    ];
  }

  Keeps-unregister_ros_service : (topic : Text) → Keeps OfSender (unregister_old_ros_service topic)
  unfolding unregister_old_ros_service
  Keeps-unregister_ros_service topic = record {
    at = λ s h. elim (Option-cases (get s.ros_services_table topic)) [
      | inl e ↦ rw (e, unregister_old_ros_service) h
      | inr (old, e) ↦
          rw (e, unregister_old_ros_service)
            ((Keeps-bind (on_node (unregister_ros_service old)) _ (Keeps-on_node _)
                λ r. record { at = λ t k. k }).at
              s h)
    ];
  }

  Keeps-unregister_unity_service :
      (topic : Text) → Keeps OfSender (unregister_old_unity_service topic)
  unfolding unregister_old_unity_service
  Keeps-unregister_unity_service topic = record {
    at = λ s h. elim (Option-cases (get s.unity_services_table topic)) [
      | inl e ↦ rw (e, unregister_old_unity_service) h
      | inr (old, e) ↦
          rw (e, unregister_old_unity_service)
            ((Keeps-bind (on_node (unregister_unity_service old)) _ (Keeps-on_node _)
                λ r. record { at = λ t k. k }).at
              s h)
    ];
  }

  Keeps-register_publisher :
      (topic : Text) (c : P.Class) (size : ℕ) (latch : Bool) (reliability history : Text)
      → Keeps OfSender (register_publisher topic c size latch reliability history)
  unfolding register_publisher
  Keeps-register_publisher topic c size latch reliability history =
      Keeps-bind (unregister_old_publisher topic) _ (Keeps-unregister_publisher topic) λ _.
        Keeps-bind (on_node (new_publisher topic c size latch none reliability history)) _
          (Keeps-on_node _) λ r. record { at = λ t k. k }

  Keeps-register_subscriber :
      (topic : Text) (c : P.Class) (size : ℕ) (reliability durability history : Text)
      → Keeps OfSender (register_subscriber topic c size reliability durability history)
  unfolding register_subscriber
  Keeps-register_subscriber topic c size reliability durability history =
      Keeps-bind (unregister_old_subscriber topic) _ (Keeps-unregister_subscriber topic) λ _.
        Keeps-bind (on_node (new_subscriber topic c size none reliability durability history)) _
          (Keeps-on_node _) λ r. record { at = λ t k. k }

  Keeps-register_ros_service :
      (topic : Text) (c : P.Class) → Keeps OfSender (register_ros_service topic c)
  unfolding register_ros_service
  Keeps-register_ros_service topic c =
      Keeps-bind (unregister_old_ros_service topic) _ (Keeps-unregister_ros_service topic) λ _.
        Keeps-bind (on_node (new_ros_service topic c)) _ (Keeps-on_node _)
          λ r. record { at = λ t k. k }

  Keeps-register_unity_service :
      (topic : Text) (c : P.Class) → Keeps OfSender (register_unity_service topic c)
  unfolding register_unity_service
  Keeps-register_unity_service topic c =
      Keeps-bind (unregister_old_unity_service topic) _ (Keeps-unregister_unity_service topic) λ _.
        Keeps-bind (on_node (new_unity_service topic c)) _ (Keeps-on_node _)
          λ r. record { at = λ t k. k }

  module _ (Good : Bytes → Type 0) (items : Items P Good)
      (on_put : (item : Bytes) → Good item → Keeps Inv (put_queue item))
      (on_respond : (n : ℕ) (body : Bytes) → Keeps Inv (respond n body)) where
    Keeps-command :
        (name : Text) (c : SysCommand) → Keeps Inv (Send.when_connected (send_command name c))
    Keeps-command name c =
        Keeps-when_connected Inv (send_command name c)
          (Keeps-send_command Inv Good items on_put name c)

    Keeps-error : (text : Text) → Keeps OfSender (send_unity_error text)
    unfolding send_unity_error
    Keeps-error text = Keeps-on_sender _ (Keeps-command _ _)

    Keeps-answer : (id : Json) (body : Bytes) → Keeps Inv (Send.send_unity_service_response id body)
    unfolding Send.send_unity_service_response
    Keeps-answer (int (pos n)) body = on_respond n body
    Keeps-answer (bool b) body = on_respond _ body
    Keeps-answer _ body = record { at = λ s h. h }

    Keeps-topic_list : Keeps OfSender topic_list
    unfolding topic_list
    Keeps-topic_list = record { at = λ s h. (Keeps-command _ _).at s.sender h }

    pub KeepsParts-sender : KeepsParts OfSender
    unfolding send_unity_service_response
    KeepsParts-sender = record {
      errors = Keeps-error;
      answers = λ id body. Keeps-on_sender _ (Keeps-answer id body);
      topics = Keeps-topic_list;
      pending = λ s p b h. h;
      calls = λ s c h. h;
      publishes = λ r payload. Keeps-on_node _;
      publishers = Keeps-register_publisher;
      subscribers = Keeps-register_subscriber;
      ros_services = Keeps-register_ros_service;
      unity_services = Keeps-register_unity_service;
    }

    module _ (on_slot : (n : ℕ) (m : P.Message) → Keeps Inv (store_slot n m))
        (on_register : (t : Text) → Keeps Inv (get_or_register_topic_id t))
        (on_allocate : Keeps Inv allocate_request)
        (on_sleep : (p : ℕ) → Keeps Inv (sleep_request p))
        (on_start : (s : Sender P) → Inv s → Inv (start_sender s).1)
        (on_enter : (s m : Sender P) (tid : ℕ) → enter_loop tid s ≡ ok m → Inv s → Inv m)
        (on_round : (s : Sender P) (sends : Sendall) (link : Link)
          → Inv s
          → Inv (sender_round sends link s).1)
        (on_leave : (s : Sender P) (link : Link) → Inv s → Inv (leave_loop link s).1) where
      pub KeepsSteps-sender : KeepsSteps OfSender
      unfolding send_unity_message send_ros_service_response
      KeepsSteps-sender = record {
        parts = KeepsParts-sender;
        touched = λ s topic r r' e same h. h;
        forwarded = λ topic m.
            Keeps-on_sender _
              (Keeps-send_unity_message Inv Good items on_put on_slot on_register topic m);
        requested =
            λ topic m. Keeps-on_sender _ (Keeps-begin Inv Good items on_put on_allocate topic m);
        responded = λ id topic m.
            Keeps-on_sender _
              (Keeps-when_connected Inv _ (Keeps-send_pair Inv Good items on_put _ id topic m));
        slept = λ p. Keeps-on_sender _ (on_sleep p);
        started = λ s h. on_start s.sender h;
        entered = λ s tid m e h. on_enter s.sender m tid e h;
        sent = λ s sends link h. on_round s.sender sends link h;
        left = λ s link h. on_leave s.sender link h;
      }
