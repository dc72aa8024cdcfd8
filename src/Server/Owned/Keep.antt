-- ===== src/Server/Owned/Keep.antt =====
-- Every command keeps the tables and the ROS graph together.
use ros_tcp_endpoint.Prelude.{
  ℕ, Bool, List, [], ◌∷◌, ◌++◌, Bytes, Option, Option-cases, inl, inr, subst, sym,
}
use ros_tcp_endpoint.Prelude.Result.{Result-cases}
use ros_tcp_endpoint.Prelude.Exec.{Exec}
use ros_tcp_endpoint.Prelude.Keeps.{Keeps}
use ros_tcp_endpoint.Platform.{Platform}
use ros_tcp_endpoint.Json.{Json}
use ros_tcp_endpoint.Ros.Nodes.{RosPublisher, publish, publisher_send}
use ros_tcp_endpoint.Ros.Graph.{
  Kind, subscription, publisher, client, service, replay-snoc, no_entities, after_call,
}
use ros_tcp_endpoint.Sender.{Sender}
use ros_tcp_endpoint.Server.{
  TcpServer, ServiceCall, on_sender, on_node, send_unity_error, send_unity_service_response,
}
use ros_tcp_endpoint.Server.SysCommands.{topic_list}
use ros_tcp_endpoint.Server.Parts.{KeepsParts}
use ros_tcp_endpoint.Server.Owned.{IsOwned, IsOwnedBy}
use ros_tcp_endpoint.Server.Owned.Commands.{
  Keeps-register_publisher, Keeps-register_subscriber, Keeps-register_ros_service,
  Keeps-register_unity_service,
}

pub by_kind {ℓ} :
    (F : Kind → Type ℓ) → F subscription → F publisher → F client → F service → (k : Kind) → F k
by_kind F a b c d subscription = a
by_kind F a b c d publisher = b
by_kind F a b c d client = c
by_kind F a b c d service = d

module _ {P : Platform} where
  -- The other parts of the state do not matter.
  pub IsOwned-frame :
      (s : TcpServer P) (m : Sender P) (p : Option Json) (b : Bool) (cs : List (ServiceCall P))
      → IsOwned s
      → IsOwned (record s {
        sender = m;
        pending_srv_id = p;
        pending_srv_is_request = b;
        service_calls = cs;
      })
  IsOwned-frame s m p b cs own = record {
    fresh = own.fresh;
    objects =
        by_kind _ (own.objects subscription) (own.objects publisher) (own.objects client)
          (own.objects service);
  }

  pub Keeps-on_sender {ℓ} :
      {A : Type ℓ} (m : Exec (Sender P) A) → Keeps {S = TcpServer P} IsOwned (on_sender m)
  Keeps-on_sender m = record { at = λ s own. IsOwned-frame s _ _ _ _ own }

  -- A message that is published makes and destroys nothing.
  IsOwned-published :
      (h : ℕ) (message : P.Message) (s : TcpServer P)
      → IsOwned s
      → IsOwned
          (record s { node = record s.node { calls = s.node.calls ++ publish h message ∷ [] } })
  unfolding after_call
  IsOwned-published h message s own =
      subst (IsOwnedBy _) (sym (replay-snoc no_entities s.node.calls (publish h message))) (record {
        fresh = own.fresh;
        objects =
            by_kind _ (own.objects subscription) (own.objects publisher) (own.objects client)
              (own.objects service);
      })

  Keeps-publisher_send :
      (r : RosPublisher P) (payload : Bytes)
      → Keeps {S = TcpServer P} IsOwned (on_node (publisher_send r payload))
  unfolding publisher_send
  Keeps-publisher_send r payload = record {
    at = λ s own. elim (Result-cases (P.deserialize payload r.msg)) [
      | inl (e, bad) ↦ rw (bad, publisher_send) own
      | inr (m, good) ↦ elim (Option-cases r.pub_handle) [
        | inl gone ↦ rw (good, gone, publisher_send) own
        | inr (h, live) ↦ rw (good, live, publisher_send) (IsOwned-published h m s own)
      ]
    ];
  }

  pub KeepsParts-IsOwned : KeepsParts {P = P} IsOwned
  unfolding send_unity_error send_unity_service_response topic_list
  KeepsParts-IsOwned = record {
    errors = λ text. Keeps-on_sender _;
    answers = λ id body. Keeps-on_sender _;
    topics = record { at = λ s own. IsOwned-frame s _ _ _ _ own };
    pending = λ s p b own. IsOwned-frame s _ p b _ own;
    calls = λ s c own. IsOwned-frame s _ _ _ _ own;
    publishes = Keeps-publisher_send;
    publishers = Keeps-register_publisher;
    subscribers = Keeps-register_subscriber;
    ros_services = Keeps-register_ros_service;
    unity_services = Keeps-register_unity_service;
  }
