-- ===== src/System/Sound.antt =====
-- What holds of the server whatever its threads do.
use ros_tcp_endpoint.Prelude.{ℕ, ◌≡◌, refl, sym, subst, Text, List, Option-cases, inl, inr}
use ros_tcp_endpoint.Prelude.Dict.{Text_eq, ℕ_eq, get}
use ros_tcp_endpoint.Prelude.Result.{ok}
use ros_tcp_endpoint.Prelude.Keeps.{Keeps}
use ros_tcp_endpoint.Platform.{Platform}
use ros_tcp_endpoint.Ros.Graph.{subscription, replay}
use ros_tcp_endpoint.Sender.{Sender, get_or_register_topic_id}
use ros_tcp_endpoint.Sender.Send.{respond, store_slot, allocate_request, sleep_request}
use ros_tcp_endpoint.Sender.Loop.{start_sender, enter_loop, sender_round, leave_loop}
use ros_tcp_endpoint.Sender.Reconnect.{enter_loop-entered}
use ros_tcp_endpoint.Ros.Graph.Owns.{Owns-none}
use ros_tcp_endpoint.Sender.Parts.{Any, any_items}
use ros_tcp_endpoint.Sender.Registry
use ros_tcp_endpoint.Sender.Registry.{HasRegistry}
use ros_tcp_endpoint.Sender.Service
use ros_tcp_endpoint.Sender.Service.{IsWaiting}
use ros_tcp_endpoint.Server.{TcpServer, new_server, send_unity_message}
use ros_tcp_endpoint.Server.Owned.{IsOwned}
use ros_tcp_endpoint.Server.Owned.Tables.{IsOwned-touch}
use ros_tcp_endpoint.Server.Owned.Keep.{by_kind, IsOwned-frame, Keeps-on_sender, KeepsParts-IsOwned}
use ros_tcp_endpoint.System.{Reach}
use ros_tcp_endpoint.System.Steps.{KeepsSteps, Reach-keeps}
use ros_tcp_endpoint.System.OfSender.{OfSender, KeepsSteps-sender}

module _ {P : Platform} where
  KeepsSteps-IsOwned : KeepsSteps {P = P} IsOwned
  unfolding send_unity_message
  KeepsSteps-IsOwned = record {
    parts = KeepsParts-IsOwned;
    touched = λ s topic r r' e same own. IsOwned-touch s own subscription topic r' r e same;
    forwarded = λ topic m. Keeps-on_sender _;
    requested = λ topic m. Keeps-on_sender _;
    responded = λ id topic m. Keeps-on_sender _;
    slept = λ p. Keeps-on_sender _;
    started = λ s own. IsOwned-frame s _ _ _ _ own;
    entered = λ s tid m e own. IsOwned-frame s _ _ _ _ own;
    sent = λ s sends link own. IsOwned-frame s _ _ _ _ own;
    left = λ s link own. IsOwned-frame s _ _ _ _ own;
  }

  respond-HasRegistry : (n : ℕ) (body : _) → Keeps {S = Sender P} HasRegistry (respond n body)
  unfolding respond
  respond-HasRegistry n body = record {
    at = λ s h. elim (Option-cases (get s.services_waiting n)) [
      | inl e ↦ rw (e, respond) h
      | inr (p, e) ↦ rw (e, respond) h
    ];
  }

  enter-HasRegistry :
      (s m : Sender P) (tid : ℕ) → enter_loop tid s ≡ ok m → HasRegistry s → HasRegistry m
  enter-HasRegistry s m tid e h =
      let (hello, _, same) = enter_loop-entered tid s m e in subst HasRegistry (sym same) h

  KeepsSteps-HasRegistry : KeepsSteps {P = P} (OfSender HasRegistry)
  unfolding start_sender sender_round leave_loop allocate_request sleep_request
  KeepsSteps-HasRegistry =
      KeepsSteps-sender HasRegistry Any (any_items P) (λ b _. Registry.Keeps-put_queue b)
        respond-HasRegistry Registry.Keeps-store_slot Registry.Keeps-get_or_register
        (record { at = λ s h. h }) (λ p. record { at = λ s h. h }) (λ s h. h) enter-HasRegistry
        (λ s sends link h. h) (λ s link h. h)

  register-IsWaiting : (t : Text) → Keeps {S = Sender P} IsWaiting (get_or_register_topic_id t)
  unfolding get_or_register_topic_id
  register-IsWaiting t = record {
    at = λ s h. elim (Option-cases (get s.topic_to_id t)) [
      | inl e ↦ rw (e, get_or_register_topic_id) (record { given = h.given; distinct = h.distinct })
      | inr (n, e) ↦ rw (e, get_or_register_topic_id) h
    ];
  }

  enter-IsWaiting : (s m : Sender P) (tid : ℕ) → enter_loop tid s ≡ ok m → IsWaiting s → IsWaiting m
  enter-IsWaiting s m tid e h =
      let (hello, _, same) = enter_loop-entered tid s m e in
      subst IsWaiting (sym same) (record { given = h.given; distinct = h.distinct })

  KeepsSteps-IsWaiting : KeepsSteps {P = P} (OfSender IsWaiting)
  unfolding start_sender sender_round leave_loop sleep_request store_slot
  KeepsSteps-IsWaiting =
      KeepsSteps-sender IsWaiting Any (any_items P) (λ b _. Service.Keeps-put_queue b)
        Service.Keeps-respond
        (λ n m. record { at = λ s h. record { given = h.given; distinct = h.distinct } })
        register-IsWaiting Service.Keeps-allocate
        (λ p. record { at = λ s h. record { given = h.given; distinct = h.distinct } })
        (λ s h. record { given = h.given; distinct = h.distinct }) enter-IsWaiting
        (λ s sends link h. record { given = h.given; distinct = h.distinct })
        (λ s link h. record { given = h.given; distinct = h.distinct })

-- The topics' numbers are distinct and below the next one; the waiting requests have numbers and
-- pausers of their own; and the ROS graph holds the entities of the four tables and nothing else.
pub record IsSound {P : Platform} (s : TcpServer P) : Type 0 where
  pub registry : HasRegistry s.sender
  pub waiting : IsWaiting s.sender
  pub owned : IsOwned s

new_server-IsSound :
    (P : Platform) (size threshold : ℕ) (graph : List (Text × List Text))
    → IsSound (new_server P size threshold graph)
unfolding new_server get replay
new_server-IsSound P size threshold graph = record {
  registry = record { below = λ t n e. cc; distinct = λ t u n e f. cc };
  waiting = record { given = λ k p e. cc; distinct = λ j k p e f. cc };
  owned = record {
    fresh = λ h above. refl;
    objects = by_kind _ (Owns-none _ _) (Owns-none _ _) (Owns-none _ _) (Owns-none _ _);
  };
}

-- Whatever the threads of the endpoint do to a new server, exceptions included, with one message of
-- a client handled at a time: between handled messages, ROS callbacks, calls of services and sender
-- threads come in any order. Then the topics' numbers are distinct and below the next one; the
-- waiting requests have numbers below the next one and pausers of their own; and the node's
-- entities in the ROS graph are exactly those of the objects in the four tables, each under its
-- topic. Nothing is said of clients whose messages are handled at the same time.
pub Reach-IsSound :
    {P : Platform} (size threshold : ℕ) (graph : List (Text × List Text)) {t : TcpServer P}
    → Reach (new_server P size threshold graph) t
    → IsSound t
Reach-IsSound {P} size threshold graph r =
    let start = new_server-IsSound P size threshold graph in
    record {
      registry = Reach-keeps (OfSender HasRegistry) KeepsSteps-HasRegistry r start.registry;
      waiting = Reach-keeps (OfSender IsWaiting) KeepsSteps-IsWaiting r start.waiting;
      owned = Reach-keeps IsOwned KeepsSteps-IsOwned r start.owned;
    }
