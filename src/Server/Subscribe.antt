-- ===== src/Server/Subscribe.antt =====
-- server.py: `SysCommands.subscribe` and `RosSubscriber` as it is made.
use ros_tcp_endpoint.Prelude.{
  ℕ, ◌+◌, ◌≡◌, ◌≢◌, refl, true, List, [], ◌∷◌, ◌++◌, Text, codes, Option, none, some, if◌then◌else◌,
  arith, text_eq, append_assoc, Option-cases, inl, inr, subst,
}
use ros_tcp_endpoint.Prelude.Dict.{Dict, Text_eq, get, put, get-put}
use ros_tcp_endpoint.Prelude.Result.{Result, ok}
use ros_tcp_endpoint.Platform.{Platform}
use ros_tcp_endpoint.Text.{strip_name}
use ros_tcp_endpoint.Ros.Qos.{subscriber_qos, subscriber_depth}
use ros_tcp_endpoint.Ros.Throttle.{throttle_interval}
use ros_tcp_endpoint.Ros.Nodes.{RosSubscriber, RosCall, create_subscription, destroy_subscription}
use ros_tcp_endpoint.Server.{TcpServer}
use ros_tcp_endpoint.Server.SysCommands.{subscribe, register_subscriber}
use ros_tcp_endpoint.Server.Resolve.{resolve_message_name}

-- The calls that drop a subscriber, none if there is nothing to drop.
abbrev pub drop_subscriber : {P : Platform} → Option (RosSubscriber P) → List (RosCall P)
drop_subscriber none = []
drop_subscriber (some old) = elim old.sub [ none ↦ [] | some h ↦ destroy_subscription h ∷ [] ]

-- The profile and the object of a new subscriber.
abbrev pub made_subscriber : {P : Platform} → Text → P.Class → ℕ → ℕ → RosSubscriber P
made_subscriber topic c queue_size h = record {
  node_name = strip_name topic ++ codes "_RosSubscriber";
  topic = topic;
  msg = c;
  throttle = throttle_interval topic;
  last_sent_time = 0;
  queue_size = subscriber_depth topic queue_size;
  sub = some h;
}

module _ {P : Platform} (s : TcpServer P) (topic : Text) (c : P.Class) (queue_size : ℕ)
    (reliability durability history : Text) where
  -- The state with the new subscriber, from the table and the calls after the old one was dropped.
  abbrev with_subscriber : List (RosCall P) → Dict Text (RosSubscriber P) → TcpServer P
  with_subscriber calls table = record s {
    subscribers_table = put table topic (made_subscriber topic c queue_size s.node.next_handle);
    node = record {
      calls =
          calls
          ++ create_subscription s.node.next_handle c topic
              (subscriber_qos none topic queue_size reliability durability history)
            ∷ [];
      next_handle = s.node.next_handle + 1;
    };
  }

  abbrev Registered : TcpServer P → Type 0
  Registered t =
      register_subscriber topic c queue_size reliability durability history s ≡ (ok tt, t)

  -- What a registration promises of the state after it.
  pub record IsSubscribed (r : Result (Unit {0}) × TcpServer P) : Type 0 where
    pub returns : r.0 ≡ ok tt
    pub sender : r.1.sender ≡ s.sender
    pub calls :
        r.1.node.calls
        ≡ s.node.calls
          ++ (drop_subscriber (get s.subscribers_table topic)
              ++ create_subscription s.node.next_handle c topic
                  (subscriber_qos none topic queue_size reliability durability history)
                ∷ [])
    pub table :
        (t : Text)
        → get r.1.subscribers_table t ≡ (
            if text_eq topic t
            then some (made_subscriber topic c queue_size s.node.next_handle)
            else get s.subscribers_table t)

  replaced :
      (old : RosSubscriber P) (t : Text)
      → get
          (put
            (put s.subscribers_table topic old)
            topic
            (made_subscriber topic c queue_size s.node.next_handle))
          t
        ≡ (if text_eq topic t
            then some (made_subscriber topic c queue_size s.node.next_handle)
            else get s.subscribers_table t)
  replaced old t = ground (
    arith,
    get-put (put s.subscribers_table topic old) topic t
        (made_subscriber topic c queue_size s.node.next_handle),
    get-put s.subscribers_table topic t old,
  )

  module _ (valid : P.valid_name topic ≡ true) where
    Registered-new :
        get s.subscribers_table topic ≡ none
        → Registered (with_subscriber s.node.calls s.subscribers_table)
    unfolding register_subscriber
    Registered-new e = ground arith

    Registered-dead :
        (old : RosSubscriber P)
        → get s.subscribers_table topic ≡ some old
        → old.sub ≡ none
        → Registered (with_subscriber s.node.calls (put s.subscribers_table topic old))
    unfolding register_subscriber
    Registered-dead old e h = ground arith

    Registered-old :
        (old : RosSubscriber P) (h : ℕ)
        → get s.subscribers_table topic ≡ some old
        → old.sub ≡ some h
        → Registered (
            with_subscriber
              (s.node.calls ++ destroy_subscription h ∷ [])
              (put s.subscribers_table topic (record old { sub = none })))
    unfolding register_subscriber
    Registered-old old h e k = ground arith

    register_subscriber-IsSubscribed :
        IsSubscribed (register_subscriber topic c queue_size reliability durability history s)
    register_subscriber-IsSubscribed = elim (Option-cases (get s.subscribers_table topic)) [
      | inl e ↦ rw (Registered-new e) (record {
        returns = refl;
        sender = refl;
        calls = rw e refl;
        table = λ t.
            get-put s.subscribers_table topic t
              (made_subscriber topic c queue_size s.node.next_handle);
      })
      | inr (old, e) ↦ elim (Option-cases old.sub) [
        | inl h ↦ rw (Registered-dead old e h) (record {
          returns = refl;
          sender = refl;
          calls = rw e (rw h refl);
          table = replaced old;
        })
        | inr (k, h) ↦ rw (Registered-old old k e h) (record {
          returns = refl;
          sender = refl;
          calls = rw e (rw h (append_assoc s.node.calls _ _));
          table = replaced (record old { sub = none });
        })
      ]
    ]

    -- A `subscribe` command for a valid topic name that is not empty and a message class that is
    -- found: the topic's old subscription, if any, is destroyed, then one subscription is created
    -- with the profile for the arguments; the table has a subscriber with it and the topic's
    -- throttle for this topic, and every other topic keeps its subscriber.
    pub subscribe_registers :
        (message_name : Text)
        → topic ≢ []
        → resolve_message_name P message_name (codes "msg") ≡ ok (some c)
        → IsSubscribed (subscribe topic message_name queue_size reliability durability history s)
    unfolding subscribe
    subscribe_registers message_name ne found =
        subst IsSubscribed (ground arith) register_subscriber-IsSubscribed
