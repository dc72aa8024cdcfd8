-- ===== src/Server/Register.antt =====
-- server.py: `SysCommands.publish` and `RosPublisher` as it is made.
use ros_tcp_endpoint.Prelude.{
  ℕ, ◌+◌, ◌≡◌, ◌≢◌, refl, Bool, true, List, [], ◌∷◌, ◌++◌, Text, codes, Option, none, some,
  if◌then◌else◌, arith, text_eq, append_assoc, Option-cases, inl, inr, subst,
}
use ros_tcp_endpoint.Prelude.Dict.{Dict, Text_eq, get, put, get-put}
use ros_tcp_endpoint.Prelude.Result.{Result, ok}
use ros_tcp_endpoint.Platform.{Platform}
use ros_tcp_endpoint.Text.{strip_name}
use ros_tcp_endpoint.Ros.Qos.{publisher_qos}
use ros_tcp_endpoint.Ros.Nodes.{RosPublisher, RosCall, create_publisher, destroy_publisher}
use ros_tcp_endpoint.Server.{TcpServer}
use ros_tcp_endpoint.Server.SysCommands.{publish, register_publisher}
use ros_tcp_endpoint.Server.Resolve.{resolve_message_name}

-- The calls that drop a publisher, none if there is nothing to drop.
abbrev pub drop_publisher : {P : Platform} → Option (RosPublisher P) → List (RosCall P)
drop_publisher none = []
drop_publisher (some old) = elim old.pub_handle [ none ↦ [] | some h ↦ destroy_publisher h ∷ [] ]

-- The profile and the object of a new publisher.
abbrev pub made_publisher : {P : Platform} → Text → P.Class → ℕ → RosPublisher P
made_publisher topic c h = record {
  node_name = strip_name topic ++ codes "_RosPublisher";
  msg = c;
  pub_handle = some h;
}

module _ {P : Platform} (s : TcpServer P) (topic : Text) (c : P.Class) (queue_size : ℕ)
    (latch : Bool) (reliability history : Text) where
  -- The state with the new publisher, from the table and the calls after the old one was dropped.
  abbrev with_publisher : List (RosCall P) → Dict Text (RosPublisher P) → TcpServer P
  with_publisher calls table = record s {
    publishers_table = put table topic (made_publisher topic c s.node.next_handle);
    node = record {
      calls =
          calls
          ++ create_publisher s.node.next_handle c topic
              (publisher_qos none topic queue_size latch reliability history)
            ∷ [];
      next_handle = s.node.next_handle + 1;
    };
  }

  abbrev Registered : TcpServer P → Type 0
  Registered t = register_publisher topic c queue_size latch reliability history s ≡ (ok tt, t)

  -- What a registration promises of the state after it.
  pub record IsRegistered (r : Result (Unit {0}) × TcpServer P) : Type 0 where
    pub returns : r.0 ≡ ok tt
    pub pending : r.1.pending_srv_id ≡ s.pending_srv_id
    pub calls :
        r.1.node.calls
        ≡ s.node.calls
          ++ (drop_publisher (get s.publishers_table topic)
              ++ create_publisher s.node.next_handle c topic
                  (publisher_qos none topic queue_size latch reliability history)
                ∷ [])
    pub table :
        (t : Text)
        → get r.1.publishers_table t ≡ (
            if text_eq topic t
            then some (made_publisher topic c s.node.next_handle)
            else get s.publishers_table t)

  replaced :
      (old : RosPublisher P) (t : Text)
      → get
          (put (put s.publishers_table topic old) topic (made_publisher topic c s.node.next_handle))
          t
        ≡ (if text_eq topic t
            then some (made_publisher topic c s.node.next_handle)
            else get s.publishers_table t)
  replaced old t = ground (
    arith,
    get-put (put s.publishers_table topic old) topic t (made_publisher topic c s.node.next_handle),
    get-put s.publishers_table topic t old,
  )

  module _ (valid : P.valid_name topic ≡ true) (instance_made : P.Message)
      (builds : P.construct c ≡ ok instance_made) where
    Registered-new :
        get s.publishers_table topic ≡ none
        → Registered (with_publisher s.node.calls s.publishers_table)
    unfolding register_publisher
    Registered-new e = ground arith

    Registered-dead :
        (old : RosPublisher P)
        → get s.publishers_table topic ≡ some old
        → old.pub_handle ≡ none
        → Registered (with_publisher s.node.calls (put s.publishers_table topic old))
    unfolding register_publisher
    Registered-dead old e h = ground arith

    Registered-old :
        (old : RosPublisher P) (h : ℕ)
        → get s.publishers_table topic ≡ some old
        → old.pub_handle ≡ some h
        → Registered (
            with_publisher
              (s.node.calls ++ destroy_publisher h ∷ [])
              (put s.publishers_table topic (record old { pub_handle = none })))
    unfolding register_publisher
    Registered-old old h e k = ground arith

    register_publisher-IsRegistered :
        IsRegistered (register_publisher topic c queue_size latch reliability history s)
    register_publisher-IsRegistered = elim (Option-cases (get s.publishers_table topic)) [
      | inl e ↦ rw (Registered-new e) (record {
        returns = refl;
        pending = refl;
        calls = rw e refl;
        table = λ t. get-put s.publishers_table topic t (made_publisher topic c s.node.next_handle);
      })
      | inr (old, e) ↦ elim (Option-cases old.pub_handle) [
        | inl h ↦ rw (Registered-dead old e h) (record {
          returns = refl;
          pending = refl;
          calls = rw e (rw h refl);
          table = replaced old;
        })
        | inr (k, h) ↦ rw (Registered-old old k e h) (record {
          returns = refl;
          pending = refl;
          calls = rw e (rw h (append_assoc s.node.calls _ _));
          table = replaced (record old { pub_handle = none });
        })
      ]
    ]

    -- A `publish` command for a valid topic name that is not empty and a message class that is
    -- found and can be called: the topic's old publisher, if any, is destroyed, then one publisher
    -- is created with the profile for the arguments; the table has it for this topic, and every
    -- other topic keeps its publisher.
    pub publish_registers :
        (message_name : Text)
        → topic ≢ []
        → resolve_message_name P message_name (codes "msg") ≡ ok (some c)
        → IsRegistered (publish topic message_name queue_size latch reliability history s)
    unfolding publish
    publish_registers message_name ne found =
        subst IsRegistered (ground arith) register_publisher-IsRegistered
