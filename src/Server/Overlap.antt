-- ===== src/Server/Overlap.antt =====
-- server.py: `SysCommands.publish` in several client threads at once, behind its guards. No lock
-- stands around its look-up, the new publisher and the write to the table.
use ros_tcp_endpoint.Prelude.{
  ℕ, ◌+◌, ◌≡◌, ap, ◌∙◌, append_assoc, refl, Bool, true, List, [], ◌∷◌, ◌++◌, Text, none, some,
  arith, text_eq, if◌then◌else◌,
}
use ros_tcp_endpoint.Prelude.Dict.{Text_eq, get, put, get-put}
use ros_tcp_endpoint.Prelude.Result.{Exc, Result, ok, err}
use ros_tcp_endpoint.Platform.{Platform}
use ros_tcp_endpoint.Ros.Qos.{publisher_qos}
use ros_tcp_endpoint.Ros.Nodes.{RosPublisher, create_publisher, new_publisher}
use ros_tcp_endpoint.Sender.{update}
use ros_tcp_endpoint.Server.{TcpServer, on_node}
use ros_tcp_endpoint.Server.Register.{made_publisher}
use ros_tcp_endpoint.Server.SysCommands.{unregister_old_publisher}

-- The arguments of a `publish` command whose class was found.
pub record Publishing (P : Platform) : Type 0 where
  pub topic : Text
  pub message_class : P.Class
  pub queue_size : ℕ
  pub latch : Bool
  pub reliability : Text
  pub history : Text

-- Where a client thread stands in the command.
pub data Stage (P : Platform) : Type 0 where
  looks creates : Publishing P → Stage P
  writes : Publishing P → RosPublisher P → Stage P
  returned : Stage P
  raised : Exc → Stage P

module _ {P : Platform} where
  abbrev then_stage {ℓ} :
      {A : Type ℓ} → (A → Stage P) → Result A × TcpServer P → Stage P × TcpServer P
  then_stage go (ok a, s) = (go a, s)
  then_stage go (err e, s) = (raised e, s)

  -- The next part of the command: the old publisher is dropped, the new one is made, and the table
  -- gets it.
  unfoldable pub stage_step : Stage P → TcpServer P → Stage P × TcpServer P
  unfolding unregister_old_publisher new_publisher
  stage_step (looks p) s = then_stage (λ _. creates p) (unregister_old_publisher p.topic s)
  stage_step (creates p) s = then_stage (writes p) (
      on_node
        (new_publisher p.topic p.message_class p.queue_size p.latch none p.reliability p.history) s)
  stage_step (writes p r) s =
      (returned, record s { publishers_table = put s.publishers_table p.topic r })
  stage_step returned s = (returned, s)
  stage_step (raised e) s = (raised e, s)

-- The server, and the client threads by number.
pub record Clients (P : Platform) : Type 0 where
  pub server : TcpServer P
  pub stages : ℕ → Stage P

module _ {P : Platform} where
  -- The threads' next parts, in the order of a schedule.
  unfoldable pub run_clients : List ℕ → Clients P → Clients P
  unfolding stage_step
  run_clients [] t = t
  run_clients (i ∷ order) t =
      let r = stage_step (t.stages i) t.server in
      run_clients order (record { server = r.1; stages = update t.stages i r.0 })

  run-next :
      (i : ℕ) (order : List ℕ) (s s' : TcpServer P) (f : ℕ → Stage P) (c c' : Stage P)
      → f i ≡ c
      → stage_step c s ≡ (c', s')
      → run_clients (i ∷ order) (record { server = s; stages = f })
        ≡ run_clients order (record { server = s'; stages = update f i c' })
  unfolding run_clients
  run-next i order s s' f c c' at e =
      ap (λ r. run_clients order (record { server = r.1; stages = update f i r.0 }))
        (ap (λ d. stage_step d s) at ∙ e)

module _ {P : Platform} (p : Publishing P) where
  look-step :
      (s : TcpServer P)
      → get s.publishers_table p.topic ≡ none
      → stage_step (looks p) s ≡ (creates p, s)
  unfolding stage_step unregister_old_publisher
  look-step s new = rw (new, unregister_old_publisher) refl

  -- The server with one more publisher in the graph.
  abbrev with_entity : TcpServer P → TcpServer P
  with_entity s = record s {
    node = record {
      calls =
          s.node.calls
          ++ create_publisher s.node.next_handle p.message_class p.topic
              (publisher_qos none p.topic p.queue_size p.latch p.reliability p.history)
            ∷ [];
      next_handle = s.node.next_handle + 1;
    };
  }

  abbrev made : ℕ → RosPublisher P
  made h = made_publisher p.topic p.message_class h

  create-step :
      (s : TcpServer P) (m : P.Message)
      → P.valid_name p.topic ≡ true
      → P.construct p.message_class ≡ ok m
      → stage_step (creates p) s ≡ (writes p (made s.node.next_handle), with_entity s)
  unfolding stage_step new_publisher
  create-step s m valid builds = rw (builds, valid, new_publisher) refl

  abbrev with_object : ℕ → TcpServer P → TcpServer P
  with_object h s = record s { publishers_table = put s.publishers_table p.topic (made h) }

  write-step :
      (h : ℕ) (s : TcpServer P) → stage_step (writes p (made h)) s ≡ (returned, with_object h s)
  unfolding stage_step
  write-step h s = refl

  -- Two threads with the same command, part by part in turn.
  in_turn :
      (s : TcpServer P) (m : P.Message)
      → P.valid_name p.topic ≡ true
      → P.construct p.message_class ≡ ok m
      → get s.publishers_table p.topic ≡ none
      → (f : ℕ → Stage P) × (run_clients
            (0 ∷ 1 ∷ 0 ∷ 1 ∷ 0 ∷ 1 ∷ [])
            (record { server = s; stages = λ _. looks p })
          ≡ record {
            server =
                with_object
                  (s.node.next_handle + 1)
                  (with_object s.node.next_handle (with_entity (with_entity s)));
            stages = f;
          })
        × (f 0 ≡ returned)
        × (f 1 ≡ returned)
  unfolding run_clients
  in_turn s m valid builds new =
      let h = s.node.next_handle in
      let w = writes p (made h) in
      let v = writes p (made (h + 1)) in
      let f₁ : ℕ → Stage P = update (λ _. looks p) 0 (creates p) in
      let f₂ : ℕ → Stage P = update f₁ 1 (creates p) in
      let f₃ : ℕ → Stage P = update f₂ 0 w in
      let f₄ : ℕ → Stage P = update f₃ 1 v in
      let f₅ : ℕ → Stage P = update f₄ 0 returned in
      (
        update f₅ 1 returned,
        run-next 0 (1 ∷ 0 ∷ 1 ∷ 0 ∷ 1 ∷ []) s s (λ _. looks p) (looks p) (creates p) refl
              (look-step s new)
            ∙ run-next 1 (0 ∷ 1 ∷ 0 ∷ 1 ∷ []) s s f₁ (looks p) (creates p) refl (look-step s new)
            ∙ run-next 0 (1 ∷ 0 ∷ 1 ∷ []) s (with_entity s) f₂ (creates p) w refl
                (create-step s m valid builds)
            ∙ run-next 1 (0 ∷ 1 ∷ []) (with_entity s) (with_entity (with_entity s)) f₃ (creates p) v
                refl (create-step (with_entity s) m valid builds)
            ∙ run-next 0 (1 ∷ []) (with_entity (with_entity s))
                (with_object h (with_entity (with_entity s))) f₄ w returned refl
                (write-step h (with_entity (with_entity s)))
            ∙ run-next 1 [] (with_object h (with_entity (with_entity s)))
                (with_object (h + 1) (with_object h (with_entity (with_entity s)))) f₅ v returned
                refl (write-step (h + 1) (with_object h (with_entity (with_entity s)))),
        refl,
        refl,
      )

  -- Two client threads with the same `publish` command, behind its guards, for a valid topic that
  -- has no publisher and a message class that can be called: there is an order of their look-ups,
  -- creations and writes to the table after which both have returned, two publishers were created
  -- and none destroyed, and the table has the second one only, with every other topic as before.
  pub registrations_overlap :
      (s : TcpServer P) (m : P.Message)
      → P.valid_name p.topic ≡ true
      → P.construct p.message_class ≡ ok m
      → get s.publishers_table p.topic ≡ none
      → (order : List ℕ) × (u : Clients P) × (run_clients order
            (record { server = s; stages = λ _. looks p })
          ≡ u)
        × (u.stages 0 ≡ returned)
        × (u.stages 1 ≡ returned)
        × (u.server.node.calls
            ≡ s.node.calls
              ++ create_publisher s.node.next_handle p.message_class p.topic
                  (publisher_qos none p.topic p.queue_size p.latch p.reliability p.history)
                ∷ create_publisher
                    (s.node.next_handle + 1)
                    p.message_class
                    p.topic
                    (publisher_qos none p.topic p.queue_size p.latch p.reliability p.history)
                ∷ [])
        × ((t : Text)
            → get u.server.publishers_table t ≡ (
                if text_eq p.topic t
                then some (made_publisher p.topic p.message_class (s.node.next_handle + 1))
                else get s.publishers_table t))
  registrations_overlap s m valid builds new =
      let (f, runs, first, second) = in_turn s m valid builds new in
      (
        _,
        _,
        runs,
        first,
        second,
        append_assoc s.node.calls _ _,
        λ t. ground (
          arith,
          get-put (put s.publishers_table p.topic (made s.node.next_handle)) p.topic t
              (made (s.node.next_handle + 1)),
          get-put s.publishers_table p.topic t (made s.node.next_handle),
        ),
      )
