-- ===== src/Sender/Threads/Lost.antt =====
-- A connection that ends while a callback numbers a topic.
use ros_tcp_endpoint.Prelude.{ℕ, ◌≡◌, true, List, [], Bytes, Text, codes, none, some, arith}
use ros_tcp_endpoint.Prelude.Dict.{Text_eq, ℕ_eq, get, get-put_self}
use ros_tcp_endpoint.Prelude.Result.{ok, attribute_error}
use ros_tcp_endpoint.Platform.{Platform}
use ros_tcp_endpoint.Client.Serialize.{topic_map, serialize_command}
use ros_tcp_endpoint.Sender.{Sender, update, put_queue}
use ros_tcp_endpoint.Sender.Send.{send_command}
use ros_tcp_endpoint.Sender.Threads.{
  Callback, called, checked, numbered, raised, Piece, Loop, callback_step, Threads, closed, Reach,
  here, next,
}
use ros_tcp_endpoint.Sender.Threads.Runs.{state, goes, with_number, step_called}

module _ {P : Platform} (tid : ℕ) (s : Sender P) (topic : Text) (mapping : Bytes)
    (active : s.queue ≡ some tid) (empty : s.queues tid ≡ []) (new : get s.topic_to_id topic ≡ none)
    (mapped : serialize_command P (codes "__topic_map") (topic_map topic s.next_topic_id)
      ≡ ok mapping) where
  -- The sender with the topic numbered after the connection has ended.
  abbrev closed_with_number : Sender P
  closed_with_number = record (with_number s topic) { queue = none }

  step_closed :
      (m : P.Message)
      → callback_step (checked topic m) (record s { queue = none })
        ≡ (numbered topic m s.next_topic_id true, closed_with_number)
  unfolding callback_step
  step_closed m = ground arith

  step_raises :
      (m : P.Message)
      → callback_step (numbered topic m s.next_topic_id true) closed_with_number
        ≡ (raised attribute_error, closed_with_number)
  unfolding callback_step send_command put_queue
  step_raises m = ground arith

  -- For the first message of a topic on an active connection with an empty queue, if its mapping
  -- serializes, there is an order of the operations of its callback and of the end of the
  -- connection after which the callback has raised `AttributeError` and the topic has its number,
  -- but the queue has no mapping.
  pub mapping_lost :
      (m : P.Message) (cs : ℕ → Callback P) (l : Loop) (w : List Piece) (i : ℕ)
      → cs i ≡ called topic m
      → (u : Threads P) × Reach tid (state s cs l w) u
        × (u.callbacks i ≡ raised attribute_error)
        × (get u.sender.topic_to_id topic ≡ some s.next_topic_id)
        × (u.sender.queues tid ≡ [])
  mapping_lost m cs l w i at =
      let t = state s cs l w in
      let r₁ =
        goes tid t i (called topic m) (checked topic m) s here at
          (step_called s topic m tid active) in
      let r₂ : Reach tid t (state (record s { queue = none }) (update cs i (checked topic m)) l w) =
        next r₁ closed in
      let r₃ =
        goes tid t i (checked topic m) (numbered topic m s.next_topic_id true) closed_with_number r₂
          (ground arith) (step_closed m) in
      let r₄ =
        goes tid t i (numbered topic m s.next_topic_id true) (raised attribute_error)
          closed_with_number r₃ (ground arith) (step_raises m) in
      (_, r₄, ground arith, get-put_self s.topic_to_id topic s.next_topic_id, empty)
