-- ===== src/Sender/Threads/Races.antt =====
-- Orders of the threads' steps in which a frame overtakes the mapping of its topic.
use ros_tcp_endpoint.Prelude.{
  ℕ, ◌≡◌, ◌≢◌, refl, ap, ◌∙◌, true, false, List, [], ◌∷◌, ◌++◌, Bytes, Text, codes, none, some, map,
  arith, append-nil,
}
use ros_tcp_endpoint.Prelude.Dict.{Text_eq, ℕ_eq, get, put, get-put_self}
use ros_tcp_endpoint.Prelude.Result.{ok}
use ros_tcp_endpoint.Platform.{Platform}
use ros_tcp_endpoint.Text.{contains_any}
use ros_tcp_endpoint.Client.Serialize.{
  topic_map, serialize_command, serialize_message_with_topic_id,
}
use ros_tcp_endpoint.Sender.{Sender, update, get_or_register_topic_id, put_queue}
use ros_tcp_endpoint.Sender.Send.{deliver, stream_tokens}
use ros_tcp_endpoint.Sender.Loop.{serialize_pending}
use ros_tcp_endpoint.Sender.Threads.{
  Callback, called, checked, numbered, announced, returned, Piece, frame, waiting, draining,
  emptied, filled, callback_step, loop_step, Threads, Reach, here,
}
use ros_tcp_endpoint.Sender.Threads.Runs.{
  state, goes, turns, with_number, step_called, step_checked, step_numbered,
}

module _ {P : Platform} (tid : ℕ) (s : Sender P) (topic : Text) (mapping : Bytes)
    (active : s.queue ≡ some tid) (empty : s.queues tid ≡ []) (new : get s.topic_to_id topic ≡ none)
    (mapped : serialize_command P (codes "__topic_map") (topic_map topic s.next_topic_id)
      ≡ ok mapping) where
  module _ (m : P.Message) (stream : contains_any topic stream_tokens ≡ true)
      (slots : s.stream_slots ≡ []) (bytes : Bytes)
      (framed : serialize_message_with_topic_id P s.next_topic_id m ≡ ok bytes) where
    abbrev at_slots : Sender P
    at_slots = record (with_number s topic) { stream_event = false }

    abbrev with_mapping : Sender P
    with_mapping = record at_slots { queues = update s.queues tid (s.queues tid ++ mapping ∷ []) }

    abbrev with_frame : Sender P
    with_frame = record with_mapping {
      stream_slots = put s.stream_slots s.next_topic_id m;
      stream_event = true;
    }

    step_announced :
        callback_step (announced topic m s.next_topic_id) with_mapping ≡ (returned, with_frame)
    unfolding callback_step deliver
    step_announced = ground arith

    step_draining : loop_step tid true (draining []) at_slots ≡ ([], emptied [], at_slots)
    unfolding loop_step
    step_draining = ground arith

    pending_one : serialize_pending P (put s.stream_slots s.next_topic_id m) ≡ bytes ∷ []
    unfolding serialize_pending put
    pending_one = ap (λ d. serialize_pending P (put d s.next_topic_id m)) slots ∙ ground arith

    step_emptied :
        loop_step tid true (emptied []) with_frame
        ≡ ([], filled (frame bytes ∷ []), record with_frame { stream_slots = [] })
    unfolding loop_step
    step_emptied =
        ap (λ bs. ([], filled (map frame bs), record with_frame { stream_slots = [] })) pending_one

    -- For the first message of a stream topic, on an active connection with an empty queue and no
    -- latest frames waiting, if mapping and frame serialize, there is an order of the operations of
    -- its callback and the sender thread in which the thread sends the frame while the mapping is
    -- still in the queue.
    pub frame_before_mapping :
        (cs : ℕ → Callback P) (w : List Piece) (i : ℕ)
        → cs i ≡ called topic m
        → (u : Threads P) × Reach tid (state s cs waiting w) u
          × (u.callbacks i ≡ returned)
          × (u.written ≡ w ++ frame bytes ∷ [])
          × (u.sender.queues tid ≡ mapping ∷ [])
    unfolding loop_step
    frame_before_mapping cs w i at =
        let n = s.next_topic_id in
        let t = state s cs waiting w in
        let r₁ =
          goes tid t i (called topic m) (checked topic m) s here at
            (step_called s topic m tid active) in
        let r₂ =
          goes tid t i (checked topic m) (numbered topic m n true) (with_number s topic) r₁
            (ground arith) (step_checked s topic m new) in
        let r₃ = turns tid t (draining []) [] at_slots r₂ refl in
        let r₄ = turns tid t (emptied []) [] at_slots r₃ step_draining in
        let r₅ =
          goes tid t i (numbered topic m n true) (announced topic m n) with_mapping r₄
            (ground arith)
            (step_numbered at_slots topic m tid s.next_topic_id mapping active mapped) in
        let r₆ =
          goes tid t i (announced topic m n) returned with_frame r₅ (ground arith) step_announced in
        let r₇ = turns tid t (filled (frame bytes ∷ [])) [] _ r₆ step_emptied in
        let r₈ = turns tid t waiting (frame bytes ∷ []) _ r₇ refl in
        (_, r₈, ground arith, simp append-nil, ground arith)

  module _ (m m' : P.Message) (plain : contains_any topic stream_tokens ≡ false)
      (bytes bytes' : Bytes)
      (framed : serialize_message_with_topic_id P s.next_topic_id m ≡ ok bytes)
      (framed' : serialize_message_with_topic_id P s.next_topic_id m' ≡ ok bytes') where
    -- A second callback finds the topic numbered.
    step_second :
        callback_step (checked topic m') (with_number s topic)
        ≡ (numbered topic m' s.next_topic_id false, (with_number s topic))
    unfolding callback_step get_or_register_topic_id
    step_second = ground (arith, get-put_self s.topic_to_id topic s.next_topic_id)

    step_put :
        (n : P.Message) (b : Bytes) (s' : Sender P)
        → serialize_message_with_topic_id P s.next_topic_id n ≡ ok b
        → s'.queue ≡ some tid
        → callback_step (announced topic n s.next_topic_id) s'
          ≡ (returned, record s' { queues = update s'.queues tid (s'.queues tid ++ b ∷ []) })
    unfolding callback_step deliver put_queue
    step_put n b s' f a = ground arith

    -- For two callbacks with the first messages of a topic that is no stream, on an active
    -- connection with an empty queue, if mapping and frames serialize, there is an order of their
    -- operations after which both have returned and one frame stands in the queue before the
    -- mapping.
    pub frame_overtakes :
        (cs : ℕ → Callback P) (w : List Piece) (i j : ℕ)
        → i ≢ j
        → cs i ≡ called topic m
        → cs j ≡ called topic m'
        → (u : Threads P) × Reach tid (state s cs waiting w) u
          × (u.callbacks i ≡ returned)
          × (u.callbacks j ≡ returned)
          × (u.sender.queues tid ≡ bytes' ∷ mapping ∷ bytes ∷ [])
    unfolding callback_step
    frame_overtakes cs w i j ne at at' =
        let n = s.next_topic_id in
        let t = state s cs waiting w in
        let r₁ =
          goes tid t i (called topic m) (checked topic m) s here at
            (step_called s topic m tid active) in
        let r₂ =
          goes tid t j (called topic m') (checked topic m') s r₁ (ground arith)
            (step_called s topic m' tid active) in
        let r₃ =
          goes tid t i (checked topic m) (numbered topic m n true) (with_number s topic) r₂
            (ground arith) (step_checked s topic m new) in
        let r₄ =
          goes tid t j (checked topic m') (numbered topic m' n false) (with_number s topic) r₃
            (ground arith) step_second in
        let r₅ =
          goes tid t j (numbered topic m' n false) (announced topic m' n) (with_number s topic) r₄
            (ground arith) refl in
        let r₆ =
          goes tid t j (announced topic m' n) returned _ r₅ (ground arith)
            (step_put m' bytes' (with_number s topic) framed' active) in
        let r₇ =
          goes tid t i (numbered topic m n true) (announced topic m n) _ r₆ (ground arith)
            (step_numbered _ topic m tid s.next_topic_id mapping active mapped) in
        let r₈ =
          goes tid t i (announced topic m n) returned _ r₇ (ground arith)
            (step_put m bytes _ framed active) in
        (_, r₈, ground arith, ground arith, ground arith)
