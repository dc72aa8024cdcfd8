-- ===== src/Sender/Threads/Runs.antt =====
-- Runs of the threads, operation by operation, and the first operations of a new topic's callback.
use ros_tcp_endpoint.Prelude.{
  ℕ, ◌+◌, ◌≡◌, ap, subst, ◌∙◌, true, List, [], ◌∷◌, ◌++◌, Bytes, Text, codes, none, some, arith,
}
use ros_tcp_endpoint.Prelude.Dict.{Text_eq, ℕ_eq, get, put}
use ros_tcp_endpoint.Prelude.Result.{ok}
use ros_tcp_endpoint.Platform.{Platform}
use ros_tcp_endpoint.Client.Serialize.{topic_map, serialize_command}
use ros_tcp_endpoint.Sender.{Sender, update, put_queue}
use ros_tcp_endpoint.Sender.Send.{send_command}
use ros_tcp_endpoint.Sender.Threads.{
  Callback, called, checked, numbered, announced, Piece, Loop, callback_step, loop_step, Threads,
  step_callback, step_loop, callback, loop, Reach, next,
}

abbrev pub state : {P : Platform} → Sender P → (ℕ → Callback P) → Loop → List Piece → Threads P
state s cs l w = record { sender = s; callbacks = cs; loop = l; written = w }

module _ {P : Platform} (tid : ℕ) (t : Threads P) where
  -- A callback's step with its result.
  pub goes :
      {s : Sender P} {cs : ℕ → Callback P} {l : Loop} {w : List Piece} (i : ℕ) (c c' : Callback P)
      (s' : Sender P)
      → Reach tid t (state s cs l w)
      → cs i ≡ c
      → callback_step c s ≡ (c', s')
      → Reach tid t (state s' (update cs i c') l w)
  unfolding step_callback
  goes {s} {cs} {l} {w} i c c' s' r at e =
      subst (λ p. Reach tid t (state p.1 (update cs i p.0) l w))
        (ap (λ d. callback_step d s) at ∙ e) (next r (callback i))

  -- A step of the sender thread with its result.
  pub turns :
      {s : Sender P} {cs : ℕ → Callback P} {l : Loop} {w : List Piece} (l' : Loop)
      (out : List Piece) (s' : Sender P)
      → Reach tid t (state s cs l w)
      → loop_step tid true l s ≡ (out, l', s')
      → Reach tid t (state s' cs l' (w ++ out))
  unfolding step_loop
  turns {s} {cs} {l} {w} l' out s' r e =
      subst (λ p. Reach tid t (state p.2 cs p.1 (w ++ p.0))) e (next r (loop true))

-- The sender with the topic numbered.
abbrev pub with_number : {P : Platform} → Sender P → Text → Sender P
with_number s topic = record s {
  next_topic_id = s.next_topic_id + 1;
  topic_to_id = put s.topic_to_id topic s.next_topic_id;
}

module _ {P : Platform} (s : Sender P) (topic : Text) (m : P.Message) where
  pub step_called :
      (q : ℕ) → s.queue ≡ some q → callback_step (called topic m) s ≡ (checked topic m, s)
  unfolding callback_step
  step_called q active = ground arith

  pub step_checked :
      get s.topic_to_id topic ≡ none
      → callback_step (checked topic m) s
        ≡ (numbered topic m s.next_topic_id true, with_number s topic)
  unfolding callback_step
  step_checked new = ground arith

  -- The mapping is put into the queue.
  pub step_numbered :
      (tid n : ℕ) (mapping : Bytes)
      → s.queue ≡ some tid
      → serialize_command P (codes "__topic_map") (topic_map topic n) ≡ ok mapping
      → callback_step (numbered topic m n true) s ≡ (
        announced topic m n,
        record s { queues = update s.queues tid (s.queues tid ++ mapping ∷ []) },
      )
  unfolding callback_step send_command put_queue
  step_numbered tid n mapping active mapped = ground arith
