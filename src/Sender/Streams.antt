-- ===== src/Sender/Streams.antt =====
-- What a message leaves in the queue and in the slots, and what a round of the sender thread sends.
use ros_tcp_endpoint.Prelude.{
  ℕ, ◌≡◌, refl, ap, true, false, List, [], ◌∷◌, ◌++◌, Bytes, Text, codes, none, some, arith,
  append_assoc, append-nil, sym, ◌∙◌,
}
use ros_tcp_endpoint.Prelude.Dict.{Dict, Text_eq, ℕ_eq, get, put, get-put_self}
use ros_tcp_endpoint.Prelude.Result.{ok}
use ros_tcp_endpoint.Platform.{Platform}
use ros_tcp_endpoint.Text.{contains_any}
use ros_tcp_endpoint.Client.Serialize.{
  serialize_command, serialize_message_with_topic_id, topic_map,
}
use ros_tcp_endpoint.Sender.{Sender, update, get_or_register_topic_id, put_queue}
use ros_tcp_endpoint.Sender.Send.{send_unity_message, stream_tokens}
use ros_tcp_endpoint.Sender.Loop.{
  complete, Link, join, batch, send_batch, sender_round, serialize_pending,
}

module _ {P : Platform} (topic : Text) (message : P.Message) (s : Sender P) (q : ℕ) where
  -- The first message of a topic that is no stream, on an active connection, if its mapping and its
  -- frame serialize: the queue gets the `__topic_map` command and behind it the frame with the same
  -- new number, which the topic keeps.
  pub send-first :
      (mapping frame : Bytes)
      → s.queue ≡ some q
      → get s.topic_to_id topic ≡ none
      → contains_any topic stream_tokens ≡ false
      → serialize_command P (codes "__topic_map") (topic_map topic s.next_topic_id) ≡ ok mapping
      → serialize_message_with_topic_id P s.next_topic_id message ≡ ok frame
      → ((send_unity_message topic message s).0 ≡ ok tt)
        × ((send_unity_message topic message s).1.queues q ≡ s.queues q ++ (mapping ∷ frame ∷ []))
        × (get (send_unity_message topic message s).1.topic_to_id topic ≡ some s.next_topic_id)
  unfolding send_unity_message get_or_register_topic_id put_queue
  send-first mapping frame hq new plain hm hf = ground (
    arith,
    get-put_self s.topic_to_id topic s.next_topic_id,
    append_assoc (s.queues q) (mapping ∷ []) (frame ∷ []),
  )

  -- A later message of an ordinary topic: the frame alone.
  pub send-known :
      (n : ℕ) (frame : Bytes)
      → s.queue ≡ some q
      → get s.topic_to_id topic ≡ some n
      → contains_any topic stream_tokens ≡ false
      → serialize_message_with_topic_id P n message ≡ ok frame
      → send_unity_message topic message s
        ≡ (ok tt, record s { queues = update s.queues q (s.queues q ++ frame ∷ []) })
  unfolding send_unity_message get_or_register_topic_id put_queue
  send-known n frame hq old plain hf = ground arith

  -- A later message of a stream topic: its slot, and nothing in the queue.
  pub send-stream :
      (n : ℕ)
      → s.queue ≡ some q
      → get s.topic_to_id topic ≡ some n
      → contains_any topic stream_tokens ≡ true
      → send_unity_message topic message s
        ≡ (ok tt, record s { stream_slots = put s.stream_slots n message; stream_event = true })
  unfolding send_unity_message get_or_register_topic_id
  send-stream n hq old stream = ground arith

-- A slot holds the latest message only.
put-put : {A : Type 0} (d : Dict ℕ A) (k : ℕ) (a b : A) → put (put d k a) k b ≡ put d k b
unfolding put
put-put [] k a b = ground arith
put-put ((j, c) ∷ d) k a b = ground (arith, put-put d k a b)

module _ {P : Platform} (topic : Text) (s : Sender P) (q n : ℕ) where
  -- Two messages of an already numbered stream topic on an active connection, with no round of the
  -- sender thread between them, leave the state that the second alone leaves: only the latest frame
  -- is kept.
  pub send-send_stream :
      (first second : P.Message)
      → s.queue ≡ some q
      → get s.topic_to_id topic ≡ some n
      → contains_any topic stream_tokens ≡ true
      → send_unity_message topic second (send_unity_message topic first s).1
        ≡ send_unity_message topic second s
  send-send_stream first second hq old stream =
      rw (send-stream topic first s q n hq old stream, send-stream topic second s q n hq old stream)
        (send-stream topic second
            (record s { stream_slots = put s.stream_slots n first; stream_event = true }) q n hq old
            stream
          ∙ rw put-put refl)

pub join-append : (xs ys : List Bytes) → join (xs ++ ys) ≡ join xs ++ join ys
unfolding join
join-append [] ys = refl
join-append (x ∷ xs) ys = cc (join-append xs ys, append_assoc x (join xs) (join ys))

module _ {P : Platform} (link : Link) (s : Sender P) where
  pub send_batch-sent :
      (xs : List Bytes) → (send_batch complete xs link).0.sent ≡ link.sent ++ join xs
  unfolding send_batch
  send_batch-sent [] = sym (append-nil link.sent)
  send_batch-sent (x ∷ xs) = refl

  pub send_batch-goes_on : (xs : List Bytes) → (send_batch complete xs link).1 ≡ true
  unfolding send_batch
  send_batch-goes_on [] = refl
  send_batch-goes_on (x ∷ xs) = refl

  -- A round of the sender thread that has something to send, when the socket takes it: what is
  -- written is the queue's items in order and behind them the latest frames, the thread goes on,
  -- and queue and slots are empty.
  pub sender_round-sent :
      ((sender_round complete link s).0.0.sent
        ≡ link.sent ++ (join (s.queues link.tid) ++ join (serialize_pending P s.stream_slots)))
      × ((sender_round complete link s).0.1 ≡ true)
      × ((sender_round complete link s).1.queues link.tid ≡ [])
      × ((sender_round complete link s).1.stream_slots ≡ [])
  unfolding sender_round
  sender_round-sent = (
    send_batch-sent (batch link.tid s)
        ∙ ap (λ t. link.sent ++ t)
            (unfold batch in join-append (s.queues link.tid) (serialize_pending P s.stream_slots)),
    send_batch-goes_on (batch link.tid s),
    ground arith,
    refl,
  )
