-- ===== src/Sender/Mapping/Order.antt =====
-- Along one connection every frame is sent behind the mapping of its topic.
use mathlib.Core.Option.{some_inj}
use ros_tcp_endpoint.Prelude.{
  ℕ, ◌+◌, ◌≡◌, refl, sym, subst, ap, ◌∙◌, true, false, List, [], ◌∷◌, ◌++◌, Bytes, Text, codes,
  none, some, arith, append_assoc, append-nil, Option-cases, Bool-cases, inl, inr,
}
use ros_tcp_endpoint.Prelude.Dict.{Text_eq, ℕ_eq, get, put, get-put_self}
use ros_tcp_endpoint.Prelude.Result.{Exc, ok, err, Result-cases, >>=-eq-ok}
use ros_tcp_endpoint.Platform.{Platform}
use ros_tcp_endpoint.Text.{contains_any}
use ros_tcp_endpoint.Client.Serialize.{
  topic_map, serialize_command, serialize_message_with_topic_id,
}
use ros_tcp_endpoint.Sender.{Sender, update, get_or_register_topic_id, put_queue}
use ros_tcp_endpoint.Sender.Send.{deliver, send_unity_message, stream_tokens}
use ros_tcp_endpoint.Sender.Loop.{batch, drain, serialize_pending, handshake_bytes, enter_loop}
use ros_tcp_endpoint.Sender.Reconnect.{entered}
use ros_tcp_endpoint.Sender.Mapping.{
  frame_number, IsMapped, AllTold, Connection, Step, message, puts, round, Reach, here, next,
}
use ros_tcp_endpoint.Sender.Mapping.Numbers.{send-keeps, put-keeps, send-numbers}
use ros_tcp_endpoint.Sender.Mapping.Told.{frame_number-frame, frame_number-handshake, AllTold-at}
use ros_tcp_endpoint.Sender.Mapping.Ordered.{
  IsOrdered, IsOrdered-push, IsOrdered-store, IsOrdered-flush, IsOrdered-introduce,
}

module _ (P : Platform) (tid : ℕ) where
  abbrev Mapping : Text → ℕ → Type 0
  Mapping t n = (b : Bytes) × (serialize_command P (codes "__topic_map") (topic_map t n) ≡ ok b)

  -- The mapping of every topic that has a number serializes.
  abbrev AllSerialize : Sender P → Type 0
  AllSerialize s = (t : Text) (n : ℕ) → get s.topic_to_id t ≡ some n → Mapping t n

  -- With the items sent: the connection's queue is active, and the items sent and waiting are in
  -- order.
  abbrev IsInOrder : List Bytes → Sender P → Type 0
  IsInOrder sent s =
      (s.queue ≡ some tid) × IsOrdered P s.topic_to_id s.stream_slots (sent ++ s.queues tid)

  -- The queue with one more item.
  pushed :
      (sent : List Bytes) (s : Sender P) (x : Bytes)
      → (sent ++ s.queues tid) ++ x ∷ [] ≡ sent ++ update s.queues tid (s.queues tid ++ x ∷ []) tid
  pushed sent s x = ground (arith, append_assoc sent (s.queues tid) (x ∷ []))

  -- The state with a topic numbered and its mapping in the queue.
  abbrev introduced : Text → Bytes → Sender P → Sender P
  introduced t b s = record s {
    next_topic_id = s.next_topic_id + 1;
    topic_to_id = put s.topic_to_id t s.next_topic_id;
    queues = update s.queues tid (s.queues tid ++ b ∷ []);
  }

  introduced-IsInOrder :
      (sent : List Bytes) (t : Text) (b : Bytes) (s : Sender P)
      → serialize_command P (codes "__topic_map") (topic_map t s.next_topic_id) ≡ ok b
      → get s.topic_to_id t ≡ none
      → IsInOrder sent s
      → IsInOrder sent (introduced t b s)
  introduced-IsInOrder sent t b s good new (active, h) = (
    active,
    subst (IsOrdered P (put s.topic_to_id t s.next_topic_id) s.stream_slots) (pushed sent s b) (
        IsOrdered-introduce P s.topic_to_id s.stream_slots (sent ++ s.queues tid) h t
          s.next_topic_id b new good),
  )

  deliver_stream :
      (t : Text) (n : ℕ) (m : P.Message) (s : Sender P)
      → contains_any t stream_tokens ≡ true
      → record s { stream_slots = put s.stream_slots n m; stream_event = true }
        ≡ (deliver t n m s).1
  unfolding deliver
  deliver_stream t n m s stream = ground arith

  deliver_frame :
      (t : Text) (n : ℕ) (m : P.Message) (s : Sender P) (b : Bytes)
      → s.queue ≡ some tid
      → contains_any t stream_tokens ≡ false
      → serialize_message_with_topic_id P n m ≡ ok b
      → record s { queues = update s.queues tid (s.queues tid ++ b ∷ []) } ≡ (deliver t n m s).1
  unfolding deliver put_queue
  deliver_frame t n m s b a plain good = ground arith

  deliver_nothing :
      (t : Text) (n : ℕ) (m : P.Message) (s : Sender P) (e : Exc)
      → contains_any t stream_tokens ≡ false
      → serialize_message_with_topic_id P n m ≡ err e
      → s ≡ (deliver t n m s).1
  unfolding deliver
  deliver_nothing t n m s e plain bad = ground arith

  deliver-IsInOrder :
      (sent : List Bytes) (t : Text) (n : ℕ) (m : P.Message) (s : Sender P)
      → get s.topic_to_id t ≡ some n
      → IsInOrder sent s
      → IsInOrder sent (deliver t n m s).1
  deliver-IsInOrder sent t n m s e (active, h) =
      let items = sent ++ s.queues tid in
      elim (Bool-cases (contains_any t stream_tokens)) [
        | inl stream ↦
            subst (IsInOrder sent) (deliver_stream t n m s stream)
              (active, IsOrdered-store P s.topic_to_id s.stream_slots items h t n m e)
        | inr plain ↦ elim (Result-cases (serialize_message_with_topic_id P n m)) [
          | inl (exc, bad) ↦
              subst (IsInOrder sent) (deliver_nothing t n m s exc plain bad) (active, h)
          | inr (b, good) ↦ subst (IsInOrder sent) (deliver_frame t n m s b active plain good) (
            active,
            subst (IsOrdered P s.topic_to_id s.stream_slots) (pushed sent s b) (
                IsOrdered-push P s.topic_to_id s.stream_slots items h b λ k q.
                  subst (λ j. IsMapped P s.topic_to_id j items)
                    (some_inj.0 (sym (frame_number-frame P n m b good) ∙ q)) (h.mapped t n e)),
          )
        ]
      ]

  send_known :
      (t : Text) (n : ℕ) (m : P.Message) (s : Sender P)
      → s.queue ≡ some tid
      → get s.topic_to_id t ≡ some n
      → (send_unity_message t m s).1 ≡ (deliver t n m s).1
  unfolding send_unity_message get_or_register_topic_id
  send_known t n m s a e = ground arith

  send_new :
      (t : Text) (m : P.Message) (s : Sender P) (b : Bytes)
      → serialize_command P (codes "__topic_map") (topic_map t s.next_topic_id) ≡ ok b
      → s.queue ≡ some tid
      → get s.topic_to_id t ≡ none
      → (send_unity_message t m s).1 ≡ (deliver t s.next_topic_id m (introduced t b s)).1
  unfolding send_unity_message get_or_register_topic_id put_queue
  send_new t m s b good a e = ground arith

  send-IsInOrder :
      (sent : List Bytes) (t : Text) (m : P.Message) (s : Sender P)
      → AllSerialize (send_unity_message t m s).1
      → IsInOrder sent s
      → IsInOrder sent (send_unity_message t m s).1
  send-IsInOrder sent t m s all (active, h) = elim (Option-cases (get s.topic_to_id t)) [
    | inl new ↦
        let (b, good) = all t s.next_topic_id (send-numbers t m s tid active new) in
        subst (IsInOrder sent) (sym (send_new t m s b good active new)) (
          deliver-IsInOrder sent t s.next_topic_id m (introduced t b s)
            (get-put_self s.topic_to_id t s.next_topic_id)
            (introduced-IsInOrder sent t b s good new (active, h)))
    | inr (n, old) ↦
        subst (IsInOrder sent) (sym (send_known t n m s active old))
          (deliver-IsInOrder sent t n m s old (active, h))
  ]

  put_active :
      (s : Sender P) (x : Bytes)
      → s.queue ≡ some tid
      → record s { queues = update s.queues tid (s.queues tid ++ x ∷ []) } ≡ (put_queue x s).1
  unfolding put_queue
  put_active s x a = ground arith

  put-IsInOrder :
      (sent : List Bytes) (x : Bytes) (s : Sender P)
      → frame_number x ≡ none
      → IsInOrder sent s
      → IsInOrder sent (put_queue x s).1
  put-IsInOrder sent x s plain (active, h) = subst (IsInOrder sent) (put_active s x active) (
    active,
    subst (IsOrdered P s.topic_to_id s.stream_slots) (pushed sent s x) (
        IsOrdered-push P s.topic_to_id s.stream_slots (sent ++ s.queues tid) h x
          λ n q. absurd (cc (plain, q))),
  )

  drained :
      (sent q more : List Bytes) (f : ℕ → List Bytes)
      → (sent ++ q) ++ more ≡ (sent ++ (q ++ more)) ++ update f tid [] tid
  drained sent q more f = ground (arith, append_assoc sent q more, append-nil (sent ++ (q ++ more)))

  round-IsInOrder :
      (sent : List Bytes) (s : Sender P)
      → IsInOrder sent s
      → IsInOrder (sent ++ batch tid s) (drain tid s)
  unfolding batch drain
  round-IsInOrder sent s (active, h) = (
    active,
    subst (IsOrdered P s.topic_to_id [])
        (drained sent (s.queues tid) (serialize_pending P s.stream_slots) s.queues)
        (IsOrdered-flush P s.topic_to_id s.stream_slots (sent ++ s.queues tid) h),
  )

  -- The table at the end of a run has what it had before.
  Step-keeps :
      {c d : Connection P} (t : Text) (n : ℕ)
      → Step tid c d
      → get c.sender.topic_to_id t ≡ some n
      → get d.sender.topic_to_id t ≡ some n
  unfolding drain
  Step-keeps {c} t n (message topic m) e = send-keeps t n topic m c.sender e
  Step-keeps {c} t n (puts item plain) e = put-keeps t n item c.sender e
  Step-keeps t n round e = e

  Reach-IsInOrder :
      {c e : Connection P}
      → Reach tid c e
      → AllSerialize e.sender
      → IsInOrder c.sent c.sender
      → IsInOrder e.sent e.sender
  Reach-IsInOrder here all h = h
  Reach-IsInOrder (next {d} r (message topic m)) all h =
      send-IsInOrder d.sent topic m d.sender all
        (Reach-IsInOrder r (λ t n k. all t n (Step-keeps {c = d} t n (message topic m) k)) h)
  Reach-IsInOrder (next {d} r (puts item plain)) all h =
      put-IsInOrder d.sent item d.sender plain
        (Reach-IsInOrder r (λ t n k. all t n (Step-keeps {c = d} t n (puts item plain) k)) h)
  Reach-IsInOrder (next {d} r round) all h =
      round-IsInOrder d.sent d.sender
        (Reach-IsInOrder r (λ t n k. all t n (Step-keeps {c = d} t n round k)) h)

  handshake_number : (hello : Bytes) → handshake_bytes P ≡ ok hello → frame_number hello ≡ none
  unfolding handshake_bytes
  handshake_number hello h = frame_number-handshake P _ hello h

  entered-IsInOrder :
      (s : Sender P) (hello : Bytes)
      → s.topic_to_id ≡ []
      → s.stream_slots ≡ []
      → handshake_bytes P ≡ ok hello
      → IsInOrder [] (entered tid hello s)
  unfolding get
  entered-IsInOrder s hello none_known none_waiting h =
      let first : IsOrdered P [] [] (hello ∷ []) = record {
        mapped = λ t n e. absurd (cc);
        numbered = tt;
        told = (λ n q. absurd (cc (handshake_number hello h)), tt);
      } in
      let only : hello ∷ [] ≡ update s.queues tid (hello ∷ []) tid = ground arith in
      (
        refl,
        subst (λ d. IsOrdered P d s.stream_slots (update s.queues tid (hello ∷ []) tid))
            (sym none_known)
            (subst (λ slots. IsOrdered P [] slots (update s.queues tid (hello ∷ []) tid))
              (sym none_waiting) (subst (IsOrdered P [] []) only first)),
      )

  -- When a connection begins while no topic has a number and no latest frame waits, and then
  -- messages, other items for its queue and rounds of its sender thread whose `sendall` returns
  -- follow in any order, none of them overlapping: before each frame with a topic's number that was
  -- sent, the mapping of that number to a topic that has it was sent. Condition: the mapping of
  -- every topic that has a number at the end serializes.
  pub frame_behind_mapping :
      (s s' : Sender P) (e : Connection P)
      → s.topic_to_id ≡ []
      → s.stream_slots ≡ []
      → enter_loop tid s ≡ ok s'
      → Reach tid (record { sender = s'; sent = [] }) e
      → ((t : Text) (k : ℕ)
          → get e.sender.topic_to_id t ≡ some k
          → (b : Bytes) × (serialize_command P (codes "__topic_map") (topic_map t k) ≡ ok b))
      → (before after : List Bytes) (frame : Bytes) (n : ℕ) → e.sent ≡ before ++ frame ∷ after
      → frame_number frame ≡ some n
      → IsMapped P e.sender.topic_to_id n before
  unfolding enter_loop
  frame_behind_mapping s s' e none_known none_waiting enters r all before after frame n split
        number =
      let (hello, greets, same) = >>=-eq-ok (handshake_bytes P) _ enters in
      let begins : entered tid hello s ≡ s' = cc same in
      let start =
        subst (IsInOrder []) begins (entered-IsInOrder s hello none_known none_waiting greets) in
      let ordered = Reach-IsInOrder r all start in
      AllTold-at P e.sender.topic_to_id [] before (after ++ e.sender.queues tid) frame n
        (subst (AllTold P e.sender.topic_to_id [])
          (ap (λ sent. sent ++ e.sender.queues tid) split
            ∙ append_assoc before (frame ∷ after) (e.sender.queues tid))
          ordered.1.told)
        number
