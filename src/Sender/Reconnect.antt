-- ===== src/Sender/Reconnect.antt =====
-- A new connection: its queue, and what the topics that are already numbered send to it.
use ros_tcp_endpoint.Prelude.{
  ℕ, ◌≡◌, ◌≢◌, refl, false, [], ◌∷◌, ◌++◌, Bytes, Text, some, arith, append-nil, ◌∙◌,
}
use ros_tcp_endpoint.Prelude.Dict.{Text_eq, get}
use ros_tcp_endpoint.Prelude.Result.{>>=-eq-ok, ok}
use ros_tcp_endpoint.Platform.{Platform}
use ros_tcp_endpoint.Text.{contains_any}
use ros_tcp_endpoint.Client.Serialize.{serialize_message_with_topic_id}
use ros_tcp_endpoint.Sender.{Sender, update}
use ros_tcp_endpoint.Sender.Send.{send_unity_message, stream_tokens}
use ros_tcp_endpoint.Sender.Loop.{
  complete, Link, join, sender_round, enter_loop, leave_loop, serialize_pending, handshake_bytes,
}
use ros_tcp_endpoint.Sender.Streams.{send-known, sender_round-sent}

-- The state in which a new sender thread leaves the sender.
abbrev pub entered : {P : Platform} → ℕ → Bytes → Sender P → Sender P
entered tid hello s = record s { queues = update s.queues tid (hello ∷ []); queue = some tid }

pub enter_loop-ok :
    {P : Platform} (tid : ℕ) (hello : Bytes) (s : Sender P)
    → handshake_bytes P ≡ ok hello
    → enter_loop tid s ≡ ok (entered tid hello s)
unfolding enter_loop
enter_loop-ok tid hello s h = ground arith

pub enter_loop-entered :
    {P : Platform} (tid : ℕ) (s m : Sender P)
    → enter_loop tid s ≡ ok m
    → (hello : Bytes) × (handshake_bytes P ≡ ok hello) × (m ≡ entered tid hello s)
unfolding enter_loop
enter_loop-entered {P} tid s m e =
    let (hello, greets, same) = >>=-eq-ok (handshake_bytes P) _ e in (hello, greets, cc same)

module _ {P : Platform} (s : Sender P) (tid : ℕ) (hello : Bytes)
    (greets : handshake_bytes P ≡ ok hello) where
  -- A sender thread that ends after a newer one has entered its loop leaves the newer one's queue
  -- active, with the handshake in it.
  pub leave_loop-enter_loop :
      (link : Link) (s' : Sender P)
      → enter_loop tid s ≡ ok s'
      → link.tid ≢ tid
      → ((leave_loop link s').1.queue ≡ some tid) × ((leave_loop link s').1.queues tid ≡ hello ∷ [])
  unfolding leave_loop
  leave_loop-enter_loop link s' h ne = ground (arith, enter_loop-ok tid hello s greets)

  sent_bytes :
      (link : Link) (frame : Bytes) (s₁ : Sender P)
      → s₁.queues link.tid ≡ hello ∷ frame ∷ []
      → s₁.stream_slots ≡ []
      → link.sent ++ (join (s₁.queues link.tid) ++ join (serialize_pending P s₁.stream_slots))
        ≡ link.sent ++ (hello ++ frame)
  unfolding join serialize_pending
  sent_bytes link frame s₁ e f = rw (e, f) (rw (append-nil, append-nil) refl)

  -- A topic that is no stream and was numbered for an earlier client: when a new client connects
  -- with no latest frames waiting and the topic's next message is sent, the first round writes the
  -- handshake and the frame with the number, and no `__topic_map` that says which topic that is.
  pub reconnect_without_mapping :
      (topic : Text) (message : P.Message) (n : ℕ) (frame : Bytes) (link : Link) (s' : Sender P)
      → enter_loop tid s ≡ ok s'
      → link.tid ≡ tid
      → s.stream_slots ≡ []
      → get s.topic_to_id topic ≡ some n
      → contains_any topic stream_tokens ≡ false
      → serialize_message_with_topic_id P n message ≡ ok frame
      → (sender_round complete link (send_unity_message topic message s').1).0.0.sent
        ≡ link.sent ++ (hello ++ frame)
  reconnect_without_mapping topic message n frame link s' h own slots old plain hf =
      let same : s' ≡ entered tid hello s = cc (enter_loop-ok tid hello s greets) in
      let s₁ : Sender P = record (entered tid hello s) {
        queues =
            update (entered tid hello s).queues tid
              ((entered tid hello s).queues tid ++ frame ∷ []);
      } in
      rw (same, send-known topic message (entered tid hello s) tid n frame refl old plain hf)
        ((sender_round-sent link s₁).0 ∙ sent_bytes link frame s₁ (ground arith) slots)
