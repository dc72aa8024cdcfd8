-- ===== src/Sender/Loop.antt =====
-- tcp_sender.py: `start_sender` and the thread that it starts, `sender_loop`, a round at a time.
use ros_tcp_endpoint.Prelude.{
  ℕ, ◌+◌, Bool, true, false, List, [], ◌∷◌, ◌++◌, Bytes, codes, none, some, take, ◌==◌,
  if◌then◌else◌,
}
use ros_tcp_endpoint.Prelude.Dict.{Dict}
use ros_tcp_endpoint.Prelude.Result.{Result, ok, err, ◌>>=◌}
use ros_tcp_endpoint.Platform.{Platform}
use ros_tcp_endpoint.Json.{obj, str, field, end}
use ros_tcp_endpoint.Sender.{Sender, update}
use ros_tcp_endpoint.Client.Serialize.{
  handshake, serialize_command, serialize_message_with_topic_id,
}

-- A connection as its sender thread sees it: the thread's number, the event that stops both of the
-- connection's threads, and all that was sent.
pub record Link : Type 0 where
  pub tid : ℕ
  pub halted : Bool
  pub sent : Bytes

-- b"".join(items)
unfoldable pub join : List Bytes → Bytes
join [] = []
join (b ∷ bs) = b ++ join bs

-- How `sendall` ends: all bytes were sent, or it raised after so many of them; Python leaves open how
-- many.
pub data Sendall : Type 0 where
  complete : Sendall
  broken : (count : ℕ) → Sendall

-- conn.sendall of a batch, if it is not empty, and whether the loop goes on.
unfoldable pub send_batch : Sendall → List Bytes → Link → Link × Bool
unfolding join
send_batch sends [] link = (link, true)
send_batch complete (b ∷ bs) link = (record link { sent = link.sent ++ join (b ∷ bs) }, true)
send_batch (broken count) (b ∷ bs) link =
    (record link { sent = link.sent ++ take count (join (b ∷ bs)) }, false)

-- SysCommand_Handshake(SysCommand_Handshake_Metadata())
unfoldable pub handshake_bytes : (P : Platform) → Result Bytes
handshake_bytes P =
    serialize_command P (codes "__handshake") (
      handshake (codes "v0.7.0")
        (P.dumps (obj (field (codes "protocol") (str (codes "ROS2")) end))))

-- The pending frames; one that cannot be serialized is logged and left out.
unfoldable pub serialize_pending : (P : Platform) → Dict ℕ P.Message → List Bytes
serialize_pending P [] = []
serialize_pending P ((topic_id, raw_msg) ∷ pending) =
    let rest = serialize_pending P pending in
    elim (serialize_message_with_topic_id P topic_id raw_msg) [ ok b ↦ b ∷ rest | err _ ↦ rest ]

module _ {P : Platform} where
  unfoldable pub start_sender : Sender P → ℕ × Sender P
  start_sender s = (s.sender_id, record s { sender_id = s.sender_id + 1 })

  -- The loop's start: the new queue holds the handshake, and becomes the active one. A raise ends the thread
  -- before that.
  unfoldable pub enter_loop : ℕ → Sender P → Result (Sender P)
  unfolding handshake_bytes
  enter_loop tid s = do
    hello ← handshake_bytes P
    ok (record s { queues = update s.queues tid (hello ∷ []); queue = some tid })

  -- What a round collects: the commands of the queue, then the latest frames.
  unfoldable pub batch : ℕ → Sender P → List Bytes
  unfolding serialize_pending
  batch tid s = s.queues tid ++ serialize_pending P s.stream_slots

  unfoldable pub drain : ℕ → Sender P → Sender P
  drain tid s = record s {
    queues = update s.queues tid [];
    stream_slots = [];
    stream_event = false;
  }

  -- One round after the wait. `sends` says how `sendall` ends.
  unfoldable pub sender_round : Sendall → Link → Sender P → (Link × Bool) × Sender P
  unfolding batch drain send_batch
  sender_round sends link s = (send_batch sends (batch link.tid s) link, drain link.tid s)

  -- The `finally` block.
  unfoldable pub leave_loop : Link → Sender P → Link × Sender P
  leave_loop link s = (
    record link { halted = true },
    record s {
      queue = elim s.queue [ none ↦ none | some q ↦ if q == link.tid then none else some q ];
    },
  )

  -- The loop, for a list that says of each round how `sendall` ends; the halt event is
  -- read before each round.
  unfoldable pub sender_loop : List Sendall → Link → Sender P → Link × Sender P
  unfolding sender_round leave_loop
  sender_loop [] link s = (link, s)
  sender_loop (sends ∷ rounds) link s =
      let next = sender_round sends link s in
      let again = sender_loop rounds next.0.0 next.1 in
      if link.halted
      then leave_loop link s
      else if next.0.1
      then again
      else leave_loop next.0.0 next.1
