-- ===== src/Sender/Threads/Order.antt =====
-- What the queue's items go through, whatever the order of the threads' steps.
use ros_tcp_endpoint.Prelude.{
  ℕ, true, List, [], ◌∷◌, ◌++◌, Bytes, Text, codes, Option, none, some, ◌==◌, if◌then◌else◌,
}
use ros_tcp_endpoint.Prelude.Dict.{Text_eq}
use ros_tcp_endpoint.Prelude.Result.{Result, ok, err}
use ros_tcp_endpoint.Platform.{Platform}
use ros_tcp_endpoint.Text.{contains_any}
use ros_tcp_endpoint.Client.Serialize.{
  topic_map, serialize_command, serialize_message_with_topic_id,
}
use ros_tcp_endpoint.Sender.{Sender}
use ros_tcp_endpoint.Sender.Send.{stream_tokens}
use ros_tcp_endpoint.Sender.Threads.{
  Callback, numbered, announced, Piece, command, frame, Loop, waiting, draining, emptied, filled,
  ended, Threads, callback, loop, closed, Reach, here, next,
}

-- The items of the queue among some pieces.
abbrev pub commands : List Piece → List Bytes
commands [] = []
commands (command b ∷ ps) = b ∷ commands ps
commands (frame b ∷ ps) = commands ps

abbrev pub batch_of : Loop → List Piece
batch_of waiting = []
batch_of (draining batch) = batch
batch_of (emptied batch) = batch
batch_of (filled batch) = batch
batch_of (ended batch) = batch

-- The items of the queue `tid` that were sent, that are in the batch, and that still wait.
abbrev pub line : {P : Platform} → ℕ → Threads P → List Bytes
line tid t = commands t.written ++ (commands (batch_of t.loop) ++ t.sender.queues tid)

-- What a put leaves in the queue `tid`: the item, if there is one and the active queue is this one.
abbrev pub put_in : ℕ → Option ℕ → Result Bytes → List Bytes
put_in tid none r = []
put_in tid (some q) (err e) = []
put_in tid (some q) (ok item) = if q == tid then item ∷ [] else []

-- What the next operation of a callback puts into the queue `tid`: the mapping of a new topic, or
-- the frame of a topic that is no stream.
abbrev pub put_by : {P : Platform} → ℕ → Callback P → Sender P → List Bytes
put_by {P} tid (numbered topic m n true) s =
    put_in tid s.queue (serialize_command P (codes "__topic_map") (topic_map topic n))
put_by {P} tid (announced topic m n) s =
    if contains_any topic stream_tokens
    then []
    else put_in tid s.queue (serialize_message_with_topic_id P n m)
put_by tid _ s = []

-- What the callbacks put into the queue along a run, in the order of their operations.
abbrev pub puts : {P : Platform} (tid : ℕ) {t u : Threads P} → Reach tid t u → List Bytes
puts tid here = []
puts tid (next {u} r (callback i)) = puts tid r ++ put_by tid (u.callbacks i) u.sender
puts tid (next r (loop sends)) = puts tid r
puts tid (next r closed) = puts tid r
