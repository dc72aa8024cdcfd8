-- ===== src/Sender/Threads.antt =====
-- tcp_sender.py: ROS callbacks in `send_unity_message` and one sender thread in `sender_loop`, at
-- the grain of the operations that are atomic: a test of `self.queue`, a section under a lock, a
-- `put` or a `get_nowait` of a queue, a `sendall`, which returns or raises. Serializing an item and putting it is one
-- operation; if the queue is gone and the item does not serialize either, the exception here is that
-- of the serializer.
pub mod Order
pub mod Runs
pub mod Races
pub mod Lost
use ros_tcp_endpoint.Prelude.{
  ℕ, ◌≡◌, Bool, true, false, List, [], ◌∷◌, ◌++◌, Bytes, Text, Option, none, some, map,
}
use ros_tcp_endpoint.Prelude.Dict.{Dict}
use ros_tcp_endpoint.Prelude.Result.{Exc, Result, ok, err}
use ros_tcp_endpoint.Platform.{Platform}
use ros_tcp_endpoint.Sender.{Sender, update, get_or_register_topic_id}
use ros_tcp_endpoint.Sender.Send.{announce, deliver}
use ros_tcp_endpoint.Sender.Loop.{serialize_pending}

-- Where a callback stands in `send_unity_message`.
pub data Callback (P : Platform) : Type 0 where
  called : Text → P.Message → Callback P
  checked : Text → P.Message → Callback P
  numbered : Text → P.Message → ℕ → Bool → Callback P
  announced : Text → P.Message → ℕ → Callback P
  returned : Callback P
  raised : Exc → Callback P

-- What a batch is made of: an item of the queue, or the latest frame of a stream.
pub data Piece : Type 0 where
  command frame : Bytes → Piece

-- Where the sender thread stands in its loop, with `batch_buffer`; `ended` after a failed
-- `sendall`, with what was not sent.
pub data Loop : Type 0 where
  waiting : Loop
  draining emptied filled : List Piece → Loop
  ended : List Piece → Loop

module _ {P : Platform} where
  abbrev pub then_go {ℓ} :
      {A : Type ℓ} → (A → Callback P) → Result A × Sender P → Callback P × Sender P
  then_go go (ok a, s) = (go a, s)
  then_go go (err e, s) = (raised e, s)

  -- The next operation of a callback.
  unfoldable pub callback_step : Callback P → Sender P → Callback P × Sender P
  unfolding get_or_register_topic_id announce deliver
  callback_step (called topic m) s = elim s.queue [
    | none ↦ (returned, s)
    | some _ ↦ (checked topic m, s)
  ]
  callback_step (checked topic m) s =
      then_go (λ found. numbered topic m found.0 found.1) (get_or_register_topic_id topic s)
  callback_step (numbered topic m n new) s =
      then_go (λ _. announced topic m n) (announce topic n new s)
  callback_step (announced topic m n) s = then_go (λ _. returned) (deliver topic n m s)
  callback_step returned s = (returned, s)
  callback_step (raised e) s = (raised e, s)

  -- `local_queue.get_nowait()`, which raises `Empty` at the end.
  abbrev pub take_item : ℕ → List Bytes → List Piece → Sender P → Loop × Sender P
  take_item tid [] batch s = (emptied batch, s)
  take_item tid (b ∷ rest) batch s =
      (draining (batch ++ command b ∷ []), record s { queues = update s.queues tid rest })

  -- The next operation of the sender thread with the queue `tid`, and the pieces of a `sendall` that
  -- returned; how much of one that raised was sent is left open. `sends` says
  -- whether a `sendall` succeeds.
  unfoldable pub loop_step : ℕ → Bool → Loop → Sender P → List Piece × Loop × Sender P
  unfolding serialize_pending
  loop_step tid sends waiting s = ([], draining [], record s { stream_event = false })
  loop_step tid sends (draining batch) s =
      let r = take_item tid (s.queues tid) batch s in ([], r.0, r.1)
  loop_step tid sends (emptied batch) s = (
    [],
    filled (batch ++ map frame (serialize_pending P s.stream_slots)),
    record s { stream_slots = [] },
  )
  loop_step tid sends (filled []) s = ([], waiting, s)
  loop_step tid true (filled (p ∷ batch)) s = (p ∷ batch, waiting, s)
  loop_step tid false (filled (p ∷ batch)) s = ([], ended (p ∷ batch), s)
  loop_step tid sends (ended batch) s = ([], ended batch, s)

-- The callbacks by number, the sender thread of the connection `tid`, and the pieces of its `sendall`s that
-- returned.
pub record Threads (P : Platform) : Type 0 where
  pub sender : Sender P
  pub callbacks : ℕ → Callback P
  pub loop : Loop
  pub written : List Piece

module _ {P : Platform} where
  unfoldable pub step_callback : ℕ → Threads P → Threads P
  unfolding callback_step
  step_callback i t =
      let (c, s) = callback_step (t.callbacks i) t.sender in
      record t { sender = s; callbacks = update t.callbacks i c }

module _ {P : Platform} (tid : ℕ) where
  unfoldable pub step_loop : Bool → Threads P → Threads P
  unfolding loop_step
  step_loop sends t =
      let (out, l, s) = loop_step tid sends t.loop t.sender in
      record t { sender = s; loop = l; written = t.written ++ out }

  -- Any thread goes next; or the queue stops being the active one, when the connection ends.
  pub data Step (t : Threads P) : Threads P → Type 0 where
    callback : (i : ℕ) → Step t (step_callback i t)
    loop : (sends : Bool) → Step t (step_loop sends t)
    closed : Step t (record t { sender = record t.sender { queue = none } })

  pub data Reach (t : Threads P) : Threads P → Type 0 where
    here : Reach t t
    next : {u v : Threads P} → Reach t u → Step u v → Reach t v
