-- ===== src/Sender/Parts.antt =====
-- An invariant of the sender is kept by the composed methods if it is kept by their parts.
use ros_tcp_endpoint.Prelude.{
  ℕ, ◌≡◌, ◌++◌, Bool, true, false, Bytes, Text, codes, some, Option-cases, inl, inr,
}
use ros_tcp_endpoint.Prelude.Result.{ok}
use ros_tcp_endpoint.Prelude.Exec.{Exec}
use ros_tcp_endpoint.Prelude.Keeps.{Keeps, Keeps-pure, Keeps-lift_bind, Keeps-bind, Keeps-if}
use ros_tcp_endpoint.Platform.{Platform}
use ros_tcp_endpoint.Json.{Json, int}
use ros_tcp_endpoint.Struct.Int.{pos}
use ros_tcp_endpoint.Text.{contains_any}
use ros_tcp_endpoint.Client.Serialize.{
  SysCommand, service, serialize_command, serialize_message, serialize_message_with_topic_id,
}
use ros_tcp_endpoint.Sender.{Sender, get_or_register_topic_id, put_queue}
use ros_tcp_endpoint.Sender.Send.{
  when_connected, send_command, send_pair, store_slot, announce, deliver, forward,
  send_unity_message, allocate_request, start_request, begin_service_request, stream_tokens,
}

pub Keeps-when_connected :
    {P : Platform} (Inv : Sender P → Type 0) (act : Exec (Sender P) Unit)
    → Keeps Inv act
    → Keeps Inv (when_connected act)
Keeps-when_connected Inv act k = record {
  at = λ s h. elim (Option-cases s.queue) [
    | inl e ↦ rw (e, when_connected) h
    | inr (q, e) ↦ rw (e, when_connected) (k.at s h)
  ];
}

-- What all items of the queue have: commands, frames with a topic's number, and a command with the
-- message behind it.
pub record Items (P : Platform) (Good : Bytes → Type 0) : Type 0 where
  pub command :
      (name : Text) (c : SysCommand) (b : Bytes) → serialize_command P name c ≡ ok b → Good b
  pub framed :
      (n : ℕ) (m : P.Message) (b : Bytes) → serialize_message_with_topic_id P n m ≡ ok b → Good b
  pub pair :
      (x : Bytes) (t : Text) (m : P.Message) (b : Bytes)
      → Good x
      → serialize_message P t m ≡ ok b
      → Good (x ++ b)

abbrev pub Any : Bytes → Type 0
Any item = Unit {0}

abbrev pub any_items : (P : Platform) → Items P Any
any_items P = record {
  command = λ name c b e. tt;
  framed = λ n m b e. tt;
  pair = λ x t m b g e. tt;
}

module _ {P : Platform} (Inv : Sender P → Type 0) (Good : Bytes → Type 0) (items : Items P Good)
    (on_put : (item : Bytes) → Good item → Keeps Inv (put_queue item)) where
  pub Keeps-send_command : (name : Text) (c : SysCommand) → Keeps Inv (send_command name c)
  unfolding send_command
  Keeps-send_command name c =
      Keeps-lift_bind (serialize_command P name c) put_queue
        λ b e. on_put b (items.command name c b e)

  pub Keeps-send_pair :
      (c : Text) (id : Json) (t : Text) (m : P.Message) → Keeps Inv (send_pair c id t m)
  unfolding send_pair
  Keeps-send_pair c id t m = Keeps-lift_bind (serialize_command P c (service id)) _ λ x e.
      Keeps-lift_bind (serialize_message P t m) _
        λ y d. on_put (x ++ y) (items.pair x t m y (items.command c (service id) x e) d)

  module _ (on_allocate : Keeps Inv allocate_request) where
    Keeps-start : (topic : Text) (request : P.Message) → Keeps Inv (start_request topic request)
    unfolding start_request
    Keeps-start topic request = Keeps-bind allocate_request _ on_allocate λ ids.
        Keeps-bind (send_pair (codes "__request") (int (pos ids.0)) topic request) _
          (Keeps-send_pair _ _ topic request) λ _. Keeps-pure (some ids.1)

    pub Keeps-begin :
        (topic : Text) (request : P.Message) → Keeps Inv (begin_service_request topic request)
    unfolding begin_service_request
    Keeps-begin topic request = record {
      at = λ s h. elim (Option-cases s.queue) [
        | inl e ↦ rw (e, begin_service_request) h
        | inr (q, e) ↦ rw (e, begin_service_request) ((Keeps-start topic request).at s h)
      ];
    }

  module _ (on_slot : (n : ℕ) (m : P.Message) → Keeps Inv (store_slot n m))
      (on_register : (t : Text) → Keeps Inv (get_or_register_topic_id t)) where
    pub Keeps-announce : (topic : Text) (n : ℕ) (new : Bool) → Keeps Inv (announce topic n new)
    unfolding announce
    Keeps-announce topic n true = Keeps-send_command _ _
    Keeps-announce topic n false = Keeps-pure tt

    pub Keeps-deliver :
        (topic : Text) (n : ℕ) (message : P.Message) → Keeps Inv (deliver topic n message)
    unfolding deliver
    Keeps-deliver topic n message =
        Keeps-if (contains_any topic stream_tokens) _ _ (on_slot n message) (
          Keeps-lift_bind (serialize_message_with_topic_id P n message) put_queue
            λ b e. on_put b (items.framed n message b e))

    Keeps-forward : (topic : Text) (message : P.Message) → Keeps Inv (forward topic message)
    unfolding forward
    Keeps-forward topic message =
        Keeps-bind (get_or_register_topic_id topic) _ (on_register topic) λ found.
          Keeps-bind (announce topic found.0 found.1) _ (Keeps-announce topic found.0 found.1)
            λ _. Keeps-deliver topic found.0 message

    pub Keeps-send_unity_message :
        (topic : Text) (message : P.Message) → Keeps Inv (send_unity_message topic message)
    unfolding send_unity_message
    Keeps-send_unity_message topic message =
        Keeps-when_connected Inv (forward topic message) (Keeps-forward topic message)
