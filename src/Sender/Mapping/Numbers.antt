-- ===== src/Sender/Mapping/Numbers.antt =====
-- What the methods of tcp_sender.py leave of a topic's number.
use ros_tcp_endpoint.Prelude.{
  ℕ, ◌+◌, ◌≡◌, subst, true, text_eq_iff, Bytes, Text, none, some, arith, Option-cases, inl, inr,
}
use ros_tcp_endpoint.Prelude.Dict.{Text_eq, get, put, get-put, get-put_self}
use ros_tcp_endpoint.Prelude.Keeps.{Keeps, Keeps-bind}
use ros_tcp_endpoint.Prelude.Exec.{◌>>=◌}
use ros_tcp_endpoint.Platform.{Platform}
use ros_tcp_endpoint.Sender.{Sender, put_queue, get_or_register_topic_id}
use ros_tcp_endpoint.Sender.Send.{send_unity_message, forward, announce, deliver, store_slot}
use ros_tcp_endpoint.Sender.Parts.{
  Any, any_items, Keeps-announce, Keeps-deliver, Keeps-send_unity_message,
}

-- The topic has the number.
pub record HasNumber {P : Platform} (t : Text) (n : ℕ) (s : Sender P) : Type 0 where
  pub number : get s.topic_to_id t ≡ some n

module _ {P : Platform} (t : Text) (n : ℕ) where
  abbrev Has : Sender P → Type 0
  Has = HasNumber t n

  Keeps-put : (item : Bytes) → Keeps {S = Sender P} Has (put_queue item)
  unfolding put_queue
  Keeps-put item = record {
    at = λ s h. elim (Option-cases s.queue) [
      | inl e ↦ rw (e, put_queue) h
      | inr (q, e) ↦ rw (e, put_queue) (record { number = h.number })
    ];
  }

  Keeps-slot : (k : ℕ) (m : P.Message) → Keeps {S = Sender P} Has (store_slot k m)
  unfolding store_slot
  Keeps-slot k m = record { at = λ s h. record { number = h.number } }

  Keeps-register : (u : Text) → Keeps {S = Sender P} Has (get_or_register_topic_id u)
  unfolding get_or_register_topic_id
  Keeps-register u = record {
    at = λ s h. record {
      number = ground (arith, h.number, get-put s.topic_to_id u t s.next_topic_id, text_eq_iff u t);
    };
  }

  pub send-keeps :
      (topic : Text) (m : P.Message) (s : Sender P)
      → get s.topic_to_id t ≡ some n
      → get (send_unity_message topic m s).1.topic_to_id t ≡ some n
  send-keeps topic m s e =
      ((Keeps-send_unity_message Has Any (any_items P) (λ b _. Keeps-put b) Keeps-slot
          Keeps-register topic m).at
        s (record { number = e })).number

  pub put-keeps :
      (item : Bytes) (s : Sender P)
      → get s.topic_to_id t ≡ some n
      → get (put_queue item s).1.topic_to_id t ≡ some n
  put-keeps item s e = ((Keeps-put item).at s (record { number = e })).number

  -- What follows once the topic has its number.
  rest-keeps :
      (m : P.Message) (s : Sender P)
      → get s.topic_to_id t ≡ some n
      → get (◌>>=◌ (announce t n true) (λ _. deliver t n m) s).1.topic_to_id t ≡ some n
  rest-keeps m s e =
      ((Keeps-bind (announce t n true) (λ _. deliver t n m)
          (Keeps-announce Has Any (any_items P) (λ b _. Keeps-put b) Keeps-slot Keeps-register t n
            true)
          λ _.
            Keeps-deliver Has Any (any_items P) (λ b _. Keeps-put b) Keeps-slot Keeps-register t n
              m).at
        s (record { number = e })).number

module _ {P : Platform} (t : Text) (m : P.Message) (s : Sender P) where
  abbrev registered : Sender P
  registered = record s {
    next_topic_id = s.next_topic_id + 1;
    topic_to_id = put s.topic_to_id t s.next_topic_id;
  }

  send_rest :
      (q : ℕ)
      → s.queue ≡ some q
      → get s.topic_to_id t ≡ none
      → (◌>>=◌ (announce t s.next_topic_id true) (λ _. deliver t s.next_topic_id m) registered).1
        ≡ (send_unity_message t m s).1
  unfolding send_unity_message forward get_or_register_topic_id
  send_rest q active new = ground arith

  -- A new topic has the next number, whatever becomes of its message.
  pub send-numbers :
      (q : ℕ)
      → s.queue ≡ some q
      → get s.topic_to_id t ≡ none
      → get (send_unity_message t m s).1.topic_to_id t ≡ some s.next_topic_id
  send-numbers q active new =
      subst (λ u. get u.topic_to_id t ≡ some s.next_topic_id) (send_rest q active new)
        (rest-keeps t s.next_topic_id m registered (get-put_self s.topic_to_id t s.next_topic_id))
