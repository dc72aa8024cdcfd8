-- ===== src/Sender/Registry.antt =====
-- The numbers that `get_or_register_topic_id` gives to topics.
use ros_tcp_endpoint.Prelude.{
  ℕ, ◌+◌, ◌<◌, ◌≡◌, Bool, false, Bytes, Text, some, text_eq, text_eq_iff, arith, Option-cases, inl,
  inr, if◌then◌else◌,
}
use ros_tcp_endpoint.Prelude.Dict.{Dict, Text_eq, get, put, get-put, get-put_self}
use ros_tcp_endpoint.Prelude.Result.{ok}
use ros_tcp_endpoint.Sender.Parts.{Any, any_items, Keeps-send_unity_message}
use ros_tcp_endpoint.Platform.{Platform}
use ros_tcp_endpoint.Sender.{Sender, get_or_register_topic_id, put_queue}
use ros_tcp_endpoint.Prelude.Keeps.{Keeps}
use ros_tcp_endpoint.Sender.Send.{send_unity_message, store_slot}

-- No number is given twice, and the next one is free.
pub record IsRegistry (topic_to_id : Dict Text ℕ) (next_topic_id : ℕ) : Type 0 where
  pub below : (t : Text) (n : ℕ) → get topic_to_id t ≡ some n → n < next_topic_id
  pub distinct :
      (t u : Text) (n : ℕ) → get topic_to_id t ≡ some n → get topic_to_id u ≡ some n → t ≡ u

abbrev pub HasRegistry : {P : Platform} → Sender P → Type 0
HasRegistry s = IsRegistry s.topic_to_id s.next_topic_id

IsRegistry-put :
    (d : Dict Text ℕ) (next : ℕ) (t : Text)
    → IsRegistry d next
    → IsRegistry (put d t next) (next + 1)
IsRegistry-put d next t r = record {
  below = λ u n h. ground (arith, get-put d t u next, r.below u n);
  distinct = λ u v n h k. ground (
    arith,
    get-put d t u next,
    get-put d t v next,
    text_eq_iff t u,
    text_eq_iff t v,
    r.below u n,
    r.below v n,
    r.distinct u v n,
  );
}

module _ {P : Platform} (topic : Text) (s : Sender P) where
  pub get_or_register-HasRegistry : HasRegistry s → HasRegistry (get_or_register_topic_id topic s).1
  unfolding get_or_register_topic_id
  get_or_register-HasRegistry r = elim (Option-cases (get s.topic_to_id topic)) [
    | inl e ↦
        rw (e, get_or_register_topic_id) (IsRegistry-put s.topic_to_id s.next_topic_id topic r)
    | inr (n, e) ↦ rw (e, get_or_register_topic_id) r
  ]

  -- When `get_or_register_topic_id` returns a number, the topic has that number, every other topic
  -- has the one that it had, and a second call returns the same number as an old one and changes
  -- nothing.
  get_or_register_topic_id_lem :
      (n : ℕ) (new : Bool)
      → (get_or_register_topic_id topic s).0 ≡ ok (n, new)
      → (get (get_or_register_topic_id topic s).1.topic_to_id topic ≡ some n)
        × ((u : Text)
            → get (get_or_register_topic_id topic s).1.topic_to_id u
              ≡ (if text_eq topic u then some n else get s.topic_to_id u))
        × (get_or_register_topic_id topic (get_or_register_topic_id topic s).1
            ≡ (ok (n, false), (get_or_register_topic_id topic s).1))
  unfolding get_or_register_topic_id
  get_or_register_topic_id_lem n new h = (
    ground (arith, get-put_self s.topic_to_id topic s.next_topic_id),
    λ u. ground (arith, get-put s.topic_to_id topic u s.next_topic_id, text_eq_iff topic u),
    ground (arith, get-put_self s.topic_to_id topic s.next_topic_id),
  )

module _ {P : Platform} where
  pub Keeps-get_or_register :
      (topic : Text) → Keeps {S = Sender P} HasRegistry (get_or_register_topic_id topic)
  Keeps-get_or_register topic = record { at = λ s h. get_or_register-HasRegistry topic s h }

  pub Keeps-put_queue : (item : Bytes) → Keeps {S = Sender P} HasRegistry (put_queue item)
  unfolding put_queue
  Keeps-put_queue item = record {
    at = λ s h. elim (Option-cases s.queue) [
      | inl e ↦ rw (e, put_queue) h
      | inr (q, e) ↦ rw (e, put_queue) h
    ];
  }

  pub Keeps-store_slot :
      (n : ℕ) (message : P.Message) → Keeps {S = Sender P} HasRegistry (store_slot n message)
  unfolding store_slot
  Keeps-store_slot n message = record { at = λ s h. h }

  -- `send_unity_message`, on every path, exceptions included, keeps the topics' numbers distinct
  -- and below the next number to give.
  send_unity_message-HasRegistry :
      (topic : Text) (message : P.Message) (s : Sender P)
      → HasRegistry s
      → HasRegistry (send_unity_message topic message s).1
  send_unity_message-HasRegistry topic message s h =
      (Keeps-send_unity_message HasRegistry Any (any_items P) (λ b _. Keeps-put_queue b)
          Keeps-store_slot Keeps-get_or_register topic message).at
        s h
