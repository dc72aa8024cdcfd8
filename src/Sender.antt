-- ===== src/Sender.antt =====
-- tcp_sender.py: the state of `UnityTcpSender` and the methods that do not send.
pub mod Send
pub mod Loop
pub mod Parts
pub mod Registry
pub mod Streams
pub mod Reconnect
pub mod Service
pub mod Wakeup
pub mod Correlation
pub mod Threads
pub mod Framing
pub mod Mapping
pub mod Names
use ros_tcp_endpoint.Prelude.{
  ℕ, zero, suc, ◌+◌, Bool, true, false, List, [], ◌∷◌, ◌++◌, Bytes, Text, codes, Option, none, some,
  ◌==◌, if◌then◌else◌,
}
use ros_tcp_endpoint.Prelude.Dict.{Dict, Text_eq, get, put}
use ros_tcp_endpoint.Prelude.Result.{Result, ok, err, attribute_error}
use ros_tcp_endpoint.Prelude.Exec.{Exec, pure, raise, gets, modify, ◌>>=◌, ◌>>◌}
use ros_tcp_endpoint.Platform.{Platform}
use ros_tcp_endpoint.Pauser
use ros_tcp_endpoint.Pauser.{Pauser}
use ros_tcp_endpoint.ZeroCopy.{ZeroCopyBuffer, new_buffer}

-- Each sender thread makes one queue, named by the thread's number `tid`: `queue` is the active
-- one. `ThreadPauser` objects are named in the order in which they are made. The locks guard
-- sections that are single steps here.
pub record Sender (P : Platform) : Type 0 where
  pub sender_id : ℕ
  pub queue : Option ℕ
  pub queues : ℕ → List Bytes
  pub next_srv_id : ℕ
  pub services_waiting : Dict ℕ ℕ
  pub pausers : ℕ → Pauser
  pub next_pauser : ℕ
  pub topic_to_id : Dict Text ℕ
  pub next_topic_id : ℕ
  pub stream_slots : Dict ℕ P.Message
  pub stream_event : Bool
  pub zero_copy_buffer : ZeroCopyBuffer
  pub use_zero_copy : Bool

-- The queues or the pausers with the one of number `at` replaced.
abbrev pub update {ℓ} : {Item : Type ℓ} → (ℕ → Item) → ℕ → Item → ℕ → Item
update items at item n = if at == n then item else items n

-- UnityTcpSender(tcp_server, zero_copy_buffer_size, zero_copy_threshold)
unfoldable pub new_sender : (P : Platform) → ℕ → ℕ → Sender P
new_sender P zero_copy_buffer_size zero_copy_threshold = record {
  sender_id = 1;
  queue = none;
  queues = λ _. [];
  next_srv_id = 1001;
  services_waiting = [];
  pausers = λ _. Pauser.new;
  next_pauser = 0;
  topic_to_id = [];
  next_topic_id = 1;
  stream_slots = [];
  stream_event = false;
  zero_copy_buffer = new_buffer zero_copy_buffer_size zero_copy_threshold;
  use_zero_copy = false;
}

module _ {P : Platform} where
  -- It only warns.
  unfoldable pub enable_zero_copy : Bool → Exec (Sender P) Bool
  enable_zero_copy enable = pure false

  -- The topic's number, and whether it is new.
  unfoldable pub get_or_register_topic_id : Text → Exec (Sender P) (ℕ × Bool)
  get_or_register_topic_id topic s = elim (get s.topic_to_id topic) [
    | some topic_id ↦ (ok (topic_id, false), s)
    | none ↦ (
      ok (s.next_topic_id, true),
      record s {
        next_topic_id = s.next_topic_id + 1;
        topic_to_id = put s.topic_to_id topic s.next_topic_id;
      },
    )
  ]

  -- self.queue.put(item)
  unfoldable pub put_queue : Bytes → Exec (Sender P) (Unit {0})
  put_queue item s = elim s.queue [
    | none ↦ (err attribute_error, s)
    | some q ↦ (ok tt, record s { queues = update s.queues q (s.queues q ++ item ∷ []) })
  ]
