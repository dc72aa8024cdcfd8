-- ===== src/Sender/Mapping.antt =====
-- tcp_sender.py: what one connection is told about the topics' numbers, where messages and rounds of
-- the sender thread do not overlap.
pub mod Told
pub mod Numbers
pub mod Ordered
pub mod Order
use mathlib.Core.List.{Mem}
use ros_tcp_endpoint.Prelude.{
  ℕ, ◌+◌, ◌*◌, ◌≡◌, Bool, ◌&&◌, List, [], ◌∷◌, ◌++◌, Bytes, Text, codes, Option, none, some, ◌==◌,
  if◌then◌else◌,
}
use ros_tcp_endpoint.Prelude.Dict.{Dict, Text_eq, get}
use ros_tcp_endpoint.Prelude.Result.{ok}
use ros_tcp_endpoint.Platform.{Platform}
use ros_tcp_endpoint.Client.Serialize.{serialize_command, topic_map}
use ros_tcp_endpoint.Sender.{Sender, put_queue}
use ros_tcp_endpoint.Sender.Send.{send_unity_message}
use ros_tcp_endpoint.Sender.Loop.{batch, drain}

-- The number in the head of a frame, if the item is a frame with a topic's number.
abbrev pub frame_number : Bytes → Option ℕ
frame_number (a ∷ b ∷ c ∷ d ∷ low ∷ high ∷ rest) =
    if (a == 255 && b == 255) && (c == 255 && d == 255) then some (low + 256 * high) else none
frame_number _ = none

module _ (P : Platform) where
  -- Among the items is the mapping that gives the number to a topic which has it.
  pub record IsMapped (topics : Dict Text ℕ) (n : ℕ) (items : List Bytes) : Type 0 where
    pub topic : Text
    pub mapping : Bytes
    pub numbered : get topics topic ≡ some n
    pub serialized : serialize_command P (codes "__topic_map") (topic_map topic n) ≡ ok mapping
    pub told : Mem mapping items

  -- Each frame among the items stands behind the mapping of its topic; `seen` came before.
  abbrev pub AllTold : Dict Text ℕ → List Bytes → List Bytes → Type 0
  AllTold topics seen [] = Unit {0}
  AllTold topics seen (x ∷ items) =
      ((n : ℕ) → frame_number x ≡ some n → IsMapped topics n seen)
      × AllTold topics (seen ++ x ∷ []) items

-- The sender, and the items that the sender thread of the connection has sent.
pub record Connection (P : Platform) : Type 0 where
  pub sender : Sender P
  pub sent : List Bytes

module _ {P : Platform} (tid : ℕ) where
  -- A message is sent to Unity, an item that is no frame is put into the queue, or the sender
  -- thread has a round.
  pub data Step (c : Connection P) : Connection P → Type 0 where
    message :
        (topic : Text) (m : P.Message)
        → Step c (record c { sender = (send_unity_message topic m c.sender).1 })
    puts :
        (item : Bytes)
        → frame_number item ≡ none
        → Step c (record c { sender = (put_queue item c.sender).1 })
    round : Step c (record { sender = drain tid c.sender; sent = c.sent ++ batch tid c.sender })

  pub data Reach (c : Connection P) : Connection P → Type 0 where
    here : Reach c c
    next : {d e : Connection P} → Reach c d → Step d e → Reach c e
