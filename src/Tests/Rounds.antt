-- ===== src/Tests/Rounds.antt =====
-- One connection: its rounds, and what it is told.
use ros_tcp_endpoint.Prelude.{ℕ, ◌≡◌, refl, [], ◌∷◌, ◌++◌, Bytes, Text, codes}
use ros_tcp_endpoint.Prelude.Dict.{Text_eq, ℕ_eq, get, put}
use ros_tcp_endpoint.Prelude.Result.{ok}
use ros_tcp_endpoint.Struct.{le_bytes, pack_unsigned, pack_i32}
use ros_tcp_endpoint.Utf8.{encode, encode_char}
use ros_tcp_endpoint.Text.{contains_any}
use ros_tcp_endpoint.Client.Serialize.{
  serialize_command, serialize_message_with_topic_id, topic_map,
}
use ros_tcp_endpoint.Sender.{put_queue}
use ros_tcp_endpoint.Sender.Send.{send_unity_message}
use ros_tcp_endpoint.Sender.Loop.{batch, drain, serialize_pending}
use ros_tcp_endpoint.Sender.Reconnect.{entered, enter_loop-ok}
use ros_tcp_endpoint.Sender.Mapping.{IsMapped, Connection, Reach, here, next, message, round}
use ros_tcp_endpoint.Sender.Mapping.Order.{frame_behind_mapping}
use ros_tcp_endpoint.Tests.Demo.{demo, connected}
use ros_tcp_endpoint.Tests.Sending
use ros_tcp_endpoint.Tests.Sending.{hello, mapping, greets}

always_mapped :
    (t : Text) (n : ℕ)
    → (b : Bytes) × (serialize_command demo (codes "__topic_map") (topic_map t n) ≡ ok b)
unfolding serialize_command encode encode_char pack_unsigned le_bytes
always_mapped t n = (mapping, refl)

abbrev begun : Connection demo
begun = record { sender = entered 2 hello connected; sent = [] }

-- One message of a new stream topic, and the round that sends it.
abbrev sent : Connection demo
sent = record begun { sender = (send_unity_message (codes "/cam/image") (9 ∷ []) begun.sender).1 }

abbrev told : Connection demo
told = record { sender = drain 2 sent.sender; sent = sent.sent ++ batch 2 sent.sender }

told_reached : Reach 2 begun told
told_reached = next (next here (message (codes "/cam/image") (9 ∷ []))) round

told_sent : told.sent ≡ (hello ∷ mapping ∷ []) ++ Sending.frame ∷ []
unfolding get contains_any batch serialize_pending serialize_command encode encode_char
    pack_unsigned pack_i32 le_bytes serialize_message_with_topic_id send_unity_message drain put
    put_queue
told_sent = refl

frame_behind_mapping_example : IsMapped demo told.sender.topic_to_id 1 (hello ∷ mapping ∷ [])
frame_behind_mapping_example =
    frame_behind_mapping demo 2 connected begun.sender told refl refl
      (enter_loop-ok 2 hello connected greets) told_reached (λ t n e. always_mapped t n)
      (hello ∷ mapping ∷ []) [] Sending.frame 1 told_sent refl
