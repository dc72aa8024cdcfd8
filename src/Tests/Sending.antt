-- ===== src/Tests/Sending.antt =====
-- Messages to Unity.
use ros_tcp_endpoint.Prelude.{◌≡◌, refl, false, [], ◌∷◌, ◌++◌, Bytes, codes, some, arith}
use ros_tcp_endpoint.Prelude.Dict.{ℕ_eq, Text_eq, get}
use ros_tcp_endpoint.Prelude.Result.{ok}
use ros_tcp_endpoint.Struct.{le_bytes, pack_unsigned, pack_i32}
use ros_tcp_endpoint.Utf8.{encode, encode_char}
use ros_tcp_endpoint.Text.{contains_any}
use ros_tcp_endpoint.Client.Serialize.{serialize_command, serialize_message_with_topic_id}
use ros_tcp_endpoint.Sender.Send.{send_unity_message}
use ros_tcp_endpoint.Sender.Loop.{
  complete, Link, sender_round, enter_loop, leave_loop, handshake_bytes,
}
use ros_tcp_endpoint.Sender.Streams.{send-send_stream}
use ros_tcp_endpoint.Sender.Reconnect.{entered, leave_loop-enter_loop, reconnect_without_mapping}
use ros_tcp_endpoint.Tests.Demo.{demo, numbered}

abbrev pub mapping : Bytes
mapping = 11 ∷ 0 ∷ 0 ∷ 0 ∷ (codes "__topic_map" ++ 2 ∷ 0 ∷ 0 ∷ 0 ∷ codes "{}")

abbrev pub hello : Bytes
hello = 11 ∷ 0 ∷ 0 ∷ 0 ∷ (codes "__handshake" ++ 2 ∷ 0 ∷ 0 ∷ 0 ∷ codes "{}")

abbrev pub frame : Bytes
frame = 255 ∷ 255 ∷ 255 ∷ 255 ∷ 1 ∷ 0 ∷ 1 ∷ 0 ∷ 0 ∷ 0 ∷ 9 ∷ []

abbrev old_link : Link
old_link = record { tid = 1; halted = false; sent = [] }

abbrev new_link : Link
new_link = record { tid = 2; halted = false; sent = [] }

send-send_stream_example :
    send_unity_message
      (codes "/cam/image")
      (8 ∷ [])
      (send_unity_message (codes "/cam/image") (9 ∷ []) numbered).1
    ≡ send_unity_message (codes "/cam/image") (8 ∷ []) numbered
unfolding get contains_any
send-send_stream_example =
    send-send_stream (codes "/cam/image") numbered 1 2 (9 ∷ []) (8 ∷ []) refl refl refl

pub greets : handshake_bytes demo ≡ ok hello
unfolding handshake_bytes serialize_command encode encode_char pack_unsigned le_bytes
greets = refl

leave_loop-enter_loop_example :
    ((leave_loop old_link (entered 2 hello numbered)).1.queue ≡ some 2)
    × ((leave_loop old_link (entered 2 hello numbered)).1.queues 2 ≡ hello ∷ [])
unfolding enter_loop handshake_bytes serialize_command encode encode_char pack_unsigned le_bytes
leave_loop-enter_loop_example =
    leave_loop-enter_loop numbered 2 hello greets old_link (entered 2 hello numbered) refl
      (omega arith)

reconnect_without_mapping_example :
    (sender_round complete new_link
      (send_unity_message (codes "/chat") (9 ∷ []) (entered 2 hello numbered)).1).0.0.sent
    ≡ [] ++ (hello ++ frame)
unfolding enter_loop handshake_bytes serialize_command encode encode_char pack_unsigned le_bytes get
    contains_any pack_i32 serialize_message_with_topic_id
reconnect_without_mapping_example =
    reconnect_without_mapping numbered 2 hello greets (codes "/chat") (9 ∷ []) 1 frame new_link
      (entered 2 hello numbered) refl refl refl refl refl refl
