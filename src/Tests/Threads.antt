-- ===== src/Tests/Threads.antt =====
-- Callbacks and the sender thread.
use ros_tcp_endpoint.Prelude.{
  ℕ, zero, suc, ◌≡◌, refl, true, [], ◌∷◌, ◌++◌, Bytes, Text, codes, some, arith,
}
use ros_tcp_endpoint.Prelude.Dict.{Text_eq, get}
use ros_tcp_endpoint.Prelude.Result.{attribute_error}
use ros_tcp_endpoint.Struct.{le_bytes, pack_unsigned, pack_i32}
use ros_tcp_endpoint.Utf8.{encode, encode_char}
use ros_tcp_endpoint.Text.{contains_any}
use ros_tcp_endpoint.Client.Serialize.{serialize_command, serialize_message_with_topic_id}
use ros_tcp_endpoint.Sender.{update}
use ros_tcp_endpoint.Sender.Threads.{
  Callback, called, returned, raised, waiting, frame, Threads, step_callback, step_loop, Reach,
}
use ros_tcp_endpoint.Sender.Threads.Runs.{state}
use ros_tcp_endpoint.Sender.Threads.Lost.{mapping_lost}
use ros_tcp_endpoint.Sender.Threads.Races.{frame_before_mapping, frame_overtakes}
use ros_tcp_endpoint.Tests.Demo.{demo, connected}
use ros_tcp_endpoint.Tests.Sending.{hello, mapping}

-- Two callbacks of topics that are new.
abbrev both : Text → ℕ → Callback demo
both topic zero = called topic (9 ∷ [])
both topic (suc zero) = called topic (8 ∷ [])
both topic (suc (suc i)) = returned

-- The frame of topic number 1 with a message of one byte.
abbrev framed : ℕ → Bytes
framed b = 255 ∷ 255 ∷ 255 ∷ 255 ∷ 1 ∷ 0 ∷ 1 ∷ 0 ∷ 0 ∷ 0 ∷ b ∷ []

abbrev greeted : Threads demo
greeted =
    state (record connected { queues = update connected.queues 1 (hello ∷ []) })
      (both (codes "/chat")) waiting []

-- The sender thread takes an item, and a callback puts the mapping of its topic.
abbrev turned : Threads demo
turned =
    step_callback 0
      (step_callback 0 (step_callback 0 (step_loop 1 true (step_loop 1 true greeted))))

frame_before_mapping_example :
    (u : Threads demo) × Reach 1 (state connected (both (codes "/cam/image")) waiting []) u
    × (u.callbacks 0 ≡ returned)
    × (u.written ≡ [] ++ frame (framed 9) ∷ [])
    × (u.sender.queues 1 ≡ mapping ∷ [])
unfolding get contains_any serialize_command encode encode_char pack_unsigned pack_i32 le_bytes
    serialize_message_with_topic_id
frame_before_mapping_example =
    frame_before_mapping 1 connected (codes "/cam/image") mapping refl refl refl refl (9 ∷ []) refl
      refl (framed 9) refl (both (codes "/cam/image")) [] 0 refl

frame_overtakes_example :
    (u : Threads demo) × Reach 1 (state connected (both (codes "/chat")) waiting []) u
    × (u.callbacks 0 ≡ returned)
    × (u.callbacks 1 ≡ returned)
    × (u.sender.queues 1 ≡ framed 8 ∷ mapping ∷ framed 9 ∷ [])
unfolding get contains_any serialize_command encode encode_char pack_unsigned pack_i32 le_bytes
    serialize_message_with_topic_id
frame_overtakes_example =
    frame_overtakes 1 connected (codes "/chat") mapping refl refl refl refl (9 ∷ []) (8 ∷ []) refl
      (framed 9) (framed 8) refl refl (both (codes "/chat")) [] 0 1 (omega arith) refl refl

mapping_lost_example :
    (u : Threads demo) × Reach 1 (state connected (both (codes "/chat")) waiting []) u
    × (u.callbacks 0 ≡ raised attribute_error)
    × (get u.sender.topic_to_id (codes "/chat") ≡ some 1)
    × (u.sender.queues 1 ≡ [])
unfolding get contains_any serialize_command encode encode_char pack_unsigned pack_i32 le_bytes
mapping_lost_example =
    mapping_lost 1 connected (codes "/chat") mapping refl refl refl refl (9 ∷ [])
      (both (codes "/chat")) waiting [] 0 refl
