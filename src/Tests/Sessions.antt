-- ===== src/Tests/Sessions.antt =====
-- What clients do in several messages, and what a round writes.
use ros_tcp_endpoint.Prelude.{
  ◌≡◌, refl, false, true, [], ◌∷◌, ◌++◌, Bytes, codes, none, some, arith, ℕ, if◌then◌else◌, ◌==◌,
}
use ros_tcp_endpoint.Prelude.Dict.{get}
use ros_tcp_endpoint.Prelude.Result.{ok}
use ros_tcp_endpoint.Platform.{Platform}
use ros_tcp_endpoint.Struct.{le_bytes, pack_unsigned, pack_i32}
use ros_tcp_endpoint.Struct.Int.{pos}
use ros_tcp_endpoint.Utf8.{encode, encode_char, decode}
use ros_tcp_endpoint.Text.{starts_with}
use ros_tcp_endpoint.Ros.Qos.{publisher_qos}
use ros_tcp_endpoint.Ros.Nodes.{create_publisher, publish}
use ros_tcp_endpoint.Ros.Nodes.Retry.{Attempt, answer, answered, unavailable}
use ros_tcp_endpoint.Client.Serialize.{
  serialize_command, serialize_message, serialize_message_with_topic_id,
}
use ros_tcp_endpoint.Client.Dispatch.{handle_message, service_call_thread}
use ros_tcp_endpoint.Client.Dispatch.Session.{asked, topic_params, service_reply, publish_session}
use ros_tcp_endpoint.Client.Dispatch.Interleaved.{
  unknown_service, unknown_topic, interleaved_request,
}
use ros_tcp_endpoint.Sender.{Sender, update, put_queue, new_sender}
use ros_tcp_endpoint.Sender.Send
use ros_tcp_endpoint.Sender.Loop.{Link, broken, join, batch}
use ros_tcp_endpoint.Sender.Framing.{IsFramed}
use ros_tcp_endpoint.Server.{TcpServer, new_server, subscriber_send}
use ros_tcp_endpoint.Server.Resolve.{resolve_message_name}
use ros_tcp_endpoint.System.Framed.{WroteBatch, sender_round-IsFramed}
use ros_tcp_endpoint.Tests.Demo.{demo, server, connected}
use ros_tcp_endpoint.Client.Dispatch.Forwarded.{subscribe_session}
use ros_tcp_endpoint.Ros.Throttle.{throttle_interval}
use ros_tcp_endpoint.Text.{contains_any}
use ros_tcp_endpoint.Tests.Sending.{mapping, frame}
use ros_tcp_endpoint.Tests.Clients.{adder, with_adder, braces}
use ros_tcp_endpoint.Tests.Systems.{calling, steps_called}

-- The service answers the second attempt.
abbrev second_answers : ℕ → Attempt Bytes
second_answers n = if n == 1 then answered (5 ∷ []) else unavailable

abbrev response_header : Bytes
response_header = 10 ∷ 0 ∷ 0 ∷ 0 ∷ (codes "__response" ++ 4 ∷ 0 ∷ 0 ∷ 0 ∷ 233 ∷ 3 ∷ 0 ∷ 0 ∷ [])

abbrev reply : Bytes
reply = 3 ∷ 0 ∷ 0 ∷ 0 ∷ (codes "add" ++ 1 ∷ 0 ∷ 0 ∷ 0 ∷ 5 ∷ [])

service_reply_example :
    ((handle_message
        (codes "add")
        (7 ∷ [])
        (handle_message (codes "__request") braces with_adder).1).1.service_calls
      ≡ asked (pos 1001) (codes "add") (7 ∷ []) adder ∷ [])
    × (service_call_thread (asked (pos 1001) (codes "add") (7 ∷ []) adder) second_answers server ≡ (
      ok tt,
      record server {
        sender = record connected {
          queues = update connected.queues 1 ([] ++ (response_header ++ reply) ∷ []);
        };
      },
    ))
unfolding get decode serialize_command serialize_message encode encode_char pack_unsigned pack_i32
    le_bytes answer
service_reply_example =
    service_reply with_adder (codes "{}") braces (pos 1001) refl refl refl (codes "add") (7 ∷ [])
      adder (7 ∷ []) (5 ∷ []) second_answers response_header reply server 1 refl refl refl refl refl
      refl

-- A platform whose JSON is the parameters of a topic.
abbrev speaking : Platform
speaking = record demo { loads = λ t. ok (topic_params (codes "/a") (codes "std_msgs/String")) }

abbrev quiet : TcpServer speaking
quiet = new_server speaking 8 4 []

publish_session_example :
    ((handle_message (codes "__publish") braces quiet).0 ≡ ok tt)
    × (u : TcpServer speaking) × (handle_message
          (codes "/a")
          (7 ∷ [])
          (handle_message (codes "__publish") braces quiet).1
        ≡ (ok tt, u))
    × (u.node.calls
        ≡ create_publisher 0 7
            (codes "/a")
            (publisher_qos none (codes "/a") 10 false (codes "reliable") (codes "keep_last"))
          ∷ publish 0 (7 ∷ [])
          ∷ [])
unfolding new_server get decode starts_with resolve_message_name
publish_session_example =
    publish_session quiet (codes "{}") braces (codes "/a") (codes "std_msgs/String") refl refl refl
      7 (7 ∷ []) (7 ∷ []) [] refl refl (λ e. cc) refl refl refl

abbrev listening : TcpServer speaking
listening = record quiet { sender = record quiet.sender { queue = some 1 } }

subscribe_session_example :
    ((subscriber_send
        (codes "/a")
        5
        (9 ∷ [])
        (handle_message (codes "__subscribe") braces listening).1).0
      ≡ ok tt)
    × ((subscriber_send
            (codes "/a")
            5
            (9 ∷ [])
            (handle_message (codes "__subscribe") braces listening).1).1.sender.queues
          1
        ≡ [] ++ (mapping ∷ frame ∷ []))
unfolding new_server new_sender get decode resolve_message_name throttle_interval contains_any
    serialize_command serialize_message_with_topic_id encode encode_char pack_unsigned pack_i32
    le_bytes
subscribe_session_example =
    subscribe_session listening (codes "{}") braces (codes "/a") (codes "std_msgs/String") refl refl
      refl 7 (9 ∷ []) 5 1 mapping frame refl (λ e. cc) refl (omega arith) refl refl refl refl refl

abbrev after_one : Sender demo
after_one = (Send.send_unity_error (unknown_service server (codes "b")) connected).1

abbrev after_two : Sender demo
after_two = (Send.send_unity_error (unknown_topic server (codes "add")) after_one).1

interleaved_request_example :
    handle_message
      (codes "add")
      (7 ∷ [])
      (handle_message (codes "b") (8 ∷ []) (handle_message (codes "__request") braces server).1).1
    ≡ (
      ok tt,
      record server { pending_srv_id = none; pending_srv_is_request = true; sender = after_two },
    )
unfolding get decode starts_with Send.send_unity_error put_queue serialize_command encode
    encode_char pack_unsigned le_bytes
interleaved_request_example =
    interleaved_request server (codes "{}") braces (pos 1001) refl refl refl (codes "b") (8 ∷ [])
      (codes "add") (7 ∷ []) after_one after_two refl (λ e. cc) refl refl refl refl

abbrev first_link : Link
first_link = record { tid = 1; halted = false; sent = [] }

-- The socket breaks after five bytes of the handshake.
sender_round-IsFramed_example :
    IsFramed (join (batch 1 calling.sender)) × WroteBatch (broken 5) first_link calling.sender
sender_round-IsFramed_example = sender_round-IsFramed 8 4 [] steps_called (broken 5) first_link
