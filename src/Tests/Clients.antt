-- ===== src/Tests/Clients.antt =====
-- Client threads.
use ros_tcp_endpoint.Prelude.{
  ℕ, ◌≡◌, ◌≢◌, ◌+◌, refl, Bool, false, [], ◌∷◌, Bytes, codes, none, some, arith,
}
use ros_tcp_endpoint.Prelude.Dict.{Text_eq, ℕ_eq, get}
use ros_tcp_endpoint.Prelude.Result.{ok, key_error, attribute_error}
use ros_tcp_endpoint.Struct.{le_bytes, of_le, unpack_i32, pack_unsigned, pack_i32}
use ros_tcp_endpoint.Utf8.{decode, encode, encode_char}
use ros_tcp_endpoint.Text.{starts_with, rstrip_nul}
use ros_tcp_endpoint.Socket.{Conn, stream, join_chunks, recv_into}
use ros_tcp_endpoint.Pauser.{asleep}
use ros_tcp_endpoint.Ros.Nodes.{RosPublisher, RosService, publish}
use ros_tcp_endpoint.Client.Recv.{read_message, recvall, recv_loop, read_int32}
use ros_tcp_endpoint.Socket.Chunks.{IsLive}
use ros_tcp_endpoint.Client.Serialize.{serialize_message, serialize_message_with_topic_id}
use ros_tcp_endpoint.Client.Dispatch.{handle_message, run_loop, raised, exhausted}
use ros_tcp_endpoint.Client.Dispatch.Wedge.{topic_id_frame_ends}
use ros_tcp_endpoint.Client.Dispatch.Protocol.{unknown_response}
use ros_tcp_endpoint.Client.Dispatch.Loop.{run_loop-ends}
use ros_tcp_endpoint.Client.Dispatch.Deliver.{published_frame}
use ros_tcp_endpoint.Server.{TcpServer}
use ros_tcp_endpoint.Tests.Demo.{demo, waiting, server}

abbrev running : ℕ → Bool
running _ = false

-- A frame for "a", and what is left when it was read.
abbrev conn : Conn
conn = record { chunks = (1 ∷ 0 ∷ 0 ∷ 0 ∷ 97 ∷ 2 ∷ 0 ∷ 0 ∷ 0 ∷ 7 ∷ 8 ∷ []) ∷ []; reset = false }

abbrev over : Conn
over = record { chunks = []; reset = false }

abbrev chat : RosPublisher demo
chat = record { node_name = codes "chat_RosPublisher"; msg = 7; pub_handle = some 3 }

abbrev pub adder : RosService demo
adder = record { node_name = codes "add_RosService"; srv_class = 7; client = some 4 }

abbrev with_chat : TcpServer demo
with_chat = record server { publishers_table = (codes "chat", chat) ∷ [] }

abbrev pub with_adder : TcpServer demo
with_adder = record server { ros_services_table = (codes "add", adder) ∷ [] }

abbrev with_waiting : TcpServer demo
with_waiting = record server {
  sender = record waiting { pausers = λ _. record { result = none; sleeper = asleep } };
}

-- "{}"
abbrev pub braces : Bytes
braces = 123 ∷ 125 ∷ []

abbrev with_a : TcpServer demo
with_a = record server { publishers_table = (codes "a", chat) ∷ [] }

abbrev a_frame : Bytes
a_frame = 1 ∷ 0 ∷ 0 ∷ 0 ∷ 97 ∷ 2 ∷ 0 ∷ 0 ∷ 0 ∷ 7 ∷ 8 ∷ []

published_frame_example :
    (conn' : Conn) × IsLive conn'
    × (stream conn' ≡ [])
    × (run_loop 20 running conn with_a
        ≡ run_loop 19
            (λ n. running (n + 1))
            conn'
            (record with_a { node = record with_a.node { calls = publish 3 (7 ∷ 8 ∷ []) ∷ [] } }))
unfolding encode encode_char serialize_message pack_unsigned le_bytes join_chunks starts_with get
    rstrip_nul
published_frame_example =
    published_frame with_a 19 3 running conn (codes "a") (7 ∷ 8 ∷ []) (7 ∷ 8 ∷ []) (97 ∷ [])
      (7 ∷ 8 ∷ []) a_frame [] chat refl refl refl (omega arith) refl refl (λ e. cc) refl refl refl
      refl (λ e. cc, tt) refl

unknown_response_example :
    ((handle_message (codes "__response") braces server).0 ≡ ok tt)
    × (run_loop 20 running conn (handle_message (codes "__response") braces server).1
        ≡ (raised key_error, (handle_message (codes "__response") braces server).1))
unfolding read_message recvall recv_loop read_int32 recv_into of_le unpack_i32 decode rstrip_nul get
unknown_response_example =
    unknown_response server (codes "{}") braces 1001 refl refl refl 19 running conn over (codes "a")
      (7 ∷ 8 ∷ []) refl refl refl

abbrev id_frame : Bytes
id_frame = 255 ∷ 255 ∷ 255 ∷ 255 ∷ 5 ∷ 0 ∷ 1 ∷ 0 ∷ 0 ∷ 0 ∷ 9 ∷ []

topic_id_frame_ends_example :
    run_loop 20 running (record { chunks = id_frame ∷ []; reset = false }) server
    ≡ (raised attribute_error, server)
unfolding serialize_message_with_topic_id pack_i32 pack_unsigned le_bytes join_chunks
topic_id_frame_ends_example =
    topic_id_frame_ends server 19 5 running (record { chunks = id_frame ∷ []; reset = false })
      (9 ∷ []) (9 ∷ []) id_frame [] refl refl refl refl (λ e. cc, tt) refl

run_loop-ends_example :
    ((run_loop 12 running conn with_chat).0 ≢ exhausted)
    × (run_loop (5 + 12) running conn with_chat ≡ run_loop 12 running conn with_chat)
unfolding join_chunks
run_loop-ends_example = run_loop-ends 5 12 running conn with_chat (λ e. cc, tt) (omega arith)
