-- ===== src/Tests/Frames.antt =====
-- Frames.
use ros_tcp_endpoint.Prelude.{◌≡◌, refl, true, false, [], ◌∷◌, Bytes, codes, arith, length, ◌++◌}
use ros_tcp_endpoint.Prelude.Result.{err, io_error}
use ros_tcp_endpoint.Socket.{Conn, join_chunks}
use ros_tcp_endpoint.Struct.{le_bytes, pack_unsigned, pack_i32}
use ros_tcp_endpoint.Utf8.{encode, encode_char, decode}
use ros_tcp_endpoint.Text.{rstrip_nul}
use ros_tcp_endpoint.Client.Recv.{read_message, read_string, topic_id_destination}
use ros_tcp_endpoint.Client.Recv.Stream.{Reads}
use ros_tcp_endpoint.Client.Recv.Chunking.{SameRun, read_message-chunking, read_string-chunking}
use ros_tcp_endpoint.Client.Recv.Cut.{read_message-cut}
use ros_tcp_endpoint.Client.Serialize.{serialize_message, serialize_message_with_topic_id}
use ros_tcp_endpoint.Client.RoundTrip.{
  read_message-serialize_message, read_message-serialize_message_with_topic_id,
}
use ros_tcp_endpoint.Sender.Framing.{IsFramed, empty, named, numbered, named_frame, numbered_frame}
use ros_tcp_endpoint.Sender.Framing.Reads.{read_messages, messages, read_messages-IsFramed}
use ros_tcp_endpoint.Tests.Demo.{demo}

abbrev frame : Bytes
frame = 1 ∷ 0 ∷ 0 ∷ 0 ∷ 97 ∷ 2 ∷ 0 ∷ 0 ∷ 0 ∷ 7 ∷ 8 ∷ []

-- The frame in three chunks, and in one.
abbrev cut_up : Conn
cut_up = record {
  chunks = (1 ∷ 0 ∷ []) ∷ (0 ∷ 0 ∷ 97 ∷ 2 ∷ []) ∷ (0 ∷ 0 ∷ 0 ∷ 7 ∷ 8 ∷ []) ∷ [];
  reset = false;
}

abbrev whole : Conn
whole = record { chunks = frame ∷ []; reset = true }

-- The frame without its last byte.
abbrev broken : Conn
broken = record {
  chunks = (1 ∷ 0 ∷ []) ∷ (0 ∷ 0 ∷ 97 ∷ 2 ∷ []) ∷ (0 ∷ 0 ∷ 0 ∷ 7 ∷ []) ∷ [];
  reset = false;
}

abbrev id_frame : Bytes
id_frame = 255 ∷ 255 ∷ 255 ∷ 255 ∷ 5 ∷ 0 ∷ 1 ∷ 0 ∷ 0 ∷ 0 ∷ 9 ∷ []

read_message-serialize_message_example :
    Reads (read_message cut_up) (rstrip_nul (codes "a"), 7 ∷ 8 ∷ []) []
unfolding encode encode_char serialize_message pack_unsigned le_bytes join_chunks
read_message-serialize_message_example =
    read_message-serialize_message demo (codes "a") (7 ∷ 8 ∷ []) (97 ∷ []) (7 ∷ 8 ∷ []) frame []
      cut_up refl (omega arith) refl refl (λ e. cc, (λ e. cc, (λ e. cc, tt))) refl

read_message-serialize_message_with_topic_id_example :
    Reads
      (read_message (record { chunks = id_frame ∷ []; reset = false }))
      (topic_id_destination 5, 9 ∷ [])
      []
unfolding serialize_message_with_topic_id pack_i32 pack_unsigned le_bytes join_chunks
read_message-serialize_message_with_topic_id_example =
    read_message-serialize_message_with_topic_id demo 5 (9 ∷ []) (9 ∷ []) id_frame []
      (record { chunks = id_frame ∷ []; reset = false }) refl refl (λ e. cc, tt) refl

read_message-chunking_example : SameRun (read_message cut_up) (read_message whole)
unfolding join_chunks
read_message-chunking_example =
    read_message-chunking cut_up whole (λ e. cc, (λ e. cc, (λ e. cc, tt))) (λ e. cc, tt) refl

read_string-chunking_example : SameRun (read_string cut_up) (read_string whole)
unfolding join_chunks
read_string-chunking_example =
    read_string-chunking cut_up whole (λ e. cc, (λ e. cc, (λ e. cc, tt))) (λ e. cc, tt) refl

read_message-cut_example : read_message broken ≡ err io_error
unfolding join_chunks le_bytes decode
read_message-cut_example =
    read_message-cut (97 ∷ []) (codes "a") (7 ∷ 8 ∷ []) (8 ∷ []) broken (omega arith) (omega arith)
      refl (λ e. cc, (λ e. cc, (λ e. cc, tt))) (omega arith) refl

-- A frame with a name and one with a number, one behind the other and cut up otherwise.
abbrev two_frames : Bytes
two_frames = named_frame (97 ∷ []) (7 ∷ 8 ∷ []) ++ (numbered_frame 5 (9 ∷ []) ++ [])

abbrev two_framed : IsFramed two_frames
unfolding encode encode_char
two_framed =
    named (codes "a") (97 ∷ []) (7 ∷ 8 ∷ []) refl (omega arith) (omega arith)
      (numbered 5 (9 ∷ []) (omega arith) (omega arith) empty)

abbrev two_cut_up : Conn
two_cut_up = record {
  chunks =
      (1 ∷ 0 ∷ [])
      ∷ (0 ∷ 0 ∷ 97 ∷ 2 ∷ 0 ∷ 0 ∷ 0 ∷ 7 ∷ 8 ∷ 255 ∷ 255 ∷ [])
      ∷ (255 ∷ 255 ∷ 5 ∷ 0 ∷ 1 ∷ 0 ∷ 0 ∷ 0 ∷ 9 ∷ 4 ∷ [])
      ∷ [];
  reset = false;
}

read_messages-IsFramed_example :
    Reads (read_messages (length (messages two_framed)) two_cut_up) (messages two_framed) (4 ∷ [])
unfolding le_bytes join_chunks two_framed
read_messages-IsFramed_example =
    read_messages-IsFramed two_framed (4 ∷ []) two_cut_up (omega arith, tt)
      (λ e. cc, (λ e. cc, (λ e. cc, tt))) refl
